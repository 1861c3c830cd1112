-- ===== src/Canon/Absolute.antt =====
-- `canonicalize` of src/path/canon.c: its loop terminates, and its results are absolute.
use proot.Prelude.{
  ℕ, zero, suc, ◌<◌, ◌≡◌, ◌≢◌, refl, ap, sym, ◌∙◌, inl, inr, Bool, true, false, [], ◌∷◌, Option,
  none, some, length, ◌==◌, if◌then◌else◌, arith, Bool-cases, Result, ok, err, leb, Errno, eperm,
  enametoolong, ◌>>=◌,
}
use mathlib.Core.Path.{subst}
use proot.Path.{
  CString, slash, char_at, Finality, not_final, final_normal, final_slash, final_dot, is_final,
  join_step, join_from, join_paths, Comparison, path_max, compare_paths, streq, dot,
}
use proot.Canon.{
  Host, Round, next, return, Action, default, canonicalize_it, dont_canonicalize, failed, join,
  next_component, pop_component, round, enter, dereference, perform, read_referee, canon_referee,
  finish, canonicalize_loop, canonicalize_from, canonicalize, is_kept, slash_proc, continue,
  detranslate_path, substitute_binding_stat, read_target,
}
use proot.Canon.Component.{pop_component-absolute, next_component_lem}
use proot.Binding.{Bindings, is_cover}

-- What a round has done: the guest path that it leaves has the property, and it is the last round
-- exactly when its component was the last.
data Ensures (P : CString → Type 0) (f : Finality) : Result Round → Type 0 where
  fails : (e : Errno) → Ensures P f (err e)
  goes_on :
      (g : CString) (f' : Finality) → P g → is_final f' ≡ is_final f → Ensures P f (ok (next g f'))
  returns : (g : CString) → P g → Ensures P f (ok (return g))

module _ {P : CString → Type 0} {f : Finality} where
  Ensures-bind :
      {A : Type 0} (m : Result A) (k : A → Result Round)
      → ((a : A) → m ≡ ok a → Ensures P f (k a))
      → Ensures P f (m >>= k)
  Ensures-bind (err e) k h = fails e
  Ensures-bind (ok a) k h = h a refl

  Ensures-if :
      (b : Bool) (m n : Result Round)
      → Ensures P f m
      → Ensures P f n
      → Ensures P f (if b then m else n)
  Ensures-if true m n hm hn = hm
  Ensures-if false m n hm hn = hn

-- A property of guest paths that every way to a new one keeps.
record IsClosed (h : Host) (rec : CString → CString → Result CString) (P : CString → Type 0)
    : Type 0 where
  joins : (g c x : CString) → P g → join g c ≡ ok x → P x
  pops : (g x : CString) → P g → pop_component g ≡ ok x → P x
  recurs : (u g x : CString) → P g → rec u g ≡ ok x → P x
  proc_links :
      (g c x : CString) (k : Comparison) → P g → h.readlink_proc g c k ≡ dont_canonicalize x → P x

module _ (h : Host) (bs : Bindings) (rec : CString → CString → Result CString) (level : ℕ)
    (P : CString → Type 0) (closed : IsClosed h rec P) where
  canon_referee-Ensures :
      (s g : CString) (f : Finality) → P g → Ensures P f (canon_referee h bs rec level s g f)
  unfolding canon_referee
  canon_referee-Ensures s g f p = Ensures-bind (rec s g) _ (λ x e.
      Ensures-bind (substitute_binding_stat h bs f level x) _
        (λ _ _. goes_on x f (closed.recurs s g x p e) refl))

  read-Ensures :
      (o : Option CString) (s g : CString) (f : Finality)
      → P g
      → Ensures P f (read_target h bs rec level o s g f)
  unfolding read_target
  read-Ensures none s g f p = fails eperm
  read-Ensures (some t) s g f p =
      Ensures-if (length t == path_max) _ _ (fails enametoolong)
        (Ensures-bind (detranslate_path h bs t (some s)) _ (λ x _. canon_referee-Ensures x g f p))

  read_referee-Ensures :
      (s g : CString) (f : Finality) → P g → Ensures P f (read_referee h bs rec level s g f)
  unfolding read_referee
  read_referee-Ensures s g f p = read-Ensures (h.readlink s) s g f p

  perform-Ensures :
      (a : Action) (s g : CString) (f : Finality)
      → P g
      → ((x : CString) → a ≡ dont_canonicalize x → P x)
      → Ensures P f (perform h bs rec level a s g f)
  unfolding perform
  perform-Ensures default s g f p d = read_referee-Ensures s g f p
  perform-Ensures (canonicalize_it x) s g f p d = canon_referee-Ensures x g f p
  perform-Ensures (dont_canonicalize x) s g final_normal p d = returns x (d x refl)
  perform-Ensures (dont_canonicalize x) s g not_final p d = read_referee-Ensures s g not_final p
  perform-Ensures (dont_canonicalize x) s g final_slash p d = read_referee-Ensures s g final_slash p
  perform-Ensures (dont_canonicalize x) s g final_dot p d = read_referee-Ensures s g final_dot p
  perform-Ensures (failed e) s g f p d = fails e

  proc_action :
      (b : Bool) (g c : CString) (k : Comparison)
      → P g
      → (x : CString) → (if b then h.readlink_proc g c k else default) ≡ dont_canonicalize x
      → P x
  proc_action true g c k p x e = closed.proc_links g c x k p e
  proc_action false g c k p x e = cc e

  enter-Ensures :
      (d : Bool) (g c : CString) (f : Finality) → P g → Ensures P f (enter h bs rec level d g c f)
  unfolding enter dereference
  enter-Ensures d g c f p = Ensures-bind (join g c) _ (λ x e.
      Ensures-bind (substitute_binding_stat h bs f level x) _ (λ s _.
        Ensures-if (is_kept s.0 d f) _ _
          (Ensures-bind (join g c) _ (λ y e'. goes_on y f (closed.joins g c y p e') refl))
          (perform-Ensures _ s.1 g f p (
            proc_action (is_cover (compare_paths slash_proc g)) g c (compare_paths slash_proc g)
              p))))

  finality_kept :
      (f f' : Finality) → is_final f' ≡ true → is_final (if is_final f then f' else f) ≡ is_final f
  finality_kept f f' e = ground arith

  round-Ensures :
      (d : Bool) (g c : CString) (f : Finality) → P g → Ensures P f (round h bs rec level d g c f)
  unfolding round
  round-Ensures d g c f p =
      Ensures-if (streq c (dot ∷ [])) _ _ (goes_on g _ p (finality_kept f final_dot refl)) (
        Ensures-if (streq c (dot ∷ dot ∷ [])) _ _
          (Ensures-bind (pop_component g) _
            (λ x e. goes_on x _ (closed.pops g x p e) (finality_kept f final_slash refl)))
          (enter-Ensures d g c f p))

  finish_keeps : (g : CString) (f : Finality) (x : CString) → P g → finish level g f ≡ ok x → P x
  unfolding finish
  finish_keeps g not_final x p k = elim (Bool-cases (level == 0)) [
    | inl e ↦ cc (rw e at k)
    | inr e ↦ subst P (cc (rw e at k)) p
  ]
  finish_keeps g final_normal x p k = subst P (cc) p
  finish_keeps g final_slash x p k = elim (Bool-cases (level == 0)) [
    | inl e ↦ closed.joins g [] x p (rw e at k)
    | inr e ↦ subst P (cc (rw e at k)) p
  ]
  finish_keeps g final_dot x p k = elim (Bool-cases (level == 0)) [
    | inl e ↦ closed.joins g (dot ∷ []) x p (rw e at k)
    | inr e ↦ subst P (cc (rw e at k)) p
  ]

  continue_keeps :
      (again : CString → Result CString) (m : Result Round) (f : Finality) (x : CString)
      → ((g : CString) → P g → again g ≡ ok x → P x)
      → Ensures P f m
      → continue h bs rec level again m ≡ ok x
      → P x
  unfolding continue
  continue_keeps again m f x keep (fails e) k = cc k
  continue_keeps again m f x keep (returns g p) k = subst P (cc k) p
  continue_keeps again m f x keep (goes_on g f' p q) k = elim (Bool-cases (is_final f')) [
    | inl e ↦ finish_keeps g f' x p (rw e at k)
    | inr e ↦ keep g p (rw e at k)
  ]

  -- The loop keeps the property too, whatever the fuel.
  loop_keeps :
      (fuel : ℕ) (d : Bool) (g cursor x : CString)
      → P g
      → canonicalize_loop h bs rec level fuel d g cursor ≡ ok x
      → P x
  unfolding canonicalize_loop
  loop_keeps zero d g cursor x p e = cc e
  loop_keeps (suc fuel) d g cursor x p e =
      go (next_component cursor) (λ rest g'. loop_keeps fuel d g' rest x) e
    where
      go :
          (r : Result (CString × CString × Finality))
          → ((rest g' : CString)
              → P g'
              → canonicalize_loop h bs rec level fuel d g' rest ≡ ok x
              → P x)
          → (r >>= λ n.
              continue h bs rec level
                (λ t. canonicalize_loop h bs rec level fuel d t n.1)
                (round h bs rec level d g n.0 n.2))
            ≡ ok x
          → P x
      go (err e') ih k = cc k
      go (ok n) ih k = continue_keeps _ _ n.2 x (ih n.1) (round-Ensures d g n.0 n.2 p) k

module _ (h : Host) (bs : Bindings) (rec : CString → CString → Result CString) (level : ℕ)
    (d : Bool) where
  -- The loop of `canonicalize` as its source has it, without fuel: from a guest path and a cursor it
  -- ends, behind finitely many rounds, with a result.
  pub data Runs : CString → CString → Result CString → Type 0 where
    bad_component :
        (g cursor : CString) (e : Errno) → next_component cursor ≡ err e → Runs g cursor (err e)
    bad_round :
        (g cursor c rest : CString) (f : Finality) (e : Errno)
        → next_component cursor ≡ ok (c, rest, f)
        → round h bs rec level d g c f ≡ err e
        → Runs g cursor (err e)
    returns_at :
        (g cursor c rest x : CString) (f : Finality)
        → next_component cursor ≡ ok (c, rest, f)
        → round h bs rec level d g c f ≡ ok (return x)
        → Runs g cursor (ok x)
    last_round :
        (g cursor c rest x : CString) (f f' : Finality)
        → next_component cursor ≡ ok (c, rest, f)
        → round h bs rec level d g c f ≡ ok (next x f')
        → is_final f' ≡ true
        → Runs g cursor (finish level x f')
    one_more :
        (g cursor c rest x : CString) (f f' : Finality) (r : Result CString)
        → next_component cursor ≡ ok (c, rest, f)
        → round h bs rec level d g c f ≡ ok (next x f')
        → is_final f' ≡ false
        → Runs x rest r
        → Runs g cursor r

  anything : IsClosed h rec (λ _. Unit {0})
  anything = record {
    joins = λ g c x _ _. tt;
    pops = λ g x _ _. tt;
    recurs = λ u g x _ _. tt;
    proc_links = λ g c x k _ _. tt;
  }

  continue-Runs :
      (again : CString → Result CString) (g cursor c rest : CString) (f : Finality)
      (m : Result Round)
      → next_component cursor ≡ ok (c, rest, f)
      → round h bs rec level d g c f ≡ m
      → (is_final f ≡ false → (x : CString) → Runs x rest (again x))
      → Ensures (λ _. Unit {0}) f m
      → Runs g cursor (continue h bs rec level again m)
  unfolding continue
  continue-Runs again g cursor c rest f m n k more (fails e) = bad_round g cursor c rest f e n k
  continue-Runs again g cursor c rest f m n k more (returns x p) =
      returns_at g cursor c rest x f n k
  continue-Runs again g cursor c rest f m n k more (goes_on x f' p q) =
      elim (Bool-cases (is_final f')) [
        | inl e ↦ rw e (last_round g cursor c rest x f f' n k e)
        | inr e ↦ rw e (one_more g cursor c rest x f f' _ n k e (more (sym q ∙ e) x))
      ]

  -- With any amount of fuel above the length of the cursor, the loop of `canonicalize` gives what its
  -- source, without fuel, ends with behind finitely many rounds: it terminates, and never for want
  -- of fuel.
  pub canonicalize_loop-Runs :
      (fuel : ℕ) (g cursor : CString)
      → length cursor < fuel
      → Runs g cursor (canonicalize_loop h bs rec level fuel d g cursor)
  unfolding canonicalize_loop
  canonicalize_loop-Runs zero g cursor p = absurd (omega arith)
  canonicalize_loop-Runs (suc fuel) g cursor p =
      go (next_component cursor) refl
        (λ rest less x. canonicalize_loop-Runs fuel x rest (omega arith))
    where
      go :
          (r : Result (CString × CString × Finality))
          → next_component cursor ≡ r
          → ((rest : CString)
              → length rest < length cursor
              → (x : CString) → Runs x rest (canonicalize_loop h bs rec level fuel d x rest))
          → Runs g cursor (
              r >>= λ n.
              continue h bs rec level
                (λ t. canonicalize_loop h bs rec level fuel d t n.1)
                (round h bs rec level d g n.0 n.2))
      go (err e) k ih = bad_component g cursor e k
      go (ok (name, rest, f)) k ih =
          let parts = next_component_lem cursor name rest f k in
          continue-Runs _ g cursor name rest f (round h bs rec level d g name f) k refl
            (λ e x. ih rest (parts.6 e) x)
            (round-Ensures h bs rec level (λ _. Unit {0}) anything d g name f tt)

abbrev pub IsAbsolute : CString → Type 0
IsAbsolute p = char_at p 0 ≡ slash

join_step-first : (g c x : CString) → g ≢ [] → join_step g c ≡ ok x → char_at x 0 ≡ char_at g 0
unfolding join_step
join_step-first [] c x n e = absurd (n refl)
join_step-first (b ∷ g) c x n e = ground arith

join-IsAbsolute : (g c x : CString) → IsAbsolute g → join g c ≡ ok x → IsAbsolute x
join-IsAbsolute [] c x a e = absurd (omega arith)
join-IsAbsolute (b ∷ g) c x a e = unfold join_paths join_from in go (join_step [] (b ∷ g)) refl e
  where
    second : (y : CString) → join_step [] (b ∷ g) ≡ ok y → y ≡ b ∷ g
    second y k = unfold join_step in ground arith

    last :
        (y : CString) (r : Result CString)
        → join_step y c ≡ r
        → IsAbsolute y
        → y ≢ []
        → (r >>= λ z. ok z) ≡ ok x
        → IsAbsolute x
    last y (err e') k ay n k' = cc k'
    last y (ok z) k ay n k' = join_step-first y c x n (k ∙ k') ∙ ay

    go :
        (r : Result CString)
        → join_step [] (b ∷ g) ≡ r
        → (r >>= λ y. join_step y c >>= λ z. ok z) ≡ ok x
        → IsAbsolute x
    go (err e') k k' = cc k'
    go (ok y) k k' =
        last y (join_step y c) refl (ap (λ t. char_at t 0) (second y k) ∙ a)
          (λ n. cc (second y k, n)) k'

module _ (h : Host) (bs : Bindings)
    (proc_links : (g c x : CString) (k : Comparison)
      → IsAbsolute g
      → h.readlink_proc g c k ≡ dont_canonicalize x
      → IsAbsolute x) where
  pop-IsAbsolute : (g x : CString) → IsAbsolute g → pop_component g ≡ ok x → IsAbsolute x
  pop-IsAbsolute g x a e =
      let popped = pop_component-absolute g a in
      let same : popped.0 ≡ x = cc (popped.1, e) in rw same at popped.2

  run-IsAbsolute :
      (rec : CString → CString → Result CString) (level fuel : ℕ) (d : Bool) (g u x : CString)
      → ((v w y : CString) → rec v w ≡ ok y → IsAbsolute y)
      → IsAbsolute g
      → canonicalize_loop h bs rec level fuel d g u ≡ ok x
      → IsAbsolute x
  run-IsAbsolute rec level fuel d g u x keeps a e =
      loop_keeps h bs rec level IsAbsolute
        (record {
          joins = join-IsAbsolute;
          pops = pop-IsAbsolute;
          recurs = λ v w y _ k. keeps v w y k;
          proc_links = proc_links;
        })
        fuel d g u x a e

  -- At every level of recursion, a result of `canonicalize` is an absolute path.
  from-IsAbsolute :
      (left level : ℕ) (u : CString) (d : Bool) (g x : CString)
      → canonicalize_from h bs left level u d g ≡ ok x
      → IsAbsolute x
  unfolding canonicalize_from
  from-IsAbsolute zero level u d g x e = cc e
  from-IsAbsolute (suc left) level u d g x e =
      let keeps = λ (v w y : CString). from-IsAbsolute left (suc level) v true w y in
      elim (Bool-cases (leb path_max (length g))) [
        | inl t ↦ cc (rw t at e)
        | inr t ↦ elim (Bool-cases (char_at u 0 == slash)) [
          | inl a ↦
              run-IsAbsolute _ level (suc (length u)) d (slash ∷ []) u x keeps refl (rw (t, a) at e)
          | inr a ↦ elim (Bool-cases (char_at g 0 == slash)) [
            | inl b ↦
                run-IsAbsolute _ level (suc (length u)) d g u x keeps (ground arith)
                  (rw (t, a, b) at e)
            | inr b ↦ cc (rw (t, a, b) at e)
          ]
        ]
      ]

-- Where the emulated links under "/proc" that are not canonicalized are absolute, every guest path
-- that `canonicalize` returns is absolute, whatever the user's path and the links on the way.
pub canonicalize-IsAbsolute :
    (h : Host) (bs : Bindings) (user_path : CString) (deref_final : Bool) (guest_path x : CString)
    → ((g c y : CString) (k : Comparison)
        → IsAbsolute g
        → h.readlink_proc g c k ≡ dont_canonicalize y
        → IsAbsolute y)
    → canonicalize h bs user_path deref_final guest_path ≡ ok x
    → IsAbsolute x
unfolding canonicalize
canonicalize-IsAbsolute h bs u d g x links e = from-IsAbsolute h bs links 21 0 u d g x e
