-- ===== src/Binding/Order.antt =====
-- `insort_binding` of src/path/binding.c keeps each list in an order in which a binding never
-- stands behind one that contains it.
use proot.Prelude.{
  ℕ, zero, suc, ◌+◌, ◌≡◌, ◌≢◌, refl, ap, sym, ◌∙◌, ◌⊎◌, inl, inr, List, [], ◌∷◌, Option, none, some,
  length, ◌==◌, arith, All, Bool-cases,
}
use native.Mathlib.Nat.{zero-add}
use proot.Path.{
  CString, IsCString, FilePath, Side, guest, host, pending, Comparison, paths_are_equal,
  compare_paths2, path1_is_prefix, path2_is_prefix, paths_are_not_comparable, compare_paths,
}
use proot.Path.Compare.{
  trim, relate, relate-eq, relate-flip, relate-prefix_trans, compare_paths-eq-relate,
}
use proot.Binding.{
  Binding, Bindings, ref, is_host, compare_bindings, find_place, Place, replace, insert, place_of,
  put_at, insert_after, insert_before, remove_address, insort_binding, insort_binding2,
  insort_binding3, drop_replaced, head_of, set_head, remove_binding_from_all_lists, list_of,
  in_list,
}

-- The cached length is right, and the path is a string that is not empty.
abbrev pub IsWhole : FilePath → Type 0
IsWhole p = (p.length ≡ length p.path) × IsCString p.path × (p.path ≢ [])

abbrev pub key : Side → Binding → CString
key side b = trim (ref side b).path

pub compare_paths2-relate :
    (p q : FilePath)
    → IsWhole p
    → IsWhole q
    → compare_paths2 p.path p.length q.path q.length ≡ relate (trim p.path) (trim q.path)
compare_paths2-relate p q hp hq =
    rw (hp.0, hq.0)
      (unfold compare_paths in compare_paths-eq-relate p.path q.path hp.1 hq.1 hp.2 hq.2)

-- The second path lies strictly under the first.
abbrev pub Contains : CString → CString → Type 0
Contains a b = relate a b ≡ path1_is_prefix

-- No binding of the list lies strictly under one that stands before it.
abbrev pub IsSorted : Side → List Binding → Type 0
IsSorted side [] = Unit {0}
IsSorted side (b ∷ l) = All (λ c. ¬ Contains (key side b) (key side c)) l × IsSorted side l

abbrev pub AtOrUnder : CString → CString → Type 0
AtOrUnder a b = (relate a b ≡ path1_is_prefix) ⊎ (relate a b ≡ paths_are_equal)

-- The binding may stand behind position `k`: it contains the one there, or has its path, and
-- contains none of those that follow.
abbrev Follows : Side → Binding → List Binding → ℕ → Type 0
Follows side b [] k = ⊥
Follows side b (c ∷ l) zero =
    AtOrUnder (key side b) (key side c) × All (λ d. ¬ Contains (key side b) (key side d)) l
Follows side b (c ∷ l) (suc k) = Follows side b l k

AtOrUnder-not : (a b : CString) → AtOrUnder a b → ¬ Contains b a
AtOrUnder-not a b (inl h) k = cc (relate-flip a b)
AtOrUnder-not a b (inr h) k = cc (relate-flip a b)

AtOrUnder-trans : (a b c : CString) → Contains a b → AtOrUnder b c → Contains a c
AtOrUnder-trans a b c h (inl k) = relate-prefix_trans a b c h k
AtOrUnder-trans a b c h (inr k) = rw (relate-eq b c k) at h

Follows-not :
    (side : Side) (b c : Binding) (l : List Binding) (k : ℕ)
    → Follows side b l k
    → All (λ d. ¬ Contains (key side c) (key side d)) l
    → ¬ Contains (key side c) (key side b)
Follows-not side b c [] k f h u = absurd f
Follows-not side b c (d ∷ l) zero f h u =
    h.0 (AtOrUnder-trans (key side c) (key side b) (key side d) u f.0)
Follows-not side b c (d ∷ l) (suc k) f h u = Follows-not side b c l k f h.1 u

All-insert_after :
    (P : Binding → Type 0) (l : List Binding) (k : ℕ) (b : Binding)
    → All P l
    → P b
    → All P (insert_after l k b)
unfolding insert_after
All-insert_after P [] k b h p = (p, tt)
All-insert_after P (c ∷ l) zero b h p = (h.0, (p, h.1))
All-insert_after P (c ∷ l) (suc k) b h p = (h.0, All-insert_after P l k b h.1 p)

insert_after-IsSorted :
    (side : Side) (b : Binding) (l : List Binding) (k : ℕ)
    → IsSorted side l
    → Follows side b l k
    → IsSorted side (insert_after l k b)
unfolding insert_after
insert_after-IsSorted side b [] k s f = absurd f
insert_after-IsSorted side b (c ∷ l) zero s f =
    ((AtOrUnder-not (key side b) (key side c) f.0, s.0), (f.1, s.1))
insert_after-IsSorted side b (c ∷ l) (suc k) s f = (
  All-insert_after _ l k b s.0 (Follows-not side b c l k f s.0),
  insert_after-IsSorted side b l k s.1 f,
)

-- What the loop decides, from position `i` on.
data Outcome (side : Side) (b : Binding) (previous : Option ℕ) (n i : ℕ) (l : List Binding)
    (p : Place) : Type 0 where
  replaces :
      (k : ℕ) (c : Binding)
      → p ≡ replace (i + k) c
      → (IsSorted side l → Follows side b l k)
      → Outcome side b previous n i l p
  goes_after :
      (k : ℕ)
      → p ≡ insert (some (i + k)) (some n)
      → Follows side b l k
      → Outcome side b previous n i l p
  goes_first :
      p ≡ insert previous (some n)
      → All (λ d. ¬ Contains (key side b) (key side d)) l
      → Outcome side b previous n i l p

module _ (side : Side) (b c : Binding) (n i : ℕ) (l : List Binding) (p : Place) where
  pass_by :
      (previous : Option ℕ)
      → ¬ Contains (key side b) (key side c)
      → Outcome side b previous n (i + 1) l p
      → Outcome side b previous n i (c ∷ l) p
  pass_by previous h (replaces k d e f) =
      replaces (suc k) d (e ∙ ap (λ t. replace t d) (omega arith)) (λ s. f s.1)
  pass_by previous h (goes_after k e f) =
      goes_after (suc k) (e ∙ ap (λ t. insert (some t) (some n)) (omega arith)) f
  pass_by previous h (goes_first e f) = goes_first e (h, f)

  pass_inside :
      (previous : Option ℕ)
      → AtOrUnder (key side b) (key side c)
      → Outcome side b (some i) n (i + 1) l p
      → Outcome side b previous n i (c ∷ l) p
  pass_inside previous h (replaces k d e f) =
      replaces (suc k) d (e ∙ ap (λ t. replace t d) (omega arith)) (λ s. f s.1)
  pass_inside previous h (goes_after k e f) =
      goes_after (suc k) (e ∙ ap (λ t. insert (some t) (some n)) (omega arith)) f
  pass_inside previous h (goes_first e f) =
      goes_after 0 (e ∙ ap (λ t. insert (some t) (some n)) (omega arith)) (h, f)

  -- The binding at hand has the path of the new one.
  stop_here :
      (previous : Option ℕ)
      → relate (key side b) (key side c) ≡ paths_are_equal
      → p ≡ replace i c
      → Outcome side b previous n i (c ∷ l) p
  stop_here previous h e =
      replaces 0 c (e ∙ ap (λ t. replace t c) (omega arith))
        (λ s. (inr h, rw (← relate-eq (key side b) (key side c) h) at s.0))

find_place-Outcome :
    (side : Side) (b : Binding) (l : List Binding) (previous : Option ℕ) (n i : ℕ)
    → IsWhole (ref side b)
    → All (λ c. IsWhole (ref side c)) l
    → Outcome side b previous n i l (find_place side b previous (some n) i l)
unfolding find_place
find_place-Outcome side b [] previous n i hb hl = goes_first refl tt
find_place-Outcome side b (c ∷ l) previous n i hb hl =
    go (compare_bindings side b c) refl (find_place-Outcome side b l previous n (i + 1) hb hl.1)
      (find_place-Outcome side b l (some i) n (i + 1) hb hl.1)
  where
    same : compare_bindings side b c ≡ relate (key side b) (key side c)
    same = compare_paths2-relate (ref side b) (ref side c) hb hl.0

    go :
        (r : Comparison)
        → compare_bindings side b c ≡ r
        → Outcome side b previous n (i + 1) l (find_place side b previous (some n) (i + 1) l)
        → Outcome side b (some i) n (i + 1) l (find_place side b (some i) (some n) (i + 1) l)
        → Outcome side b previous n i (c ∷ l) (find_place side b previous (some n) i (c ∷ l))
    go paths_are_equal e o o' = elim (Bool-cases (is_host side)) [
      | inl h ↦
          rw (e, h, find_place) (pass_inside side b c n i l _ previous (inr (sym same ∙ e)) o')
      | inr h ↦ rw (e, h, find_place) (stop_here side b c n i l _ previous (sym same ∙ e) refl)
    ]
    go path1_is_prefix e o o' =
        rw (e, find_place) (pass_inside side b c n i l _ previous (inl (sym same ∙ e)) o')
    go path2_is_prefix e o o' =
        rw (e, find_place) (pass_by side b c n i l _ previous (λ k. cc (sym same ∙ e)) o)
    go paths_are_not_comparable e o o' =
        rw (e, find_place) (pass_by side b c n i l _ previous (λ k. cc (sym same ∙ e)) o)

put_at-IsSorted :
    (side : Side) (b : Binding) (l : List Binding)
    → IsSorted side l
    → All (λ c. IsWhole (ref side c)) l
    → IsWhole (ref side b)
    → IsSorted side (put_at (place_of side b l) b l)
unfolding place_of put_at insert_before
put_at-IsSorted side b [] s hl hb = unfold find_place in (tt, tt)
put_at-IsSorted side b (c ∷ l) s hl hb = elim (find_place-Outcome side b (c ∷ l) none 0 0 hb hl) [
  | replaces k d e f ↦ rw (e, zero-add) (insert_after-IsSorted side b (c ∷ l) k s (f s))
  | goes_after k e f ↦ rw (e, zero-add) (insert_after-IsSorted side b (c ∷ l) k s f)
  | goes_first e f ↦ rw e (f, s)
]

All-remove_address :
    (P : Binding → Type 0) (a : ℕ) (l : List Binding) → All P l → All P (remove_address a l)
unfolding remove_address
All-remove_address P a [] h = h
All-remove_address P a (c ∷ l) h = elim (Bool-cases (c.address == a)) [
  | inl e ↦ rw e (All-remove_address P a l h.1)
  | inr e ↦ rw e (h.0, All-remove_address P a l h.1)
]

remove_address-IsSorted :
    (side : Side) (a : ℕ) (l : List Binding) → IsSorted side l → IsSorted side (remove_address a l)
unfolding remove_address
remove_address-IsSorted side a [] h = h
remove_address-IsSorted side a (c ∷ l) h = elim (Bool-cases (c.address == a)) [
  | inl e ↦ rw e (remove_address-IsSorted side a l h.1)
  | inr e ↦ rw e (All-remove_address _ a l h.0, remove_address-IsSorted side a l h.1)
]

-- Both paths of a binding are whole.
abbrev pub AreWhole : Binding → Type 0
AreWhole b = IsWhole b.host × IsWhole b.guest

-- Every list is sorted, and holds bindings with whole paths.
pub record IsOrdered (bs : Bindings) : Type 0 where
  pub whole : (side : Side) → All AreWhole (head_of bs side)
  pub sorted : (side : Side) → IsSorted side (head_of bs side)

pub IsWhole-ref : (side : Side) (b : Binding) → AreWhole b → IsWhole (ref side b)
IsWhole-ref guest b h = h.1
IsWhole-ref host b h = h.0
IsWhole-ref pending b h = h.1

pub All-IsWhole-ref :
    (side : Side) (l : List Binding) → All AreWhole l → All (λ c. IsWhole (ref side c)) l
All-IsWhole-ref side [] h = h
All-IsWhole-ref side (c ∷ l) h = (IsWhole-ref side c h.0, All-IsWhole-ref side l h.1)

All-insert_before :
    (P : Binding → Type 0) (l : List Binding) (k : ℕ) (b : Binding)
    → All P l
    → P b
    → All P (insert_before l k b)
unfolding insert_before
All-insert_before P [] k b h p = (p, tt)
All-insert_before P (c ∷ l) zero b h p = (p, h)
All-insert_before P (c ∷ l) (suc k) b h p = (h.0, All-insert_before P l k b h.1 p)

All-put_at :
    (P : Binding → Type 0) (p : Place) (b : Binding) (l : List Binding)
    → All P l
    → P b
    → All P (put_at p b l)
unfolding put_at
All-put_at P (replace i c) b l h p = All-insert_after P l i b h p
All-put_at P (insert (some i) next) b l h p = All-insert_after P l i b h p
All-put_at P (insert none (some i)) b l h p = All-insert_before P l i b h p
All-put_at P (insert none none) b l h p = (p, h)

-- A property of the lists that hold one side each.
module _ (P : Side → List Binding → Type 0) where
  set_head-all :
      (bs : Bindings) (s : Side) (l : List Binding)
      → P s l
      → ((t : Side) → P t (head_of bs t))
      → (t : Side) → P t (head_of (set_head bs s l) t)
  set_head-all bs guest l h k guest = h
  set_head-all bs guest l h k host = k host
  set_head-all bs guest l h k pending = k pending
  set_head-all bs host l h k guest = k guest
  set_head-all bs host l h k host = h
  set_head-all bs host l h k pending = k pending
  set_head-all bs pending l h k guest = k guest
  set_head-all bs pending l h k host = k host
  set_head-all bs pending l h k pending = h

  in_list-all :
      (a : ℕ)
      → ((s : Side) (l : List Binding) → P s l → P s (remove_address a l))
      → (s : Side) (o : Option (List Binding)) → P s (list_of o)
      → P s (list_of (in_list (remove_address a) o))
  in_list-all a f s none h = h
  in_list-all a f s (some l) h = f s l h

  remove_binding_from_all_lists-all :
      (bs : Bindings) (b : Binding)
      → ((s : Side) (l : List Binding) → P s l → P s (remove_address b.address l))
      → ((t : Side) → P t (head_of bs t))
      → (t : Side) → P t (head_of (remove_binding_from_all_lists bs b) t)
  unfolding remove_binding_from_all_lists
  remove_binding_from_all_lists-all bs b f k guest =
      in_list-all b.address f guest bs.guest (k guest)
  remove_binding_from_all_lists-all bs b f k host = in_list-all b.address f host bs.host (k host)
  remove_binding_from_all_lists-all bs b f k pending =
      in_list-all b.address f pending bs.pending (k pending)

drop_replaced-IsOrdered :
    (p : Place) (bs : Bindings) → IsOrdered bs → IsOrdered (drop_replaced p bs)
unfolding drop_replaced
drop_replaced-IsOrdered (replace i c) bs h = record {
  whole =
      remove_binding_from_all_lists-all (λ s l. All AreWhole l) bs c
        (λ s l. All-remove_address AreWhole c.address l) h.whole;
  sorted =
      remove_binding_from_all_lists-all IsSorted bs c (λ s l. remove_address-IsSorted s c.address l)
        h.sorted;
}
drop_replaced-IsOrdered (insert previous next) bs h = h

-- `insort_binding` keeps the order of all three lists, whichever it inserts into and whether or not
-- it replaces a binding: none stands behind a binding that strictly contains it.
pub insort_binding-IsOrdered :
    (bs : Bindings) (side : Side) (b : Binding)
    → IsOrdered bs
    → AreWhole b
    → IsOrdered (insort_binding bs side b)
unfolding insort_binding
insort_binding-IsOrdered bs side b h w =
    let l = head_of bs side in
    drop_replaced-IsOrdered (place_of side b l) _ (record {
      whole =
          set_head-all (λ s l. All AreWhole l) bs side _
            (All-put_at AreWhole (place_of side b l) b l (h.whole side) w) h.whole;
      sorted =
          set_head-all IsSorted bs side _
            (put_at-IsSorted side b l (h.sorted side) (All-IsWhole-ref side l (h.whole side))
              (IsWhole-ref side b w))
            h.sorted;
    })

-- `insort_binding3` keeps the order of all three lists, for paths that are strings and not empty.
pub insort_binding3-IsOrdered :
    (bs : Bindings) (address : ℕ) (host_path guest_path : CString)
    → IsOrdered bs
    → IsCString host_path
    → IsCString guest_path
    → host_path ≢ []
    → guest_path ≢ []
    → IsOrdered (insort_binding3 bs address host_path guest_path)
unfolding insort_binding3 insort_binding2
insort_binding3-IsOrdered bs address host_path guest_path h ch cg nh ng =
    insort_binding-IsOrdered _ host _ (insort_binding-IsOrdered bs guest _ h w) w
  where
    w :
        ((length host_path ≡ length host_path) × IsCString host_path × (host_path ≢ []))
        × ((length guest_path ≡ length guest_path) × IsCString guest_path × (guest_path ≢ []))
    w = ((refl, ch, nh), (refl, cg, ng))
