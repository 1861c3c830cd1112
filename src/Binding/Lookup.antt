-- ===== src/Binding/Lookup.antt =====
-- `get_binding` and `substitute_binding` of src/path/binding.c: which binding a path gets, and what
-- the substitution makes of the path.
use proot.Prelude.{
  ◌+◌, ◌<◌, ◌≤◌, ◌≡◌, ◌≢◌, refl, ap, sym, ◌∙◌, ◌⊎◌, inl, inr, true, false, List, [], ◌∷◌, ◌++◌,
  Option, none, some, length, if◌then◌else◌, arith, All, Bool-cases, ok, length-append,
}
use mathlib.Core.List.{append-nil}
use mathlib.Core.Path.{subst}
use proot.Path.{
  CString, IsCString, Side, guest, host, pending, Comparison, paths_are_equal, slash,
  path1_is_prefix, path2_is_prefix, paths_are_not_comparable, path_max,
}
use native.Mathlib.Decide.{dec_lt}
use proot.Path.Compare.{trim, relate, flip, relate-eq, relate_self, relate-flip, relate-prefix_iff}
use proot.Path.Substitute.{
  substituted, shown, IsRef, IsRest, substitute_path_prefix_lem, substitute_path_prefix-too_long,
}
use proot.Binding.{
  Binding, Bindings, ref, reverse_ref, is_cover, covers, is_false_positive, find_binding, get_root,
  get_binding, substitute_binding, substitute_found, head_of, list_of,
}
use proot.Binding.Order.{
  IsWhole, key, IsSorted, IsOrdered, AtOrUnder, Contains, compare_paths2-relate, All-IsWhole-ref,
}

-- Two paths at or above a third lie one at or above the other.
relate-comparable :
    (a c p : CString)
    → is_cover (relate a p) ≡ true
    → is_cover (relate c p) ≡ true
    → relate c a ≢ paths_are_not_comparable
relate-comparable [] [] p h k e = cc
relate-comparable [] (x ∷ c) [] h k e = ground arith
relate-comparable [] (x ∷ c) (d ∷ p) h k e = ground arith
relate-comparable (y ∷ a) [] [] h k e = ground arith
relate-comparable (y ∷ a) [] (d ∷ p) h k e = ground arith
relate-comparable (y ∷ a) (x ∷ c) [] h k e = ground arith
relate-comparable (y ∷ a) (x ∷ c) (d ∷ p) h k e = ground (arith, relate-comparable a c p)

module _ (side : Side) (path : CString) (string : IsCString path) (full : path ≢ []) where
  covers-relate :
      (b : Binding)
      → IsWhole (ref side b)
      → covers side b path ≡ is_cover (relate (key side b) (trim path))
  unfolding covers
  covers-relate b w = ap is_cover (
      compare_paths2-relate (ref side b) (record { path = path; length = length path }) w
        (refl, string, full))

  -- A binding that covers the path, behind one that does and does not contain it.
  above_first :
      (b c : Binding)
      → IsWhole (ref side b)
      → IsWhole (ref side c)
      → covers side b path ≡ true
      → ¬ Contains (key side b) (key side c)
      → covers side c path ≡ true
      → AtOrUnder (key side c) (key side b)
  above_first b c wb wc h n k = go (relate (key side c) (key side b)) refl
    where
      comparable : relate (key side c) (key side b) ≢ paths_are_not_comparable
      comparable =
          relate-comparable (key side b) (key side c) (trim path) (sym (covers-relate b wb) ∙ h)
            (sym (covers-relate c wc) ∙ k)

      go :
          (r : Comparison)
          → relate (key side c) (key side b) ≡ r
          → AtOrUnder (key side c) (key side b)
      go paths_are_equal e = inr e
      go path1_is_prefix e = inl e
      go path2_is_prefix e = absurd (n (relate-flip (key side c) (key side b) ∙ ap flip e))
      go paths_are_not_comparable e = absurd (comparable e)

  All-above_first :
      (b : Binding) (l : List Binding)
      → IsWhole (ref side b)
      → All (λ c. IsWhole (ref side c)) l
      → covers side b path ≡ true
      → All (λ c. ¬ Contains (key side b) (key side c)) l
      → All (λ c. covers side c path ≡ true → AtOrUnder (key side c) (key side b)) l
  All-above_first b [] wb wl h n = tt
  All-above_first b (c ∷ l) wb wl h n =
      (above_first b c wb wl.0 h n.0, All-above_first b l wb wl.1 h n.1)

  find_binding-false :
      (root : Option CString) (l : List Binding)
      → is_false_positive root side path ≡ true
      → find_binding root side path l ≡ none
  unfolding find_binding
  find_binding-false root [] f = refl
  find_binding-false root (c ∷ l) f = ground (arith, find_binding-false root l f)

  find_binding-cons :
      (root : Option CString) (c : Binding) (l : List Binding)
      → is_false_positive root side path ≡ false
      → find_binding root side path (c ∷ l)
        ≡ (if covers side c path then some c else find_binding root side path l)
  unfolding find_binding
  find_binding-cons root c l f = ground arith

  find_binding_lem :
      (root : Option CString) (l : List Binding) (b : Binding)
      → is_false_positive root side path ≡ false
      → All (λ c. IsWhole (ref side c)) l
      → IsSorted side l
      → find_binding root side path l ≡ some b
      → (covers side b path ≡ true)
        × All (λ c. covers side c path ≡ true → AtOrUnder (key side c) (key side b)) l
  find_binding_lem root [] b f w s h = unfold find_binding in cc
  find_binding_lem root (c ∷ l) b f w s h =
      let h' = rw (find_binding-cons root c l f) at h in
      elim (Bool-cases (covers side c path)) [
        | inl e ↦
            let found : c ≡ b = cc (rw e at h') in
            subst
              (λ t.
                (covers side t path ≡ true)
                × ((covers side c path ≡ true → AtOrUnder (key side c) (key side t))
                    × All (λ d. covers side d path ≡ true → AtOrUnder (key side d) (key side t)) l))
              found (e, ((λ k. inr (relate_self (key side c))), All-above_first c l w.0 w.1 e s.0))
        | inr e ↦
            let rest = find_binding_lem root l b f w.1 s.1 (rw e at h') in
            (rest.0, ((λ k. cc (e, k)), rest.1))
      ]

  find_binding-none :
      (root : Option CString) (l : List Binding)
      → is_false_positive root side path ≡ false
      → find_binding root side path l ≡ none
      → All (λ c. covers side c path ≡ false) l
  find_binding-none root [] f h = tt
  find_binding-none root (c ∷ l) f h =
      let h' = rw (find_binding-cons root c l f) at h in
      elim (Bool-cases (covers side c path)) [
        | inl e ↦ cc (rw e at h')
        | inr e ↦ (e, find_binding-none root l f (rw e at h'))
      ]

false_positive_cases :
    (bs : Bindings) (side : Side) (path : CString)
    → (is_false_positive (get_root bs) side path ≡ true)
      ⊎ (is_false_positive (get_root bs) side path ≡ false)
false_positive_cases bs side path = Bool-cases (is_false_positive (get_root bs) side path)

-- In ordered lists, `get_binding` returns a binding that covers the path, and the most specific one:
-- every binding of that side that covers the path has the same path or contains the one returned.
pub get_binding_most_specific :
    (bs : Bindings) (side : Side) (path : CString) (b : Binding)
    → IsOrdered bs
    → IsCString path
    → path ≢ []
    → get_binding bs side path ≡ some b
    → (covers side b path ≡ true)
      × All (λ c. covers side c path ≡ true → AtOrUnder (key side c) (key side b)) (head_of bs side)
unfolding get_binding
get_binding_most_specific bs pending path b o c n h = cc
get_binding_most_specific bs guest path b o c n h = elim (false_positive_cases bs guest path) [
  | inl f ↦ cc (find_binding-false guest path c n (get_root bs) (list_of bs.guest) f)
  | inr f ↦
      find_binding_lem guest path c n (get_root bs) (list_of bs.guest) b f
        (All-IsWhole-ref guest (list_of bs.guest) (o.whole guest)) (o.sorted guest) h
]
get_binding_most_specific bs host path b o c n h = elim (false_positive_cases bs host path) [
  | inl f ↦ cc (find_binding-false host path c n (get_root bs) (list_of bs.host) f)
  | inr f ↦
      find_binding_lem host path c n (get_root bs) (list_of bs.host) b f
        (All-IsWhole-ref host (list_of bs.host) (o.whole host)) (o.sorted host) h
]

-- `get_binding`, for the guest or the host side and a string that is not empty, returns nothing only
-- if no binding of that side covers the path, or if a path on the host side is skipped as one of
-- the guest's file-system.
get_binding-none :
    (bs : Bindings) (side : Side) (path : CString)
    → IsCString path
    → path ≢ []
    → side ≢ pending
    → get_binding bs side path ≡ none
    → (is_false_positive (get_root bs) side path ≡ true)
      ⊎ All (λ c. covers side c path ≡ false) (head_of bs side)
unfolding get_binding
get_binding-none bs pending path c n p h = absurd (p refl)
get_binding-none bs guest path c n p h = elim (false_positive_cases bs guest path) [
  | inl f ↦ inl f
  | inr f ↦ inr (find_binding-none guest path c n (get_root bs) (list_of bs.guest) f h)
]
get_binding-none bs host path c n p h = elim (false_positive_cases bs host path) [
  | inl f ↦ inl f
  | inr f ↦ inr (find_binding-none host path c n (get_root bs) (list_of bs.host) f h)
]

-- A path without a separator at its end, or "/", is the components that stand in it.
IsRef-shown : (p : CString) → IsRef p → shown (trim p) ≡ p
IsRef-shown p (inl e) = rw e
IsRef-shown [] (inr h) = absurd (omega arith)
IsRef-shown (c ∷ p) (inr h) = rw h.1

trim-slash : (a : CString) → trim (a ++ slash ∷ []) ≡ a
trim-slash [] = refl
trim-slash (c ∷ []) = refl
trim-slash (c ∷ d ∷ a) = ap (λ t. c ∷ t) (trim-slash (d ∷ a))

IsRef-tail : (p a : CString) → IsRef p → trim p ≢ a ++ slash ∷ []
IsRef-tail p a (inl e) k =
    let size = ap length (sym (rw e at k)) in absurd (omega (arith, length-append a (slash ∷ [])))
IsRef-tail p a (inr h) k =
    let same = ap length (sym h.1 ∙ k) in
    let short = ap length (ap trim (sym h.1 ∙ k) ∙ trim-slash a) in
    let self = ap length h.1 in absurd (omega (arith, length-append a (slash ∷ [])))

-- What a path has behind the path of a binding that covers it.
IsRest-of :
    (a p : CString)
    → IsRef p
    → is_cover (relate a (trim p)) ≡ true
    → (rest : CString) × (trim p ≡ a ++ rest) × IsRest rest
IsRest-of a p r h = go (relate a (trim p)) refl
  where
    go :
        (c : Comparison)
        → relate a (trim p) ≡ c
        → (rest : CString) × (trim p ≡ a ++ rest) × IsRest rest
    go paths_are_equal e = ([], sym (relate-eq a (trim p) e) ∙ sym (append-nil a), inl refl)
    go path1_is_prefix e =
        let under = (relate-prefix_iff a (trim p)).0 e in
        (slash ∷ under.0, under.1, more under.0 under.1)
      where
        more : (t : CString) → trim p ≡ a ++ slash ∷ t → IsRest (slash ∷ t)
        more [] k = absurd (IsRef-tail p a r k)
        more (d ∷ t) k = inr (omega arith)
    go path2_is_prefix e = cc (rw e at h)
    go paths_are_not_comparable e = cc (rw e at h)

-- What `substitute_binding` does with a binding that the look-up has found.
found_lem :
    (bs : Bindings) (side : Side) (path : CString) (b : Binding)
    → get_binding bs side path ≡ some b
    → b.need_substitution ≡ true
    → (ref side b).length ≡ length (ref side b).path
    → (reverse_ref side b).length ≡ length (reverse_ref side b).path
    → substitute_binding bs side path
      ≡ ok (1, (substituted path (ref side b).path (reverse_ref side b).path).1)
unfolding substitute_binding substitute_found
found_lem bs side path b f n e e' = rw f (simp (n, e, e'))

-- The path gets a binding that needs a substitution. Both paths of the binding, which differ, and the
-- path itself are "/" or have no separator at their end; the path fits, and the other path of the
-- binding does with a byte to spare. Then the path is that of the binding followed by a rest. If the
-- path on the other side followed by the same rest fits, it is what the substitution gives; otherwise
-- the path stays as it was. The status tells a substitution either way.
pub substitute_binding_lem :
    (bs : Bindings) (side : Side) (path : CString) (b : Binding)
    → IsCString path
    → path ≢ []
    → get_binding bs side path ≡ some b
    → covers side b path ≡ true
    → b.need_substitution ≡ true
    → IsWhole (ref side b)
    → IsWhole (reverse_ref side b)
    → IsRef (ref side b).path
    → IsRef (reverse_ref side b).path
    → (ref side b).path ≢ (reverse_ref side b).path
    → IsRef path
    → length path < path_max
    → length (reverse_ref side b).path + 1 < path_max
    → (rest : CString) × (path ≡ shown (trim (ref side b).path ++ rest))
      × (let new = shown (trim (reverse_ref side b).path ++ rest) in
          ((length new < path_max) × (substitute_binding bs side path ≡ ok (1, new)))
          ⊎ ((path_max ≤ length new) × (substitute_binding bs side path ≡ ok (1, path))))
substitute_binding_lem bs side path b string full f c n w w' r r' differ p small spare = (
  rest.0,
  path_eq,
  elim (dec_lt (length new) path_max) [
    | yes fits ↦ inl (
      fits,
      found
          ∙ ap (λ t. ok (1, t))
              (rw path_eq (
                ap (λ t. t.1)
                  (substitute_path_prefix_lem (ref side b).path (reverse_ref side b).path rest.0 r
                    r' differ rest.2 (rw path_eq at small) spare fits))),
    )
    | no long ↦ inr (
      omega arith,
      found
          ∙ ap (λ t. ok (1, t))
              (rw path_eq (
                ap (λ t. t.1)
                  (substitute_path_prefix-too_long (ref side b).path (reverse_ref side b).path
                    rest.0 r r' (rw path_eq at small) (omega arith)
                    (length-shown (trim (reverse_ref side b).path ++ rest.0) (omega arith))))),
    )
  ],
)
  where
    rest : (t : CString) × (trim path ≡ key side b ++ t) × IsRest t
    rest = IsRest-of (key side b) path p (sym (covers-relate side path string full b w) ∙ c)

    path_eq : path ≡ shown (trim (ref side b).path ++ rest.0)
    path_eq = sym (IsRef-shown path p) ∙ ap shown rest.1

    new : CString
    new = shown (trim (reverse_ref side b).path ++ rest.0)

    found :
        substitute_binding bs side path
        ≡ ok (1, (substituted path (ref side b).path (reverse_ref side b).path).1)
    found = found_lem bs side path b f n w.0 w'.0

    length-shown : (q : CString) → path_max ≤ length (shown q) → path_max ≤ length q
    length-shown [] h = absurd (omega arith)
    length-shown (d ∷ q) h = h

-- The binding that is found needs a substitution, and the path on the other side followed by what
-- the given path has behind that of the binding would not fit: the status of `substitute_binding`
-- says that a substitution was performed, and the path is still the one that was given. Both paths
-- of the binding are "/" or have no separator at their end, and fit, as the given path does.
pub substitute_binding-too_long :
    (bs : Bindings) (side : Side) (rest : CString) (b : Binding)
    → let old = (ref side b).path in
      let new = (reverse_ref side b).path in
      let path = shown (trim old ++ rest) in
      get_binding bs side path ≡ some b
      → b.need_substitution ≡ true
      → (ref side b).length ≡ length old
      → (reverse_ref side b).length ≡ length new
      → IsRef old
      → IsRef new
      → length path < path_max
      → length new < path_max
      → path_max ≤ length (trim new ++ rest)
      → substitute_binding bs side path ≡ ok (1, path)
substitute_binding-too_long bs side rest b f n e e' old new small fits long =
    found_lem bs side (shown (trim (ref side b).path ++ rest)) b f n e e'
    ∙ ap (λ t. ok (1, t.1))
        (substitute_path_prefix-too_long (ref side b).path (reverse_ref side b).path rest old new
          small fits long)
