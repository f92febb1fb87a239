-- ===== src/Orchestrator/StringSets.antt =====
-- pkg/orchestrator/verifier.go: equalStringSet.
use mathlib.Core.Path.{ap₂}
use aicw_node.Base.{
  ◌≡◌, ◌↔◌, refl, sym, ap, ◌∙◌, inl, inr, Bool, true, false, not, ◌&&◌, List, [], ◌∷◌, arith,
  if◌then◌else◌, ◌==◌, length, All, Bool-cases, Str, str_eq, str_eq_iff, str_eq_refl, str_less,
  str_less_antisymm, elem, elem-sort_by, IsDistinct, SameIds, sort_by, IsSorted, sorted_ext,
}
use aicw_node.Committee.Pool.{IsSorted-strings}

-- The loop of dedupSorted after an element `prev`.
unfoldable pub dedup_after : Str → List Str → List Str
dedup_after prev [] = []
dedup_after prev (v ∷ s) =
    let skipped = dedup_after prev s in
    let kept = dedup_after v s in if str_eq v prev then skipped else v ∷ kept

unfoldable pub dedup_sorted : List Str → List Str
dedup_sorted [] = []
dedup_sorted (v ∷ s) = v ∷ dedup_after v s

-- The last loop of equalStringSet, on lists of one length.
unfoldable pub same_entries : List Str → List Str → Bool
same_entries (a ∷ xs) (b ∷ ys) = str_eq a b && same_entries xs ys
same_entries _ _ = true

unfoldable pub equal_string_set : List Str → List Str → Bool
equal_string_set a b =
    let xs = dedup_sorted (sort_by str_less a) in
    let ys = dedup_sorted (sort_by str_less b) in
    if not (length xs == length ys) then false else same_entries xs ys

same_entries_lem : (xs ys : List Str) → length xs ≡ length ys → same_entries xs ys ≡ true → xs ≡ ys
unfolding same_entries
same_entries_lem [] [] n h = refl
same_entries_lem [] (b ∷ ys) n h = absurd (omega arith)
same_entries_lem (a ∷ xs) [] n h = absurd (omega arith)
same_entries_lem (a ∷ xs) (b ∷ ys) n h =
    ap₂ ◌∷◌ ((str_eq_iff a b).0 (ground arith))
      (same_entries_lem xs ys (omega arith) (ground arith))

same_entries_refl : (xs : List Str) → same_entries xs xs ≡ true
unfolding same_entries
same_entries_refl [] = refl
same_entries_refl (a ∷ xs) = ground (arith, str_eq_refl a, same_entries_refl xs)

absent :
    (p x : Str) (xs : List Str)
    → str_less x p ≡ false
    → str_eq x p ≡ false
    → All (λ y. str_less y x ≡ false) xs
    → elem p xs ≡ false
unfolding elem
absent p x [] l n s = refl
absent p x (y ∷ ys) l n s =
    ground (arith, str_eq_iff p y, str_eq_iff x p, str_less_antisymm p x, absent p x ys l n s.1)

elem-dedup_after :
    (z p : Str) (xs : List Str)
    → IsSorted str_less (p ∷ xs)
    → elem z (dedup_after p xs) ≡ (elem z xs && not (str_eq z p))
unfolding dedup_after elem
elem-dedup_after z p [] s = refl
elem-dedup_after z p (x ∷ xs) s = elim (Bool-cases (str_eq x p)) [
  | inl e ↦
      rw (e, dedup_after)
        (ground (arith, elem-dedup_after z p xs (s.0.1, s.1.1), str_eq_iff x p, str_eq_iff z x))
  | inr e ↦ ground (
    arith,
    elem-dedup_after z x xs s.1,
    absent p x xs s.0.0 e s.1.0,
    str_eq_iff z p,
    str_eq_iff z x,
    str_eq_iff x p,
  )
]

dedup_after-IsDistinct :
    (p : Str) (xs : List Str) → IsSorted str_less (p ∷ xs) → IsDistinct (dedup_after p xs)
unfolding dedup_after
dedup_after-IsDistinct p [] s = tt
dedup_after-IsDistinct p (x ∷ xs) s = ground (
  arith,
  dedup_after-IsDistinct p xs (s.0.1, s.1.1),
  dedup_after-IsDistinct x xs s.1,
  elem-dedup_after x x xs s.1,
  str_eq_refl x,
)

All-dedup_after : (P : Str → Type 0) (p : Str) (xs : List Str) → All P xs → All P (dedup_after p xs)
unfolding dedup_after
All-dedup_after P p [] h = tt
All-dedup_after P p (x ∷ xs) h = elim (Bool-cases (str_eq x p)) [
  | inl e ↦ rw (e, dedup_after) (All-dedup_after P p xs h.1)
  | inr e ↦ rw (e, dedup_after) (h.0, All-dedup_after P x xs h.1)
]

dedup_after-IsSorted :
    (p : Str) (xs : List Str) → IsSorted str_less xs → IsSorted str_less (dedup_after p xs)
unfolding dedup_after
dedup_after-IsSorted p [] s = tt
dedup_after-IsSorted p (x ∷ xs) s = elim (Bool-cases (str_eq x p)) [
  | inl e ↦ rw (e, dedup_after) (dedup_after-IsSorted p xs s.1)
  | inr e ↦ rw (e, dedup_after) (All-dedup_after _ x xs s.0, dedup_after-IsSorted x xs s.1)
]

-- The three facts about dedupSorted of a sorted list.
dedup_lem :
    (xs : List Str)
    → IsSorted str_less xs
    → IsDistinct (dedup_sorted xs)
      × IsSorted str_less (dedup_sorted xs)
      × SameIds (dedup_sorted xs) xs
unfolding dedup_sorted elem
dedup_lem [] s = (tt, tt, λ z. refl)
dedup_lem (x ∷ xs) s = (
  (ground (arith, elem-dedup_after x x xs s, str_eq_refl x), dedup_after-IsDistinct x xs s),
  (All-dedup_after _ x xs s.0, dedup_after-IsSorted x xs s.1),
  λ z. ground (arith, elem-dedup_after z x xs s),
)

canonical : List Str → List Str
canonical xs = dedup_sorted (sort_by str_less xs)

canonical-SameIds : (xs : List Str) → SameIds (canonical xs) xs
unfolding canonical
canonical-SameIds xs z = (dedup_lem _ (IsSorted-strings xs)).2 z ∙ elem-sort_by str_less z xs

canonical_ext : (xs ys : List Str) → SameIds xs ys → canonical xs ≡ canonical ys
unfolding canonical
canonical_ext xs ys h =
    let (dx, sx, ex) = dedup_lem _ (IsSorted-strings xs) in
    let (dy, sy, ey) = dedup_lem _ (IsSorted-strings ys) in
    sorted_ext str_less str_less_antisymm _ _ dx dy sx sy
      (λ z. canonical-SameIds xs z ∙ (h z ∙ sym (canonical-SameIds ys z)))

-- equalStringSet holds exactly for lists with the same strings, in whatever order and however often.
pub equal_string_set_iff : (a b : List Str) → (equal_string_set a b ≡ true) ↔ SameIds a b
equal_string_set_iff a b = (there, back)
  where
    there : equal_string_set a b ≡ true → SameIds a b
    there h z =
        let same : canonical a ≡ canonical b =
          unfold equal_string_set canonical in same_entries_lem _ _ (ground arith) (ground arith) in
        sym (canonical-SameIds a z) ∙ (ap (elem z) same ∙ canonical-SameIds b z)

    back : SameIds a b → equal_string_set a b ≡ true
    back h =
        unfold equal_string_set canonical in
        let same : dedup_sorted (sort_by str_less a) ≡ dedup_sorted (sort_by str_less b) =
          canonical_ext a b h in
        rw same (ground (arith, same_entries_refl (dedup_sorted (sort_by str_less b))))
