-- ===== src/Base/Bags.antt =====
-- Lists of strings with their repetitions, whatever their order.
use Prim.Native.Nat.{ℕ, ◌+◌, ◌<◌}
use mathlib.Core.Path.{◌≡◌, refl, sym, ap, ap₂, ◌∙◌}
use mathlib.Core.Logic.{◌↔◌, inl, inr}
use mathlib.Core.Bool.{false}
use mathlib.Core.List.{List, [], ◌∷◌}
use native.Mathlib.Omega.{arith}
use aicw_node.Base.Tests.{if◌then◌else◌, Bool-cases}
use aicw_node.Base.Order.{insert_by, sort_by, IsSorted, IsWeakOrder, sort_by-IsSorted}
use aicw_node.Base.Strings.{
  Str, str_eq, str_eq_iff, str_eq_refl, str_eq→≡, str_less, str_less-asymm, str_less-le_trans,
  str_less_antisymm,
}

unfoldable pub occurrences : Str → List Str → ℕ
occurrences z [] = 0
occurrences z (x ∷ xs) = (if str_eq z x then 1 else 0) + occurrences z xs

-- Two lists hold the same strings, as often.
abbrev pub SameItems : List Str → List Str → Type 0
SameItems xs ys = (z : Str) → occurrences z xs ≡ occurrences z ys

str_order : IsWeakOrder str_less
str_order = record { asymm = str_less-asymm; le_trans = str_less-le_trans }

occurrences-insert_by :
    (z x : Str) (xs : List Str) → occurrences z (insert_by str_less x xs) ≡ occurrences z (x ∷ xs)
unfolding occurrences insert_by
occurrences-insert_by z x [] = refl
occurrences-insert_by z x (y ∷ ys) = ground (arith, occurrences-insert_by z x ys)

pub occurrences-sort_by :
    (z : Str) (xs : List Str) → occurrences z (sort_by str_less xs) ≡ occurrences z xs
unfolding occurrences sort_by
occurrences-sort_by z [] = refl
occurrences-sort_by z (x ∷ xs) =
    omega (arith, occurrences-insert_by z x (sort_by str_less xs), occurrences-sort_by z xs)

-- An element of a sorted list is not less than the first.
head_least :
    (z y : Str) (ys : List Str)
    → IsSorted str_less (y ∷ ys)
    → 0 < occurrences z (y ∷ ys)
    → str_less z y ≡ false
unfolding occurrences
head_least z y [] s h = ground (arith, str_eq_iff z y, str_less-asymm y y)
head_least z y (x ∷ ys) s h = elim (Bool-cases (str_eq z x)) [
  | inl e ↦ rw (str_eq→≡ z x e) s.0.0
  | inr e ↦ head_least z y ys (s.0.1, s.1.1) (ground arith)
]

sorted_items :
    (xs ys : List Str) → IsSorted str_less xs → IsSorted str_less ys → SameItems xs ys → xs ≡ ys
unfolding occurrences
sorted_items [] [] sx sy h = refl
sorted_items [] (y ∷ ys) sx sy h = absurd (ground (arith, h y, str_eq_refl y))
sorted_items (x ∷ xs) [] sx sy h = absurd (ground (arith, h x, str_eq_refl x))
sorted_items (x ∷ xs) (y ∷ ys) sx sy h =
    ap₂ ◌∷◌ heads (sorted_items xs ys sx.1 sy.1 (λ z. ground (arith, h z, ap (str_eq z) heads)))
  where
    heads : x ≡ y
    heads =
        str_less_antisymm x y (head_least x y ys sy (ground (arith, h x, str_eq_refl x)))
          (head_least y x xs sx (ground (arith, h y, str_eq_refl y)))

-- Sorting two lists of strings gives the same exactly if they hold the same strings as often.
pub sort_items_iff :
    (xs ys : List Str) → (sort_by str_less xs ≡ sort_by str_less ys) ↔ SameItems xs ys
sort_items_iff xs ys = (
  λ e z. sym (occurrences-sort_by z xs) ∙ (ap (occurrences z) e ∙ occurrences-sort_by z ys),
  λ h.
      sorted_items _ _ (sort_by-IsSorted str_less str_order xs)
        (sort_by-IsSorted str_less str_order ys)
        (λ z. occurrences-sort_by z xs ∙ (h z ∙ sym (occurrences-sort_by z ys))),
)
