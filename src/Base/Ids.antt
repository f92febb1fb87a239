-- ===== src/Base/Ids.antt =====
-- Sets of strings as lists: membership as a test, distinct lists, and that a strictly sorted list
-- is determined by its members.
use Prim.Native.Nat.{ℕ, zero, suc, ◌≤◌}
use mathlib.Core.Path.{◌≡◌, refl, sym, ap₂, ◌∙◌}
use mathlib.Core.Logic.{◌↔◌, inl, inr}
use mathlib.Core.Bool.{Bool, true, false, ◌&&◌, ◌||◌}
use mathlib.Core.List.{List, [], ◌∷◌, ◌++◌}
use mathlib.Core.Option.{Option, none, some}
use native.Mathlib.Omega.{arith}
use aicw_node.Base.Tests.{if◌then◌else◌, Bool-cases}
use aicw_node.Base.Lists.{All, length, take}
use aicw_node.Base.Order.{insert_by, sort_by, IsSorted}
use aicw_node.Base.Strings.{Str, str_eq, str_eq_iff, str_eq_refl, str_eq→≡, str_eq_comm}

unfoldable pub elem : Str → List Str → Bool
elem z [] = false
elem z (x ∷ xs) = str_eq z x || elem z xs

-- Every element once.
abbrev pub IsDistinct : List Str → Type 0
IsDistinct [] = Unit
IsDistinct (x ∷ xs) = (elem x xs ≡ false) × IsDistinct xs

-- The elements that pass a test, in order.
unfoldable pub keep : (Str → Bool) → List Str → List Str
keep p [] = []
keep p (x ∷ xs) = if p x then x ∷ keep p xs else keep p xs

-- Two lists hold the same strings.
abbrev pub SameIds : List Str → List Str → Type 0
SameIds xs ys = (z : Str) → elem z xs ≡ elem z ys

pub elem-append : (z : Str) (xs ys : List Str) → elem z (xs ++ ys) ≡ (elem z xs || elem z ys)
unfolding elem
elem-append z [] ys = refl
elem-append z (x ∷ xs) ys = ground (arith, elem-append z xs ys)

pub elem-keep : (p : Str → Bool) (z : Str) (xs : List Str) → elem z (keep p xs) ≡ (elem z xs && p z)
unfolding elem keep
elem-keep p z [] = refl
elem-keep p z (x ∷ xs) = ground (arith, elem-keep p z xs, str_eq_iff z x)

pub keep-IsDistinct : (p : Str → Bool) (xs : List Str) → IsDistinct xs → IsDistinct (keep p xs)
unfolding keep
keep-IsDistinct p [] d = tt
keep-IsDistinct p (x ∷ xs) d = ground (arith, keep-IsDistinct p xs d.1, elem-keep p x xs)

pub length-keep-le : (p : Str → Bool) (xs : List Str) → length (keep p xs) ≤ length xs
unfolding keep
length-keep-le p [] = omega arith
length-keep-le p (x ∷ xs) = ground (arith, length-keep-le p xs)

pub elem→All : (P : Str → Type 0) (xs : List Str) → ((z : Str) → elem z xs ≡ true → P z) → All P xs
unfolding elem
elem→All P [] h = tt
elem→All P (x ∷ xs) h =
    (h x (ground (arith, str_eq_refl x)), elem→All P xs (λ z e. h z (ground arith)))

pub All→elem : (P : Str → Type 0) (xs : List Str) (z : Str) → All P xs → elem z xs ≡ true → P z
unfolding elem
All→elem P [] z h e = absurd (cc)
All→elem P (x ∷ xs) z h e = elim (Bool-cases (str_eq z x)) [
  | inl q ↦ rw (str_eq→≡ z x q) h.0
  | inr q ↦ All→elem P xs z h.1 (ground arith)
]

-- A distinct list whose strings all stand in another is no longer than that.
remove : Str → List Str → List Str
remove z [] = []
remove z (x ∷ xs) = if str_eq z x then xs else x ∷ remove z xs

length-remove :
    (z : Str) (xs : List Str) → elem z xs ≡ true → length xs ≡ suc (length (remove z xs))
unfolding elem remove
length-remove z [] e = absurd (cc)
length-remove z (x ∷ xs) e = ground (arith, length-remove z xs)

elem-remove : (z w : Str) (xs : List Str) → str_eq w z ≡ false → elem w (remove z xs) ≡ elem w xs
unfolding elem remove
elem-remove z w [] h = refl
elem-remove z w (x ∷ xs) h = ground (arith, elem-remove z w xs h, str_eq_iff z x)

pub length-le_of_subset :
    (xs ys : List Str)
    → IsDistinct xs
    → ((z : Str) → elem z xs ≡ true → elem z ys ≡ true)
    → length xs ≤ length ys
unfolding elem
length-le_of_subset [] ys d h = omega arith
length-le_of_subset (x ∷ xs) ys d h = omega (
  arith,
  length-remove x ys (h x (ground (arith, str_eq_refl x))),
  length-le_of_subset xs (remove x ys) d.1
      (λ z e. elem-remove x z ys (ground (arith, str_eq_iff z x)) ∙ h z (ground arith)),
)

pub elem-take : (n : ℕ) (z : Str) (xs : List Str) → elem z (take n xs) ≡ true → elem z xs ≡ true
unfolding elem
elem-take zero z xs e = absurd (cc)
elem-take (suc n) z [] e = absurd (cc)
elem-take (suc n) z (x ∷ xs) e = ground (arith, elem-take n z xs)

pub take-IsDistinct : (n : ℕ) (xs : List Str) → IsDistinct xs → IsDistinct (take n xs)
take-IsDistinct zero xs d = tt
take-IsDistinct (suc n) [] d = tt
take-IsDistinct (suc n) (x ∷ xs) d =
    (ground (arith, elem-take n x xs, d.0), take-IsDistinct n xs d.1)

pub append-IsDistinct :
    (xs ys : List Str)
    → IsDistinct xs
    → IsDistinct ys
    → ((z : Str) → elem z xs ≡ true → elem z ys ≡ false)
    → IsDistinct (xs ++ ys)
unfolding elem
append-IsDistinct [] ys dx dy h = dy
append-IsDistinct (x ∷ xs) ys dx dy h = (
  ground (arith, elem-append x xs ys, h x, str_eq_refl x),
  append-IsDistinct xs ys dx.1 dy (λ z e. h z (ground arith)),
)

-- Distinct lists of the same strings are equally long.
pub length-SameIds :
    (xs ys : List Str) → IsDistinct xs → IsDistinct ys → SameIds xs ys → length xs ≡ length ys
length-SameIds xs ys dx dy h = omega (
  arith,
  length-le_of_subset xs ys dx (λ z e. sym (h z) ∙ e),
  length-le_of_subset ys xs dy (λ z e. h z ∙ e),
)

module _ (less : Str → Str → Bool) where
  pub elem-insert_by :
      (z x : Str) (ys : List Str) → elem z (insert_by less x ys) ≡ (str_eq z x || elem z ys)
  unfolding elem insert_by
  elem-insert_by z x [] = refl
  elem-insert_by z x (y ∷ ys) = ground (arith, elem-insert_by z x ys)

  pub elem-sort_by : (z : Str) (xs : List Str) → elem z (sort_by less xs) ≡ elem z xs
  unfolding elem sort_by
  elem-sort_by z [] = refl
  elem-sort_by z (x ∷ xs) = ground (arith, elem-insert_by z x (sort_by less xs), elem-sort_by z xs)

  insert_by-IsDistinct :
      (x : Str) (ys : List Str)
      → elem x ys ≡ false
      → IsDistinct ys
      → IsDistinct (insert_by less x ys)
  unfolding elem insert_by
  insert_by-IsDistinct x [] e d = (refl, tt)
  insert_by-IsDistinct x (y ∷ ys) e d =
      ground (arith, insert_by-IsDistinct x ys, elem-insert_by y x ys, str_eq_comm x y)

  pub sort_by-IsDistinct : (xs : List Str) → IsDistinct xs → IsDistinct (sort_by less xs)
  unfolding sort_by
  sort_by-IsDistinct [] d = tt
  sort_by-IsDistinct (x ∷ xs) d =
      insert_by-IsDistinct x (sort_by less xs) (elem-sort_by x xs ∙ d.0) (sort_by-IsDistinct xs d.1)

  module _ (antisymm : (a b : Str) → less a b ≡ false → less b a ≡ false → a ≡ b) where
    -- A sorted list without repetition is determined by its strings.
    pub sorted_ext :
        (xs ys : List Str)
        → IsDistinct xs
        → IsDistinct ys
        → IsSorted less xs
        → IsSorted less ys
        → SameIds xs ys
        → xs ≡ ys
    unfolding elem
    sorted_ext [] [] dx dy sx sy h = refl
    sorted_ext [] (y ∷ ys) dx dy sx sy h = absurd (ground (arith, h y, str_eq_refl y))
    sorted_ext (x ∷ xs) [] dx dy sx sy h = absurd (ground (arith, h x, str_eq_refl x))
    sorted_ext (x ∷ xs) (y ∷ ys) dx dy sx sy h =
        ap₂ ◌∷◌ heads (sorted_ext xs ys dx.1 dy.1 sx.1 sy.1 tails)
      where
        y_first : elem x ys ≡ true → less x y ≡ false
        y_first = All→elem (λ z. less z y ≡ false) ys x sy.0

        x_first : elem y xs ≡ true → less y x ≡ false
        x_first = All→elem (λ z. less z x ≡ false) xs y sx.0

        heads : x ≡ y
        heads = elim (Bool-cases (str_eq x y)) [
          | inl e ↦ str_eq→≡ x y e
          | inr e ↦
              antisymm x y (y_first (ground (arith, h x, str_eq_refl x)))
                (x_first (ground (arith, h y, str_eq_refl y, str_eq_comm x y)))
        ]

        tails : SameIds xs ys
        tails z = ground (arith, h z, heads, str_eq_iff z x, str_eq_iff z y, dx.0, dy.0)

-- Every id of the second list is in the first.
abbrev pub IsCovered : List Str → List Str → Type 0
IsCovered provided ids = (z : Str) → elem z ids ≡ true → elem z provided ≡ true

-- The first id of a list that another one does not have.
unfoldable pub first_absent : List Str → List Str → Option Str
first_absent provided [] = none
first_absent provided (x ∷ xs) = if elem x provided then first_absent provided xs else some x

none_absent :
    (provided xs : List Str)
    → first_absent provided xs ≡ none
    → (z : Str) → elem z xs ≡ true
    → elem z provided ≡ true
unfolding first_absent elem
none_absent provided [] h z e = absurd (cc)
none_absent provided (x ∷ xs) h z e =
    ground
      (arith, λ (q : first_absent provided xs ≡ none). none_absent provided xs q z, str_eq_iff z x)

all_provided : (provided xs : List Str) → IsCovered provided xs → first_absent provided xs ≡ none
unfolding first_absent elem
all_provided provided [] h = refl
all_provided provided (x ∷ xs) h =
    rw (h x (ground (arith, str_eq_refl x))) (all_provided provided xs (λ z e. h z (ground arith)))

pub first_absent_iff :
    (provided xs : List Str) → (first_absent provided xs ≡ none) ↔ IsCovered provided xs
first_absent_iff provided xs = (none_absent provided xs, all_provided provided xs)
