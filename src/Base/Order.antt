-- ===== src/Base/Order.antt =====
-- Strict total orders given by a Boolean test, and the stable insertion sort by such a test.
use mathlib.Core.Path.{◌≡◌, refl}
use mathlib.Core.Bool.{Bool, true, false}
use mathlib.Core.List.{List, [], ◌∷◌}
use Prim.Native.Nat.{suc}
use native.Mathlib.Omega.{arith}
use aicw_node.Base.Tests.{if◌then◌else◌, Bool-cases}
use aicw_node.Base.Lists.{All, All-map, length}
use mathlib.Core.Logic.{inl, inr}

-- `less` is a strict weak order.
pub record IsWeakOrder {ℓ} {A : Type ℓ} (less : A → A → Bool) : Type ℓ where
  pub asymm : (a b : A) → less a b ≡ true → less b a ≡ false
  pub le_trans : (a b c : A) → less b a ≡ false → less c b ≡ false → less c a ≡ false

module _ {ℓ} {A : Type ℓ} (less : A → A → Bool) where
  -- What the library's `sort.Strings`, `sort.Slice` and `sort.SliceStable` leave: the elements in
  -- order, equal ones as they stood.
  unfoldable pub insert_by : A → List A → List A
  insert_by x [] = x ∷ []
  insert_by x (y ∷ ys) = if less y x then y ∷ insert_by x ys else x ∷ y ∷ ys

  unfoldable pub sort_by : List A → List A
  unfolding insert_by
  sort_by [] = []
  sort_by (x ∷ xs) = insert_by x (sort_by xs)

  -- No element is less than one before it.
  abbrev pub IsSorted : List A → Type ℓ
  IsSorted [] = Unit
  IsSorted (x ∷ xs) = All (λ y. less y x ≡ false) xs × IsSorted xs

  pub length-insert_by : (x : A) (ys : List A) → length (insert_by x ys) ≡ suc (length ys)
  unfolding insert_by
  length-insert_by x [] = refl
  length-insert_by x (y ∷ ys) = ground (arith, length-insert_by x ys)

  pub length-sort_by : (xs : List A) → length (sort_by xs) ≡ length xs
  unfolding sort_by
  length-sort_by [] = refl
  length-sort_by (x ∷ xs) = omega (arith, length-insert_by x (sort_by xs), length-sort_by xs)

  pub All-insert_by {κ} :
      (P : A → Type κ) (x : A) (ys : List A) → P x → All P ys → All P (insert_by x ys)
  unfolding insert_by
  All-insert_by P x [] px pys = (px, tt)
  All-insert_by P x (y ∷ ys) px pys = elim (Bool-cases (less y x)) [
    | inl e ↦ rw e (pys.0, All-insert_by P x ys px pys.1)
    | inr e ↦ rw e (px, pys)
  ]

  pub All-sort_by {κ} : (P : A → Type κ) (xs : List A) → All P xs → All P (sort_by xs)
  unfolding sort_by
  All-sort_by P [] h = tt
  All-sort_by P (x ∷ xs) h = All-insert_by P x (sort_by xs) h.0 (All-sort_by P xs h.1)

  All-insert_by_inv {κ} :
      (P : A → Type κ) (x : A) (ys : List A) → All P (insert_by x ys) → P x × All P ys
  unfolding insert_by
  All-insert_by_inv P x [] h = h
  All-insert_by_inv P x (y ∷ ys) h = elim (Bool-cases (less y x)) [
    | inl e ↦
        let h' : P y × All P (insert_by x ys) = rw (e, insert_by) at h in
        let rest = All-insert_by_inv P x ys h'.1 in (rest.0, (h'.0, rest.1))
    | inr e ↦ rw (e, insert_by) at h
  ]

  pub All-sort_by_inv {κ} : (P : A → Type κ) (xs : List A) → All P (sort_by xs) → All P xs
  unfolding sort_by
  All-sort_by_inv P [] h = tt
  All-sort_by_inv P (x ∷ xs) h =
      let parts = All-insert_by_inv P x (sort_by xs) h in (parts.0, All-sort_by_inv P xs parts.1)

  module _ (order : IsWeakOrder less) where
    insert_by-IsSorted : (x : A) (ys : List A) → IsSorted ys → IsSorted (insert_by x ys)
    unfolding insert_by
    insert_by-IsSorted x [] s = (tt, tt)
    insert_by-IsSorted x (y ∷ ys) s = elim (Bool-cases (less y x)) [
      | inl e ↦ rw e (
        All-insert_by (λ z. less z y ≡ false) x ys (order.asymm y x e) s.0,
        insert_by-IsSorted x ys s.1,
      )
      | inr e ↦ rw e (
        (
          e,
          All-map (λ z. less z y ≡ false) (λ z. less z x ≡ false) ys
              (λ z h. order.le_trans x y z e h) s.0,
        ),
        s,
      )
    ]

    pub sort_by-IsSorted : (xs : List A) → IsSorted (sort_by xs)
    unfolding sort_by
    sort_by-IsSorted [] = tt
    sort_by-IsSorted (x ∷ xs) = insert_by-IsSorted x (sort_by xs) (sort_by-IsSorted xs)
