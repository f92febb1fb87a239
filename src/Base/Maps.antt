-- ===== src/Base/Maps.antt =====
-- A Go map with string keys as an association list. A read takes the first entry of a key, a write
-- replaces it, and the order of the list is the order of `range`, which Go leaves open.
use mathlib.Core.Path.{◌≡◌, refl}
use mathlib.Core.Bool.{Bool, true, false, not, ◌&&◌, ◌||◌}
use mathlib.Core.List.{List, [], ◌∷◌}
use mathlib.Core.Option.{Option, none, some}
use native.Mathlib.Omega.{arith}
use aicw_node.Base.Tests.{if◌then◌else◌}
use aicw_node.Base.Strings.{Str, str_eq, str_eq_iff, str_eq_comm}
use aicw_node.Base.Ids.{elem, IsDistinct}

abbrev pub Dict : Type 0 → Type 0
Dict V = List (Str × V)

module _ {V : Type 0} where
  unfoldable pub lookup : Str → Dict V → Option V
  lookup k [] = none
  lookup k ((j, v) ∷ m) = if str_eq k j then some v else lookup k m

  unfoldable pub insert : Str → V → Dict V → Dict V
  insert k v [] = (k, v) ∷ []
  insert k v ((j, w) ∷ m) = if str_eq k j then (k, v) ∷ m else (j, w) ∷ insert k v m

  unfoldable pub delete : Str → Dict V → Dict V
  delete k [] = []
  delete k ((j, w) ∷ m) = if str_eq k j then delete k m else (j, w) ∷ delete k m

  pub lookup-insert :
      (j k : Str) (v : V) (m : Dict V)
      → lookup j (insert k v m) ≡ (if str_eq j k then some v else lookup j m)
  unfolding lookup insert
  lookup-insert j k v [] = refl
  lookup-insert j k v ((i, w) ∷ m) =
      ground (arith, str_eq_iff j k, str_eq_iff k i, str_eq_iff j i, lookup-insert j k v m)

  pub lookup-delete :
      (j k : Str) (m : Dict V) → lookup j (delete k m) ≡ (if str_eq j k then none else lookup j m)
  unfolding lookup delete
  lookup-delete j k [] = ground arith
  lookup-delete j k ((i, w) ∷ m) =
      ground (arith, str_eq_iff j k, str_eq_iff k i, str_eq_iff j i, lookup-delete j k m)

-- The zero value for a missing key.
abbrev pub or_zero {ℓ} : {A : Type ℓ} → A → Option A → A
or_zero z none = z
or_zero z (some a) = a

-- Whether a key is there, the second result of a Go read.
abbrev pub defined {ℓ} : {A : Type ℓ} → Option A → Bool
defined none = false
defined (some a) = true

abbrev pub or_else {ℓ} : {A : Type ℓ} → Option A → Option A → Option A
or_else none b = b
or_else (some a) b = some a

-- A `map[string]bool`, read with false for a missing key.
unfoldable pub flag : Str → Dict Bool → Bool
flag k m = or_zero false (lookup k m)

abbrev pub keys : {V : Type 0} → Dict V → List Str
keys [] = []
keys ((k, v) ∷ m) = k ∷ keys m

module _ {V : Type 0} where
  pub elem-insert :
      (z k : Str) (v : V) (m : Dict V)
      → elem z (keys (insert k v m)) ≡ (str_eq z k || elem z (keys m))
  unfolding elem insert
  elem-insert z k v [] = refl
  elem-insert z k v ((j, w) ∷ m) = ground (arith, str_eq_iff k j, elem-insert z k v m)

  pub elem-delete :
      (z k : Str) (m : Dict V) → elem z (keys (delete k m)) ≡ (elem z (keys m) && not (str_eq z k))
  unfolding elem delete
  elem-delete z k [] = refl
  elem-delete z k ((j, w) ∷ m) =
      ground (arith, str_eq_iff k j, str_eq_iff z j, str_eq_iff z k, elem-delete z k m)

  pub elem-keys : (z : Str) (m : Dict V) → elem z (keys m) ≡ defined (lookup z m)
  unfolding elem lookup
  elem-keys z [] = refl
  elem-keys z ((j, w) ∷ m) = ground (arith, elem-keys z m)

  pub insert-IsDistinct :
      (k : Str) (v : V) (m : Dict V) → IsDistinct (keys m) → IsDistinct (keys (insert k v m))
  unfolding elem insert
  insert-IsDistinct k v [] d = (refl, tt)
  insert-IsDistinct k v ((j, w) ∷ m) d =
      ground
        (arith, str_eq_iff k j, str_eq_comm j k, elem-insert j k v m, insert-IsDistinct k v m d.1)

  pub delete-IsDistinct :
      (k : Str) (m : Dict V) → IsDistinct (keys m) → IsDistinct (keys (delete k m))
  unfolding delete
  delete-IsDistinct k [] d = tt
  delete-IsDistinct k ((j, w) ∷ m) d = ground (arith, elem-delete j k m, delete-IsDistinct k m d.1)
