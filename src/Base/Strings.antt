-- ===== src/Base/Strings.antt =====
-- A Go string as its bytes: equality, the order of `<`, and sets of strings as lists.
use Prim.Native.Nat.{ℕ}
use Prim.Native.Char.{code}
use Prim.Native.String.{String}
use mathlib.Core.Path.{◌≡◌, refl}
use mathlib.Core.Logic.{◌↔◌}
use mathlib.Core.Bool.{Bool, true, false, ◌&&◌}
use mathlib.Core.List.{List, [], ◌∷◌}
use native.Mathlib.Omega.{arith}
use aicw_node.Base.Tests.{if◌then◌else◌, ltb, ◌==◌}

abbrev pub Str : Type 0
Str = List ℕ

-- A text literal of the source, all ASCII.
abbrev pub text : String → Str
text String.[] = []
text (String.◌∷◌ c s) = code c ∷ text s

unfoldable pub str_eq : Str → Str → Bool
str_eq [] [] = true
str_eq [] (y ∷ ys) = false
str_eq (x ∷ xs) [] = false
str_eq (x ∷ xs) (y ∷ ys) = x == y && str_eq xs ys

unfoldable pub str_less : Str → Str → Bool
str_less [] [] = false
str_less [] (y ∷ ys) = true
str_less (x ∷ xs) [] = false
str_less (x ∷ xs) (y ∷ ys) =
    let rest = str_less xs ys in if ltb x y then true else if ltb y x then false else rest

pub str_eq_refl : (a : Str) → str_eq a a ≡ true
unfolding str_eq
str_eq_refl [] = refl
str_eq_refl (x ∷ a) = ground (arith, str_eq_refl a)

pub str_eq→≡ : (a b : Str) → str_eq a b ≡ true → a ≡ b
unfolding str_eq
str_eq→≡ [] [] h = refl
str_eq→≡ [] (y ∷ b) h = cc
str_eq→≡ (x ∷ a) [] h = cc
str_eq→≡ (x ∷ a) (y ∷ b) h = ground (arith, str_eq→≡ a b)

pub str_eq_iff : (a b : Str) → (str_eq a b ≡ true) ↔ (a ≡ b)
str_eq_iff a b = (str_eq→≡ a b, λ e. rw e (str_eq_refl b))

pub str_eq_comm : (a b : Str) → str_eq a b ≡ str_eq b a
str_eq_comm a b = ground (arith, str_eq_iff a b, str_eq_iff b a)

pub str_less-asymm : (a b : Str) → str_less a b ≡ true → str_less b a ≡ false
unfolding str_less
str_less-asymm [] [] h = refl
str_less-asymm [] (y ∷ b) h = refl
str_less-asymm (x ∷ a) [] h = cc
str_less-asymm (x ∷ a) (y ∷ b) h = ground (arith, str_less-asymm a b)

pub str_less-le_trans :
    (a b c : Str) → str_less b a ≡ false → str_less c b ≡ false → str_less c a ≡ false
unfolding str_less
str_less-le_trans [] b [] h k = refl
str_less-le_trans [] [] (z ∷ c) h k = refl
str_less-le_trans [] (y ∷ b) (z ∷ c) h k = refl
str_less-le_trans (x ∷ a) [] c h k = cc
str_less-le_trans (x ∷ a) (y ∷ b) [] h k = cc
str_less-le_trans (x ∷ a) (y ∷ b) (z ∷ c) h k = ground (arith, str_less-le_trans a b c)

pub str_less_antisymm : (a b : Str) → str_less a b ≡ false → str_less b a ≡ false → a ≡ b
unfolding str_less
str_less_antisymm [] [] h k = refl
str_less_antisymm [] (y ∷ b) h k = cc
str_less_antisymm (x ∷ a) [] h k = cc
str_less_antisymm (x ∷ a) (y ∷ b) h k = ground (arith, str_less_antisymm a b)
