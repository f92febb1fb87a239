-- ===== src/Base/Hex.antt =====
-- The library's encoding/hex: a byte is a number below 256, a digit its character code.
use Prim.Native.Nat.{ℕ, ◌+◌, ◌-◌, ◌*◌, ◌/◌, ◌%◌, ◌≤◌, ◌<◌}
use mathlib.Core.Path.{◌≡◌, refl, ap, ap₂, ◌∙◌}
use mathlib.Core.Bool.{Bool, true, false, ◌&&◌}
use mathlib.Core.Option.{Option, none, some}
use mathlib.Core.List.{[], ◌∷◌}
use native.Mathlib.Omega.{arith}
use aicw_node.Base.Tests.{if◌then◌else◌, leb, ltb}
use aicw_node.Base.Lists.{All, length}
use aicw_node.Base.Strings.{Str}

abbrev pub IsBytes : Str → Type 0
IsBytes s = All (λ n. n < 256) s

-- The characters 0-9, a-f and A-F.
unfoldable pub hex_value : ℕ → Option ℕ
hex_value c =
    if leb 48 c && leb c 57
    then some (c - 48)
    else if leb 97 c && leb c 102
    then some (c - 87)
    else if leb 65 c && leb c 70
    then some (c - 55)
    else none

hex_pair : Option ℕ → Option ℕ → Option ℕ
hex_pair (some a) (some b) = some (16 * a + b)
hex_pair _ _ = none

hex_step : Option ℕ → Str × Bool → Str × Bool
hex_step none rest = ([], false)
hex_step (some n) (bytes, fine) = (n ∷ bytes, fine)

-- DecodeString: the bytes before the first malformed pair, and whether there is none.
unfoldable pub hex_decode : Str → Str × Bool
unfolding hex_pair hex_step
hex_decode [] = ([], true)
hex_decode (c ∷ []) = ([], false)
hex_decode (c ∷ d ∷ s) = hex_step (hex_pair (hex_value c) (hex_value d)) (hex_decode s)

unfoldable pub hex_digit : ℕ → ℕ
hex_digit n = if ltb n 10 then 48 + n else 87 + n

-- EncodeToString.
unfoldable pub hex_encode : Str → Str
hex_encode [] = []
hex_encode (n ∷ s) = hex_digit (n / 16) ∷ hex_digit (n % 16) ∷ hex_encode s

hex_value-hex_digit : (n : ℕ) → n < 16 → hex_value (hex_digit n) ≡ some n
unfolding hex_value hex_digit
hex_value-hex_digit n h = ground arith

hex_pair-hex_digit :
    (n : ℕ)
    → n < 256
    → hex_pair (hex_value (hex_digit (n / 16))) (hex_value (hex_digit (n % 16))) ≡ some n
unfolding hex_pair
hex_pair-hex_digit n h =
    ap₂ hex_pair (hex_value-hex_digit (n / 16) (omega arith))
      (hex_value-hex_digit (n % 16) (omega arith))
    ∙ ap some (omega arith)

pub hex_decode-hex_encode : (s : Str) → IsBytes s → hex_decode (hex_encode s) ≡ (s, true)
unfolding hex_decode hex_encode
hex_decode-hex_encode [] h = refl
hex_decode-hex_encode (n ∷ s) h =
    ap₂ hex_step (hex_pair-hex_digit n h.0) (hex_decode-hex_encode s h.1)

pub length-hex_encode : (s : Str) → length (hex_encode s) ≡ 2 * length s
unfolding hex_encode
length-hex_encode [] = refl
length-hex_encode (n ∷ s) = omega (arith, length-hex_encode s)

length-hex_step : (o : Option ℕ) (r : Str × Bool) → length (hex_step o r).0 ≤ length r.0 + 1
unfolding hex_step
length-hex_step none r = omega arith
length-hex_step (some n) r = omega arith

pub length-hex_decode : (s : Str) → 2 * length (hex_decode s).0 ≤ length s
unfolding hex_decode
length-hex_decode [] = omega arith
length-hex_decode (c ∷ []) = omega arith
length-hex_decode (c ∷ d ∷ s) = omega (
  arith,
  length-hex_step (hex_pair (hex_value c) (hex_value d)) (hex_decode s),
  length-hex_decode s,
)
