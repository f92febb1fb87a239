-- ===== src/Committee/Policy.antt =====
-- pkg/committee/committee.go: the policy, its validation, its tiers and its hash.
-- `sha` is the hash crypto/sha256 with the hex encoding of its sum, a parameter.
-- sort.Slice keeps no order between tiers of one max_active; the model sorts stably, as
-- sort.Slice does for lists of up to 12 elements.

use mathlib.Core.Option
use aicw_node.Base.{
  ℕ, zero, suc, ◌+◌, ◌/◌, ◌%◌, Bool, true, false, not, Option, none, some, List, [], ◌∷◌, ◌++◌, ltb,
  if◌then◌else◌, Str, text, ℤ, pos, negsuc, ◌+ℤ◌, ltb_int, sort_by, Result, ok, guard, ◌>>◌,
}

pub record Tier : Type 0 where
  pub max_active : ℤ
  pub committee_size : ℤ
  pub spare : ℤ

pub record Policy : Type 0 where
  pub version : Str
  pub cap : ℤ
  pub mpc_threshold : ℤ
  pub tiers : List Tier

abbrev tier : ℕ → ℕ → ℕ → Tier
tier m c s = record { max_active = pos m; committee_size = pos c; spare = pos s }

unfoldable pub default_policy : Policy
default_policy = record {
  version = text "2";
  cap = pos 7;
  mpc_threshold = pos 2;
  tiers = tier 4 3 0 ∷ tier 10 4 1 ∷ tier 30 5 2 ∷ tier 100 6 3 ∷ tier 999999 7 4 ∷ [];
}

-- The errors of the package; the numbers of a message are left out.
pub data CommitteeError : Type 0 where
  bad_threshold bad_cap no_tiers bad_max_active bad_size bad_spare : CommitteeError
  no_wallet_id empty_pool no_quorum insufficient : CommitteeError

-- The body of the loop of Validate.
unfoldable pub validate_tier : ℤ → Tier → Result CommitteeError (Unit {0})
validate_tier threshold t = do
  guard (not (ltb_int t.max_active (pos 1))) bad_max_active
  guard (not (ltb_int t.committee_size (threshold +ℤ pos 1))) bad_size
  guard (not (ltb_int t.spare (pos 0))) bad_spare

unfoldable pub validate_tiers : ℤ → List Tier → Result CommitteeError (Unit {0})
validate_tiers threshold [] = ok tt
validate_tiers threshold (t ∷ ts) = do validate_tier threshold t; validate_tiers threshold ts

is_empty {ℓ} : {A : Type ℓ} → List A → Bool
is_empty [] = true
is_empty (x ∷ xs) = false

unfoldable pub validate : Policy → Result CommitteeError (Unit {0})
unfolding is_empty
validate p = do
  guard (not (ltb_int p.mpc_threshold (pos 1))) bad_threshold
  guard (not (ltb_int p.cap (p.mpc_threshold +ℤ pos 1))) bad_cap
  guard (not (is_empty p.tiers)) no_tiers
  validate_tiers p.mpc_threshold p.tiers

abbrev pub tier_less : Tier → Tier → Bool
tier_less a b = ltb_int a.max_active b.max_active

unfoldable pub sorted_tiers : Policy → List Tier
sorted_tiers p = sort_by tier_less p.tiers

-- The loop of TierFor: the first tier that the count fits.
unfoldable pub first_fit : List Tier → ℕ → Option Tier
first_fit [] n = none
first_fit (t ∷ ts) n = if ltb_int t.max_active (pos n) then first_fit ts n else some t

unfoldable pub last_tier : List Tier → Option Tier
last_tier [] = none
last_tier (t ∷ []) = some t
last_tier (t ∷ u ∷ ts) = last_tier (u ∷ ts)

-- `none` is the panic of `tiers[len(tiers)-1]` on a policy without tiers.
unfoldable pub tier_for : Policy → ℕ → Option (ℤ × ℤ)
unfolding sorted_tiers
tier_for p active = elim (first_fit (sorted_tiers p) active) [
  | some t ↦ some (t.committee_size, t.spare)
  | none ↦ Option.map (λ t. (t.committee_size, t.spare)) (last_tier (sorted_tiers p))
]

unfoldable pub min3 : ℤ → ℤ → ℤ → ℤ
min3 a b c = let m = if ltb_int b a then b else a in if ltb_int c m then c else m

unfoldable pub target_size : Policy → ℕ → Option ℤ
target_size p active = Option.map (λ r. min3 (pos active) p.cap r.0) (tier_for p active)

-- The verb %d: the decimal digits, most significant first.
digits_from : ℕ → ℕ → Str
digits_from zero n = []
digits_from (suc fuel) n =
    let rest = digits_from fuel (n / 10) in (if ltb n 10 then [] else rest) ++ (b'0' + n % 10) ∷ []

unfoldable pub decimal : ℤ → Str
unfolding digits_from
decimal (pos n) = digits_from (suc n) n
decimal (negsuc n) = b'-' ∷ digits_from (suc (suc n)) (suc n)

unfoldable pub format_tiers : List Tier → Str
format_tiers [] = []
format_tiers (t ∷ ts) =
    text "["
    ++ (decimal t.max_active
        ++ (text ","
            ++ (decimal t.committee_size
                ++ (text "," ++ (decimal t.spare ++ (text "]" ++ format_tiers ts))))))

unfoldable pub policy_hash : (Str → Str) → Policy → Str
policy_hash sha p = sha (
    text "v="
    ++ (p.version
        ++ (text ";cap="
            ++ (decimal p.cap
                ++ (text ";t="
                    ++ (decimal p.mpc_threshold ++ (text ";" ++ format_tiers (sorted_tiers p))))))))
