-- ===== src/Committee/Settings.antt =====
-- pkg/committee/config.go: the policy from the settings. What viper holds is a record: each key as
-- viper returns it, `none` where it is not set.
use aicw_node.Base.{
  zero, ◌≡◌, refl, inl, inr, Bool, Option, none, some, List, [], ◌∷◌, arith, ℤ, pos, ◌+ℤ◌, Result,
  ok, err, Option-cases,
}
use aicw_node.Committee.Policy.{
  Policy, default_policy, CommitteeError, validate_tier, validate_tiers, validate,
}

-- The block `committee_policy`: its unmarshalled policy, `none` for one that does not unmarshal.
pub record PolicySettings : Type 0 where
  pub policy_block : Option (Option Policy)
  pub mpc_threshold : Option ℤ
  pub keygen_filter_enabled : Bool

pub data LoadError : Type 0 where
  unmarshal_failed : LoadError
  invalid : CommitteeError → LoadError

non_zero : ℤ → ℤ → ℤ
non_zero (pos zero) default = default
non_zero n default = n

non_empty {ℓ} : {A : Type ℓ} → List A → List A → List A
non_empty [] default = default
non_empty (x ∷ xs) default = x ∷ xs

network_threshold : Option ℤ → ℤ
network_threshold none = default_policy.mpc_threshold
network_threshold (some n) = n

-- The fields that a partial block leaves out.
unfoldable pub complete : Option ℤ → Policy → Policy
unfolding non_zero non_empty network_threshold default_policy
complete threshold p = record {
  version = non_empty p.version default_policy.version;
  cap = non_zero p.cap default_policy.cap;
  mpc_threshold = non_zero p.mpc_threshold (network_threshold threshold);
  tiers = non_empty p.tiers default_policy.tiers;
}

checked : Policy → Result CommitteeError (Unit {0}) → Result LoadError Policy
checked p (ok u) = ok p
checked p (err e) = err (invalid e)

unfoldable pub load_policy : PolicySettings → Result LoadError Policy
unfolding checked
load_policy s = elim s.policy_block [
  | none ↦ ok default_policy
  | some none ↦ err unmarshal_failed
  | some (some p) ↦ let full = complete s.mpc_threshold p in checked full (validate full)
]

checked_ok :
    (p q : Policy) (r : Result CommitteeError (Unit {0}))
    → checked p r ≡ ok q
    → (r ≡ ok tt) × (p ≡ q)
unfolding checked
checked_ok p q (ok u) h = (refl, cc)
checked_ok p q (err e) h = absurd (cc)

-- Every policy that loads is valid, the default one included.
pub load_policy-validate :
    (s : PolicySettings) (p : Policy) → load_policy s ≡ ok p → validate p ≡ ok tt
unfolding load_policy default_policy validate validate_tiers validate_tier ◌+ℤ◌
load_policy-validate s p h = elim (Option-cases s.policy_block) [
  | inl e ↦ let q : default_policy ≡ p = ground arith in rw⁻¹ q (refl)
  | inr (none, e) ↦ absurd (ground arith)
  | inr (some block, e) ↦
      let full = complete s.mpc_threshold block in
      let (valid, same) = checked_ok full p (validate full) (rw e at h) in rw⁻¹ same valid
]
