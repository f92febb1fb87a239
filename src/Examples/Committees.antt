-- ===== src/Examples/Committees.antt =====
-- Committees of the default policy, with the identity for the hash.
use aicw_node.Base.{
  ◌≡◌, refl, ◌<◌, true, false, some, List, [], ◌∷◌, Str, text, str_eq, str_less, elem, SameIds, ℤ,
  pos, ◌+ℤ◌, ◌≤ℤ◌, ◌<ℤ◌, ℕ, ◌≤◌, sort_by, insert_by, keep, ok, err, ◌⊎◌, length, arith,
}
use aicw_node.Committee.Policy.{
  default_policy, validate, validate_tiers, validate_tier, policy_hash, tier_for, first_fit, min3,
  decimal, format_tiers, last_tier, sorted_tiers, target_size, empty_pool, no_quorum,
}
use aicw_node.Committee.Select.{
  Plan, contains, select_committee, unique_sorted, unique_from, form, form_sized, choose, fill,
  fill_candidates, sort_by_hash, retained_members, trim, hash_key, hash_less, retain_from,
}
use aicw_node.Committee.Pool.{SameNodes}
use aicw_node.Committee.Determinism.{select_deterministic}
use aicw_node.Committee.Plan.{plan_of, select_outcome}
use aicw_node.Committee.Members.{IsPlanFor, select-IsPlanFor, select_retains}

abbrev sha : Str → Str
sha s = s

abbrev wallet : Str
wallet = text "w1"

abbrev active : List Str
active = text "n1" ∷ text "n2" ∷ text "n3" ∷ text "n4" ∷ text "n5" ∷ []

abbrev shuffled : List Str
shuffled = text "n5" ∷ [] ∷ text "n3" ∷ text "n1" ∷ text "n2" ∷ text "n4" ∷ text "n3" ∷ []

abbrev old : List Str
old = text "n4" ∷ text "n9" ∷ text "n2" ∷ []

valid : validate default_policy ≡ ok tt
unfolding validate default_policy ◌+ℤ◌ validate_tiers validate_tier
valid = refl

abbrev plan : Plan
plan = record {
  node_ids = text "n1" ∷ text "n2" ∷ text "n3" ∷ text "n4" ∷ [];
  threshold = pos 2;
  spare = pos 1;
  committee_size = pos 4;
  hash = policy_hash sha default_policy;
  version = text "2";
}

named : str_eq wallet [] ≡ false
unfolding str_eq
named = refl

chosen : select_committee sha default_policy wallet old active ≡ ok plan
unfolding select_committee default_policy unique_sorted ◌+ℤ◌ validate_tiers validate_tier validate
    str_eq sort_by unique_from elem str_less tier_for first_fit form form_sized min3 choose fill
    fill_candidates sort_by_hash keep retained_members trim insert_by decimal format_tiers last_tier
    policy_hash sorted_tiers hash_key hash_less retain_from
chosen = refl

same_nodes : SameNodes active shuffled
unfolding elem
same_nodes z n = ground (arith, n)

select_deterministic_example :
    select_committee sha default_policy wallet old active
    ≡ select_committee sha default_policy wallet (text "n2" ∷ text "n4" ∷ text "n9" ∷ []) shuffled
select_deterministic_example =
    select_deterministic sha default_policy wallet old (text "n2" ∷ text "n4" ∷ text "n9" ∷ [])
      active shuffled same_old same_nodes
  where
    same_old : SameIds old (text "n2" ∷ text "n4" ∷ text "n9" ∷ [])
    same_old z = unfold elem in ground arith

select-IsPlanFor_example : IsPlanFor default_policy active plan
select-IsPlanFor_example = select-IsPlanFor sha default_policy wallet old active plan chosen

select_retains_example :
    ((z : Str)
      → elem z old ≡ true
      → elem z active ≡ true
      → str_eq z [] ≡ false
      → contains plan z ≡ true)
    ⊎ ((z : Str) → contains plan z ≡ true → elem z old ≡ true)
select_retains_example = select_retains sha default_policy wallet old active plan chosen

select_outcome_example :
    ((length (unique_sorted active) ≡ 0)
      × (select_committee sha default_policy wallet old active ≡ err empty_pool))
    ⊎ ((0 < length (unique_sorted active))
        × (pos (length (unique_sorted active)) <ℤ default_policy.mpc_threshold +ℤ pos 1)
        × (select_committee sha default_policy wallet old active ≡ err no_quorum))
    ⊎ ((default_policy.mpc_threshold +ℤ pos 1 ≤ℤ pos (length (unique_sorted active)))
        × ((s : ℕ) × (spare : ℤ) × (default_policy.mpc_threshold +ℤ pos 1 ≤ℤ pos s)
            × (pos s ≤ℤ default_policy.cap)
            × (s ≤ length (unique_sorted active))
            × (target_size default_policy (length (unique_sorted active)) ≡ some (pos s))
            × (select_committee sha default_policy wallet old active
                ≡ ok (plan_of sha default_policy wallet old (unique_sorted active) s spare))))
select_outcome_example = select_outcome sha default_policy wallet old active valid named
