-- ===== src/Committee/Select.antt =====
-- pkg/committee/committee.go: SelectCommittee and its helpers. `sha` is the hex sha256, as in
-- Policy.
use aicw_node.Base.{
  Bool, not, ◌||◌, Option, none, some, List, [], ◌∷◌, ◌++◌, if◌then◌else◌, Str, text, str_eq,
  str_less, elem, keep, ℤ, pos, pos_part, ◌+ℤ◌, ltb_int, eqb_int, sort_by, length, take, Result, ok,
  err, guard, ◌>>=◌, ◌>>◌,
}
use aicw_node.Committee.Policy.{
  Policy, CommitteeError, no_wallet_id, empty_pool, no_quorum, insufficient, no_tiers, validate,
  tier_for, min3, policy_hash,
}

pub record Plan : Type 0 where
  pub node_ids : List Str
  pub threshold : ℤ
  pub spare : ℤ
  pub committee_size : ℤ
  pub hash : Str
  pub version : Str

unfoldable pub contains : Plan → Str → Bool
contains plan id = elem id plan.node_ids

unfoldable pub hash_key : (Str → Str) → Str → Str → Str → Str
hash_key sha wallet node version = sha (wallet ++ (text "|" ++ (node ++ (text "|" ++ version))))

-- The test that sortByHash hands to sort.SliceStable.
unfoldable pub hash_less : (Str → Str) → Str → Str → Str → Str → Bool
hash_less sha wallet version a b =
    let ha = hash_key sha wallet a version in
    let hb = hash_key sha wallet b version in if str_eq ha hb then str_less a b else str_less ha hb

unfoldable pub sort_by_hash : (Str → Str) → Str → Str → List Str → List Str
sort_by_hash sha wallet version ids = sort_by (hash_less sha wallet version) ids

-- The loop of uniqueSorted; `seen` is the map of that name.
unfoldable pub unique_from : List Str → List Str → List Str
unique_from seen [] = []
unique_from seen (id ∷ ids) =
    let skip = str_eq id [] || elem id seen in
    let rest = unique_from (if skip then seen else id ∷ seen) ids in
    if skip then rest else id ∷ rest

unfoldable pub unique_sorted : List Str → List Str
unique_sorted ids = sort_by str_less (unique_from [] ids)

-- Step 3: the old members that are still in the pool; `seen` is retainedSet.
unfoldable pub retain_from : List Str → List Str → List Str → List Str
retain_from pool seen [] = []
retain_from pool seen (id ∷ ids) =
    let skip = not (elem id pool) || elem id seen in
    let rest = retain_from pool (if skip then seen else id ∷ seen) ids in
    if skip then rest else id ∷ rest

unfoldable pub trim : (Str → Str) → Str → Str → ℤ → List Str → List Str
trim sha wallet version size retained =
    if ltb_int size (pos (length retained))
    then take (pos_part size) (sort_by_hash sha wallet version retained)
    else retained

-- The loop of step 4, which stops at `size`.
unfoldable pub fill : ℤ → List Str → List Str → List Str
fill size committee [] = committee
fill size committee (id ∷ ids) =
    let rest = fill size (committee ++ id ∷ []) ids in
    if ltb_int (pos (length committee)) size then rest else committee

unfoldable pub retained_members : (Str → Str) → Str → Str → ℤ → List Str → List Str → List Str
retained_members sha wallet version size old pool =
    trim sha wallet version size (retain_from pool [] old)

unfoldable pub fill_candidates : (Str → Str) → Str → Str → List Str → List Str → List Str
fill_candidates sha wallet version retained pool =
    sort_by_hash sha wallet version (keep (λ id. not (elem id retained)) pool)

-- Steps 3 and 4.
unfoldable pub choose : (Str → Str) → Str → Str → ℤ → List Str → List Str → List Str
choose sha wallet version size old pool =
    let retained = retained_members sha wallet version size old pool in
    fill size retained (fill_candidates sha wallet version retained pool)

-- The part of SelectCommittee behind the committee's size.
unfoldable pub form_sized :
    (Str → Str) → Policy → Str → List Str → List Str → ℤ → ℤ → Result CommitteeError Plan
form_sized sha p wallet old pool spare size = do
  guard (not (ltb_int size (p.mpc_threshold +ℤ pos 1))) no_quorum
  let committee = choose sha wallet p.version size old pool
  guard (eqb_int (pos (length committee)) size) insufficient
  ok (record {
    node_ids = sort_by str_less committee;
    threshold = p.mpc_threshold;
    spare = spare;
    committee_size = size;
    hash = policy_hash sha p;
    version = p.version;
  })

-- With the tier's size and spare.
unfoldable pub form :
    (Str → Str) → Policy → Str → List Str → List Str → ℤ × ℤ → Result CommitteeError Plan
form sha p wallet old pool (tier_size, spare) =
    form_sized sha p wallet old pool spare (min3 (pos (length pool)) p.cap tier_size)

-- The panic of TierFor on a policy without tiers stands behind Validate.
or_no_tiers : {A : Type 0} → Option A → Result CommitteeError A
or_no_tiers none = err no_tiers
or_no_tiers (some a) = ok a

unfoldable pub select_committee :
    (Str → Str) → Policy → Str → List Str → List Str → Result CommitteeError Plan
unfolding or_no_tiers
select_committee sha p wallet old active = do
  validate p
  guard (not (str_eq wallet [])) no_wallet_id
  let pool = unique_sorted active
  guard (not (eqb_int (pos (length pool)) (pos 0))) empty_pool
  tier ← or_no_tiers (tier_for p (length pool))
  form sha p wallet old pool tier
