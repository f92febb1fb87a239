-- ===== src/Orchestrator/Sweeper.antt =====
-- pkg/orchestrator/lock.go and sweeper.go: the release of stale in-flight locks.
use aicw_node.Base.{
  ℕ, ◌+◌, ◌*◌, Bool, true, false, not, ◌||◌, ◌==◌, Option, none, some, [], ◌∷◌, ltb, if◌then◌else◌,
  Str, str_eq, Dict, flag, or_zero,
}
use aicw_node.Consul.{Consul, Codec}
use aicw_node.Orchestrator.Lock.{InflightRecord, LockManager, inflight_prefix}

-- `present` says whether there is a record.
unfoldable pub decide_inflight_sweep : Bool → Bool → Bool → ℕ → ℕ → Bool
decide_inflight_sweep present corrupt held now deadline =
    if corrupt
    then true
    else if held
    then false
    else if not present
    then true
    else not (ltb now deadline)

strip : Str → Str → Option Str
strip [] s = some s
strip (p ∷ ps) [] = none
strip (p ∷ ps) (x ∷ xs) = if p == x then strip ps xs else none

-- strings.TrimPrefix.
unfoldable pub trim_prefix : Str → Str → Str
unfolding strip
trim_prefix p s = or_zero s (strip p s)

-- The decision for one pair: whether its key is deleted.
unfoldable pub sweeps : LockManager → Codec InflightRecord → ℕ → ℕ → Str → Str → Bool
sweeps m inflight max_age now key value =
    let wallet = trim_prefix inflight_prefix key in
    if str_eq wallet [] || str_eq wallet key then false else elim (inflight.decode value) [
      | none ↦ decide_inflight_sweep true true (flag wallet m.held) now now
      | some rec ↦
          decide_inflight_sweep true false (flag wallet m.held) now (rec.started_at + max_age)
    ]

-- sweeper.go: the age behind which an entry is stale, twice the result timeout and five minutes.
unfoldable pub max_age_of : ℕ → ℕ
max_age_of reshare_result_timeout = 2 * reshare_result_timeout + 5 * 60_000_000_000

module _ (c : Consul) (inflight : Codec InflightRecord) where
  open c use {State}

  -- The loop of SweepStale: the number of keys deleted, and whether no request failed.
  unfoldable pub sweep_pairs : LockManager → ℕ → ℕ → Dict Str → ℕ → State → ℕ × Bool × State
  sweep_pairs m max_age now [] deleted s = (deleted, true, s)
  sweep_pairs m max_age now ((key, value) ∷ pairs) deleted s =
      let (done, s') = c.del key s in
      let skipped = sweep_pairs m max_age now pairs deleted s in
      let removed = sweep_pairs m max_age now pairs (deleted + 1) s' in
      if sweeps m inflight max_age now key value
      then (if done then removed else (deleted, false, s'))
      else skipped

  sweep_listed : LockManager → ℕ → ℕ → Option (Dict Str) × State → ℕ × Bool × State
  sweep_listed m max_age now (none, s) = (0, false, s)
  sweep_listed m max_age now (some pairs, s) = sweep_pairs m max_age now pairs 0 s

  unfoldable pub sweep_stale : LockManager → ℕ → ℕ → State → ℕ × Bool × State
  unfolding sweep_listed
  sweep_stale m max_age now s = sweep_listed m max_age now (c.list inflight_prefix s)
