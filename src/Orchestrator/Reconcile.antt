-- ===== src/Orchestrator/Reconcile.antt =====
-- pkg/orchestrator/reconciler.go: reconcileOnce, behind the reads of the inventory and of the
-- liveness snapshot. What runs beside the scan is the argument `Meanwhile` of each wallet.
use mathlib.Core.Option
use aicw_node.Base.{
  ℕ, ◌+◌, ◌-◌, Bool, true, false, not, ◌&&◌, Option, none, some, List, [], ◌∷◌, map, leb, ◌==◌,
  if◌then◌else◌, length, Str, text, ℤ, pos, ltb_int, Result, ok, err,
}
use aicw_node.Consul.{Consul, Codec}
use aicw_node.Committee.Policy.{Policy, tier_for, target_size}
use aicw_node.Committee.Select.{Plan, select_committee}
use aicw_node.Orchestrator.Trigger.{
  Trigger, healthy, unrecoverable, migration, decide_trigger, ConfirmTracker, observe,
}
use aicw_node.Orchestrator.Wallets.{
  KeyKind, eddsa, ecdsa, Wallet, Snapshot, old_committee, candidate_pool, count_alive,
  reachable_committee, preflight_ready,
}
use aicw_node.Orchestrator.KeyTypes.{key_kind_for, attempted_key_types, wallet_key_types}
use aicw_node.Orchestrator.Lock.{
  InflightRecord, CooldownRecord, LockManager, LockError, acquire, cooldown_ok,
}
use aicw_node.Orchestrator.Freeze.{is_frozen}

pub record Config : Type 0 where
  pub policy : Policy
  pub global_max_inflight : ℕ
  pub migrate_oversized : Bool

-- A started runReshare.
pub record Launch : Type 0 where
  pub wallet : Wallet
  pub old : List Str
  pub plan : Plan
  pub session : Str
  pub trigger : Trigger

pub data Outcome : Type 0 where
  stays_healthy deferred gone : Outcome
  launched : Launch → Outcome

kind_name : Option KeyKind → Str
kind_name none = []
kind_name (some eddsa) = text "eddsa"
kind_name (some ecdsa) = text "ecdsa"

pub pending_kinds : Wallet → List Str
unfolding kind_name
pending_kinds w = map (λ kt. kind_name (key_kind_for kt)) (attempted_key_types (wallet_key_types w))

oversized : Option ℤ → ℕ → ℕ → Bool
oversized none reachable ready = false
oversized (some target) reachable ready = ltb_int target (pos reachable) && ready == reachable

-- The upgrade of a healthy trigger to a migration.
unfoldable pub migrate : Config → ℕ → ℕ → ℕ → Trigger → Trigger
unfolding oversized
migrate cfg pool reachable ready healthy =
    if cfg.migrate_oversized && oversized (target_size cfg.policy pool) reachable ready
    then migration
    else healthy
migrate cfg pool reachable ready t = t

unfoldable pub wallet_trigger : Config → ℤ → Snapshot → List Str → List Str → Trigger
wallet_trigger cfg spare snap pool old =
    let reachable = reachable_committee old snap.whitelist in
    let ready = count_alive reachable snap.ready in
    migrate cfg (length pool) (length reachable) ready
      (decide_trigger cfg.policy.mpc_threshold spare (count_alive reachable snap.ping_active) ready)

module _ (c : Consul) (inflight : Codec InflightRecord) (cooldown : Codec CooldownRecord)
    (sha : Str → Str) where
  open c use {State}

  pub record Shared : Type 0 where
    pub locks : LockManager
    pub consul : State
    pub confirm : ConfirmTracker

  -- The value true, and neither false nor an error.
  says : Result LockError Bool → Bool
  says (ok b) = b
  says (err e) = false

  unfoldable pub lock_stage : ℕ → Launch → Shared → Outcome × Shared
  unfolding says
  lock_stage now l st =
      let (r, m, s) =
        acquire c inflight cooldown st.locks l.wallet.id l.session (pending_kinds l.wallet) now
          st.consul in
      (if says r then launched l else deferred, record st { locks = m; consul = s })

  unfoldable pub plan_stage :
      Config
      → ℕ
      → Str
      → Wallet
      → Trigger
      → Snapshot
      → List Str
      → List Str
      → Shared
      → Outcome × Shared
  plan_stage cfg now session w trig snap pool old st =
      elim (select_committee sha cfg.policy w.id old pool) [
        | err e ↦ (deferred, st)
        | ok plan ↦
            if preflight_ready old plan.node_ids snap cfg.policy.mpc_threshold
            then lock_stage now
                (record { wallet = w; old = old; plan = plan; session = session; trigger = trig })
                st
            else (deferred, st)
      ]

  unfoldable pub cooldown_stage :
      Config
      → ℕ
      → Str
      → Wallet
      → Trigger
      → Snapshot
      → List Str
      → List Str
      → Shared
      → Outcome × Shared
  unfolding says
  cooldown_stage cfg now session w trig snap pool old st =
      let (r, s) = cooldown_ok c inflight cooldown w.id now st.consul in
      let st' = record st { consul = s } in
      if says r then plan_stage cfg now session w trig snap pool old st' else (deferred, st')

  not_confirmed : Trigger → Outcome
  not_confirmed healthy = stays_healthy
  not_confirmed t = deferred

  unfoldable pub confirm_stage :
      Config
      → ℕ
      → Str
      → Wallet
      → Trigger
      → Snapshot
      → List Str
      → List Str
      → Shared
      → Outcome × Shared
  unfolding not_confirmed
  confirm_stage cfg now session w trig snap pool old st =
      let (tracker, act) = observe st.confirm w.id trig in
      let st' = record st { confirm = tracker } in
      if act
      then cooldown_stage cfg now session w trig snap pool old st'
      else (not_confirmed trig, st')

  is_unrecoverable : Trigger → Bool
  is_unrecoverable unrecoverable = true
  is_unrecoverable t = false

  -- The frozen flag must read as false.
  thawed : Result LockError Bool → Bool
  thawed (ok b) = not b
  thawed (err e) = false

  -- The body of the loop for a wallet with an old committee.
  unfoldable pub visit :
      Config → ℤ → Snapshot → List Str → ℕ → Str → Wallet → Shared → Outcome × Shared
  unfolding is_unrecoverable thawed
  visit cfg spare snap pool now session w st =
      let old = old_committee w in
      let (frozen, s) = is_frozen c w.id st.consul in
      let st' = record st { consul = s } in
      let trig = wallet_trigger cfg spare snap pool old in
      if not (thawed frozen)
      then (deferred, st')
      else if is_unrecoverable trig
      then (gone, st')
      else confirm_stage cfg now session w trig snap pool old st'

  pub record Tally : Type 0 where
    pub scanned : ℕ
    pub healthy_count : ℕ
    pub deferred_count : ℕ
    pub triggered : ℕ
    pub unrecoverable_count : ℕ

  unfoldable pub count : Outcome → Tally → Tally
  count stays_healthy t = record t { scanned = t.scanned + 1; healthy_count = t.healthy_count + 1 }
  count deferred t = record t { scanned = t.scanned + 1; deferred_count = t.deferred_count + 1 }
  count gone t = record t {
    scanned = t.scanned + 1;
    unrecoverable_count = t.unrecoverable_count + 1;
  }
  count (launched l) t = record t { scanned = t.scanned + 1; triggered = t.triggered + 1 }

  -- `active` is the gauge of running reshares, `launches` the goroutines started, latest first.
  pub record Scan : Type 0 where
    pub shared : Shared
    pub active : ℕ
    pub tally : Tally
    pub launches : List Launch

  -- Before a wallet's turn: reshares that ended, and what they and other processes did to the locks
  -- and to Consul; and the clock and the fresh session id of the turn.
  pub record Meanwhile : Type 0 where
    pub ended : ℕ
    pub effect : LockManager → State → LockManager × State
    pub now : ℕ
    pub session : Str

  unfoldable pub interfere : Meanwhile → Scan → Scan
  interfere m st =
      let (locks, consul) = m.effect st.shared.locks st.shared.consul in
      record st {
        active = st.active - m.ended;
        shared = record { locks = locks; consul = consul; confirm = st.shared.confirm };
      }

  unfoldable pub settle : Outcome → Shared → Scan → Scan
  settle (launched l) shared st = record {
    shared = shared;
    active = st.active + 1;
    tally = count (launched l) st.tally;
    launches = l ∷ st.launches;
  }
  settle o shared st = record st { shared = shared; tally = count o st.tally }

  unfoldable pub turn : Config → ℤ → Snapshot → List Str → Wallet → Meanwhile → Scan → Scan
  turn cfg spare snap pool w m st = elim (old_committee w) [
    | [] ↦ st
    | id ∷ ids ↦
        let (o, shared) = visit cfg spare snap pool m.now m.session w st.shared in
        settle o shared st
  ]

  unfoldable pub scan : Config → ℤ → Snapshot → List Str → List (Wallet × Meanwhile) → Scan → Scan
  scan cfg spare snap pool [] st = st
  scan cfg spare snap pool ((w, m) ∷ ws) st =
      let st' = interfere m st in
      let rest = scan cfg spare snap pool ws (turn cfg spare snap pool w m st') in
      if leb cfg.global_max_inflight st'.active then st' else rest

  -- `none` is the panic of TierFor on a policy without tiers.
  unfoldable pub reconcile_once : Config → Snapshot → List (Wallet × Meanwhile) → Scan → Option Scan
  reconcile_once cfg snap wallets st =
      let pool = candidate_pool snap in
      Option.map (λ tier. scan cfg tier.1 snap pool wallets st) (tier_for cfg.policy (length pool))
