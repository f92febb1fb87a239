-- ===== src/Orchestrator/Launches.antt =====
-- What a visit of reconcileOnce must have checked before it starts a reshare.

use aicw_node.Base.{ℕ, ◌≡◌, ◌≢◌, ◌⊎◌, inl, inr, true, List, arith, Str, ℤ, ok, Result-cases}
use aicw_node.Consul.{Consul, Codec}
use aicw_node.Committee.Select.{select_committee}
use aicw_node.Orchestrator.Trigger.{
  Trigger, healthy, urgent, proactive, unrecoverable, migration, observe,
}
use aicw_node.Orchestrator.Wallets.{
  Wallet, Snapshot, old_committee, count_alive, reachable_committee, preflight_ready,
}
use aicw_node.Orchestrator.Urgency.{preflight_urgent}
use aicw_node.Orchestrator.Lock.{InflightRecord, CooldownRecord, cooldown_ok}
use aicw_node.Orchestrator.Freeze.{is_frozen}
use aicw_node.Orchestrator.Reconcile.{
  Config, Launch, launched, wallet_trigger, migrate, Shared, lock_stage, plan_stage, cooldown_stage,
  confirm_stage, visit,
}

-- A launch that the state of the network justifies.
pub record IsJustified (sha : Str → Str) (cfg : Config) (spare : ℤ) (snap : Snapshot)
    (pool : List Str) (l : Launch) : Type 0 where
  pub old : l.old ≡ old_committee l.wallet
  pub plan : select_committee sha cfg.policy l.wallet.id l.old pool ≡ ok l.plan
  pub preflight : preflight_ready l.old l.plan.node_ids snap cfg.policy.mpc_threshold ≡ true
  pub trigger : l.trigger ≡ wallet_trigger cfg spare snap pool l.old
  pub waited : (l.trigger ≡ proactive) ⊎ (l.trigger ≡ migration)

not_urgent :
    (cfg : Config) (spare : ℤ) (snap : Snapshot) (pool old ids : List Str)
    → preflight_ready old ids snap cfg.policy.mpc_threshold ≡ true
    → wallet_trigger cfg spare snap pool old ≢ urgent
unfolding wallet_trigger migrate
not_urgent cfg spare snap pool old ids h e = ground (
  arith,
  preflight_urgent old ids snap cfg.policy.mpc_threshold spare
      (count_alive (reachable_committee old snap.whitelist) snap.ping_active),
)

module _ (c : Consul) (inflight : Codec InflightRecord) (cooldown : Codec CooldownRecord)
    (sha : Str → Str) where
  lock_launched :
      (now : ℕ) (l l' : Launch) (st : Shared c inflight cooldown sha)
      → (lock_stage c inflight cooldown sha now l st).0 ≡ launched l'
      → l' ≡ l
  unfolding lock_stage
  lock_launched now l l' st h = ground arith

  plan_launched :
      (cfg : Config) (now : ℕ) (session : Str) (w : Wallet) (trig : Trigger) (snap : Snapshot)
      (pool old : List Str) (st : Shared c inflight cooldown sha) (l : Launch)
      → (plan_stage c inflight cooldown sha cfg now session w trig snap pool old st).0 ≡ launched l
      → (l.wallet ≡ w)
        × (l.old ≡ old)
        × (l.trigger ≡ trig)
        × (select_committee sha cfg.policy w.id old pool ≡ ok l.plan)
        × (preflight_ready old l.plan.node_ids snap cfg.policy.mpc_threshold ≡ true)
  unfolding plan_stage
  plan_launched cfg now session w trig snap pool old st l h =
      elim (Result-cases (select_committee sha cfg.policy w.id old pool)) [
        | inr (e, q) ↦ absurd (ground arith)
        | inl (plan, q) ↦
            let start : Launch = record {
              wallet = w;
              old = old;
              plan = plan;
              session = session;
              trigger = trig;
            } in
            ground (arith, lock_launched now start l st)
      ]

  cooldown_launched :
      (cfg : Config) (now : ℕ) (session : Str) (w : Wallet) (trig : Trigger) (snap : Snapshot)
      (pool old : List Str) (st : Shared c inflight cooldown sha) (l : Launch)
      → (cooldown_stage c inflight cooldown sha cfg now session w trig snap pool old st).0
        ≡ launched l
      → (st' : Shared c inflight cooldown sha) × ((plan_stage c inflight cooldown sha cfg now
            session w trig snap pool old st').0
          ≡ launched l)
  unfolding cooldown_stage
  cooldown_launched cfg now session w trig snap pool old st l h =
      (record st { consul = (cooldown_ok c inflight cooldown w.id now st.consul).1 }, ground arith)

  confirm_launched :
      (cfg : Config) (now : ℕ) (session : Str) (w : Wallet) (trig : Trigger) (snap : Snapshot)
      (pool old : List Str) (st : Shared c inflight cooldown sha) (l : Launch)
      → (confirm_stage c inflight cooldown sha cfg now session w trig snap pool old st).0
        ≡ launched l
      → (trig ≢ healthy)
        × ((st' : Shared c inflight cooldown sha) × ((cooldown_stage c inflight cooldown sha cfg now
                session w trig snap pool old st').0
              ≡ launched l))
  unfolding confirm_stage
  confirm_launched cfg now session w trig snap pool old st l h = (
    λ e. unfold observe in ground arith,
    (record st { confirm = (observe st.confirm w.id trig).0 }, ground arith),
  )

  visit_confirmed :
      (cfg : Config) (spare : ℤ) (snap : Snapshot) (pool : List Str) (now : ℕ) (session : Str)
      (w : Wallet) (st : Shared c inflight cooldown sha) (l : Launch)
      → let old = old_committee w in
        let trig = wallet_trigger cfg spare snap pool old in
        (visit c inflight cooldown sha cfg spare snap pool now session w st).0 ≡ launched l
        → (trig ≢ unrecoverable)
          × ((st' : Shared c inflight cooldown sha) × ((confirm_stage c inflight cooldown sha cfg
                  now session w trig snap pool old st').0
                ≡ launched l))
  unfolding visit
  visit_confirmed cfg spare snap pool now session w st l h =
      (λ e. ground arith, (record st { consul = (is_frozen c w.id st.consul).1 }, ground arith))

  pub visit_launched :
      (cfg : Config) (spare : ℤ) (snap : Snapshot) (pool : List Str) (now : ℕ) (session : Str)
      (w : Wallet) (st : Shared c inflight cooldown sha) (l : Launch)
      → (visit c inflight cooldown sha cfg spare snap pool now session w st).0 ≡ launched l
      → IsJustified sha cfg spare snap pool l
  visit_launched cfg spare snap pool now session w st l h =
      let trig = wallet_trigger cfg spare snap pool (old_committee w) in
      let (alive, (st1, h1)) = visit_confirmed cfg spare snap pool now session w st l h in
      let (sick, (st2, h2)) =
        confirm_launched cfg now session w trig snap pool (old_committee w) st1 l h1 in
      let (st3, h3) =
        cooldown_launched cfg now session w trig snap pool (old_committee w) st2 l h2 in
      let (wallet, old, trigger, plan, preflight) =
        plan_launched cfg now session w trig snap pool (old_committee w) st3 l h3 in
      record {
        old = ground arith;
        plan = ground arith;
        preflight = ground arith;
        trigger = ground arith;
        waited =
            ground
              (arith, not_urgent cfg spare snap pool (old_committee w) l.plan.node_ids preflight);
      }
