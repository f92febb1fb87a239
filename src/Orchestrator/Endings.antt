-- ===== src/Orchestrator/Endings.antt =====
-- How runReshare ends.
use aicw_node.Base.{
  ℕ, ◌≡◌, ◌≢◌, ◌⊎◌, inl, inr, not, ◌&&◌, Option, none, List, [], arith, Option-cases, Str, str_eq,
  str_eq_iff, ℤ, flag, lookup-delete,
}
use aicw_node.Consul.{Consul, Codec}
use aicw_node.Orchestrator.Wallets.{Snapshot}
use aicw_node.Orchestrator.KeyTypes.{KeyType, attempted_key_types, remaining_key_types}
use aicw_node.Orchestrator.Publisher.{Attempt, Waiters, reshare_wallet}
use aicw_node.Orchestrator.Families.{DistinctTypes, reshare_wallet_families}
use aicw_node.Orchestrator.Lock.{InflightRecord, CooldownRecord, LockManager, release}
use aicw_node.Orchestrator.Freeze.{FreezeRecord}
use aicw_node.Orchestrator.Progress.{pending}
use aicw_node.Orchestrator.Verify.{KeyInfo}
use aicw_node.Orchestrator.Reconcile.{Launch}
use aicw_node.Orchestrator.RunReshare.{
  AuditRecord, success, failure, first_record, families, write_audit, conclude, reshare_families,
  run_reshare,
}

module _ (c : Consul) (inflight : Codec InflightRecord) (cooldown : Codec CooldownRecord)
    (freezes : Codec FreezeRecord) (progress : Codec (List KeyType)) (audits : Codec AuditRecord)
    (hex : Str → Str) (info_of : Str → c.State → Option KeyInfo × c.State)
    (next : Str → List Str → ℤ → KeyType → c.State → Attempt × c.State) (m : LockManager)
    (l : Launch) (snap : Snapshot) (initiator : Str) (now : ℕ) (ws : Waiters) (s : c.State) where
  families_result :
      (only : List KeyType) (s1 : c.State)
      → let after =
          (write_audit c inflight cooldown freezes progress audits hex info_of next
            (first_record l snap initiator)
            s1).1 in
        let r = reshare_wallet next l.wallet.id l.plan.node_ids l.plan.threshold only after ws in
        let rec =
          (reshare_families c inflight cooldown freezes progress audits hex info_of next m l snap
            initiator only now ws s1).0 in
        ((r.1 ≡ none) × (rec.result ≡ success)) ⊎ ((r.1 ≢ none) × (rec.result ≡ failure))
  unfolding reshare_families conclude
  families_result only s1 =
      let after =
        (write_audit c inflight cooldown freezes progress audits hex info_of next
          (first_record l snap initiator) s1).1 in
      elim (Option-cases
        (reshare_wallet next l.wallet.id l.plan.node_ids l.plan.threshold only after ws).1) [
          | inl e ↦ ground arith
          | inr (x, e) ↦ ground arith
        ]

  -- What runReshare reshares, and the outcome of its ReshareWallet.
  abbrev pub only : List KeyType
  only = families l.wallet (pending c progress l.wallet.id s).0

  abbrev pub start : c.State
  start =
      (write_audit c inflight cooldown freezes progress audits hex info_of next
        (first_record l snap initiator) (pending c progress l.wallet.id s).1).1

  -- Where no family is attempted twice: the final audit record of runReshare says success exactly if
  -- no attempted family remains, and failure exactly if one does; and on both endings the lock of
  -- the wallet is forgotten here, and no other, whether or not Consul answers.
  pub run_reshare_ends :
      (other : Str)
      → DistinctTypes (attempted_key_types only)
      → let r =
          run_reshare c inflight cooldown freezes progress audits hex info_of next m l snap
            initiator now ws s in
        let res =
          (reshare_wallet next l.wallet.id l.plan.node_ids l.plan.threshold only start ws).0 in
        let left = remaining_key_types (attempted_key_types only) res.done in
        (((left ≡ []) × (r.0.result ≡ success)) ⊎ ((left ≢ []) × (r.0.result ≡ failure)))
        × (flag other r.1.held ≡ (flag other m.held && not (str_eq other l.wallet.id)))
  unfolding run_reshare release flag
  run_reshare_ends other d =
      let (did, rest, e, h, stop, same) =
        reshare_wallet_families next l.wallet.id l.plan.node_ids l.plan.threshold only start ws d in
      (
        ground (arith, stop, same, families_result only (pending c progress l.wallet.id s).1),
        ground (arith, lookup-delete other l.wallet.id m.held, str_eq_iff other l.wallet.id),
      )
