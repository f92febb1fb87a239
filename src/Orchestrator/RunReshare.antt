-- ===== src/Orchestrator/RunReshare.antt =====
-- pkg/orchestrator/reconciler.go: runReshare, and the audit records of audit.go. The times of a
-- record are left to its codec.
use aicw_node.Base.{
  ℕ, Bool, false, Option, none, some, List, [], ◌∷◌, ◌++◌, Str, text, ℤ, Result, ok, err,
}
use aicw_node.Consul.{Consul, Codec}
use aicw_node.Orchestrator.Trigger.{Trigger}
use aicw_node.Orchestrator.Wallets.{KeyKind, Wallet, key_of, Snapshot, alive_list}
use aicw_node.Orchestrator.KeyTypes.{
  KeyType, attempted_key_types, wallet_key_types, remaining_key_types,
}
use aicw_node.Orchestrator.Publisher.{Attempt, Waiters, PublishError, ReshareResult, reshare_wallet}
use aicw_node.Orchestrator.Lock.{
  InflightRecord, CooldownRecord, LockManager, LockError, release, mark_success, mark_failure,
}
use aicw_node.Orchestrator.Freeze.{FreezeRecord}
use aicw_node.Orchestrator.Progress.{pending, set_pending, clear_progress}
use aicw_node.Orchestrator.Verify.{KeyInfo, Problem, verify}
use aicw_node.Orchestrator.Reconcile.{Launch}

pub data AuditResult : Type 0 where
  published success failure : AuditResult

pub record AuditRecord : Type 0 where
  pub session_id : Str
  pub wallet_id : Str
  pub trigger : Trigger
  pub old_committee : List Str
  pub new_committee : List Str
  pub alive_ping : List Str
  pub alive_ready : List Str
  pub policy_version : Str
  pub policy_hash : Str
  pub initiator_pub : Str
  pub new_threshold : ℤ
  pub result : AuditResult
  pub error_reason : Option PublishError
  pub verified : Bool
  pub verify_problems : List Problem
  pub frozen : Bool

unfoldable pub first_record : Launch → Snapshot → Str → AuditRecord
first_record l snap initiator = record {
  session_id = l.session;
  wallet_id = l.wallet.id;
  trigger = l.trigger;
  old_committee = l.old;
  new_committee = l.plan.node_ids;
  alive_ping = alive_list l.old snap.ping_active;
  alive_ready = alive_list l.old snap.ready;
  policy_version = l.plan.version;
  policy_hash = l.plan.hash;
  initiator_pub = initiator;
  new_threshold = l.plan.threshold;
  result = published;
  error_reason = none;
  verified = false;
  verify_problems = [];
  frozen = false;
}

unfoldable pub old_versions : Wallet → KeyKind → Option ℤ
old_versions w kind = elim (key_of w kind) [ none ↦ none | some k ↦ some k.version ]

-- The families to reshare: those pending, or without progress the wallet's.
unfoldable pub families : Wallet → Result LockError (List KeyType) → List KeyType
families w (err e) = wallet_key_types w
families w (ok []) = wallet_key_types w
families w (ok (kt ∷ kts)) = kt ∷ kts

-- The codecs, the keyinfo store and the network.
module _ (c : Consul) (inflight : Codec InflightRecord) (cooldown : Codec CooldownRecord)
    (freezes : Codec FreezeRecord) (progress : Codec (List KeyType)) (audits : Codec AuditRecord)
    (hex : Str → Str) (info_of : Str → c.State → Option KeyInfo × c.State)
    (next : Str → List Str → ℤ → KeyType → c.State → Attempt × c.State) where
  open c use {State}

  unfoldable pub write_audit : AuditRecord → State → Bool × State
  write_audit rec s = c.put (text "reshare_audit/" ++ rec.session_id) (audits.encode rec) s

  -- The verification of what was completed, if anything was.
  unfoldable pub verify_done : Launch → ReshareResult → AuditRecord → State → AuditRecord × State
  verify_done l res rec s = elim res.done [
    | [] ↦ (rec, s)
    | kt ∷ kts ↦
        let (v, s') =
          verify c freezes hex info_of l.wallet.id l.plan.node_ids (old_versions l.wallet) res.done
            res.pub_keys s in
        (record rec { verified = v.ok_so_far; verify_problems = v.problems; frozen = v.frozen }, s')
  ]

  -- The two endings; the errors of the writes are only logged.
  unfoldable pub conclude :
      LockManager
      → Launch
      → List KeyType
      → ReshareResult
      → Option PublishError
      → ℕ
      → AuditRecord
      → State
      → AuditRecord × State
  conclude m l attempted res (some e) now rec s =
      let s1 = (set_pending c progress l.wallet.id (remaining_key_types attempted res.done) s).1 in
      let s2 = (mark_failure c inflight cooldown m l.wallet.id now s1).1 in
      (record rec { result = failure; error_reason = some e }, s2)
  conclude m l attempted res none now rec s =
      let s1 = (clear_progress c progress l.wallet.id s).1 in
      let s2 = (mark_success c inflight cooldown m l.wallet.id now s1).1 in
      (record rec { result = success }, s2)

  -- The body up to the final audit record, from the families on.
  unfoldable pub reshare_families :
      LockManager
      → Launch
      → Snapshot
      → Str
      → List KeyType
      → ℕ
      → Waiters
      → State
      → AuditRecord × Waiters × State
  reshare_families m l snap initiator only now ws s =
      let rec = first_record l snap initiator in
      let s1 = (write_audit rec s).1 in
      let (res, e, s2, ws') =
        reshare_wallet next l.wallet.id l.plan.node_ids l.plan.threshold only s1 ws in
      let (rec2, s3) = verify_done l res rec s2 in
      let (rec3, s4) = conclude m l (attempted_key_types only) res e now rec2 s3 in
      (rec3, ws', (write_audit rec3 s4).1)

  -- With the deferred release of the lock.
  unfoldable pub run_reshare :
      LockManager
      → Launch
      → Snapshot
      → Str
      → ℕ
      → Waiters
      → State
      → AuditRecord × LockManager × Waiters × State
  run_reshare m l snap initiator now ws s =
      let (r, s1) = pending c progress l.wallet.id s in
      let (rec, ws', s2) = reshare_families m l snap initiator (families l.wallet r) now ws s1 in
      let (done, m', s3) = release c inflight cooldown m l.wallet.id s2 in (rec, m', ws', s3)
