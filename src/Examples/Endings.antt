-- ===== src/Examples/Endings.antt =====
-- A reshare from its lock to its final audit record.
use aicw_node.Base.{
  ℕ, zero, suc, ◌≡◌, ◌≢◌, ◌⊎◌, refl, ap, ◌∙◌, true, not, ◌&&◌, none, some, List, [], ◌∷◌, Str, text,
  str_eq, flag, lookup, insert, ℤ, pos,
}
use aicw_node.Consul.{Codec, RoundTrips}
use aicw_node.Orchestrator.Trigger.{proactive}
use aicw_node.Orchestrator.KeyTypes.{
  KeyType, ed25519, secp256k1, other, kt_eq, has, attempted_key_types, remaining_key_types,
}
use aicw_node.Orchestrator.Publisher.{Attempt, reshare_wallet}
use aicw_node.Orchestrator.Families.{DistinctTypes}
use aicw_node.Orchestrator.Lock.{LockManager}
use aicw_node.Orchestrator.Progress.{pending, parse_progress, set_pending}
use aicw_node.Orchestrator.Reconcile.{Launch}
use aicw_node.Orchestrator.RunReshare.{
  AuditRecord, success, failure, first_record, families, write_audit, run_reshare,
}
use aicw_node.Orchestrator.Endings.{run_reshare_ends}
use aicw_node.Examples.World.{cluster, inflight, cooldown, freezes, empty}
use aicw_node.Examples.Scans.{network, wallet, old, five}
use aicw_node.Examples.Reshares.{moved, attempt}

-- The families one after the other: 0, 1, or the characters from 3 on with a 2 behind them.
unfoldable pub put_name : Str → Str → Str
put_name [] rest = 2 ∷ rest
put_name (x ∷ s) rest = suc (suc (suc x)) ∷ put_name s rest

unfoldable pub put_types : List KeyType → Str
put_types [] = []
put_types (ed25519 ∷ kts) = 0 ∷ put_types kts
put_types (secp256k1 ∷ kts) = 1 ∷ put_types kts
put_types (other s ∷ kts) = put_name s (put_types kts)

unfoldable pub push_char : ℕ → List KeyType → List KeyType
push_char x (other s ∷ kts) = other (x ∷ s) ∷ kts
push_char x kts = kts

unfoldable pub get_types : Str → List KeyType
get_types [] = []
get_types (zero ∷ s) = ed25519 ∷ get_types s
get_types (suc zero ∷ s) = secp256k1 ∷ get_types s
get_types (suc (suc zero) ∷ s) = other [] ∷ get_types s
get_types (suc (suc (suc x)) ∷ s) = push_char x (get_types s)

get_types-put_name : (s rest : Str) → get_types (put_name s rest) ≡ other s ∷ get_types rest
unfolding get_types put_name push_char
get_types-put_name [] rest = refl
get_types-put_name (x ∷ s) rest = ap (push_char x) (get_types-put_name s rest)

get_types-put_types : (kts : List KeyType) → get_types (put_types kts) ≡ kts
unfolding get_types put_types
get_types-put_types [] = refl
get_types-put_types (ed25519 ∷ kts) = ap (λ l. ed25519 ∷ l) (get_types-put_types kts)
get_types-put_types (secp256k1 ∷ kts) = ap (λ l. secp256k1 ∷ l) (get_types-put_types kts)
get_types-put_types (other s ∷ kts) =
    get_types-put_name s (put_types kts) ∙ ap (λ l. other s ∷ l) (get_types-put_types kts)

abbrev progress : Codec (List KeyType)
progress = record { encode = put_types; decode = λ s. some (get_types s) }

parses : RoundTrips progress
parses kts = ap some (get_types-put_types kts)

abbrev audits : Codec AuditRecord
audits = record { encode = λ r. r.session_id; decode = λ s. none }

abbrev manager : LockManager
manager = record {
  session_id = text "s1";
  cooldown_success = 600;
  cooldown_failure = 30;
  cooldown_fail_max = 100;
  held = (text "w1", true) ∷ (text "w2", true) ∷ [];
}

abbrev launch : Launch
launch = record {
  wallet = wallet;
  old = old;
  plan = record {
    node_ids = five;
    threshold = pos 2;
    spare = pos 1;
    committee_size = pos 5;
    hash = [];
    version = text "2";
  };
  session = text "r1";
  trigger = proactive;
}

abbrev next : Str → List Str → ℤ → KeyType → cluster.State → Attempt × cluster.State
next id committee threshold kt s = (attempt kt, s)

-- Both families are pending, and the second one fails.
abbrev before : cluster.State
before = (set_pending cluster progress (text "w1") (ed25519 ∷ secp256k1 ∷ []) empty).1

abbrev only : List KeyType
only = families wallet (pending cluster progress (text "w1") before).0

once : DistinctTypes (attempted_key_types only)
unfolding attempted_key_types families pending set_pending parse_progress insert lookup str_eq
    get_types put_types has kt_eq
once = (refl, (refl, tt))

run_reshare_ends_example :
    let r =
      run_reshare cluster inflight cooldown freezes progress audits
        (λ s. s)
        moved
        next
        manager
        launch
        network
        []
        9
        []
        before in
    let start =
      (write_audit cluster inflight cooldown freezes progress audits
        (λ s. s)
        moved
        next
        (first_record launch network [])
        (pending cluster progress (text "w1") before).1).1 in
    let res = (reshare_wallet next (text "w1") five (pos 2) only start []).0 in
    let left = remaining_key_types (attempted_key_types only) res.done in
    (((left ≡ []) × (r.0.result ≡ success)) ⊎ ((left ≢ []) × (r.0.result ≡ failure)))
    × (flag (text "w2") r.1.held
        ≡ (flag (text "w2") manager.held && not (str_eq (text "w2") (text "w1"))))
run_reshare_ends_example =
    run_reshare_ends cluster inflight cooldown freezes progress audits (λ s. s) moved next manager
      launch network [] 9 [] before (text "w2") once
