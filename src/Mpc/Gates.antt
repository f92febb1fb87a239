-- ===== src/Mpc/Gates.antt =====
-- pkg/mpc/dynamic_registry.go: the gates of a ceremony, and the party of a key generation.
use aicw_node.Base.{
  ◌+◌, Bool, true, false, not, Option, none, some, List, [], ◌∷◌, ◌++◌, if◌then◌else◌, ltb, length,
  Str, str_eq, elem, Dict, flag, Result, ok, err,
}
use aicw_node.Committee.Policy.{Policy}
use aicw_node.Committee.Select.{select_committee}
use aicw_node.Mpc.Session.{Inner, has_key, clear_ceremony_scope, ensure_ecdh}
use aicw_node.Mpc.Registry.{Registry, are_peers_ready, are_majority_ready}

unfoldable pub ready_ids : Dict Bool → List Str
ready_ids [] = []
ready_ids ((k, b) ∷ m) = let rest = ready_ids m in if b then k ∷ rest else rest

unfoldable pub get_ready_peers_include_self : Registry → List Str
get_ready_peers_include_self r = ready_ids r.ready_map ++ r.node_id ∷ []

-- A failed selection gives nil. `enabled` is the setting of KeygenFilterEnabled.
unfoldable pub get_keygen_party : (Str → Str) → Option Policy → Bool → Str → Registry → List Str
get_keygen_party sha policy enabled wallet r =
    let ready = get_ready_peers_include_self r in
    elim policy [
      | none ↦ ready
      | some p ↦ if not enabled then ready else elim (select_committee sha p wallet [] ready) [
        | ok plan ↦ plan.node_ids
        | err e ↦ []
      ]
    ]

-- The loop of AreCeremonyReady.
unfoldable pub members_ready : Registry → List Str → Bool → Bool
members_ready r [] self_included = self_included
members_ready r (id ∷ ids) self_included =
    let own = members_ready r ids true in
    let next = members_ready r ids self_included in
    if str_eq id r.node_id
    then own
    else if not (flag id r.ready_map)
    then false
    else if not (has_key r.store id)
    then false
    else next

unfoldable pub are_ceremony_ready : List Str → Registry → Bool
are_ceremony_ready committee r =
    if ltb (length committee) (r.threshold + 1) then false else members_ready r committee false

unfoldable pub committee_not_ready : List Str → Registry → List Str
committee_not_ready [] r = []
committee_not_ready (id ∷ ids) r =
    let rest = committee_not_ready ids r in
    if str_eq id r.node_id then rest else if flag id r.ready_map then rest else id ∷ rest

unfoldable pub ensure_ceremony_ecdh : Inner → List Str → Registry → Bool × Registry
ensure_ceremony_ecdh inner committee r = elim r.session [
  | none ↦ (false, r)
  | some e ↦
      let (done, e') = ensure_ecdh inner committee e in (done, record r { session = some e' })
]

pub data GateError : Type 0 where
  cluster_not_ready quorum_not_ready ecdh_failed ecdh_not_ready : GateError
  members_missing : List Str → GateError

unfoldable pub unscoped : Registry → Registry
unscoped r = elim r.session [
  | none ↦ r
  | some e ↦ record r { session = some (clear_ceremony_scope e) }
]

-- The polling loop: before each later poll the registry changes, and at the last one the deadline
-- is over.
unfoldable pub await_ceremony :
    List Str → List (Registry → Registry) → Registry → Result GateError (Unit {0}) × Registry
await_ceremony committee [] r =
    (if are_ceremony_ready committee r then ok tt else err ecdh_not_ready, unscoped r)
await_ceremony committee (change ∷ changes) r =
    let later = await_ceremony committee changes (change r) in
    if are_ceremony_ready committee r then (ok tt, unscoped r) else later

unfoldable pub dispatch : List Str → Result GateError (Unit {0})
dispatch [] = ok tt
dispatch (id ∷ ids) = err (members_missing (id ∷ ids))

-- EnsureCeremonyReady with a committee, in committee mode.
unfoldable pub committee_gate :
    Inner
    → List Str
    → List (Registry → Registry)
    → Registry
    → Result GateError (Unit {0}) × Registry
unfolding dispatch
committee_gate inner committee changes r =
    if not (elem r.node_id committee)
    then (dispatch (committee_not_ready committee r), r)
    else let (done, r') = ensure_ceremony_ecdh inner committee r in
      if done then await_ceremony committee changes r' else (err ecdh_failed, r')

-- `filter` is CeremonyFilterEnabled.
unfoldable pub ensure_ceremony_ready :
    Bool
    → Inner
    → List Str
    → List (Registry → Registry)
    → Registry
    → Result GateError (Unit {0}) × Registry
ensure_ceremony_ready false inner committee changes r =
    (if are_peers_ready r then ok tt else err cluster_not_ready, r)
ensure_ceremony_ready true inner [] changes r =
    (if are_majority_ready r then ok tt else err quorum_not_ready, r)
ensure_ceremony_ready true inner (id ∷ ids) changes r = committee_gate inner (id ∷ ids) changes r
