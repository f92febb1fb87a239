-- ===== src/Mpc/Registry.antt =====
-- pkg/mpc/dynamic_registry.go: the peers of a node, their readiness, and the gates of a ceremony.
-- What the mutex guards is one step; the goroutines that a step starts are returned by name.
use aicw_node.Base.{
  ℕ, ◌+◌, ◌-◌, Bool, true, false, not, Option, none, some, List, [], ◌∷◌, if◌then◌else◌, leb, ltb,
  ◌==◌, length, Str, str_eq, elem, Dict, lookup, insert, delete, flag, or_zero, Result, ok, err,
}
use aicw_node.Identity.{
  Verifier, accepts, Store, get_public_key, register_peer, unregister_peer, remove_symmetric_key,
}
use aicw_node.Mpc.Session.{
  Inner, Session, add_id, remove_id, add_session_peer, mesh_expected, mesh_completed,
}

-- `session` is the ECDH session, `none` before SetECDHSession. The threshold is at least 1, which
-- NewDynamicRegistry checks. `ready_count` is 1 and the true entries of `ready_map`, so that its
-- decrements do not reach below 0.
pub record Registry : Type 0 where
  pub node_id : Str
  pub peers : List Str
  pub ready_map : Dict Bool
  pub ready_count : ℕ
  pub ready : Bool
  pub threshold : ℕ
  pub store : Store
  pub verifier : Verifier
  pub session : Option Session
  pub ready_epoch : Dict Str

unfoldable pub new_registry : Str → ℕ → Store → Registry
new_registry id threshold store = record {
  node_id = id;
  peers = [];
  ready_map = [];
  ready_count = 1;
  ready = false;
  threshold = threshold;
  store = store;
  verifier = none;
  session = none;
  ready_epoch = [];
}

pub data AddError : Type 0 where
  is_self unverified unregistered : AddError

-- The call of ecdhSession.AddPeer, whose error is only logged.
unfoldable pub exchange_with : Inner → Str → Registry → Registry
exchange_with inner id r = elim r.session [
  | none ↦ r
  | some e ↦
      let (sent, e', s) = add_session_peer inner id e r.store in
      record r { session = some e'; store = s }
]

-- RegisterPeerPublicKey unless the store has the same key.
unfoldable pub register_key : Str → Str → Store → Bool × Store
register_key id key s = elim (get_public_key s id) [
  | none ↦ register_peer s id key
  | some old ↦ if str_eq old key then (true, s) else register_peer s id key
]

unfoldable pub add_peer : Inner → Str → Str → Registry → Result AddError (Unit {0}) × Registry
add_peer inner id key r =
    if str_eq id r.node_id
    then (err is_self, r)
    else if elem id r.peers
    then (ok tt, exchange_with inner id r)
    else if not (accepts r.verifier id key)
    then (err unverified, r)
    else let (done, s) = register_key id key r.store in
      if done
      then (ok tt, exchange_with inner id (record r { store = s; peers = add_id id r.peers }))
      else (err unregistered, record r { store = s })

-- The entries of readyMap that are true.
unfoldable pub trues : Dict Bool → ℕ
trues [] = 0
trues ((k, b) ∷ m) = (if b then 1 else 0) + trues m

unfoldable pub update_ready_state : Registry → Registry
update_ready_state r = record r {
  ready = if length r.peers == 0 then false else trues r.ready_map == length r.peers;
}

-- The Bool says that the peer was known.
unfoldable pub remove_peer : Str → Registry → Bool × Registry
remove_peer id r =
    if elem id r.peers
    then (
      true,
      update_ready_state (record r {
        peers = remove_id id r.peers;
        ready_count = if flag id r.ready_map then r.ready_count - 1 else r.ready_count;
        ready_map = delete id r.ready_map;
        store = (unregister_peer r.store id).1;
      }),
    )
    else (false, r)

-- The body of the loop of checkPeerReadiness for a peer with its epoch in Consul, if it is ready
-- there. The Bool says whether handleECDHRejoin is started.
unfoldable pub check_peer : Str → Option Str → Registry → Bool × Registry
check_peer id (some epoch) r =
    let r' = record r { ready_epoch = insert id epoch r.ready_epoch } in
    if flag id r.ready_map
    then (not (str_eq epoch (or_zero [] (lookup id r.ready_epoch))), r')
    else (
      true,
      record r' { ready_map = insert id true r.ready_map; ready_count = r.ready_count + 1 },
    )
check_peer id none r =
    let r' = record r { ready_epoch = delete id r.ready_epoch } in
    if flag id r.ready_map
    then (
      false,
      record r' {
        ready_map = insert id false r.ready_map;
        ready_count = r.ready_count - 1;
        store = remove_symmetric_key r.store id;
      },
    )
    else (false, r')

-- The loop over the peers, with the peers whose rejoin is handled.
unfoldable pub check_peers : List Str → Dict Str → Registry → List Str × Registry
check_peers [] ready_peers r = ([], r)
check_peers (id ∷ ids) ready_peers r =
    let (rejoins, r') = check_peer id (lookup id ready_peers) r in
    let (more, r'') = check_peers ids ready_peers r' in (if rejoins then id ∷ more else more, r'')

-- checkPeerReadiness on the ready/ entries of the other nodes.
unfoldable pub check_readiness : Dict Str → Registry → List Str × Registry
check_readiness ready_peers r =
    let (rejoins, r') = check_peers r.peers ready_peers r in (rejoins, update_ready_state r')

-- handleECDHRejoin; the broadcast that follows changes no state.
unfoldable pub handle_rejoin : Inner → Str → Registry → Registry
handle_rejoin inner id r = elim r.session [
  | none ↦ r
  | some e ↦ exchange_with inner id (record r { store = remove_symmetric_key r.store id })
]

-- The ECDH part of ArePeersReady.
unfoldable pub keys_complete : Option Session → Store → Bool
keys_complete none s = true
keys_complete (some e) s =
    if mesh_expected e == 0 then false else leb (mesh_expected e) (mesh_completed e s)

unfoldable pub are_peers_ready : Registry → Bool
are_peers_ready r =
    if length r.peers == 0
    then false
    else if ltb (length r.peers + 1) (r.threshold + 1)
    then false
    else if not r.ready
    then false
    else if ltb r.ready_count (r.threshold + 1)
    then false
    else keys_complete r.session r.store

unfoldable pub are_majority_ready : Registry → Bool
are_majority_ready r = leb (r.threshold + 1) r.ready_count
