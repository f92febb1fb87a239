-- ===== src/Mpc/Session.antt =====
-- pkg/mpc/dynamic_ecdh_session.go: which peers the ECDH exchange expects. The wrapped session of
-- mpcium is what its broadcast answers: `none` is nil, a Bool whether it returned no error.
use aicw_node.Base.{
  ℕ, ◌+◌, Bool, true, false, not, ◌&&◌, Option, none, some, List, [], ◌∷◌, ◌++◌, if◌then◌else◌, leb,
  ltb, length, Str, str_eq, elem, keep,
}
use aicw_node.Identity.{Store, get_symmetric_key, remove_symmetric_key}

-- A set of ids, as the list of its elements.
unfoldable pub add_id : Str → List Str → List Str
add_id id ids = if elem id ids then ids else ids ++ id ∷ []

unfoldable pub remove_id : Str → List Str → List Str
remove_id id ids = keep (λ z. not (str_eq z id)) ids

abbrev pub Inner : Type 0
Inner = Option Bool

pub record Session : Type 0 where
  pub node_id : Str
  pub peer_ids : List Str
  -- nil and the empty scope alike mean the full mesh.
  pub ceremony_peers : List Str

-- The broadcast of AddPeer and EnsureECDH, which skip a missing inner session.
unfoldable pub sent : Inner → Bool
sent none = true
sent (some b) = b

-- BroadcastPublicKey, which fails without one.
unfoldable pub broadcast : Inner → Bool
broadcast none = false
broadcast (some b) = b

unfoldable pub add_session_peer : Inner → Str → Session → Store → Bool × Session × Store
unfolding sent
add_session_peer inner id e s =
    if str_eq id e.node_id
    then (true, e, s)
    else if elem id e.peer_ids
    then (sent inner, e, remove_symmetric_key s id)
    else (sent inner, record e { peer_ids = add_id id e.peer_ids }, s)

-- Both the inner session and the branch without one remove the symmetric key.
unfoldable pub remove_session_peer : Str → Session → Store → Session × Store
remove_session_peer id e s =
    (record e { peer_ids = remove_id id e.peer_ids }, remove_symmetric_key s id)

unfoldable pub expected_count : Session → ℕ
expected_count e =
    if ltb 0 (length e.ceremony_peers) then length e.ceremony_peers else length e.peer_ids

unfoldable pub mesh_expected : Session → ℕ
mesh_expected e = length e.peer_ids

unfoldable pub has_key : Store → Str → Bool
has_key s id = elim (get_symmetric_key s id) [ none ↦ false | some k ↦ true ]

-- The loop of GetMeshCompletedKeyCount.
unfoldable pub keys_held : Store → List Str → ℕ
unfolding has_key
keys_held s [] = 0
keys_held s (id ∷ ids) = (if has_key s id then 1 else 0) + keys_held s ids

unfoldable pub mesh_completed : Session → Store → ℕ
mesh_completed e s = keys_held s e.peer_ids

unfoldable pub is_key_exchange_complete : Session → Store → Bool
is_key_exchange_complete e s = leb (mesh_expected e) (mesh_completed e s) && ltb 0 (mesh_expected e)

-- The committee without this node, as a set.
unfoldable pub scope_of : Str → List Str → List Str
scope_of self [] = []
scope_of self (id ∷ ids) =
    let rest = scope_of self ids in if str_eq id self then rest else add_id id rest

unfoldable pub set_ceremony_peers : List Str → Session → Session
set_ceremony_peers [] e = record e { ceremony_peers = [] }
set_ceremony_peers (id ∷ ids) e = record e { ceremony_peers = scope_of e.node_id (id ∷ ids) }

unfoldable pub clear_ceremony_scope : Session → Session
clear_ceremony_scope e = set_ceremony_peers [] e

-- The committee's members join the peers.
unfoldable pub add_members : Str → List Str → List Str → List Str
add_members self [] peers = peers
add_members self (id ∷ ids) peers =
    add_members self ids (if str_eq id self then peers else add_id id peers)

unfoldable pub ensure_ecdh : Inner → List Str → Session → Bool × Session
unfolding sent
ensure_ecdh inner committee e =
    let scope = scope_of e.node_id committee in
    (
      sent inner,
      record e {
        peer_ids = add_members e.node_id committee e.peer_ids;
        ceremony_peers = if ltb 0 (length scope) then scope else e.ceremony_peers;
      },
    )
