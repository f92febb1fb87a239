-- ===== src/Mpc/Removal.antt =====
-- What RemovePeer leaves behind in the ECDH session.

use aicw_node.Base.{
  ◌≤◌, ◌<◌, ◌≡◌, refl, sym, ap, ◌∙◌, inl, inr, true, false, Option, none, some, List, [], ◌∷◌,
  arith, Bool-cases, length, Str, str_eq, str_eq_iff, str_eq_refl, elem, Dict, lookup,
  lookup-delete,
}
use aicw_node.Identity.{Store, get_symmetric_key, remove_symmetric_key, unregister_peer}
use aicw_node.Mpc.Session.{Session, has_key, keys_held, mesh_expected, mesh_completed}
use aicw_node.Mpc.Registry.{
  Registry, update_ready_state, remove_peer, check_peer, check_peers, check_readiness,
  keys_complete, are_peers_ready,
}

-- The session expects a key of a peer that the store does not have.
abbrev pub IsStuck : Str → Registry → Type 0
IsStuck id r =
    (e : Session) × (r.session ≡ some e)
    × (elem id e.peer_ids ≡ true)
    × (get_symmetric_key r.store id ≡ none)

keys_held_le : (s : Store) (ids : List Str) → keys_held s ids ≤ length ids
unfolding keys_held
keys_held_le s [] = omega arith
keys_held_le s (id ∷ ids) = ground (arith, keys_held_le s ids)

no_key : (s : Store) (id : Str) → get_symmetric_key s id ≡ none → has_key s id ≡ false
unfolding has_key
no_key s id n = rw (n, has_key) refl

unregister_peer-key :
    (s : Store) (id key : Str)
    → lookup id s.peer_keys ≡ some key
    → get_symmetric_key (unregister_peer s id).1 id ≡ none
unfolding unregister_peer get_symmetric_key
unregister_peer-key s id key p =
    rw (p, unregister_peer) (lookup-delete id id s.sym_keys ∙ rw (str_eq_refl id) refl)

keys_held_lt :
    (s : Store) (id : Str) (ids : List Str)
    → elem id ids ≡ true
    → get_symmetric_key s id ≡ none
    → keys_held s ids < length ids
unfolding keys_held elem
keys_held_lt s id [] m n = absurd (cc)
keys_held_lt s id (j ∷ ids) m n = elim (Bool-cases (str_eq id j)) [
  | inl e ↦
      let gone = no_key s j (ap (get_symmetric_key s) (sym ((str_eq_iff id j).0 e)) ∙ n) in
      rw (gone, keys_held) (omega (arith, keys_held_le s ids))
  | inr e ↦ ground (arith, keys_held_lt s id ids)
]

stuck_lem : (id : Str) (r : Registry) → IsStuck id r → are_peers_ready r ≡ false
unfolding are_peers_ready keys_complete mesh_expected mesh_completed
stuck_lem id r (e, s, m, n) = rw s (ground (arith, keys_held_lt r.store id e.peer_ids m n))

check_peer-IsStuck :
    (id z : Str) (v : Option Str) (r : Registry) → IsStuck id r → IsStuck id (check_peer z v r).1
unfolding check_peer remove_symmetric_key get_symmetric_key
check_peer-IsStuck id z (some v) r (e, s, m, n) = (e, ground arith, m, ground arith)
check_peer-IsStuck id z none r (e, s, m, n) =
    (e, ground arith, m, ground (arith, lookup-delete id z r.store.sym_keys))

check_peers-IsStuck :
    (id : Str) (ids : List Str) (d : Dict Str) (r : Registry)
    → IsStuck id r
    → IsStuck id (check_peers ids d r).1
unfolding check_peers
check_peers-IsStuck id [] d r h = h
check_peers-IsStuck id (z ∷ ids) d r h =
    check_peers-IsStuck id ids d _ (check_peer-IsStuck id z (lookup z d) r h)

check_readiness-IsStuck :
    (id : Str) (d : Dict Str) (r : Registry) → IsStuck id r → IsStuck id (check_readiness d r).1
unfolding check_readiness update_ready_state
check_readiness-IsStuck id d r h = check_peers-IsStuck id r.peers d r h

-- Passes of checkPeerReadiness, one after the other.
unfoldable pub check_all : List (Dict Str) → Registry → Registry
check_all [] r = r
check_all (d ∷ ds) r = check_all ds (check_readiness d r).1

check_all-IsStuck :
    (id : Str) (ds : List (Dict Str)) (r : Registry) → IsStuck id r → IsStuck id (check_all ds r)
unfolding check_all
check_all-IsStuck id [] r h = h
check_all-IsStuck id (d ∷ ds) r h = check_all-IsStuck id ds _ (check_readiness-IsStuck id d r h)

remove_peer-IsStuck :
    (id key : Str) (e : Session) (r : Registry)
    → elem id r.peers ≡ true
    → lookup id r.store.peer_keys ≡ some key
    → r.session ≡ some e
    → elem id e.peer_ids ≡ true
    → IsStuck id (remove_peer id r).1
unfolding remove_peer update_ready_state
remove_peer-IsStuck id key e r k p s m =
    rw (k, remove_peer) (e, s, m, unregister_peer-key r.store id key p)

-- RemovePeer of a registered peer that the ECDH session expects leaves the registry not ready for a
-- ceremony: ArePeersReady answers false after it and after any number of passes of
-- checkPeerReadiness, whatever they find in Consul, however many other peers are ready.
pub remove_peer_stalls :
    (id key : Str) (e : Session) (r : Registry) (passes : List (Dict Str))
    → elem id r.peers ≡ true
    → lookup id r.store.peer_keys ≡ some key
    → r.session ≡ some e
    → elem id e.peer_ids ≡ true
    → are_peers_ready (check_all passes (remove_peer id r).1) ≡ false
remove_peer_stalls id key e r passes k p s m =
    stuck_lem id _ (check_all-IsStuck id passes _ (remove_peer-IsStuck id key e r k p s m))
