-- ===== src/Mpc/Watch.antt =====
-- pkg/mpc/dynamic_registry.go: the registry behind the watch of the peer directory.
use aicw_node.Base.{
  ◌≡◌, ◌≢◌, false, none, some, List, [], ◌∷◌, arith, Str, str_eq_iff, elem, Dict, lookup,
}
use aicw_node.Identity.{accepts, get_public_key}
use aicw_node.Identity.Directory.{watch_pass}
use aicw_node.Identity.Watched.{watch_pass_lem, watch_pass_self}
use aicw_node.Mpc.Session.{Inner}
use aicw_node.Mpc.Registry.{Registry, add_peer, remove_peer}

-- The callback. Its errors are only logged.
unfoldable pub on_peer_added : Inner → Str → Registry → Registry
on_peer_added inner id r = elim (get_public_key r.store id) [
  | none ↦ r
  | some key ↦ (add_peer inner id key r).1
]

unfoldable pub on_peers_added : Inner → List Str → Registry → Registry
on_peers_added inner [] r = r
on_peers_added inner (id ∷ ids) r = on_peers_added inner ids (on_peer_added inner id r)

unfoldable pub on_peers_removed : List Str → Registry → Registry
on_peers_removed [] r = r
on_peers_removed (id ∷ ids) r = on_peers_removed ids (remove_peer id r).1

-- A pass of the watch with a new set of peers, and its callbacks.
unfoldable pub watched : Inner → Dict Str → Registry → Registry
watched inner peers r =
    let (added, removed, s) = watch_pass peers r.store in
    on_peers_removed removed (on_peers_added inner added (record r { store = s }))

refused :
    (inner : Inner) (r : Registry) (id key : Str)
    → get_public_key r.store id ≡ some key
    → id ≢ r.node_id
    → elem id r.peers ≡ false
    → accepts r.verifier id key ≡ false
    → on_peer_added inner id r ≡ r
unfolding on_peer_added add_peer
refused inner r id key g d e a =
    rw (on_peer_added, g) (rw (e, a) (ground (arith, str_eq_iff id r.node_id)))

-- A node of the directory that the membership verifier refuses does not become a peer, but the store
-- that checks signatures has its key from the pass on, and the callback does not take it out.
pub unverified_stored :
    (inner : Inner) (peers : Dict Str) (r : Registry) (id key : Str)
    → lookup id peers ≡ some key
    → lookup id r.store.peer_keys ≡ none
    → id ≢ r.node_id
    → r.store.self_id ≡ r.node_id
    → elem id r.peers ≡ false
    → accepts r.verifier id key ≡ false
    → let s = (watch_pass peers r.store).2 in
      let after : Registry = record r { store = s } in
      (on_peer_added inner id after ≡ after) × (lookup id after.store.peer_keys ≡ some key)
unfolding get_public_key
unverified_stored inner peers r id key p n d s e a =
    let s' = (watch_pass peers r.store).2 in
    let here : lookup id s'.peer_keys ≡ some key =
      ground (arith, (watch_pass_lem id peers r.store).0) in
    let known : get_public_key s' id ≡ some key =
      ground (arith, watch_pass_self peers r.store, str_eq_iff id r.node_id) in
    (refused inner (record r { store = s' }) id key known d e a, here)
