-- ===== src/Examples/Nodes.antt =====
-- A node with two peers and their keys.
use aicw_node.Base.{
  ◌≡◌, ◌⊎◌, refl, true, false, none, some, List, [], ◌∷◌, arith, length, Str, text, str_eq, elem,
  Dict, flag, lookup, Result, ok, err,
}
use aicw_node.Committee.Policy.{default_policy}
use aicw_node.Committee.Pool.{SameNodes}
use aicw_node.Identity.{Store, get_symmetric_key}
use aicw_node.Mpc.Session.{
  Inner, Session, expected_count, mesh_expected, scope_of, add_id, add_members, ensure_ecdh,
  clear_ceremony_scope, set_ceremony_peers, has_key,
}
use aicw_node.Mpc.Registry.{Registry, trues, remove_peer, are_peers_ready}
use aicw_node.Mpc.Gates.{
  GateError, ecdh_failed, get_ready_peers_include_self, ready_ids, get_keygen_party,
  ensure_ceremony_ready, committee_gate, ensure_ceremony_ecdh, await_ceremony, are_ceremony_ready,
  members_ready, unscoped,
}
use aicw_node.Mpc.Readiness.{IsConsistent, adds, apply, apply-IsConsistent}
use aicw_node.Mpc.Removal.{check_all, remove_peer_stalls}
use aicw_node.Mpc.Ceremony.{Admitted, keygen_party_agree, ensure_ceremony_ready_lem}
use aicw_node.Mpc.Scope.{ensure_unscoped, ensure_failed_scope}

abbrev store : Store
store = record {
  self_id = text "n1";
  self_key = text "k1";
  peer_keys = (text "n2", text "k2") ∷ (text "n3", text "k3") ∷ [];
  sym_keys = (text "n2", text "s2") ∷ (text "n3", text "s3") ∷ [];
  verifier = none;
}

abbrev mesh : Session
mesh = record { node_id = text "n1"; peer_ids = text "n2" ∷ text "n3" ∷ []; ceremony_peers = [] }

abbrev node : Registry
node = record {
  node_id = text "n1";
  peers = text "n2" ∷ text "n3" ∷ [];
  ready_map = (text "n2", true) ∷ (text "n3", true) ∷ [];
  ready_count = 3;
  ready = true;
  threshold = 1;
  store = store;
  verifier = none;
  session = some mesh;
  ready_epoch = [];
}

-- The same view, in another order.
abbrev twin : Registry
twin = record node { ready_map = (text "n3", true) ∷ (text "n2", true) ∷ [] }

node-IsConsistent : IsConsistent node
unfolding elem trues str_eq
node-IsConsistent = record {
  peers = (refl, (refl, tt));
  entries = (refl, (refl, tt));
  known = λ z e. e;
  count = refl;
}

apply-IsConsistent_example : IsConsistent (apply (adds (some true) (text "n4") (text "k4")) node)
apply-IsConsistent_example =
    apply-IsConsistent (adds (some true) (text "n4") (text "k4")) node node-IsConsistent

abbrev seen : Dict Str
seen = (text "n2", text "e1") ∷ []

remove_peer_stalls_example :
    are_peers_ready (check_all (seen ∷ []) (remove_peer (text "n3") node).1) ≡ false
remove_peer_stalls_example =
    remove_peer_stalls (text "n3") (text "k3") mesh node (seen ∷ []) (unfold elem str_eq in refl)
      (unfold lookup str_eq in refl) refl (unfold elem str_eq in refl)

same_nodes : SameNodes (get_ready_peers_include_self node) (get_ready_peers_include_self twin)
unfolding get_ready_peers_include_self ready_ids elem
same_nodes z n = ground arith

keygen_party_agree_example :
    get_keygen_party (λ s. s) (some default_policy) true (text "w1") node
    ≡ get_keygen_party (λ s. s) (some default_policy) true (text "w1") twin
keygen_party_agree_example =
    keygen_party_agree (λ s. s) default_policy (text "w1") node twin same_nodes

abbrev gate : Inner → Result GateError (Unit {0}) × Registry
gate inner = ensure_ceremony_ready true inner (text "n1" ∷ text "n3" ∷ []) ((λ r. r) ∷ []) node

abbrev both : List Str
both = text "n1" ∷ text "n3" ∷ []

admitted : (gate (some true)).0 ≡ ok tt
unfolding ensure_ceremony_ready committee_gate elem str_eq ensure_ceremony_ecdh ensure_ecdh
    await_ceremony are_ceremony_ready members_ready flag lookup has_key get_symmetric_key
admitted = refl

ensure_ceremony_ready_lem_example :
    ((elem (text "n1") both ≡ true) × Admitted both (gate (some true)).1)
    ⊎ ((elem (text "n1") both ≡ false)
        × ((id : Str) → elem id both ≡ true → (id ≡ text "n1") ⊎ (flag id node.ready_map ≡ true)))
ensure_ceremony_ready_lem_example =
    ensure_ceremony_ready_lem (some true) (text "n1") (text "n3" ∷ []) ((λ r. r) ∷ []) node admitted

member : elem (text "n1") both ≡ true
unfolding elem str_eq
member = refl

abbrev after : Session
after = record mesh { ceremony_peers = [] }

left : (gate (some true)).1.session ≡ some after
unfolding ensure_ceremony_ready committee_gate elem str_eq ensure_ceremony_ecdh ensure_ecdh
    await_ceremony are_ceremony_ready members_ready flag lookup has_key get_symmetric_key unscoped
    clear_ceremony_scope set_ceremony_peers add_members add_id
left = refl

ensure_unscoped_example : expected_count after ≡ mesh_expected after
ensure_unscoped_example =
    ensure_unscoped (text "n1") (text "n3" ∷ []) node mesh refl (some true) ((λ r. r) ∷ []) after
      member (λ e. cc) left

ensure_failed_scope_example :
    ((gate (some false)).0 ≡ err ecdh_failed)
    × ((e : Session) × ((gate (some false)).1.session ≡ some e)
        × (expected_count e ≡ length (scope_of (text "n1") both)))
ensure_failed_scope_example =
    ensure_failed_scope (text "n1") (text "n3" ∷ []) node mesh refl ((λ r. r) ∷ []) member
      (unfold scope_of add_id elem str_eq in omega arith)
