-- ===== src/Mpc/Readiness.antt =====
-- The counts of the registry stay consistent through every operation.
use mathlib.Core.Path.{subst}
use aicw_node.Base.{
  ℕ, suc, ◌+◌, ◌<◌, ◌≡◌, refl, sym, ap, ◌∙◌, inl, inr, Bool, true, false, not, Option, none, some,
  List, [], ◌∷◌, if◌then◌else◌, arith, Bool-cases, Option-cases, Str, str_eq, str_eq_iff,
  str_eq_refl, elem, elem-keep, IsDistinct, keep-IsDistinct, Dict, keys, lookup, insert, flag,
  elem-insert, elem-delete, insert-IsDistinct, delete-IsDistinct,
}
use aicw_node.Identity.{Store, accepts}
use aicw_node.Mpc.Session.{Inner, add_id, remove_id}
use aicw_node.Mpc.Registry.{
  Registry, new_registry, exchange_with, register_key, add_peer, trues, update_ready_state,
  remove_peer, check_peer, check_peers, check_readiness, handle_rejoin,
}
use aicw_node.Mpc.Counts.{trues-insert, trues-delete, elem-add_id, add_id-IsDistinct}

pub record IsConsistent (r : Registry) : Type 0 where
  pub peers : IsDistinct r.peers
  pub entries : IsDistinct (keys r.ready_map)
  pub known : (z : Str) → elem z (keys r.ready_map) ≡ true → elem z r.peers ≡ true
  pub count : r.ready_count ≡ suc (trues r.ready_map)

exchange_lem :
    (inner : Inner) (id : Str) (r : Registry)
    → let r' = exchange_with inner id r in
      (r'.peers ≡ r.peers) × (r'.ready_map ≡ r.ready_map) × (r'.ready_count ≡ r.ready_count)
unfolding exchange_with
exchange_lem inner id r = ground arith

-- Only these three fields matter.
same_view :
    (r r' : Registry)
    → r'.peers ≡ r.peers
    → r'.ready_map ≡ r.ready_map
    → r'.ready_count ≡ r.ready_count
    → IsConsistent r
    → IsConsistent r'
same_view r r' p m n h = record {
  peers = subst IsDistinct (sym p) h.peers;
  entries = subst (λ d. IsDistinct (keys d)) (sym m) h.entries;
  known = λ z e. ap (elem z) p ∙ h.known z (sym (ap (λ d. elem z (keys d)) m) ∙ e);
  count = n ∙ (h.count ∙ ap (λ d. suc (trues d)) (sym m));
}

-- Writing the flag of a known peer, with the count that goes with it.
set_flag :
    (r r' : Registry) (id : Str) (b : Bool)
    → r'.peers ≡ r.peers
    → r'.ready_map ≡ insert id b r.ready_map
    → r'.ready_count + (if flag id r.ready_map then 1 else 0) ≡ r.ready_count + (if b then 1 else 0)
    → elem id r.peers ≡ true
    → IsConsistent r
    → IsConsistent r'
set_flag r r' id b p m n k h = record {
  peers = subst IsDistinct (sym p) h.peers;
  entries = subst (λ d. IsDistinct (keys d)) (sym m) (insert-IsDistinct id b r.ready_map h.entries);
  known = λ z e. ground (
    arith,
    ap (elem z) p,
    ap (λ d. elem z (keys d)) m,
    elem-insert z id b r.ready_map,
    str_eq_iff z id,
    h.known z,
  );
  count = ground (arith, ap trues m, trues-insert id b r.ready_map, h.count);
}

count_pos :
    (r : Registry) (id : Str) → IsConsistent r → flag id r.ready_map ≡ true → 0 < trues r.ready_map
count_pos r id h f = ground (arith, trues-delete id r.ready_map h.entries)

check_peer-IsConsistent :
    (id : Str) (e : Option Str) (r : Registry)
    → elem id r.peers ≡ true
    → IsConsistent r
    → IsConsistent (check_peer id e r).1 × ((check_peer id e r).1.peers ≡ r.peers)
unfolding check_peer
check_peer-IsConsistent id (some epoch) r k h = elim (Bool-cases (flag id r.ready_map)) [
  | inl f ↦ rw (f, check_peer) (same_view r _ refl refl refl h, refl)
  | inr f ↦ rw (f, check_peer) (set_flag r _ id true refl refl (rw f (omega arith)) k h, refl)
]
check_peer-IsConsistent id none r k h = elim (Bool-cases (flag id r.ready_map)) [
  | inl f ↦
      rw (f, check_peer)
        (
          set_flag r _ id false refl refl (rw f (omega (arith, h.count, count_pos r id h f))) k h,
          refl,
        )
  | inr f ↦ rw (f, check_peer) (same_view r _ refl refl refl h, refl)
]

pub check_peers-IsConsistent :
    (ids : List Str) (ready_peers : Dict Str) (r : Registry)
    → ((z : Str) → elem z ids ≡ true → elem z r.peers ≡ true)
    → IsConsistent r
    → IsConsistent (check_peers ids ready_peers r).1
      × ((check_peers ids ready_peers r).1.peers ≡ r.peers)
unfolding check_peers elem
check_peers-IsConsistent [] ready_peers r k h = (h, refl)
check_peers-IsConsistent (id ∷ ids) ready_peers r k h =
    let one =
      check_peer-IsConsistent id (lookup id ready_peers) r (k id (ground (arith, str_eq_refl id)))
        h in
    let rest =
      check_peers-IsConsistent ids ready_peers (check_peer id (lookup id ready_peers) r).1
        (λ z e. ap (elem z) one.1 ∙ k z (ground arith)) one.0 in
    (rest.0, rest.1 ∙ one.1)

update-IsConsistent : (r : Registry) → IsConsistent r → IsConsistent (update_ready_state r)
unfolding update_ready_state
update-IsConsistent r h = same_view r _ refl refl refl h

pub new-IsConsistent :
    (id : Str) (threshold : ℕ) (s : Store) → IsConsistent (new_registry id threshold s)
unfolding new_registry trues elem
new-IsConsistent id threshold s = record {
  peers = tt;
  entries = tt;
  known = λ z e. absurd (cc);
  count = refl;
}

-- The operations that change what the counts are about.
pub data Operation : Type 0 where
  adds : Inner → Str → Str → Operation
  removes : Str → Operation
  checks : Dict Str → Operation
  rejoins : Inner → Str → Operation

unfoldable pub apply : Operation → Registry → Registry
apply (adds inner id key) r = (add_peer inner id key r).1
apply (removes id) r = (remove_peer id r).1
apply (checks ready_peers) r = (check_readiness ready_peers r).1
apply (rejoins inner id) r = handle_rejoin inner id r

exchange-IsConsistent :
    (inner : Inner) (id : Str) (r : Registry)
    → IsConsistent r
    → IsConsistent (exchange_with inner id r)
exchange-IsConsistent inner id r h =
    let same = exchange_lem inner id r in same_view r _ same.0 same.1 same.2 h

joined-IsConsistent :
    (id : Str) (s : Store) (r : Registry)
    → IsConsistent r
    → IsConsistent (record r { store = s; peers = add_id id r.peers })
joined-IsConsistent id s r h = record {
  peers = add_id-IsDistinct id r.peers h.peers;
  entries = h.entries;
  known = λ z e. ground (arith, elem-add_id z id r.peers, h.known z);
  count = h.count;
}

adds-IsConsistent :
    (inner : Inner) (id key : Str) (r : Registry)
    → IsConsistent r
    → IsConsistent (add_peer inner id key r).1
unfolding add_peer
adds-IsConsistent inner id key r h = elim (Bool-cases (str_eq id r.node_id)) [
  | inl own ↦ rw (own, add_peer) h
  | inr own ↦ elim (Bool-cases (elem id r.peers)) [
    | inl old ↦ rw (own, old, add_peer) (exchange-IsConsistent inner id r h)
    | inr old ↦ elim (Bool-cases (accepts r.verifier id key)) [
      | inr good ↦ rw (own, old, good, add_peer) h
      | inl good ↦ elim (Bool-cases (register_key id key r.store).0) [
        | inr done ↦ rw (own, old, good, done, add_peer) (same_view r _ refl refl refl h)
        | inl done ↦
            rw (own, old, good, done, add_peer)
              (exchange-IsConsistent inner id _ (joined-IsConsistent id _ r h))
      ]
    ]
  ]
]

removes-IsConsistent :
    (id : Str) (r : Registry) → IsConsistent r → IsConsistent (remove_peer id r).1
unfolding remove_peer
removes-IsConsistent id r h = elim (Bool-cases (elem id r.peers)) [
  | inr e ↦ rw (e, remove_peer) h
  | inl e ↦
      rw (e, remove_peer)
        (update-IsConsistent _ (record {
          peers = unfold remove_id in keep-IsDistinct _ r.peers h.peers;
          entries = delete-IsDistinct id r.ready_map h.entries;
          known = λ z k.
              unfold remove_id in
              ground (
                arith,
                elem-keep (λ y. not (str_eq y id)) z r.peers,
                elem-delete z id r.ready_map,
                h.known z,
              );
          count = ground (arith, trues-delete id r.ready_map h.entries, h.count);
        }))
]

rejoins-IsConsistent :
    (inner : Inner) (id : Str) (r : Registry)
    → IsConsistent r
    → IsConsistent (handle_rejoin inner id r)
unfolding handle_rejoin exchange_with
rejoins-IsConsistent inner id r h = elim (Option-cases r.session) [
  | inl e ↦ rw (e, handle_rejoin) h
  | inr (s, e) ↦
      rw (e, handle_rejoin) (same_view r _ (ground arith) (ground arith) (ground arith) h)
]

pub checks-IsConsistent :
    (ready_peers : Dict Str) (r : Registry)
    → IsConsistent r
    → IsConsistent (check_readiness ready_peers r).1
unfolding check_readiness
checks-IsConsistent ready_peers r h =
    update-IsConsistent _ (check_peers-IsConsistent r.peers ready_peers r (λ z e. e) h).0

-- After AddPeer, RemovePeer, checkPeerReadiness or handleECDHRejoin, in all their branches, a
-- registry whose counts agree with its entries is such a registry again: each peer is listed once,
-- each id has at most one readiness entry, only of a peer, and readyCount is 1 for this node and
-- the number of the true entries.
pub apply-IsConsistent : (o : Operation) (r : Registry) → IsConsistent r → IsConsistent (apply o r)
unfolding apply
apply-IsConsistent (adds inner id key) r h = adds-IsConsistent inner id key r h
apply-IsConsistent (removes id) r h = removes-IsConsistent id r h
apply-IsConsistent (checks ready_peers) r h = checks-IsConsistent ready_peers r h
apply-IsConsistent (rejoins inner id) r h = rejoins-IsConsistent inner id r h
