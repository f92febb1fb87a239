-- ===== src/Mpc/Ready.antt =====
-- What the flag that updateReadyState computes from counts means.
use aicw_node.Base.{
  ◌≤◌, ◌<◌, ◌≡◌, ◌↔◌, refl, sym, ap, ◌∙◌, inl, inr, Bool, true, false, none, some, List, [], ◌∷◌,
  if◌then◌else◌, arith, Bool-cases, length, Str, str_eq, str_eq_iff, IsDistinct,
  length-le_of_subset, elem, Dict, keys, lookup, insert, lookup-insert, flag, Option-cases,
}
use aicw_node.Mpc.Registry.{
  Registry, trues, update_ready_state, check_peer, check_peers, check_readiness,
}
use aicw_node.Mpc.Gates.{ready_ids}
use aicw_node.Mpc.Counts.{flag_absent}
use aicw_node.Mpc.Readiness.{IsConsistent, check_peers-IsConsistent}

length-ready_ids : (m : Dict Bool) → length (ready_ids m) ≡ trues m
unfolding ready_ids trues
length-ready_ids [] = refl
length-ready_ids ((k, b) ∷ m) = ground (arith, length-ready_ids m)

elem-ready_ids : (z : Str) (m : Dict Bool) → IsDistinct (keys m) → elem z (ready_ids m) ≡ flag z m
unfolding ready_ids flag lookup elem
elem-ready_ids z [] d = refl
elem-ready_ids z ((k, b) ∷ m) d =
    ground (arith, elem-ready_ids z m d.1, flag_absent k m d.0, str_eq_iff z k)

ready_ids-IsDistinct : (m : Dict Bool) → IsDistinct (keys m) → IsDistinct (ready_ids m)
unfolding ready_ids
ready_ids-IsDistinct [] d = tt
ready_ids-IsDistinct ((k, b) ∷ m) d =
    ground (arith, elem-ready_ids k m d.1, flag_absent k m d.0, ready_ids-IsDistinct m d.1)

flag_known :
    (r : Registry) (z : Str) → IsConsistent r → flag z r.ready_map ≡ true → elem z r.peers ≡ true
flag_known r z h f = elim (Bool-cases (elem z (keys r.ready_map))) [
  | inl e ↦ h.known z e
  | inr e ↦ ground (arith, flag_absent z r.ready_map e)
]

-- Every peer is marked ready.
abbrev pub AllFlagged : Registry → Type 0
AllFlagged r = (z : Str) → elem z r.peers ≡ true → flag z r.ready_map ≡ true

trues_le : (r : Registry) → IsConsistent r → trues r.ready_map ≤ length r.peers
trues_le r h = ground (
  arith,
  length-ready_ids r.ready_map,
  length-le_of_subset (ready_ids r.ready_map) r.peers (ready_ids-IsDistinct r.ready_map h.entries)
      (λ z e. flag_known r z h (sym (elem-ready_ids z r.ready_map h.entries) ∙ e)),
)

all_le : (r : Registry) → IsConsistent r → AllFlagged r → length r.peers ≤ trues r.ready_map
all_le r h a = ground (
  arith,
  length-ready_ids r.ready_map,
  length-le_of_subset r.peers (ready_ids r.ready_map) h.peers
      (λ z e. elem-ready_ids z r.ready_map h.entries ∙ a z e),
)

missing_lt :
    (r : Registry) (z : Str)
    → IsConsistent r
    → elem z r.peers ≡ true
    → flag z r.ready_map ≡ false
    → trues r.ready_map < length r.peers
missing_lt r z h k f = ground (
  arith,
  length-ready_ids r.ready_map,
  length-le_of_subset (z ∷ ready_ids r.ready_map) r.peers
      (elem-ready_ids z r.ready_map h.entries ∙ f, ready_ids-IsDistinct r.ready_map h.entries)
      (λ y e.
        unfold elem in
        ground (arith, str_eq_iff y z, elem-ready_ids y r.ready_map h.entries, flag_known r y h)),
)

all_of_count : (r : Registry) → IsConsistent r → trues r.ready_map ≡ length r.peers → AllFlagged r
all_of_count r h n z k = elim (Bool-cases (flag z r.ready_map)) [
  | inl f ↦ f
  | inr f ↦ absurd (omega (arith, missing_lt r z h k f, n))
]

update_ready :
    (r : Registry)
    → IsConsistent r
    → ((update_ready_state r).ready ≡ true) ↔ ((0 < length r.peers) × AllFlagged r)
unfolding update_ready_state
update_ready r h = (
  λ e. (ground arith, all_of_count r h (ground arith)),
  λ (p, a). ground (arith, trues_le r h, all_le r h a),
)

-- The node's entry under ready/ exists.
unfoldable pub reported : Str → Dict Str → Bool
reported z d = elim (lookup z d) [ none ↦ false | some epoch ↦ true ]

flag-insert :
    (z k : Str) (b : Bool) (m : Dict Bool)
    → flag z (insert k b m) ≡ (if str_eq z k then b else flag z m)
unfolding flag
flag-insert z k b m = rw (lookup-insert z k b m) (ground arith)

flag-check_peer :
    (z id : Str) (d : Dict Str) (r : Registry)
    → flag z (check_peer id (lookup id d) r).1.ready_map
      ≡ (if str_eq z id then reported id d else flag z r.ready_map)
unfolding check_peer reported
flag-check_peer z id d r = elim (Option-cases (lookup id d)) [
  | inl e ↦ rw (e, reported) (ground (arith, flag-insert z id false r.ready_map, str_eq_iff z id))
  | inr (epoch, e) ↦
      rw (e, reported) (ground (arith, flag-insert z id true r.ready_map, str_eq_iff z id))
]

flag-check_peers :
    (z : Str) (ids : List Str) (d : Dict Str) (r : Registry)
    → flag z (check_peers ids d r).1.ready_map
      ≡ (if elem z ids then reported z d else flag z r.ready_map)
unfolding check_peers elem
flag-check_peers z [] d r = refl
flag-check_peers z (id ∷ ids) d r = ground (
  arith,
  flag-check_peers z ids d (check_peer id (lookup id d) r).1,
  flag-check_peer z id d r,
  str_eq_iff z id,
)

-- If the counts of a registry agree with its entries, a pass of checkPeerReadiness leaves the
-- registry ready exactly if it has a peer and Consul has a ready entry of every peer, whatever was
-- marked before.
pub check_readiness_ready :
    (d : Dict Str) (r : Registry)
    → IsConsistent r
    → ((check_readiness d r).1.ready ≡ true)
      ↔ ((0 < length r.peers) × ((z : Str) → elem z r.peers ≡ true → reported z d ≡ true))
unfolding check_readiness
check_readiness_ready d r h =
    let (h', same) = check_peers-IsConsistent r.peers d r (λ z e. e) h in
    let flags : (z : Str)
        → elem z r.peers ≡ true
        → flag z (check_peers r.peers d r).1.ready_map ≡ reported z d =
      λ z e. flag-check_peers z r.peers d r ∙ rw e refl in
    let (there, back) = update_ready (check_peers r.peers d r).1 h' in
    (
      λ e.
          let (n, a) = there e in
          (rw (sym (ap length same)) n, λ z k. sym (flags z k) ∙ a z (ap (elem z) same ∙ k)),
      λ (n, a). back (
        rw (ap length same) n,
        λ z k. let k' = sym (ap (elem z) same) ∙ k in flags z k' ∙ a z k',
      ),
    )
