-- ===== src/Mpc/Ceremony.antt =====
-- What the ceremony gates of pkg/mpc/dynamic_registry.go guarantee.
use aicw_node.Base.{
  ◌+◌, ◌≤◌, ◌≡◌, ◌⊎◌, refl, inl, inr, Bool, true, false, some, List, [], ◌∷◌, arith, length, Str,
  str_eq, str_eq_iff, elem, flag, ok, Bool-cases, Option-cases,
}
use aicw_node.Committee.Policy.{Policy}
use aicw_node.Committee.Pool.{SameNodes}
use aicw_node.Committee.Determinism.{select_deterministic}
use aicw_node.Mpc.Session.{Inner, has_key}
use aicw_node.Mpc.Registry.{Registry}
use aicw_node.Mpc.Gates.{
  get_ready_peers_include_self, get_keygen_party, members_ready, are_ceremony_ready,
  committee_not_ready, ensure_ceremony_ecdh, unscoped, await_ceremony, dispatch, committee_gate,
  ensure_ceremony_ready,
}

-- With a policy and the filter on, two nodes that see the same non-empty ids as ready, themselves
-- included, in whatever order, have the same party for a wallet's key generation.
pub keygen_party_agree :
    (sha : Str → Str) (p : Policy) (wallet : Str) (r r' : Registry)
    → SameNodes (get_ready_peers_include_self r) (get_ready_peers_include_self r')
    → get_keygen_party sha (some p) true wallet r ≡ get_keygen_party sha (some p) true wallet r'
unfolding get_keygen_party
keygen_party_agree sha p wallet r r' h =
    rw
      (select_deterministic sha p wallet [] [] (get_ready_peers_include_self r)
        (get_ready_peers_include_self r') (λ z. refl) h)
      refl

-- A member that this node can start with: itself, or a ready node whose key it has.
abbrev pub IsReachable : Registry → Str → Type 0
IsReachable r id = (id ≡ r.node_id) ⊎ ((flag id r.ready_map ≡ true) × (has_key r.store id ≡ true))

members_lem :
    (r : Registry) (ids : List Str) (own : Bool) (id : Str)
    → members_ready r ids own ≡ true
    → elem id ids ≡ true
    → IsReachable r id
unfolding members_ready elem
members_lem r [] own id h m = absurd (cc)
members_lem r (x ∷ ids) own id h m = elim (Bool-cases (str_eq id x)) [
  | inl e ↦ let same = (str_eq_iff id x).0 e in ground (arith, str_eq_iff x r.node_id)
  | inr e ↦ ground (arith, members_lem r ids true id, members_lem r ids own id)
]

ceremony_lem :
    (committee : List Str) (r : Registry)
    → are_ceremony_ready committee r ≡ true
    → (r.threshold + 1 ≤ length committee)
      × ((id : Str) → elem id committee ≡ true → IsReachable r id)
unfolding are_ceremony_ready
ceremony_lem committee r h =
    (ground arith, λ id m. members_lem r committee false id (ground arith) m)

missing_lem :
    (committee : List Str) (r : Registry) (id : Str)
    → committee_not_ready committee r ≡ []
    → elem id committee ≡ true
    → (id ≡ r.node_id) ⊎ (flag id r.ready_map ≡ true)
unfolding committee_not_ready elem
missing_lem [] r id h m = absurd (cc)
missing_lem (x ∷ ids) r id h m =
    ground (arith, missing_lem ids r id, str_eq_iff id x, str_eq_iff x r.node_id)

unscoped_lem :
    (r : Registry)
    → ((unscoped r).node_id ≡ r.node_id)
      × ((unscoped r).threshold ≡ r.threshold)
      × ((unscoped r).ready_map ≡ r.ready_map)
      × ((unscoped r).store ≡ r.store)
unfolding unscoped
unscoped_lem r = ground arith

-- What an answer of the gate to a member promises.
abbrev pub Admitted : List Str → Registry → Type 0
Admitted committee r =
    (r.threshold + 1 ≤ length committee)
    × ((id : Str) → elem id committee ≡ true → IsReachable r id)

unscoped-Admitted :
    (committee : List Str) (r : Registry) → Admitted committee r → Admitted committee (unscoped r)
unfolding unscoped
unscoped-Admitted committee r h = elim (Option-cases r.session) [
  | inl e ↦ rw (e, unscoped) h
  | inr (s, e) ↦ rw (e, unscoped) h
]

await-Admitted :
    (committee : List Str) (changes : List (Registry → Registry)) (r : Registry)
    → (await_ceremony committee changes r).0 ≡ ok tt
    → Admitted committee (await_ceremony committee changes r).1
unfolding await_ceremony
await-Admitted committee [] r h =
    unscoped-Admitted committee r (ceremony_lem committee r (ground arith))
await-Admitted committee (c ∷ cs) r h = elim (Bool-cases (are_ceremony_ready committee r)) [
  | inl e ↦ rw (e, await_ceremony) (unscoped-Admitted committee r (ceremony_lem committee r e))
  | inr e ↦ rw (e, await_ceremony) (await-Admitted committee cs (c r) (ground arith))
]

-- In committee mode, if EnsureCeremonyReady admits a ceremony with a committee, then every member
-- but this node is marked ready; and if this node is a member, the committee has at least t + 1
-- members and this node has the symmetric key of each other one. Both are so in the registry when
-- it returns, whatever changed while it waited.
pub ensure_ceremony_ready_lem :
    (inner : Inner) (x : Str) (xs : List Str) (changes : List (Registry → Registry)) (r : Registry)
    → let committee = x ∷ xs in
      let gate = ensure_ceremony_ready true inner committee changes r in
      gate.0 ≡ ok tt
      → ((elem r.node_id committee ≡ true) × Admitted committee gate.1)
        ⊎ ((elem r.node_id committee ≡ false)
            × ((id : Str)
                → elem id committee ≡ true
                → (id ≡ r.node_id) ⊎ (flag id r.ready_map ≡ true)))
unfolding ensure_ceremony_ready committee_gate
ensure_ceremony_ready_lem inner x xs changes r h = elim (Bool-cases (elem r.node_id (x ∷ xs))) [
  | inr e ↦ inr (e, λ id m. missing_lem (x ∷ xs) r id (unfold dispatch in ground arith) m)
  | inl e ↦ elim (Bool-cases (ensure_ceremony_ecdh inner (x ∷ xs) r).0) [
    | inr d ↦ absurd (ground arith)
    | inl d ↦ inl (e, rw (e, d, committee_gate) (await-Admitted (x ∷ xs) changes _ (ground arith)))
  ]
]
