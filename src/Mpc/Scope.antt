-- ===== src/Mpc/Scope.antt =====
-- The ceremony scope that EnsureCeremonyReady leaves in the ECDH session.
use aicw_node.Base.{
  ◌<◌, ◌≡◌, ◌≢◌, refl, sym, ◌∙◌, inl, inr, true, false, some, List, [], ◌∷◌, arith, length, Str,
  elem, err, Bool-cases, Option-cases,
}
use aicw_node.Mpc.Session.{
  Inner, sent, Session, expected_count, mesh_expected, scope_of, set_ceremony_peers,
  clear_ceremony_scope, ensure_ecdh,
}
use aicw_node.Mpc.Registry.{Registry}
use aicw_node.Mpc.Gates.{
  are_ceremony_ready, ensure_ceremony_ecdh, ecdh_failed, unscoped, await_ceremony, committee_gate,
  ensure_ceremony_ready,
}

-- The session counts the full mesh.
abbrev pub IsUnscoped : Registry → Type 0
IsUnscoped r = (e : Session) → r.session ≡ some e → expected_count e ≡ mesh_expected e

unscoped-IsUnscoped : (r : Registry) → IsUnscoped (unscoped r)
unscoped-IsUnscoped r e h = elim (Option-cases r.session) [
  | inl s ↦ absurd (unfold unscoped in ground arith)
  | inr (s, q) ↦
      unfold unscoped clear_ceremony_scope set_ceremony_peers expected_count mesh_expected in
      ground arith
]

await-IsUnscoped :
    (committee : List Str) (changes : List (Registry → Registry)) (r : Registry)
    → IsUnscoped (await_ceremony committee changes r).1
unfolding await_ceremony
await-IsUnscoped committee [] r = unscoped-IsUnscoped r
await-IsUnscoped committee (c ∷ cs) r = elim (Bool-cases (are_ceremony_ready committee r)) [
  | inl e ↦ rw (e, await_ceremony) (unscoped-IsUnscoped r)
  | inr e ↦ rw (e, await_ceremony) (await-IsUnscoped committee cs (c r))
]

module _ (x : Str) (xs : List Str) (r : Registry) (e : Session) (s : r.session ≡ some e) where
  exchange_done :
      (inner : Inner) → inner ≢ some false → (ensure_ceremony_ecdh inner (x ∷ xs) r).0 ≡ true
  unfolding ensure_ceremony_ecdh ensure_ecdh sent
  exchange_done inner n = rw (s, ensure_ceremony_ecdh) (ground arith)

  exchange_failed : (ensure_ceremony_ecdh (some false) (x ∷ xs) r).0 ≡ false
  unfolding ensure_ceremony_ecdh ensure_ecdh sent
  exchange_failed = rw (s, ensure_ceremony_ecdh) refl

  exchange_scoped :
      (ensure_ceremony_ecdh (some false) (x ∷ xs) r).1.session
      ≡ some (ensure_ecdh (some false) (x ∷ xs) e).1
  unfolding ensure_ceremony_ecdh
  exchange_scoped = rw (s, ensure_ceremony_ecdh) refl

  -- In committee mode, for a committee with this node and a registry with an ECDH session,
  -- EnsureCeremonyReady leaves the session counting the full mesh again, whether it admits the
  -- ceremony or its deadline is over, unless the broadcast of the public key fails.
  pub ensure_unscoped :
      (inner : Inner) (changes : List (Registry → Registry)) (e' : Session)
      → elem r.node_id (x ∷ xs) ≡ true
      → inner ≢ some false
      → (ensure_ceremony_ready true inner (x ∷ xs) changes r).1.session ≡ some e'
      → expected_count e' ≡ mesh_expected e'
  unfolding ensure_ceremony_ready committee_gate
  ensure_unscoped inner changes e' m b h =
      await-IsUnscoped (x ∷ xs) changes (ensure_ceremony_ecdh inner (x ∷ xs) r).1 e' (sym same ∙ h)
    where
      same :
          (committee_gate inner (x ∷ xs) changes r).1.session
          ≡ (await_ceremony (x ∷ xs) changes (ensure_ceremony_ecdh inner (x ∷ xs) r).1).1.session
      same = rw (m, exchange_done inner b, committee_gate) refl

  -- If the broadcast fails, EnsureCeremonyReady for a committee with this node and another one
  -- fails and leaves the session scoped: it counts the other members of the committee.
  pub ensure_failed_scope :
      (changes : List (Registry → Registry))
      → elem r.node_id (x ∷ xs) ≡ true
      → 0 < length (scope_of e.node_id (x ∷ xs))
      → let gate = ensure_ceremony_ready true (some false) (x ∷ xs) changes r in
        (gate.0 ≡ err ecdh_failed)
        × ((e' : Session) × (gate.1.session ≡ some e')
            × (expected_count e' ≡ length (scope_of e.node_id (x ∷ xs))))
  unfolding ensure_ceremony_ready committee_gate
  ensure_failed_scope changes m n =
      rw (m, exchange_failed, committee_gate)
        (
          refl,
          (
            (ensure_ecdh (some false) (x ∷ xs) e).1,
            exchange_scoped,
            unfold expected_count ensure_ecdh in ground arith,
          ),
        )
