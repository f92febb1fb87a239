-- ===== src/Orchestrator/Families.antt =====
-- A wallet's key families are reshared in order, and what a failure leaves over is resumed.

use mathlib.Core.Path.{subst}
use aicw_node.Base.{
  ◌≡◌, ◌⊎◌, ◌≢◌, refl, ap, ◌∙◌, inl, inr, true, false, ◌||◌, Option, none, List, [], ◌∷◌, ◌++◌,
  arith, Str, str_eq_refl, str_eq_comm, ℤ, All, All-map, All-both, Result-cases,
}
use aicw_node.Orchestrator.KeyTypes.{
  KeyType, ed25519, secp256k1, other, kt_eq, has, attempted_key_types, remaining_key_types,
}
use aicw_node.Orchestrator.Publisher.{
  Attempt, Waiters, ReshareResult, PublishError, reshare_one_with_retry, reshare_types,
  reshare_wallet,
}

kt_eq_refl : (k : KeyType) → kt_eq k k ≡ true
unfolding kt_eq
kt_eq_refl ed25519 = refl
kt_eq_refl secp256k1 = refl
kt_eq_refl (other s) = str_eq_refl s

-- Every family once.
abbrev pub DistinctTypes : List KeyType → Type 0
DistinctTypes [] = Unit
DistinctTypes (k ∷ ks) = (has k ks ≡ false) × DistinctTypes ks

kt_eq_comm : (j k : KeyType) → kt_eq j k ≡ kt_eq k j
unfolding kt_eq
kt_eq_comm ed25519 ed25519 = refl
kt_eq_comm secp256k1 secp256k1 = refl
kt_eq_comm (other a) (other b) = str_eq_comm a b
kt_eq_comm ed25519 secp256k1 = refl
kt_eq_comm ed25519 (other b) = refl
kt_eq_comm secp256k1 ed25519 = refl
kt_eq_comm secp256k1 (other b) = refl
kt_eq_comm (other a) ed25519 = refl
kt_eq_comm (other a) secp256k1 = refl

-- The outcome of a run over the families `kts` that began with `before` done.
abbrev Split : List KeyType → List KeyType → ReshareResult → Option PublishError → Type 0
Split kts before res e =
    (did rest : List KeyType) × (kts ≡ did ++ rest)
    × ((k : KeyType) → has k res.done ≡ (has k did || has k before))
    × (((rest ≡ []) × (e ≡ none))
        ⊎ ((k : KeyType) × (ks : List KeyType) × (rest ≡ k ∷ ks) × (e ≢ none)))

module _ {World : Type 0} (next : Str → List Str → ℤ → KeyType → World → Attempt × World) where
  types-Split :
      (wallet : Str) (committee : List Str) (threshold : ℤ) (kts : List KeyType)
      (res : ReshareResult) (w : World) (ws : Waiters)
      → let r = reshare_types next wallet committee threshold kts res w ws in
        Split kts res.done r.0 r.1
  unfolding reshare_types has
  types-Split wallet committee threshold [] res w ws = ([], [], refl, λ k. refl, inl (refl, refl))
  types-Split wallet committee threshold (kt ∷ kts) res w ws =
      let one = reshare_one_with_retry next wallet committee threshold kt w ws in
      elim (Result-cases one.0) [
        | inr (e, q) ↦
            rw (q, reshare_types) ([], kt ∷ kts, refl, λ k. refl, inr (kt, kts, refl, λ p. cc))
        | inl (key, q) ↦
            let res' : ReshareResult = record {
              done = kt ∷ res.done;
              pub_keys = (kt, key) ∷ res.pub_keys;
            } in
            let (did, rest, e, h, stop) =
              types-Split wallet committee threshold kts res' one.1 one.2 in
            rw (q, reshare_types) (kt ∷ did, rest, ap (◌∷◌ kt) e, λ k. ground (arith, h k), stop)
      ]

drop_done :
    (did rest done : List KeyType)
    → All (λ k. has k done ≡ true) did
    → All (λ k. has k done ≡ false) rest
    → remaining_key_types (did ++ rest) done ≡ rest
unfolding remaining_key_types
drop_done [] [] done a b = refl
drop_done [] (k ∷ ks) done a b = ground (arith, drop_done [] ks done tt b.1)
drop_done (k ∷ ks) rest done a b = ground (arith, drop_done ks rest done a.1 b)

has-All :
    (ks done : List KeyType)
    → ((k : KeyType) → has k ks ≡ true → has k done ≡ true)
    → All (λ k. has k done ≡ true) ks
unfolding has
has-All [] done h = tt
has-All (k ∷ ks) done h =
    (h k (ground (arith, kt_eq_refl k)), has-All ks done (λ j e. h j (ground arith)))

absent :
    (k : KeyType) (xs rest : List KeyType)
    → has k (xs ++ rest) ≡ false
    → All (λ j. kt_eq j k ≡ false) rest
unfolding has
absent k [] [] h = tt
absent k [] (j ∷ rest) h = (ground (arith, kt_eq_comm j k), absent k [] rest (ground arith))
absent k (x ∷ xs) rest h = absent k xs rest (ground arith)

not_did :
    (did rest : List KeyType) → DistinctTypes (did ++ rest) → All (λ k. has k did ≡ false) rest
unfolding has
not_did [] [] d = tt
not_did [] (k ∷ rest) d = (refl, not_did [] rest d.1)
not_did (x ∷ did) rest d =
    All-map (λ k. (kt_eq k x ≡ false) × (has k did ≡ false)) (λ k. (kt_eq k x || has k did) ≡ false)
      rest (λ k p. ground arith) (All-both _ _ rest (absent x did rest d.0) (not_did did rest d.1))

module _ {World : Type 0} (next : Str → List Str → ℤ → KeyType → World → Attempt × World) where
  -- Where no family is attempted twice: ReshareWallet works through the attempted families in order.
  -- It returns no error exactly when it completed all of them; else it completed those before the
  -- first that failed. RemainingKeyTypes gives those that it did not complete, in their order.
  pub reshare_wallet_families :
      (wallet : Str) (committee : List Str) (threshold : ℤ) (only : List KeyType) (w : World)
      (ws : Waiters)
      → DistinctTypes (attempted_key_types only)
      → let attempted = attempted_key_types only in
        let r = reshare_wallet next wallet committee threshold only w ws in
        (did rest : List KeyType) × (attempted ≡ did ++ rest)
        × ((k : KeyType) → has k r.0.done ≡ has k did)
        × (((rest ≡ []) × (r.1 ≡ none)) ⊎ ((rest ≢ []) × (r.1 ≢ none)))
        × (remaining_key_types attempted r.0.done ≡ rest)
  unfolding reshare_wallet has
  reshare_wallet_families wallet committee threshold only w ws d =
      let attempted = attempted_key_types only in
      let (did, rest, e, h, stop) =
        types-Split next wallet committee threshold attempted (record { done = []; pub_keys = [] })
          w ws in
      let done = (reshare_wallet next wallet committee threshold only w ws).0.done in
      let same : (k : KeyType) → has k done ≡ has k did = λ k. ground (arith, h k) in
      (
        did,
        rest,
        e,
        same,
        elim stop [ inl q ↦ inl q | inr (k, ks, q, n) ↦ inr (λ p. cc, n) ],
        ap (λ l. remaining_key_types l done) e
            ∙ drop_done did rest done (has-All did done (λ k p. same k ∙ p)) (
                All-map (λ k. has k did ≡ false) (λ k. has k done ≡ false) rest (λ k p. same k ∙ p)
                  (not_did did rest (subst DistinctTypes e d))),
      )
