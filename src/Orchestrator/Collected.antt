-- ===== src/Orchestrator/Collected.antt =====
-- What Collect returns, and that a node which trusts the same authorizers accepts it.
use aicw_node.Base.{
  ◌≡◌, ◌↔◌, refl, ap, inl, inr, false, some, List, [], ◌∷◌, arith, Str, str_eq, str_eq_comm, elem,
  IsDistinct, IsCovered, Dict, All, ok, Option-cases, Result-cases,
}
use aicw_node.Consul.{Codec}
use aicw_node.Types.Messages.{
  AuthorizerSignature, InitiatorMessage, AuthorizerPayload, compose_authorizer_raw,
}
use aicw_node.Identity.Crypto.{Crypto}
use aicw_node.Identity.Authorization.{
  AuthorizationConfig, CachedKey, ids_of, authorize_initiator_message,
}
use aicw_node.Identity.Authorized.{IsVerified, authorize_iff}
use aicw_node.Orchestrator.Authorizers.{Signer, collect_from, collect, enabled}

abbrev pub signer_ids : List Signer → List Str
signer_ids [] = []
signer_ids (s ∷ ss) = s.id ∷ signer_ids ss

-- One nonempty signature of each signer, in order.
abbrev pub IsSignedBy : Str → List Signer → List AuthorizerSignature → Type 0
IsSignedBy raw [] [] = Unit
IsSignedBy raw (s ∷ ss) (g ∷ gs) =
    (g.authorizer_id ≡ s.id)
    × (s.sign raw ≡ some g.signature)
    × (str_eq g.signature [] ≡ false)
    × IsSignedBy raw ss gs
IsSignedBy raw _ _ = ⊥

-- The ids of the signers are distinct and none was seen.
abbrev IsFresh : List Str → List Signer → Type 0
IsFresh seen [] = Unit
IsFresh seen (s ∷ ss) = (elem s.id seen ≡ false) × IsFresh (s.id ∷ seen) ss

-- The ids are not among those seen.
abbrev IsUnseen : List Str → List Signer → Type 0
IsUnseen seen [] = Unit
IsUnseen seen (s ∷ ss) = (elem s.id seen ≡ false) × IsUnseen seen ss

IsUnseen-cons :
    (id : Str) (seen : List Str) (ss : List Signer)
    → IsUnseen (id ∷ seen) ss ↔ (IsUnseen seen ss × (elem id (signer_ids ss) ≡ false))
unfolding elem
IsUnseen-cons id seen [] = (λ h. (tt, refl), λ h. tt)
IsUnseen-cons id seen (s ∷ ss) =
    let (f, b) = IsUnseen-cons id seen ss in
    (λ h. ground (arith, f h.1, str_eq_comm id s.id), λ h. ground (arith, b, str_eq_comm id s.id))

IsFresh-iff :
    (seen : List Str) (ss : List Signer)
    → IsFresh seen ss ↔ (IsUnseen seen ss × IsDistinct (signer_ids ss))
IsFresh-iff seen [] = (λ h. (tt, tt), λ h. tt)
IsFresh-iff seen (s ∷ ss) =
    let (f, b) = IsFresh-iff (s.id ∷ seen) ss in
    let (g, c) = IsUnseen-cons s.id seen ss in
    (
      λ h. ((h.0, (g (f h.1).0).0), ((g (f h.1).0).1, (f h.1).1)),
      λ h. (h.0.0, b (c (h.0.1, h.1.0), h.1.1)),
    )

IsUnseen-nil : (ss : List Signer) → IsUnseen [] ss
unfolding elem
IsUnseen-nil [] = tt
IsUnseen-nil (s ∷ ss) = (refl, IsUnseen-nil ss)

collect_from→ :
    (raw : Str) (seen : List Str) (signers : List Signer) (sigs : List AuthorizerSignature)
    → collect_from raw seen signers ≡ ok sigs
    → IsFresh seen signers × IsSignedBy raw signers sigs
unfolding collect_from
collect_from→ raw seen [] [] h = (tt, tt)
collect_from→ raw seen [] (g ∷ gs) h = absurd (cc)
collect_from→ raw seen (s ∷ ss) sigs h = elim (Option-cases (s.sign raw)) [
  | inl e ↦ absurd (ground arith)
  | inr (sig, e) ↦ elim (Result-cases (collect_from raw (s.id ∷ seen) ss)) [
    | inr (x, q) ↦ absurd (ground arith)
    | inl (rest, q) ↦
        let head : AuthorizerSignature = record { authorizer_id = s.id; signature = sig } in
        let shape : (sigs ≡ head ∷ rest) × (elem s.id seen ≡ false) × (str_eq sig [] ≡ false) =
          ground arith in
        let (fresh, signed) = collect_from→ raw (s.id ∷ seen) ss rest q in
        rw (shape.0) ((shape.1, fresh), (refl, e, shape.2, signed))
  ]
]

→collect_from :
    (raw : Str) (seen : List Str) (signers : List Signer) (sigs : List AuthorizerSignature)
    → IsFresh seen signers
    → IsSignedBy raw signers sigs
    → collect_from raw seen signers ≡ ok sigs
unfolding collect_from
→collect_from raw seen [] [] f h = refl
→collect_from raw seen [] (g ∷ gs) f h = absurd h
→collect_from raw seen (s ∷ ss) [] f h = absurd h
→collect_from raw seen (s ∷ ss) (g ∷ gs) f h =
    rw (f.0, h.1, h.2, →collect_from raw (s.id ∷ seen) ss gs f.1 h.3) (rw (h.0) refl)

collect_lem :
    (raw : Str) (signers : List Signer) → collect signers raw ≡ collect_from raw [] signers
unfolding collect enabled collect_from
collect_lem raw [] = refl
collect_lem raw (s ∷ ss) = refl

-- Collect succeeds exactly with one nonempty signature of each signer, in their order, and only if
-- the ids of the signers are distinct.
pub collect_iff :
    (raw : Str) (signers : List Signer) (sigs : List AuthorizerSignature)
    → (collect signers raw ≡ ok sigs)
      ↔ (IsDistinct (signer_ids signers) × IsSignedBy raw signers sigs)
collect_iff raw signers sigs = rw (collect_lem raw signers) (
  λ h.
      let (fresh, signed) = collect_from→ raw [] signers sigs h in
      (((IsFresh-iff [] signers).0 fresh).1, signed),
  λ h.
      →collect_from raw [] signers sigs ((IsFresh-iff [] signers).1 (IsUnseen-nil signers, h.0))
        h.1,
)

ids-signed :
    (raw : Str) (signers : List Signer) (sigs : List AuthorizerSignature)
    → IsSignedBy raw signers sigs
    → ids_of sigs ≡ signer_ids signers
ids-signed raw [] [] h = refl
ids-signed raw [] (g ∷ gs) h = absurd h
ids-signed raw (s ∷ ss) [] h = absurd h
ids-signed raw (s ∷ ss) (g ∷ gs) h = rw (h.0, ids-signed raw ss gs h.3) refl

module _ (crypto : Crypto) (cfg : AuthorizationConfig) (cache : Dict CachedKey) where
  -- What a signer answers verifies under its id.
  abbrev pub IsTrusted : Str → Signer → Type 0
  IsTrusted raw s =
      (sig : Str)
      → s.sign raw ≡ some sig
      → IsVerified crypto cfg cache raw (record { authorizer_id = s.id; signature = sig })

  verified :
      (raw : Str) (signers : List Signer) (sigs : List AuthorizerSignature)
      → All (IsTrusted raw) signers
      → IsSignedBy raw signers sigs
      → All (IsVerified crypto cfg cache raw) sigs
  verified raw [] [] t h = tt
  verified raw [] (g ∷ gs) t h = absurd h
  verified raw (s ∷ ss) [] t h = absurd h
  verified raw (s ∷ ss) (g ∷ gs) t h =
      let signed : g ≡ record { authorizer_id = s.id; signature = g.signature } =
        ap (λ id. record { authorizer_id = id; signature = g.signature }) h.0 in
      (rw signed (t.0 g.signature h.1), verified raw ss gs t.1 h.3)

  -- What Collect returns over the composed bytes of a message is accepted by a node that requires
  -- no authorizer but these signers, and under whose keys the answers of the signers verify.
  pub authorize-collect :
      (json : Codec AuthorizerPayload) (m : InitiatorMessage) (raw : Str) (signers : List Signer)
      → compose_authorizer_raw json m ≡ some raw
      → collect signers raw ≡ ok m.authorizer_signatures
      → IsCovered (signer_ids signers) cfg.required_authorizers
      → All (IsTrusted raw) signers
      → authorize_initiator_message crypto json cfg cache m ≡ ok tt
  authorize-collect json m raw signers r h c t =
      let signed = ((collect_iff raw signers m.authorizer_signatures).0 h).1 in
      let covered : IsCovered (ids_of m.authorizer_signatures) cfg.required_authorizers =
        rw (ids-signed raw signers m.authorizer_signatures signed) c in
      let valid = verified raw signers m.authorizer_signatures t signed in
      (authorize_iff crypto cfg cache json m).1 (inr (covered, inr (raw, r, valid)))
