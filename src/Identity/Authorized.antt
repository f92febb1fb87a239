-- ===== src/Identity/Authorized.antt =====
-- When AuthorizeInitiatorMessage and VerifyInitiatorMessage accept.
use aicw_node.Base.{
  ◌≡◌, ◌≢◌, ◌↔◌, ◌⊎◌, refl, ap, ◌∙◌, inl, inr, false, Option, none, some, List, [], ◌∷◌, arith, Str,
  first_absent, first_absent_iff, IsCovered, Dict, All, Any, length, ok, err, Bool-cases,
  some_injective, Option-cases, Result-cases,
}
use aicw_node.Consul.{Codec}
use aicw_node.Types.Messages.{
  AuthorizerSignature, InitiatorMessage, AuthorizerPayload, compose_authorizer_raw,
}
use aicw_node.Identity.Crypto.{Crypto, verify_ed25519}
use aicw_node.Identity.Authorization.{
  AuthorizationConfig, CachedKey, InitiatorKey, verify_initiator_key, verify_initiator_keys,
  verify_initiator_message, verify_authorizer_signature, verify_all, ids_of, check_signatures,
  authorize_initiator_message, Algorithm, ed25519, p256, unsupported, AuthError, panics, is_panic,
  no_initiator_key, raw_failed, empty_signature, invalid_signature, no_p256_key,
  unsupported_algorithm, invalid_key, missing_authorizer, unknown_authorizer,
  verify_initiator_ed25519, verify_initiator_p256, answer_of,
}

module _ (crypto : Crypto) (cfg : AuthorizationConfig) (cache : Dict CachedKey) where
  abbrev pub IsVerified : Str → AuthorizerSignature → Type 0
  IsVerified raw s = verify_authorizer_signature crypto cfg cache raw s ≡ ok tt

  verify_all_iff :
      (raw : Str) (ss : List AuthorizerSignature)
      → (verify_all crypto cfg cache raw ss ≡ ok tt) ↔ All (IsVerified raw) ss
  unfolding verify_all
  verify_all_iff raw [] = (λ _. tt, λ _. refl)
  verify_all_iff raw (s ∷ ss) =
      elim (Result-cases (verify_authorizer_signature crypto cfg cache raw s)) [
        | inl (u, e) ↦ (
          λ h. (e, (verify_all_iff raw ss).0 (ground arith)),
          λ h. ground (arith, (verify_all_iff raw ss).1 h.1),
        )
        | inr (x, e) ↦ (λ h. absurd (ground arith), λ h. absurd (ground arith))
      ]

  check_signatures_iff :
      (ss : List AuthorizerSignature) (o : Option Str)
      → (check_signatures crypto cfg cache ss o ≡ ok tt)
        ↔ ((ss ≡ []) ⊎ ((raw : Str) × (o ≡ some raw) × All (IsVerified raw) ss))
  unfolding check_signatures
  check_signatures_iff [] o = (λ h. inl refl, λ h. refl)
  check_signatures_iff (s ∷ ss) none = (λ h. absurd (cc), λ h. absurd (ground arith))
  check_signatures_iff (s ∷ ss) (some raw) = (
    λ h. inr (raw, refl, (verify_all_iff raw (s ∷ ss)).0 h),
    λ h. elim h [
      | inl e ↦ absurd (cc)
      | inr (r, e, v) ↦ rw (some_injective e) ((verify_all_iff r (s ∷ ss)).1 v)
    ],
  )

  -- A node whose authorization is on accepts a message exactly if every required authorizer is among
  -- its signatures, and every signature, if there is one, verifies over the composed bytes against
  -- the cached key of its authorizer; a node whose authorization is off accepts every message.
  pub authorize_iff :
      (json : Codec AuthorizerPayload) (m : InitiatorMessage)
      → (authorize_initiator_message crypto json cfg cache m ≡ ok tt) ↔ (
          (cfg.enabled ≡ false)
          ⊎ (IsCovered (ids_of m.authorizer_signatures) cfg.required_authorizers
              × ((m.authorizer_signatures ≡ [])
                  ⊎ ((raw : Str) × (compose_authorizer_raw json m ≡ some raw)
                      × All (IsVerified raw) m.authorizer_signatures))))
  unfolding authorize_initiator_message
  authorize_iff json m =
      let signed = check_signatures_iff m.authorizer_signatures (compose_authorizer_raw json m) in
      let covered = first_absent_iff (ids_of m.authorizer_signatures) cfg.required_authorizers in
      elim (Bool-cases cfg.enabled) [
        | inr e ↦ (λ h. inl e, λ h. rw e refl)
        | inl e ↦
            elim (Option-cases
              (first_absent (ids_of m.authorizer_signatures) cfg.required_authorizers)) [
                | inl q ↦ (
                  λ h. inr (covered.0 q, signed.0 (ground arith)),
                  λ h. elim h [ inl f ↦ absurd (cc) | inr (c, v) ↦ rw (e, q) (signed.1 v) ],
                )
                | inr (id, q) ↦ (
                  λ h. absurd (ground arith),
                  λ h. elim h [
                    | inl f ↦ absurd (cc)
                    | inr (c, v) ↦ absurd (ground (arith, covered.1 c))
                  ],
                )
              ]
      ]

not_panic : (e : AuthError) → e ≢ panics → is_panic e ≡ false
unfolding is_panic
not_panic panics h = absurd (h refl)
not_panic no_initiator_key h = refl
not_panic raw_failed h = refl
not_panic empty_signature h = refl
not_panic invalid_signature h = refl
not_panic no_p256_key h = refl
not_panic unsupported_algorithm h = refl
not_panic invalid_key h = refl
not_panic (missing_authorizer x) h = refl
not_panic (unknown_authorizer x) h = refl

module _ (crypto : Crypto) (m : InitiatorMessage) where
  -- An Ed25519 key has 32 bytes.
  abbrev pub IsUsable : InitiatorKey → Type 0
  IsUsable key = key.algorithm ≡ ed25519 → length key.ed25519_key ≡ 32

  no_panic_ed25519 :
      (key : InitiatorKey)
      → length key.ed25519_key ≡ 32
      → verify_initiator_ed25519 crypto m key ≢ err panics
  unfolding verify_initiator_ed25519 verify_ed25519 answer_of
  no_panic_ed25519 key h e = ground arith

  no_panic_p256 : (key : InitiatorKey) → verify_initiator_p256 crypto m key ≢ err panics
  unfolding verify_initiator_p256
  no_panic_p256 key e = ground arith

  no_panic : (key : InitiatorKey) → IsUsable key → verify_initiator_key crypto m key ≢ err panics
  unfolding verify_initiator_key
  no_panic key h e = absurd (go key.algorithm refl)
    where
      go : (a : Algorithm) → key.algorithm ≡ a → ⊥
      go ed25519 q = no_panic_ed25519 key (h q) (ground arith)
      go p256 q = no_panic_p256 key (ground arith)
      go (unsupported s) q = ground arith

  verify_initiator_keys_iff :
      (keys : List InitiatorKey) (last : AuthError)
      → All IsUsable keys
      → (verify_initiator_keys crypto m keys last ≡ ok tt)
        ↔ Any (λ key. verify_initiator_key crypto m key ≡ ok tt) keys
  unfolding verify_initiator_keys
  verify_initiator_keys_iff [] last h = (λ e. absurd (cc), λ e. absurd e)
  verify_initiator_keys_iff (key ∷ keys) last h =
      elim (Result-cases (verify_initiator_key crypto m key)) [
        | inl (u, e) ↦ (λ _. inl e, λ _. rw (e, verify_initiator_keys) refl)
        | inr (x, e) ↦
            let (f, b) = verify_initiator_keys_iff keys x h.1 in
            let q = not_panic x (λ p. no_panic key h.0 (e ∙ ap err p)) in
            (λ g. inr (f (ground arith)), λ g. rw (verify_initiator_keys, e, q) (b (ground arith)))
      ]

  -- With Ed25519 keys of 32 bytes, a message is accepted exactly if one of the initiator's keys
  -- verifies it: the keys before it, and the order, do not matter, and no key at all accepts none.
  pub verify_initiator_iff :
      (keys : List InitiatorKey)
      → All IsUsable keys
      → (verify_initiator_message crypto keys m ≡ ok tt)
        ↔ Any (λ key. verify_initiator_key crypto m key ≡ ok tt) keys
  unfolding verify_initiator_message
  verify_initiator_iff [] h = (λ e. absurd (cc), λ e. absurd e)
  verify_initiator_iff (key ∷ keys) h = verify_initiator_keys_iff (key ∷ keys) invalid_signature h
