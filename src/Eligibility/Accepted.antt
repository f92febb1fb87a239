-- ===== src/Eligibility/Accepted.antt =====
-- Which messages the verifiers of an initiator accept.
use aicw_node.Base.{
  ◌≡◌, ◌≢◌, ◌↔◌, inl, inr, true, some, [], ◌∷◌, arith, length, Str, IsBytes, text, str_eq,
  str_eq_iff, str_eq_refl, Dict, Any, hex_encode, hex_decode-hex_encode, ok, Bool-cases,
  Option-cases,
}
use aicw_node.Types.Messages.{InitiatorMessage}
use aicw_node.Identity.Crypto.{Crypto}
use aicw_node.Eligibility.Initiators.{
  KeyWhitelist, key_accepts, try_keys, verify_listed, legacy_ed25519, verify_legacy,
}

module _ (crypto : Crypto) where
  try_keys_iff :
      (allowed : Dict Str) (raw sig : Str)
      → (try_keys crypto allowed raw sig ≡ ok tt)
        ↔ Any (λ e. key_accepts crypto e.0 e.1 raw sig ≡ true) allowed
  unfolding try_keys
  try_keys_iff [] raw sig = (λ h. absurd (cc), λ h. absurd h)
  try_keys_iff ((hex, algorithm) ∷ rest) raw sig = ground (arith, try_keys_iff rest raw sig)

  -- A whitelist accepts a message exactly if it has signed bytes and a signature, and one of the
  -- allowed entries is the hex of an Ed25519 key of 32 bytes that verifies it, whatever the order in
  -- which the entries are tried.
  pub verify_listed_iff :
      (w : KeyWhitelist) (m : InitiatorMessage)
      → (verify_listed crypto w m ≡ ok tt) ↔ (
          (m.sig ≢ [])
          × ((raw : Str) × (m.raw ≡ some raw)
              × Any (λ e. key_accepts crypto e.0 e.1 raw m.sig ≡ true) w.allowed_keys))
  unfolding verify_listed
  verify_listed_iff w m = elim (Option-cases m.raw) [
    | inl e ↦ (λ h. absurd (ground arith), λ h. absurd (ground arith))
    | inr (raw, e) ↦ elim (Bool-cases (str_eq m.sig [])) [
      | inl q ↦ (λ h. absurd (ground arith), λ h. absurd (h.0 ((str_eq_iff m.sig []).0 q)))
      | inr q ↦ (
        λ h. (
          λ z. absurd (ground (arith, str_eq_iff m.sig [])),
          (raw, e, (try_keys_iff w.allowed_keys raw m.sig).0 (ground arith)),
        ),
        λ h. rw (h.1.1, q) ((try_keys_iff w.allowed_keys h.1.0 m.sig).1 h.1.2),
      )
    ]
  ]

  key_accepts-hex_encode :
      (key raw sig : Str)
      → IsBytes key
      → length key ≡ 32
      → key_accepts crypto (hex_encode key) (text "ed25519") raw sig
        ≡ crypto.ed25519_verify key raw sig
  unfolding key_accepts
  key_accepts-hex_encode key raw sig b n =
      rw (hex_decode-hex_encode key b) (rw (str_eq_refl (text "ed25519")) (ground arith))

  -- A legacy verifier of an Ed25519 key accepts the same messages as a whitelist whose one entry is
  -- the hex of this key.
  pub legacy-listed :
      (key : Str) (w : KeyWhitelist) (m : InitiatorMessage)
      → IsBytes key
      → length key ≡ 32
      → w.allowed_keys ≡ ((hex_encode key, text "ed25519") ∷ [])
      → (verify_legacy crypto (record { pub_key = key; algorithm = text "ed25519" }) m ≡ ok tt)
        ↔ (verify_listed crypto w m ≡ ok tt)
  unfolding verify_legacy verify_listed legacy_ed25519 try_keys
  legacy-listed key w m b n a = elim (Option-cases m.raw) [
    | inl e ↦ (λ h. absurd (ground arith), λ h. absurd (ground arith))
    | inr (raw, e) ↦
        ground (arith, str_eq_refl (text "ed25519"), a, key_accepts-hex_encode key raw m.sig b n)
  ]
