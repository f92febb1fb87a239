-- ===== src/Eligibility/Keys.antt =====
-- pkg/eligibility/whitelist_membership.go: normalizePublicKey.
use aicw_node.Base.{
  ◌≡◌, refl, ◌⊎◌, ap, inl, inr, Bool, ◌&&◌, arith, if◌then◌else◌, ◌==◌, length, Str, IsBytes,
  hex_decode, hex_encode, hex_decode-hex_encode, length-hex_encode, Bool-cases,
}

-- Decoded bytes are taken if the decoding succeeds and gives a key of 32 bytes.
unfoldable pub take_decoded : Str → Str × Bool → Str
take_decoded b (raw, fine) = if fine && length raw == 32 then raw else b

unfoldable pub normalize_public_key : Str → Str
normalize_public_key b = if length b == 32 then b else take_decoded b (hex_decode b)

pub normalize_raw : (b : Str) → length b ≡ 32 → normalize_public_key b ≡ b
unfolding normalize_public_key
normalize_raw b h = ground arith

pub normalize-hex_encode :
    (key : Str) → IsBytes key → length key ≡ 32 → normalize_public_key (hex_encode key) ≡ key
unfolding normalize_public_key take_decoded
normalize-hex_encode key h n =
    rw (hex_decode-hex_encode key h) (ground (arith, length-hex_encode key))

taken_cases : (b : Str) (r : Str × Bool) → (length (take_decoded b r) ≡ 32) ⊎ (take_decoded b r ≡ b)
unfolding take_decoded
taken_cases b (raw, fine) = elim (Bool-cases (fine && length raw == 32)) [
  | inl e ↦ inl (rw e (ground arith))
  | inr e ↦ inr (rw e refl)
]

normalize_cases : (b : Str) → (length (normalize_public_key b) ≡ 32) ⊎ (normalize_public_key b ≡ b)
unfolding normalize_public_key
normalize_cases b = elim (Bool-cases (length b == 32)) [
  | inl e ↦ inr (rw e refl)
  | inr e ↦ rw e (taken_cases b (hex_decode b))
]

-- Normalizing a second time changes nothing.
pub normalize_idem :
    (b : Str) → normalize_public_key (normalize_public_key b) ≡ normalize_public_key b
normalize_idem b = elim (normalize_cases b) [
  | inl e ↦ normalize_raw (normalize_public_key b) e
  | inr e ↦ ap normalize_public_key e
]
