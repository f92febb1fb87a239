-- ===== src/Identity/Verified.antt =====
-- Which messages of a peer a node accepts, and when the check of a signature panics.
use aicw_node.Base.{
  ◌≡◌, ◌≢◌, ◌↔◌, ◌⊎◌, Option, none, refl, inl, inr, true, some, ◌∷◌, ◌++◌, arith, length, Str,
  IsBytes, Dict, ok, err, Bool-cases, Option-cases,
}
use aicw_node.Consul.{Codec}
use aicw_node.Identity.{Store, get_public_key}
use aicw_node.Identity.Crypto.{Crypto, verify_ed25519}
use aicw_node.Identity.Directory.{NodeIdentityValue, load_entries, self_identity}
use aicw_node.Identity.Loaded.{IsUnnamed, load-sync}
use aicw_node.Identity.Signatures.{
  TssMessage, EcdhMessage, panics, verdict, sign_raw_message, sign_message, verify_from,
  verify_message, party_id_to_node_id, verify_signature,
}

verdict_iff :
    (crypto : Crypto) (key bytes sig : Str)
    → (verdict (verify_ed25519 crypto key bytes sig) ≡ err panics) ↔ (length key ≢ 32)
unfolding verdict verify_ed25519
verdict_iff crypto key bytes sig = elim (Bool-cases (crypto.ed25519_verify key bytes sig)) [
  | inl e ↦ (λ h n. absurd (ground arith), λ h. ground (arith, h))
  | inr e ↦ (λ h n. absurd (ground arith), λ h. ground (arith, h))
]

-- A key of the wrong size stands for the sender, and the message has bytes to check.
pub record IsMisfit (s : Store) (id : Str) (signed_bytes : Option Str) : Type 0 where
  pub key : Str
  pub bytes : Str
  pub stored : get_public_key s id ≡ some key
  pub marshalled : signed_bytes ≡ some bytes
  pub misfits : length key ≢ 32

verify_from-panics_iff :
    (crypto : Crypto) (s : Store) (id sig : Str) (signed_bytes : Option Str)
    → (verify_from crypto s id signed_bytes sig ≡ err panics) ↔ IsMisfit s id signed_bytes
unfolding verify_from
verify_from-panics_iff crypto s id sig signed_bytes = elim (Option-cases (get_public_key s id)) [
  | inl q ↦ (λ h. absurd (ground arith), λ m. let f = m.stored in absurd (ground arith))
  | inr (key, q) ↦ elim (Option-cases signed_bytes) [
    | inl p ↦ (λ h. absurd (ground arith), λ m. let f = m.marshalled in absurd (ground arith))
    | inr (bytes, p) ↦ (
      λ h. record {
        key = key;
        bytes = bytes;
        stored = q;
        marshalled = p;
        misfits = (verdict_iff crypto key bytes sig).0 (ground arith);
      },
      λ m.
          rw (verify_from, m.stored, m.marshalled)
            ((verdict_iff crypto m.key m.bytes sig).1 m.misfits),
    )
  ]
]

-- VerifyMessage does not return but panics exactly on a signed message that has no sender, or whose
-- sender's stored key is not of 32 bytes where the message can be marshalled; and VerifySignature on
-- a signed message of such a key alone.
pub verify_message-panics_iff :
    (crypto : Crypto) (s : Store) (t : TssMessage) (e : EcdhMessage)
    → ((verify_message crypto s t ≡ err panics) ↔ (
        (sig : Str) × (t.signature ≡ some sig)
        × ((t.from ≡ none)
            ⊎ ((party : Str) × (t.from ≡ some party)
                × IsMisfit s (party_id_to_node_id party) t.signed_bytes))))
      × ((verify_signature crypto s e ≡ err panics)
          ↔ ((sig : Str) × (e.signature ≡ some sig) × IsMisfit s e.from e.signed_bytes))
unfolding verify_message verify_signature
verify_message-panics_iff crypto s t e = (of_tss, of_ecdh)
  where
    of_tss : (verify_message crypto s t ≡ err panics) ↔ (
        (sig : Str) × (t.signature ≡ some sig)
        × ((t.from ≡ none)
            ⊎ ((party : Str) × (t.from ≡ some party)
                × IsMisfit s (party_id_to_node_id party) t.signed_bytes)))
    of_tss = elim (Option-cases t.signature) [
      | inl q ↦ (λ h. absurd (ground arith), λ (sig, f, m). absurd (cc))
      | inr (sig, q) ↦ elim (Option-cases t.from) [
        | inl p ↦ (λ h. (sig, q, inl p), λ m. rw (verify_message, q, p) refl)
        | inr (party, p) ↦
            let of =
              verify_from-panics_iff crypto s (party_id_to_node_id party) sig t.signed_bytes in
            (
              λ h. (sig, q, inr (party, p, of.0 (rw (verify_message, q, p) at h))),
              λ (sig_, f, m). elim m [
                | inl n ↦ absurd (cc)
                | inr (party_, o, k) ↦
                    rw (verify_message, f, o)
                      ((verify_from-panics_iff crypto s (party_id_to_node_id party_) sig_
                          t.signed_bytes).1
                        k)
              ],
            )
      ]
    ]

    of_ecdh :
        (verify_signature crypto s e ≡ err panics)
        ↔ ((sig : Str) × (e.signature ≡ some sig) × IsMisfit s e.from e.signed_bytes)
    of_ecdh = elim (Option-cases e.signature) [
      | inl q ↦ (λ h. absurd (ground arith), λ (sig, f, m). absurd (cc))
      | inr (sig, q) ↦ (
        λ h. (
          sig,
          q,
          (verify_from-panics_iff crypto s e.from sig e.signed_bytes).0
              (rw (verify_signature, q) at h),
        ),
        λ (sig_, f, m).
            rw (verify_signature, f)
              ((verify_from-panics_iff crypto s e.from sig_ e.signed_bytes).1 m),
      )
    ]

accepted_from :
    (crypto : Crypto) (s : Store) (id key bytes sig : Str)
    → get_public_key s id ≡ some key
    → length key ≡ 32
    → crypto.ed25519_verify key bytes sig ≡ true
    → verify_from crypto s id (some bytes) sig ≡ ok tt
unfolding verify_from verdict verify_ed25519
accepted_from crypto s id key bytes sig k l v = rw (k, verify_from) (ground arith)

-- End to end: after a node has loaded a listing that holds the entry another node wrote of itself,
-- and after it none about that node, it accepts what that node signs with the key of its entry.
pub verify-sign :
    (crypto : Crypto) (json : Codec NodeIdentityValue) (earlier later : Dict Str)
    (name node_name private_key bytes sig : Str) (a b : Store)
    → json.decode (json.encode (self_identity node_name a)) ≡ some (self_identity node_name a)
    → IsBytes a.self_key
    → length a.self_key ≡ 32
    → a.self_id ≢ b.self_id
    → IsUnnamed json a.self_id later
    → ((m : Str) → crypto.ed25519_verify a.self_key m (crypto.ed25519_sign private_key m) ≡ true)
    → sign_message crypto private_key (some bytes) ≡ some sig
    → verify_signature crypto
        (load_entries json (earlier ++ ((name, json.encode (self_identity node_name a)) ∷ later)) b)
        (record { from = a.self_id; signed_bytes = some bytes; signature = some sig })
      ≡ ok tt
unfolding verify_signature sign_message sign_raw_message
verify-sign crypto json earlier later name node_name private_key bytes sig a b r k l n u v g =
    let loaded =
      load_entries json (earlier ++ ((name, json.encode (self_identity node_name a)) ∷ later)) b in
    let signed : crypto.ed25519_verify a.self_key bytes sig ≡ true = ground (arith, v bytes) in
    accepted_from crypto loaded a.self_id a.self_key bytes sig
      (load-sync json earlier later name node_name a b r k n u) l signed
