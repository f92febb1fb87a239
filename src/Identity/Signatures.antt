-- ===== src/Identity/Signatures.antt =====
-- pkg/identity/dynamic_store.go: the signatures of the peers, and the encryption between two of them.
-- A message of mpcium is the bytes that it is signed over, `none` if they cannot be marshalled, with
-- its sender and its signature, `none` for nil. The sender of a TSS message is the key of its party
-- id, `none` where the pointer to it is nil.
use aicw_node.Base.{
  Bool, true, false, Option, none, some, [], ◌∷◌, if◌then◌else◌, ◌==◌, length, Str, Result, ok, err,
  guard,
}
use aicw_node.Identity.{Store, get_public_key, get_symmetric_key}
use aicw_node.Identity.Crypto.{Crypto, verify_ed25519}

pub record TssMessage : Type 0 where
  pub from : Option Str
  pub signed_bytes : Option Str
  pub signature : Option Str

pub record EcdhMessage : Type 0 where
  pub from : Str
  pub signed_bytes : Option Str
  pub signature : Option Str

pub data SignatureError : Type 0 where
  no_signature no_public_key marshal_failed invalid_signature bad_key_size panics : SignatureError

-- partyIDToNodeID: the part before the first colon, code 58, or all of it.
unfoldable pub party_id_to_node_id : Str → Str
party_id_to_node_id [] = []
party_id_to_node_id (c ∷ s) = let rest = party_id_to_node_id s in if c == 58 then [] else c ∷ rest

unfoldable pub verdict : Option Bool → Result SignatureError (Unit {0})
verdict none = err panics
verdict (some true) = ok tt
verdict (some false) = err invalid_signature

-- SignRawMessage; SignMessage and SignEcdhMessage panic, here `none`, where it returns an error.
unfoldable pub sign_raw_message : Crypto → Str → Str → Option Str
sign_raw_message crypto private_key message =
    if length private_key == 64 then some (crypto.ed25519_sign private_key message) else none

unfoldable pub sign_message : Crypto → Str → Option Str → Option Str
sign_message crypto private_key none = none
sign_message crypto private_key (some bytes) = sign_raw_message crypto private_key bytes

module _ (crypto : Crypto) (s : Store) where
  unfoldable pub verify_peer_signature : Str → Str → Str → Result SignatureError (Unit {0})
  verify_peer_signature id message sig = elim (get_public_key s id) [
    | none ↦ err no_public_key
    | some key ↦
        if length key == 32
        then guard (crypto.ed25519_verify key message sig) invalid_signature
        else err bad_key_size
  ]

  -- What VerifyMessage and VerifySignature do once they have a signature and the sender's id.
  unfoldable pub verify_from : Str → Option Str → Str → Result SignatureError (Unit {0})
  verify_from id signed_bytes sig = elim (get_public_key s id) [
    | none ↦ err no_public_key
    | some key ↦ elim signed_bytes [
      | none ↦ err marshal_failed
      | some bytes ↦ verdict (verify_ed25519 crypto key bytes sig)
    ]
  ]

  -- partyIDToNodeID panics on a nil party id.
  unfoldable pub verify_message : TssMessage → Result SignatureError (Unit {0})
  verify_message m = elim m.signature [
    | none ↦ err no_signature
    | some sig ↦ elim m.from [
      | none ↦ err panics
      | some party ↦ verify_from (party_id_to_node_id party) m.signed_bytes sig
    ]
  ]

  unfoldable pub verify_signature : EcdhMessage → Result SignatureError (Unit {0})
  verify_signature m = elim m.signature [
    | none ↦ err no_signature
    | some sig ↦ verify_from m.from m.signed_bytes sig
  ]

-- The authenticated encryption of mpcium, with its nonce: each way with a message and a key.
pub record Aead : Type 0 where
  pub seal : Str → Str → Option Str
  pub unseal : Str → Str → Option Str

unfoldable pub encrypt_message : Aead → Store → Str → Str → Option Str
encrypt_message aead s plain peer = elim (get_symmetric_key s peer) [
  | none ↦ none
  | some key ↦ aead.seal plain key
]

unfoldable pub decrypt_message : Aead → Store → Str → Str → Option Str
decrypt_message aead s cipher peer = elim (get_symmetric_key s peer) [
  | none ↦ none
  | some key ↦ aead.unseal cipher key
]
