-- ===== src/Examples/Messages.antt =====
-- Initiator messages.
use aicw_node.Base.{◌≡◌, ◌↔◌, ◌⊎◌, refl, some, [], ◌∷◌, Str, text, pos, ◌+ℤ◌, ◌≤ℤ◌, IsCovered, ok}
use aicw_node.Consul.{Codec}
use aicw_node.Orchestrator.KeyTypes.{ed25519}
use aicw_node.Types.Messages.{
  SignTxMessage, SignTxPayload, sign_tx_payload, sign_tx_raw, validate_participants,
}
use aicw_node.Types.Participants.{validate_participants_iff}
use aicw_node.Types.Signed.{IsSameRequest, sign_tx_raw_iff}

abbrev request : Str → SignTxMessage
request wallet = record {
  key_type = ed25519;
  wallet_id = wallet;
  network_internal_code = text "sol";
  tx_id = text "t1";
  tx = some (1 ∷ 2 ∷ []);
  derivation_path = [];
  participant_peer_ids = text "b" ∷ text "a" ∷ [];
  signature = [];
  authorizer_signatures = [];
}

-- A codec that writes the wallet, the other fields being those of every request here.
abbrev json : Codec SignTxPayload
json = record { encode = λ p. p.wallet_id; decode = λ s. some (sign_tx_payload (request s)) }

read_back :
    (w : Str) → json.decode (sign_tx_raw json (request w)) ≡ some (sign_tx_payload (request w))
unfolding sign_tx_raw sign_tx_payload
read_back w = refl

sign_tx_raw_iff_example :
    (sign_tx_raw json (request (text "w1")) ≡ sign_tx_raw json (request (text "w2")))
    ↔ IsSameRequest (request (text "w1")) (request (text "w2"))
sign_tx_raw_iff_example =
    sign_tx_raw_iff json (request (text "w1")) (request (text "w2")) (read_back (text "w1"))
      (read_back (text "w2"))

validate_participants_iff_example :
    (validate_participants (request (text "w1")) (text "a" ∷ text "b" ∷ []) (pos 1) ≡ ok tt) ↔ (
      ((text "b" ∷ text "a" ∷ []) ≡ [])
      ⊎ (IsCovered (text "a" ∷ text "b" ∷ []) (text "b" ∷ text "a" ∷ [])
          × (pos 1 +ℤ pos 1 ≤ℤ pos 2)))
validate_participants_iff_example =
    validate_participants_iff (request (text "w1")) (text "a" ∷ text "b" ∷ []) (pos 1)
