-- ===== src/Types/Messages.antt =====
-- pkg/types/initiator_msg.go: the messages, the bytes that are signed, and the checks on them.
-- json.Marshal is the encoding of a codec, at the record of the fields that are marshalled.
use aicw_node.Base.{
  ℕ, Option, none, some, List, [], ◌∷◌, if◌then◌else◌, length, Str, first_absent, sort_by, str_less,
  ℤ, pos, ◌+ℤ◌, ltb_int, Result, ok, err,
}
use aicw_node.Consul.{Codec}
use aicw_node.Orchestrator.KeyTypes.{KeyType}

pub record AuthorizerSignature : Type 0 where
  pub authorizer_id : Str
  pub signature : Str

-- What the methods of the interface InitiatorMessage answer; `none` is a failed Raw.
pub record InitiatorMessage : Type 0 where
  pub raw : Option Str
  pub sig : Str
  pub initiator_id : Str
  pub authorizer_signatures : List AuthorizerSignature

pub record GenerateKeyMessage : Type 0 where
  pub wallet_id : Str
  pub signature : Str
  pub authorizer_signatures : List AuthorizerSignature

-- `tx` is `none` for nil, which JSON tells from an empty slice.
pub record SignTxMessage : Type 0 where
  pub key_type : KeyType
  pub wallet_id : Str
  pub network_internal_code : Str
  pub tx_id : Str
  pub tx : Option Str
  pub derivation_path : List ℕ
  pub participant_peer_ids : List Str
  pub signature : Str
  pub authorizer_signatures : List AuthorizerSignature

pub record ResharingMessage : Type 0 where
  pub session_id : Str
  pub node_ids : List Str
  pub new_threshold : ℤ
  pub key_type : KeyType
  pub wallet_id : Str
  pub signature : Str
  pub authorizer_signatures : List AuthorizerSignature

-- The anonymous struct of SignTxMessage.Raw. Its last two fields are omitted when empty.
pub record SignTxPayload : Type 0 where
  pub key_type : KeyType
  pub wallet_id : Str
  pub network_internal_code : Str
  pub tx_id : Str
  pub tx : Option Str
  pub derivation_path : List ℕ
  pub participant_peer_ids : List Str

unfoldable pub sign_tx_payload : SignTxMessage → SignTxPayload
sign_tx_payload m = record {
  key_type = m.key_type;
  wallet_id = m.wallet_id;
  network_internal_code = m.network_internal_code;
  tx_id = m.tx_id;
  tx = m.tx;
  derivation_path = m.derivation_path;
  participant_peer_ids = sort_by str_less m.participant_peer_ids;
}

unfoldable pub sign_tx_raw : Codec SignTxPayload → SignTxMessage → Str
sign_tx_raw json m = json.encode (sign_tx_payload m)

unfoldable pub generate_key_raw : GenerateKeyMessage → Str
generate_key_raw m = m.wallet_id

-- A shallow copy without the signatures.
unfoldable pub unsigned : ResharingMessage → ResharingMessage
unsigned m = record m { signature = []; authorizer_signatures = [] }

unfoldable pub resharing_raw : Codec ResharingMessage → ResharingMessage → Str
resharing_raw json m = json.encode (unsigned m)

unfoldable pub of_generate_key : GenerateKeyMessage → InitiatorMessage
of_generate_key m = record {
  raw = some (generate_key_raw m);
  sig = m.signature;
  initiator_id = m.wallet_id;
  authorizer_signatures = m.authorizer_signatures;
}

unfoldable pub of_sign_tx : Codec SignTxPayload → SignTxMessage → InitiatorMessage
of_sign_tx json m = record {
  raw = some (sign_tx_raw json m);
  sig = m.signature;
  initiator_id = m.tx_id;
  authorizer_signatures = m.authorizer_signatures;
}

unfoldable pub of_resharing : Codec ResharingMessage → ResharingMessage → InitiatorMessage
of_resharing json m = record {
  raw = some (resharing_raw json m);
  sig = m.signature;
  initiator_id = m.wallet_id;
  authorizer_signatures = m.authorizer_signatures;
}

pub record AuthorizerPayload : Type 0 where
  pub initiator_id : Str
  pub initiator_raw : Str
  pub initiator_sig : Str

unfoldable pub compose_authorizer_raw : Codec AuthorizerPayload → InitiatorMessage → Option Str
compose_authorizer_raw json m = elim m.raw [
  | none ↦ none
  | some raw ↦ some (
      json.encode
        (record { initiator_id = m.initiator_id; initiator_raw = raw; initiator_sig = m.sig }))
]

pub data ParticipantError : Type 0 where
  peer_not_available : Str → ParticipantError
  insufficient_peers : ParticipantError

unfoldable pub validate_participants :
    SignTxMessage → List Str → ℤ → Result ParticipantError (Unit {0})
validate_participants m available threshold = elim m.participant_peer_ids [
  | [] ↦ ok tt
  | p ∷ ps ↦ elim (first_absent available m.participant_peer_ids) [
    | some q ↦ err (peer_not_available q)
    | none ↦
        if ltb_int (pos (length m.participant_peer_ids)) (threshold +ℤ pos 1)
        then err insufficient_peers
        else ok tt
  ]
]
