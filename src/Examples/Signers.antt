-- ===== src/Examples/Signers.antt =====
-- Initiators and authorizers.
use aicw_node.Base.{
  ◌≡◌, ◌↔◌, ◌⊎◌, refl, false, true, none, some, List, [], ◌∷◌, replicate, Str, text, str_eq,
  IsCovered, All, Any, Dict, elem, ok, length, lookup, some_injective, hex_decode,
}
use aicw_node.Consul.{Codec}
use aicw_node.Types.Messages.{
  AuthorizerSignature, InitiatorMessage, AuthorizerPayload, compose_authorizer_raw,
}
use aicw_node.Identity.Crypto.{Crypto, verify_ed25519}
use aicw_node.Identity.Authorization.{
  ed25519, AuthorizationConfig, CachedKey, ed25519_public, authorize_initiator_message,
  verify_initiator_key, verify_initiator_message, verify_authorizer_signature, check_authorizer,
  algorithm_of, answer_of,
}
use aicw_node.Identity.Authorized.{IsVerified, authorize_iff}
use aicw_node.Identity.Node.{
  NodeSettings, NodeIdentity, Node, built_node, decoded_node, load_initiator_keys, loaded_keys,
  new_dynamic_file_store,
}
use aicw_node.Identity.Started.{new_store-verify_initiator}
use aicw_node.Orchestrator.Authorizers.{Signer, enabled, collect_from, collect}
use aicw_node.Orchestrator.Collected.{IsTrusted, authorize-collect}

-- A signature is the message itself, and every text is the key of 32 ones.
abbrev pub echo : Crypto
echo = record {
  ed25519_verify = λ key message sig. str_eq message sig;
  ed25519_sign = λ key message. message;
  p256_verify = λ key message sig. false;
  parse_ed25519_hex = λ hex. some (replicate 32 1);
  parse_p256_hex = λ hex. none;
  parse_p256_base64 = λ hex. none;
}

abbrev payloads : Codec AuthorizerPayload
payloads = record { encode = λ p. p.initiator_raw; decode = λ s. none }

abbrev pub message : List AuthorizerSignature → InitiatorMessage
message sigs = record {
  raw = some (text "raw");
  sig = text "raw";
  initiator_id = text "w1";
  authorizer_signatures = sigs;
}

abbrev signed : List AuthorizerSignature
signed = record { authorizer_id = text "a1"; signature = text "raw" } ∷ []

abbrev config : AuthorizationConfig
config = record {
  enabled = true;
  required_authorizers = text "a1" ∷ [];
  authorizer_public_keys = (text "a1", record { public_key = text "k"; algorithm = ed25519 }) ∷ [];
}

abbrev cache : Dict CachedKey
cache = (text "a1", ed25519_public (replicate 32 1)) ∷ []

authorize_iff_example :
    (authorize_initiator_message echo payloads config cache (message signed) ≡ ok tt) ↔ (
      (true ≡ false)
      ⊎ (IsCovered (text "a1" ∷ []) (text "a1" ∷ [])
          × ((signed ≡ [])
              ⊎ ((raw : Str) × (compose_authorizer_raw payloads (message signed) ≡ some raw)
                  × All (IsVerified echo config cache raw) signed))))
authorize_iff_example = authorize_iff echo config cache payloads (message signed)

abbrev signer : Signer
signer = record { id = text "a1"; sign = λ raw. some raw }

trusted : IsTrusted echo config cache (text "raw") signer
unfolding verify_authorizer_signature check_authorizer algorithm_of answer_of verify_ed25519 lookup
    str_eq
trusted sig e = rw⁻¹ (some_injective e) refl

authorize-collect_example :
    authorize_initiator_message echo payloads config cache (message signed) ≡ ok tt
unfolding compose_authorizer_raw
authorize-collect_example =
    authorize-collect echo config cache payloads (message signed) (text "raw") (signer ∷ []) refl
      (unfold collect enabled collect_from elem str_eq in refl) (λ z e. e) (trusted, tt)

abbrev settings : NodeSettings
settings = record {
  event_initiator_algorithm = [];
  event_initiator_pubkey = text "aa";
  reshare_initiator_algorithm = [];
  reshare_initiator_pubkey = [];
  authorization = some config;
}

abbrev identity : NodeIdentity
identity = record { node_id = text "n1"; node_name = text "node"; public_key = [] }

abbrev identities : Codec NodeIdentity
identities = record { encode = λ i. []; decode = λ s. some identity }

parses : (hex key : Str) → some (replicate 32 1) ≡ some key → length key ≡ 32
parses hex key e = rw⁻¹ (some_injective e) refl

abbrev started : Node
started = built_node echo settings (text "sk") identity []

new_store-verify_initiator_example :
    (verify_initiator_message echo started.initiator_keys (message []) ≡ ok tt)
    ↔ Any
        (λ key. verify_initiator_key echo (message []) key ≡ ok tt)
        (loaded_keys (load_initiator_keys echo settings))
new_store-verify_initiator_example =
    new_store-verify_initiator echo (message []) parses identities settings (text "sk") (some [])
      started (unfold new_dynamic_file_store decoded_node hex_decode in refl)
