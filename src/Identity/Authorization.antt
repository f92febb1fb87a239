-- ===== src/Identity/Authorization.antt =====
-- pkg/identity/dynamic_store.go: who may initiate a ceremony, and who must authorize it.
use aicw_node.Base.{
  Bool, true, false, not, Option, none, some, List, [], ◌∷◌, if◌then◌else◌, Str, str_eq,
  first_absent, Dict, lookup, insert, Result, ok, err, guard,
}
use aicw_node.Consul.{Codec}
use aicw_node.Types.Messages.{
  AuthorizerSignature, InitiatorMessage, AuthorizerPayload, compose_authorizer_raw,
}
use aicw_node.Identity.Crypto.{Crypto, verify_ed25519}

-- The types EventInitiatorKeyType and SignatureAlgorithm: two constants, or any other string.
pub data Algorithm : Type 0 where
  ed25519 p256 : Algorithm
  unsupported : Str → Algorithm

-- The P256 pointer is `none` for nil.
pub record InitiatorKey : Type 0 where
  pub algorithm : Algorithm
  pub ed25519_key : Str
  pub p256_key : Option Str

pub record AuthorizerPublicKey : Type 0 where
  pub public_key : Str
  pub algorithm : Algorithm

pub record AuthorizationConfig : Type 0 where
  pub enabled : Bool
  pub required_authorizers : List Str
  pub authorizer_public_keys : Dict AuthorizerPublicKey

-- A parsed key of the cache, by its Go type.
pub data CachedKey : Type 0 where
  ed25519_public p256_public : Str → CachedKey

pub data AuthError : Type 0 where
  no_initiator_key raw_failed empty_signature invalid_signature no_p256_key : AuthError
  unsupported_algorithm invalid_key panics : AuthError
  missing_authorizer unknown_authorizer : Str → AuthError

unfoldable pub answer_of : Option Bool → Result AuthError (Unit {0})
answer_of none = err panics
answer_of (some true) = ok tt
answer_of (some false) = err invalid_signature

-- The algorithm of the configured key; the zero value is the empty string.
unfoldable pub algorithm_of : AuthorizationConfig → Str → Algorithm
algorithm_of cfg id = elim (lookup id cfg.authorizer_public_keys) [
  | none ↦ unsupported []
  | some k ↦ k.algorithm
]

abbrev pub ids_of : List AuthorizerSignature → List Str
ids_of [] = []
ids_of (s ∷ ss) = s.authorizer_id ∷ ids_of ss

unfoldable pub is_panic : AuthError → Bool
is_panic panics = true
is_panic _ = false

module _ (crypto : Crypto) where
  -- parseInitiatorKey.
  unfoldable pub parse_initiator_key : Str → Algorithm → Result AuthError InitiatorKey
  parse_initiator_key key ed25519 = elim (crypto.parse_ed25519_hex key) [
    | none ↦ err invalid_key
    | some k ↦ ok (record { algorithm = ed25519; ed25519_key = k; p256_key = none })
  ]
  parse_initiator_key key p256 = elim (crypto.parse_p256_hex key) [
    | some k ↦ ok (record { algorithm = p256; ed25519_key = []; p256_key = some k })
    | none ↦ elim (crypto.parse_p256_base64 key) [
      | none ↦ err invalid_key
      | some k ↦ ok (record { algorithm = p256; ed25519_key = []; p256_key = some k })
    ]
  ]
  parse_initiator_key key (unsupported s) = err unsupported_algorithm

  unfoldable pub verify_initiator_ed25519 :
      InitiatorMessage → InitiatorKey → Result AuthError (Unit {0})
  unfolding answer_of
  verify_initiator_ed25519 m key = elim m.raw [
    | none ↦ err raw_failed
    | some raw ↦
        if str_eq m.sig []
        then err empty_signature
        else answer_of (verify_ed25519 crypto key.ed25519_key raw m.sig)
  ]

  unfoldable pub verify_initiator_p256 :
      InitiatorMessage → InitiatorKey → Result AuthError (Unit {0})
  verify_initiator_p256 m key = elim m.raw [
    | none ↦ err raw_failed
    | some raw ↦ elim key.p256_key [
      | none ↦ err no_p256_key
      | some k ↦ guard (crypto.p256_verify k raw m.sig) invalid_signature
    ]
  ]

  unfoldable pub verify_initiator_key :
      InitiatorMessage → InitiatorKey → Result AuthError (Unit {0})
  verify_initiator_key m key = elim key.algorithm [
    | ed25519 ↦ verify_initiator_ed25519 m key
    | p256 ↦ verify_initiator_p256 m key
    | unsupported s ↦ err unsupported_algorithm
  ]

  -- The loop of VerifyInitiatorMessage with the last error; a panic ends it.
  unfoldable pub verify_initiator_keys :
      InitiatorMessage → List InitiatorKey → AuthError → Result AuthError (Unit {0})
  verify_initiator_keys m [] last = err last
  verify_initiator_keys m (key ∷ keys) last = elim (verify_initiator_key m key) [
    | ok u ↦ ok u
    | err e ↦ elim (is_panic e) [ true ↦ err e | false ↦ verify_initiator_keys m keys e ]
  ]

  unfoldable pub verify_initiator_message :
      List InitiatorKey → InitiatorMessage → Result AuthError (Unit {0})
  verify_initiator_message [] m = err no_initiator_key
  verify_initiator_message (key ∷ keys) m = verify_initiator_keys m (key ∷ keys) invalid_signature

  -- The loop of loadAuthorizationConfig over the keys, with the cache so far.
  unfoldable pub cache_keys :
      Dict AuthorizerPublicKey → Dict CachedKey → Result AuthError (Unit {0}) × Dict CachedKey
  cache_keys [] cache = (ok tt, cache)
  cache_keys ((id, k) ∷ ks) cache = elim k.algorithm [
    | ed25519 ↦ elim (crypto.parse_ed25519_hex k.public_key) [
      | none ↦ (err invalid_key, cache)
      | some key ↦ cache_keys ks (insert id (ed25519_public key) cache)
    ]
    | p256 ↦ elim (crypto.parse_p256_hex k.public_key) [
      | none ↦ (err invalid_key, cache)
      | some key ↦ cache_keys ks (insert id (p256_public key) cache)
    ]
    | unsupported s ↦ (err unsupported_algorithm, cache)
  ]

  -- With the switch of verifyAuthorizerSignature; a key of the other Go type panics.
  unfoldable pub check_authorizer : Algorithm → CachedKey → Str → Str → Result AuthError (Unit {0})
  unfolding answer_of
  check_authorizer ed25519 (ed25519_public key) raw sig =
      answer_of (verify_ed25519 crypto key raw sig)
  check_authorizer p256 (p256_public key) raw sig =
      guard (crypto.p256_verify key raw sig) invalid_signature
  check_authorizer (unsupported s) key raw sig = err unsupported_algorithm
  check_authorizer _ _ raw sig = err panics

  unfoldable pub verify_authorizer_signature :
      AuthorizationConfig → Dict CachedKey → Str → AuthorizerSignature → Result AuthError (Unit {0})
  verify_authorizer_signature cfg cache raw s = elim (lookup s.authorizer_id cache) [
    | none ↦ err (unknown_authorizer s.authorizer_id)
    | some key ↦ check_authorizer (algorithm_of cfg s.authorizer_id) key raw s.signature
  ]

  unfoldable pub verify_all :
      AuthorizationConfig
      → Dict CachedKey
      → Str
      → List AuthorizerSignature
      → Result AuthError (Unit {0})
  verify_all cfg cache raw [] = ok tt
  verify_all cfg cache raw (s ∷ ss) = elim (verify_authorizer_signature cfg cache raw s) [
    | err e ↦ err e
    | ok u ↦ verify_all cfg cache raw ss
  ]

  -- Without a signature nothing is composed.
  unfoldable pub check_signatures :
      AuthorizationConfig
      → Dict CachedKey
      → List AuthorizerSignature
      → Option Str
      → Result AuthError (Unit {0})
  check_signatures cfg cache [] composed = ok tt
  check_signatures cfg cache (s ∷ ss) none = err raw_failed
  check_signatures cfg cache (s ∷ ss) (some raw) = verify_all cfg cache raw (s ∷ ss)

  unfoldable pub authorize_initiator_message :
      Codec AuthorizerPayload
      → AuthorizationConfig
      → Dict CachedKey
      → InitiatorMessage
      → Result AuthError (Unit {0})
  authorize_initiator_message json cfg cache m =
      if not cfg.enabled
      then ok tt
      else elim (first_absent (ids_of m.authorizer_signatures) cfg.required_authorizers) [
        | some id ↦ err (missing_authorizer id)
        | none ↦ check_signatures cfg cache m.authorizer_signatures (compose_authorizer_raw json m)
      ]
