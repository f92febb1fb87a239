-- ===== src/Identity/Started.antt =====
-- Which messages a node accepts that was started with given settings.
use aicw_node.Base.{
  ◌≡◌, ◌↔◌, refl, sym, ap, ◌∙◌, inl, inr, Bool, false, Option, none, some, List, [], ◌∷◌, arith,
  length, Str, str_eq, All, Any, hex_decode, Result, ok, err, Option-cases, Bool-cases,
  some_injective, ◌>>=◌, text,
}
use aicw_node.Consul.{Codec}
use aicw_node.Types.Messages.{InitiatorMessage, AuthorizerPayload}
use aicw_node.Identity.Crypto.{Crypto}
use aicw_node.Identity.Authorization.{
  Algorithm, ed25519, p256, unsupported, InitiatorKey, AuthError, parse_initiator_key,
  verify_initiator_key, verify_initiator_message, authorize_initiator_message,
}
use aicw_node.Identity.Authorized.{IsUsable, verify_initiator_iff}
use aicw_node.Identity.Node.{
  NodeSettings, NodeIdentity, Node, loaded_keys, with_reshare_key, load_initiator_keys, built_node,
  decoded_node, new_dynamic_file_store, algorithm_named, or_default, trim_space, equal_fold,
  KeysError, parsed, load_authorization_config,
}

module _ (crypto : Crypto) (s : NodeSettings) (private_key : Str) where
  -- The node is the one that the settings build of some identity.
  abbrev IsBuilt : Node → Type 0
  IsBuilt n =
      (identity : NodeIdentity) × (key : Str) × (n ≡ built_node crypto s private_key identity key)

  decoded_IsBuilt :
      (identity : NodeIdentity) (r : Str × Bool) (n : Node)
      → decoded_node crypto s private_key identity r ≡ some n
      → IsBuilt n
  unfolding decoded_node
  decoded_IsBuilt identity (key, fine) n h = elim (Bool-cases fine) [
    | inl e ↦ (identity, key, sym (some_injective (rw (decoded_node, e) at h)))
    | inr e ↦ absurd (ground arith)
  ]

  new_store-IsBuilt :
      (json : Codec NodeIdentity) (file : Option Str) (n : Node)
      → new_dynamic_file_store crypto json s private_key file ≡ some n
      → IsBuilt n
  unfolding new_dynamic_file_store
  new_store-IsBuilt json none n h = absurd (cc)
  new_store-IsBuilt json (some file) n h = elim (Option-cases (json.decode file)) [
    | inl e ↦ absurd (ground arith)
    | inr (identity, e) ↦
        decoded_IsBuilt identity (hex_decode identity.public_key) n
          (rw (new_dynamic_file_store, e) at h)
  ]

  -- A node whose authorization block could not be unmarshalled is started all the same, and it
  -- asks no authorizer: every message passes AuthorizeInitiatorMessage.
  pub new_store-authorize :
      (json : Codec NodeIdentity) (payloads : Codec AuthorizerPayload) (file : Option Str)
      (n : Node) (m : InitiatorMessage)
      → new_dynamic_file_store crypto json s private_key file ≡ some n
      → s.authorization ≡ none
      → authorize_initiator_message crypto payloads n.auth_config n.cached_keys m ≡ ok tt
  unfolding authorize_initiator_message built_node load_authorization_config
  new_store-authorize json payloads file n m h u =
      let (identity, key, built) = new_store-IsBuilt json file n h in
      let off : (built_node crypto s private_key identity key).auth_config.enabled ≡ false =
        rw u refl in
      let quiet : n.auth_config.enabled ≡ false =
        ap (λ (o : Node). o.auth_config.enabled) built ∙ off in
      rw quiet refl

module _ (crypto : Crypto) (m : InitiatorMessage)
    (parses : (hex key : Str) → crypto.parse_ed25519_hex hex ≡ some key → length key ≡ 32) where
  parse-IsUsable :
      (hex : Str) (a : Algorithm) (key : InitiatorKey)
      → parse_initiator_key crypto hex a ≡ ok key
      → IsUsable crypto m key
  unfolding parse_initiator_key
  parse-IsUsable hex ed25519 key h q = elim (Option-cases (crypto.parse_ed25519_hex hex)) [
    | inl e ↦ absurd (ground arith)
    | inr (k, e) ↦ ground (arith, parses hex k)
  ]
  parse-IsUsable hex p256 key h q = absurd (ground arith)
  parse-IsUsable hex (unsupported s) key h q = absurd (cc)

  parsed_ok : {A : Type 0} (r : Result AuthError A) (a : A) → parsed r ≡ ok a → r ≡ ok a
  unfolding parsed
  parsed_ok (ok b) a h = cc
  parsed_ok (err e) a h = absurd (cc)

  -- The keys of a load that succeeds are usable.
  abbrev IsFine : Result KeysError (List InitiatorKey) → Type 0
  IsFine r = (keys : List InitiatorKey) → r ≡ ok keys → All (IsUsable crypto m) keys

  then-IsFine :
      (r : Result AuthError InitiatorKey) (f : InitiatorKey → Result KeysError (List InitiatorKey))
      → ((key : InitiatorKey) → r ≡ ok key → IsFine (f key))
      → IsFine (parsed r >>= f)
  unfolding parsed
  then-IsFine (ok key) f h keys e = h key refl keys e
  then-IsFine (err x) f h keys e = absurd (cc)

  IsFine-list : (ks : List InitiatorKey) → All (IsUsable crypto m) ks → IsFine (ok ks)
  IsFine-list ks h keys e = rw (sym (ok_inj e)) h
    where
      ok_inj :
          {a b : List InitiatorKey}
          → ◌≡◌ {A = Result KeysError (List InitiatorKey)} (ok a) (ok b)
          → a ≡ b
      ok_inj q = cc

  with_reshare_key-IsUsable :
      (s : NodeSettings) (bridge default : Str) (key : InitiatorKey)
      → IsUsable crypto m key
      → IsFine (with_reshare_key crypto s bridge default key)
  unfolding with_reshare_key
  with_reshare_key-IsUsable s bridge default key u =
      let hex = trim_space s.reshare_initiator_pubkey in
      let a = algorithm_named (or_default s.reshare_initiator_algorithm default) in
      elim (Bool-cases (str_eq hex [])) [
        | inl e ↦ rw (with_reshare_key, e) (IsFine-list (key ∷ []) (u, tt))
        | inr e ↦ elim (Bool-cases (equal_fold bridge hex)) [
          | inl q ↦ rw (with_reshare_key, e, q) (λ keys h. absurd (cc))
          | inr q ↦
              rw (with_reshare_key, e, q)
                (then-IsFine (parse_initiator_key crypto hex a) (λ second. ok (key ∷ second ∷ []))
                  (λ second g.
                    IsFine-list (key ∷ second ∷ []) (u, (parse-IsUsable hex a second g, tt))))
        ]
      ]

  loaded :
      (r : Result KeysError (List InitiatorKey))
      → IsFine r
      → All (IsUsable crypto m) (loaded_keys r)
  unfolding loaded_keys
  loaded (ok keys) h = h keys refl
  loaded (err e) h = tt

  load_initiator_keys-IsUsable :
      (s : NodeSettings) → All (IsUsable crypto m) (loaded_keys (load_initiator_keys crypto s))
  unfolding load_initiator_keys
  load_initiator_keys-IsUsable s =
      let bridge = trim_space s.event_initiator_pubkey in
      let default = or_default s.event_initiator_algorithm (text "ed25519") in
      let a = algorithm_named default in
      loaded (load_initiator_keys crypto s) (elim (Bool-cases (str_eq bridge [])) [
        | inl e ↦ rw (load_initiator_keys, e) (λ keys h. absurd (cc))
        | inr e ↦
            rw (load_initiator_keys, e)
              (then-IsFine (parse_initiator_key crypto bridge a)
                (with_reshare_key crypto s bridge default)
                (λ key g.
                  with_reshare_key-IsUsable s bridge default key (parse-IsUsable bridge a key g)))
      ])

  -- A started node accepts the message of an initiator exactly if one of the keys that its settings
  -- give verifies it; a node whose keys did not load accepts none.
  pub new_store-verify_initiator :
      (json : Codec NodeIdentity) (s : NodeSettings) (private_key : Str) (file : Option Str)
      (n : Node)
      → new_dynamic_file_store crypto json s private_key file ≡ some n
      → (verify_initiator_message crypto n.initiator_keys m ≡ ok tt)
        ↔ Any
            (λ key. verify_initiator_key crypto m key ≡ ok tt)
            (loaded_keys (load_initiator_keys crypto s))
  unfolding built_node
  new_store-verify_initiator json s private_key file n h =
      let (identity, key, built) = new_store-IsBuilt crypto s private_key json file n h in
      let same : n.initiator_keys ≡ loaded_keys (load_initiator_keys crypto s) =
        ap (λ (o : Node). o.initiator_keys) built in
      rw same (
        verify_initiator_iff crypto m (loaded_keys (load_initiator_keys crypto s))
          (load_initiator_keys-IsUsable s))
