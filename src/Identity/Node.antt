-- ===== src/Identity/Node.antt =====
-- pkg/identity/dynamic_store.go: NewDynamicFileStore and the settings that it loads.
-- Texts of the settings are ASCII: white space and letters are those of ASCII.
use aicw_node.Base.{
  ℕ, ◌+◌, Bool, false, not, ◌&&◌, ◌||◌, Option, none, some, List, [], ◌∷◌, map, if◌then◌else◌, ◌==◌,
  leb, Str, text, str_eq, Dict, hex_decode, Result, ok, err, ◌>>=◌,
}
use aicw_node.Consul.{Consul, Codec}
use aicw_node.Identity.{Store}
use aicw_node.Identity.Crypto.{Crypto}
use aicw_node.Identity.Authorization.{
  Algorithm, ed25519, p256, unsupported, InitiatorKey, AuthorizationConfig, CachedKey, AuthError,
  parse_initiator_key, cache_keys,
}
use aicw_node.Identity.Directory.{NodeIdentityValue, load_peers_from_consul}

-- The keys of the settings, empty where viper has none, and the authorization block: `none` is one
-- that does not unmarshal.
pub record NodeSettings : Type 0 where
  pub event_initiator_algorithm : Str
  pub event_initiator_pubkey : Str
  pub reshare_initiator_algorithm : Str
  pub reshare_initiator_pubkey : Str
  pub authorization : Option AuthorizationConfig

unfoldable pub algorithm_named : Str → Algorithm
algorithm_named s =
    if str_eq s (text "ed25519")
    then ed25519
    else if str_eq s (text "p256")
    then p256
    else unsupported s

is_space : ℕ → Bool
is_space c = (leb 9 c && leb c 13) || c == 32

trim_front : Str → Str
trim_front [] = []
trim_front (c ∷ s) = let rest = trim_front s in if is_space c then rest else c ∷ s

trim_back : Str → Str
trim_back [] = []
trim_back (c ∷ s) = let rest = trim_back s in if is_space c && str_eq rest [] then [] else c ∷ rest

-- strings.TrimSpace.
unfoldable pub trim_space : Str → Str
unfolding is_space trim_front trim_back
trim_space s = trim_back (trim_front s)

lower : ℕ → ℕ
lower c = if leb 65 c && leb c 90 then c + 32 else c

-- strings.EqualFold.
unfoldable pub equal_fold : Str → Str → Bool
unfolding lower
equal_fold a b = str_eq (map lower a) (map lower b)

pub data KeysError : Type 0 where
  not_configured same_keys : KeysError
  bad_key : AuthError → KeysError

unfoldable pub parsed : {A : Type 0} → Result AuthError A → Result KeysError A
parsed (ok a) = ok a
parsed (err e) = err (bad_key e)

unfoldable pub or_default : Str → Str → Str
or_default [] default = default
or_default (c ∷ s) default = c ∷ s

-- The identity file of a node.
pub record NodeIdentity : Type 0 where
  pub node_id : Str
  pub node_name : Str
  pub public_key : Str

pub record Node : Type 0 where
  pub store : Store
  pub node_name : Str
  pub private_key : Str
  pub initiator_keys : List InitiatorKey
  pub auth_config : AuthorizationConfig
  pub cached_keys : Dict CachedKey

abbrev pub no_authorization : AuthorizationConfig
no_authorization = record {
  enabled = false;
  required_authorizers = [];
  authorizer_public_keys = [];
}

-- The keys of a failed load are nil.
unfoldable pub loaded_keys : Result KeysError (List InitiatorKey) → List InitiatorKey
loaded_keys (ok ks) = ks
loaded_keys (err e) = []

module _ (crypto : Crypto) where
  -- The second key, where it is configured.
  unfoldable pub with_reshare_key :
      NodeSettings → Str → Str → InitiatorKey → Result KeysError (List InitiatorKey)
  with_reshare_key s bridge default key =
      let reshare = trim_space s.reshare_initiator_pubkey in
      if str_eq reshare []
      then ok (key ∷ [])
      else if equal_fold bridge reshare
      then err same_keys
      else parsed (
          parse_initiator_key crypto reshare
            (algorithm_named (or_default s.reshare_initiator_algorithm default)))
        >>= λ second. ok (key ∷ second ∷ [])

  unfoldable pub load_initiator_keys : NodeSettings → Result KeysError (List InitiatorKey)
  load_initiator_keys s =
      let default = or_default s.event_initiator_algorithm (text "ed25519") in
      let bridge = trim_space s.event_initiator_pubkey in
      if str_eq bridge []
      then err not_configured
      else parsed (parse_initiator_key crypto bridge (algorithm_named default))
        >>= with_reshare_key s bridge default

  -- The configuration and the cache that it leaves, whether or not it returns an error.
  unfoldable pub load_authorization_config :
      Option AuthorizationConfig → AuthorizationConfig × Dict CachedKey
  load_authorization_config none = (no_authorization, [])
  load_authorization_config (some cfg) =
      let cached = cache_keys crypto cfg.authorizer_public_keys [] in
      if not cfg.enabled then (cfg, []) else (cfg, cached.1)

  unfoldable pub built_node : NodeSettings → Str → NodeIdentity → Str → Node
  built_node s private_key identity key =
      let (cfg, cache) = load_authorization_config s.authorization in
      record {
        store = record {
          self_id = identity.node_id;
          self_key = key;
          peer_keys = [];
          sym_keys = [];
          verifier = none;
        };
        node_name = identity.node_name;
        private_key = private_key;
        initiator_keys = loaded_keys (load_initiator_keys s);
        auth_config = cfg;
        cached_keys = cache;
      }

  unfoldable pub decoded_node : NodeSettings → Str → NodeIdentity → Str × Bool → Option Node
  decoded_node s private_key identity (key, fine) =
      if fine then some (built_node s private_key identity key) else none

  -- NewDynamicFileStore without a Consul client. `file` is the identity file, `none` if it cannot be
  -- read; the result is `none` for an error.
  unfoldable pub new_dynamic_file_store :
      Codec NodeIdentity → NodeSettings → Str → Option Str → Option Node
  new_dynamic_file_store json s private_key none = none
  new_dynamic_file_store json s private_key (some file) = elim (json.decode file) [
    | none ↦ none
    | some identity ↦ decoded_node s private_key identity (hex_decode identity.public_key)
  ]

  -- With one: its peers are loaded, and a failure to do so is only logged.
  unfoldable pub load_peers :
      Codec NodeIdentityValue → (c : Consul) → Node → c.State → Node × c.State
  load_peers json c n w =
      let (done, s, w') = load_peers_from_consul json c n.store w in (record n { store = s }, w')
