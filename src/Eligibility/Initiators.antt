-- ===== src/Eligibility/Initiators.antt =====
-- pkg/eligibility/whitelist_initiator.go, legacy.go, stake_stub.go and factory.go: who may initiate.
use aicw_node.Base.{
  Bool, not, ◌&&◌, ◌||◌, Option, none, some, List, [], ◌∷◌, if◌then◌else◌, ◌==◌, length, drop, Str,
  text, str_eq, Dict, insert, hex_decode, Result, ok, err, guard,
}
use aicw_node.Consul.{Codec}
use aicw_node.Types.Messages.{InitiatorMessage}
use aicw_node.Identity.Crypto.{Crypto}
use aicw_node.Eligibility.Membership.{
  Outside, no_file, unreadable, contents, RefreshError, no_client, list_failed, read_failed,
  parse_failed, unknown_source,
}

-- The fields public_key and algorithm of WhitelistEntry, which alone are read.
pub record WhitelistEntry : Type 0 where
  pub public_key : Str
  pub algorithm : Str

pub record KeyWhitelist : Type 0 where
  pub allowed_keys : Dict Str
  pub source : Str
  pub path : Str

pub data InitiatorError : Type 0 where
  raw_failed invalid_signature unlisted unsupported_algorithm bad_key_size no_p256 : InitiatorError
  stake_not_implemented : InitiatorError

-- An entry that does not parse is the algorithm of the key that its name gives.
unfoldable pub store_entry : Option WhitelistEntry → Str → Str → Dict Str → Dict Str
store_entry none name value allowed = insert name value allowed
store_entry (some entry) name value allowed = insert entry.public_key entry.algorithm allowed

unfoldable pub store_entries : List WhitelistEntry → Dict Str → Dict Str
store_entries [] allowed = allowed
store_entries (e ∷ es) allowed = store_entries es (insert e.public_key e.algorithm allowed)

module _ (json : Codec WhitelistEntry) (json_list : Codec (List WhitelistEntry)) where
  unfoldable pub load_keys : Str → Dict Str → Dict Str → Dict Str
  load_keys prefix [] allowed = allowed
  load_keys prefix ((key, value) ∷ pairs) allowed =
      load_keys prefix pairs
        (store_entry (json.decode value) (drop (length prefix) key) value allowed)

  unfoldable pub load_initiators_from_consul :
      Outside → KeyWhitelist → Option RefreshError × KeyWhitelist
  load_initiators_from_consul out w =
      if not out.has_client then (some no_client, w) else elim (out.listing w.path) [
        | none ↦ (some list_failed, w)
        | some pairs ↦ (none, record w { allowed_keys = load_keys w.path pairs [] })
      ]

  -- Unlike the membership whitelist, a missing file is an error.
  unfoldable pub load_initiators_from_file :
      Outside → KeyWhitelist → Option RefreshError × KeyWhitelist
  load_initiators_from_file out w = elim (out.file w.path) [
    | no_file ↦ (some read_failed, w)
    | unreadable ↦ (some read_failed, w)
    | contents bytes ↦ elim (json_list.decode bytes) [
      | none ↦ (some parse_failed, w)
      | some entries ↦ (none, record w { allowed_keys = store_entries entries [] })
    ]
  ]

  unfoldable pub refresh_initiators : Outside → KeyWhitelist → Option RefreshError × KeyWhitelist
  refresh_initiators out w =
      if str_eq w.source (text "consul")
      then load_initiators_from_consul out w
      else if str_eq w.source (text "file")
      then load_initiators_from_file out w
      else (some unknown_source, w)

  unfoldable pub new_whitelist_initiator_verifier :
      Str → Str → Outside → Result RefreshError KeyWhitelist
  new_whitelist_initiator_verifier source path out =
      let loaded =
        refresh_initiators out (record { allowed_keys = []; source = source; path = path }) in
      elim loaded.0 [ none ↦ ok loaded.1 | some e ↦ err e ]

-- The legacy verifier, with its one key.
pub record Legacy : Type 0 where
  pub pub_key : Str
  pub algorithm : Str

pub data ConfigError : Type 0 where
  missing_public_key legacy_algorithm unknown_mode : ConfigError
  refresh_failed : RefreshError → ConfigError

unfoldable pub new_legacy_initiator_verifier : Str → Str → Result ConfigError Legacy
new_legacy_initiator_verifier key algorithm =
    if str_eq key []
    then err missing_public_key
    else if not (str_eq algorithm (text "ed25519")) && not (str_eq algorithm (text "p256"))
    then err legacy_algorithm
    else ok (record { pub_key = key; algorithm = algorithm })

module _ (crypto : Crypto) where
  -- One round of the loop of VerifyInitiator.
  unfoldable pub key_accepts : Str → Str → Str → Str → Bool
  key_accepts hex algorithm raw sig =
      let (key, fine) = hex_decode hex in
      fine
      && (str_eq algorithm (text "ed25519")
          && (length key == 32 && crypto.ed25519_verify key raw sig))

  unfoldable pub try_keys : Dict Str → Str → Str → Result InitiatorError (Unit {0})
  try_keys [] raw sig = err unlisted
  try_keys ((hex, algorithm) ∷ rest) raw sig =
      if key_accepts hex algorithm raw sig then ok tt else try_keys rest raw sig

  unfoldable pub verify_listed : KeyWhitelist → InitiatorMessage → Result InitiatorError (Unit {0})
  verify_listed w m = elim m.raw [
    | none ↦ err raw_failed
    | some raw ↦
        if str_eq m.sig [] then err invalid_signature else try_keys w.allowed_keys raw m.sig
  ]

  unfoldable pub legacy_ed25519 : Legacy → Str → Str → Result InitiatorError (Unit {0})
  legacy_ed25519 v raw sig =
      if not (length v.pub_key == 32)
      then err bad_key_size
      else guard (crypto.ed25519_verify v.pub_key raw sig) invalid_signature

  unfoldable pub verify_legacy : Legacy → InitiatorMessage → Result InitiatorError (Unit {0})
  verify_legacy v m = elim m.raw [
    | none ↦ err raw_failed
    | some raw ↦
        if str_eq m.sig []
        then err invalid_signature
        else if str_eq v.algorithm (text "ed25519")
        then legacy_ed25519 v raw m.sig
        else if str_eq v.algorithm (text "p256")
        then err no_p256
        else err unsupported_algorithm
  ]

-- InitiatorVerifier and its implementations.
pub data Verifying : Type 0 where
  by_legacy : Legacy → Verifying
  by_whitelist : KeyWhitelist → Verifying
  by_stake : Verifying

unfoldable pub verify_initiator :
    Crypto → Verifying → InitiatorMessage → Result InitiatorError (Unit {0})
verify_initiator crypto (by_legacy v) m = verify_legacy crypto v m
verify_initiator crypto (by_whitelist w) m = verify_listed crypto w m
verify_initiator crypto by_stake m = err stake_not_implemented

pub record InitiatorConfig : Type 0 where
  pub mode : Str
  pub legacy_pub_key : Str
  pub legacy_algorithm_name : Str
  pub whitelist_source : Str
  pub whitelist_path : Str

abbrev pub default_initiator_prefix : Str
default_initiator_prefix = text "mpc_eligibility/initiator_whitelist/"

legacy_of : Result ConfigError Legacy → Result ConfigError Verifying
legacy_of (ok v) = ok (by_legacy v)
legacy_of (err e) = err e

whitelist_of : Result RefreshError KeyWhitelist → Result ConfigError Verifying
whitelist_of (ok w) = ok (by_whitelist w)
whitelist_of (err e) = err (refresh_failed e)

unfoldable pub new_initiator_verifier :
    Codec WhitelistEntry
    → Codec (List WhitelistEntry)
    → InitiatorConfig
    → Outside
    → Result ConfigError Verifying
unfolding legacy_of whitelist_of
new_initiator_verifier json json_list cfg out =
    if str_eq cfg.mode (text "legacy") || str_eq cfg.mode []
    then legacy_of (new_legacy_initiator_verifier cfg.legacy_pub_key cfg.legacy_algorithm_name)
    else if str_eq cfg.mode (text "whitelist")
    then (let path =
          if str_eq cfg.whitelist_path [] then default_initiator_prefix else cfg.whitelist_path in
        whitelist_of
          (new_whitelist_initiator_verifier json json_list cfg.whitelist_source path out))
    else if str_eq cfg.mode (text "stake")
    then ok by_stake
    else err unknown_mode
