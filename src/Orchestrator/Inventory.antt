-- ===== src/Orchestrator/Inventory.antt =====
-- pkg/orchestrator/inventory.go: the wallets, read from the entries threshold_keyinfo/<kind>:<wallet>.
use aicw_node.Base.{
  Option, none, some, List, [], ◌∷◌, map, if◌then◌else◌, ◌==◌, Str, text, str_eq, ℤ, Dict, lookup,
  insert, or_zero,
}
use aicw_node.Consul.{Consul, Codec}
use aicw_node.Orchestrator.Wallets.{KeyKind, eddsa, ecdsa, WalletKey, Wallet}
use aicw_node.Orchestrator.Sweeper.{trim_prefix}

-- The three fields of mpcium's keyinfo.KeyInfo that are read.
pub record KeyInfo : Type 0 where
  pub participant_peer_ids : List Str
  pub threshold : ℤ
  pub version : ℤ

abbrev pub keyinfo_prefix : Str
keyinfo_prefix = text "threshold_keyinfo/"

abbrev pub kind_name : KeyKind → Str
kind_name eddsa = text "eddsa"
kind_name ecdsa = text "ecdsa"

-- strings.IndexByte at a colon, code 58: what stands before and after the first one.
unfoldable pub split_colon : Str → Option (Str × Str)
split_colon [] = none
split_colon (c ∷ s) =
    let rest = split_colon s in
    if c == 58
    then some ([], s)
    else elim rest [ none ↦ none | some (before, after) ↦ some (c ∷ before, after) ]

-- The kind of a name that is one of the two, with a wallet id that is not empty.
unfoldable pub kind_and_wallet : Str → Str → Option (KeyKind × Str)
kind_and_wallet kind wallet =
    if str_eq kind []
    then none
    else if str_eq wallet []
    then none
    else if str_eq kind (kind_name eddsa)
    then some (eddsa, wallet)
    else if str_eq kind (kind_name ecdsa)
    then some (ecdsa, wallet)
    else none

unfoldable pub split_keyinfo_suffix : Str → Option (KeyKind × Str)
split_keyinfo_suffix suffix = elim (split_colon suffix) [
  | none ↦ none
  | some (kind, wallet) ↦ kind_and_wallet kind wallet
]

unfoldable pub wallet_key : KeyInfo → WalletKey
wallet_key info = record {
  committee = info.participant_peer_ids;
  threshold = info.threshold;
  version = info.version;
}

abbrev pub empty_wallet : Str → Wallet
empty_wallet id = record { id = id; eddsa_key = none; ecdsa_key = none }

unfoldable pub set_key : KeyKind → WalletKey → Wallet → Wallet
set_key eddsa k w = record w { eddsa_key = some k }
set_key ecdsa k w = record w { ecdsa_key = some k }

unfoldable pub add_key : Option (KeyKind × Str) → Option KeyInfo → Dict Wallet → Dict Wallet
add_key none info wallets = wallets
add_key (some split) none wallets = wallets
add_key (some (kind, id)) (some info) wallets =
    insert id (set_key kind (wallet_key info) (or_zero (empty_wallet id) (lookup id wallets)))
      wallets

module _ (json : Codec KeyInfo) where
  unfoldable pub scan_keyinfo : Dict Str → Dict Wallet → Dict Wallet
  scan_keyinfo [] wallets = wallets
  scan_keyinfo ((key, value) ∷ pairs) wallets =
      scan_keyinfo pairs (
        add_key (split_keyinfo_suffix (trim_prefix keyinfo_prefix key)) (json.decode value) wallets)

  -- `none` is a failed listing. The order is that of `range`, which Go leaves open.
  unfoldable pub list_wallets : (c : Consul) → c.State → Option (List Wallet) × c.State
  list_wallets c w =
      let (listing, w') = c.list keyinfo_prefix w in
      elim listing [
        | none ↦ (none, w')
        | some pairs ↦ (some (map (λ e. e.1) (scan_keyinfo pairs [])), w')
      ]
