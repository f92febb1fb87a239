-- ===== src/Examples/Members.antt =====
-- Whitelists.
use aicw_node.Base.{
  ◌≡◌, ◌≢◌, ◌↔◌, refl, true, none, some, List, [], ◌∷◌, ◌++◌, Str, text, str_eq, Dict, lookup, Any,
  ok,
}
use aicw_node.Consul.{Codec}
use aicw_node.Eligibility.Membership.{
  PeerInfo, MembershipEntry, Outside, no_file, Whitelist, default_prefix, load_from_consul, refresh,
}
use aicw_node.Eligibility.Members.{last_info, refresh-lookup}
use aicw_node.Eligibility.Initiators.{KeyWhitelist, key_accepts, verify_listed}
use aicw_node.Eligibility.Accepted.{verify_listed_iff}
use aicw_node.Examples.Signers.{echo, message}

-- An entry is written as its key in hex, without a node id.
abbrev entries : Codec MembershipEntry
entries = record {
  encode = λ e. e.public_key;
  decode = λ s. some (record { node_id = []; public_key = s; metadata = [] });
}

abbrev lists : Codec (List PeerInfo)
lists = record { encode = λ l. []; decode = λ s. none }

abbrev pairs : Dict Str
pairs = (default_prefix ++ text "n1", text "0a0b") ∷ (default_prefix ++ text "n2", text "0x") ∷ []

abbrev outside : Outside
outside = record { has_client = true; listing = λ prefix. some pairs; file = λ path. no_file }

abbrev whitelist : Whitelist
whitelist = record { allowed_nodes = []; source = text "consul"; path = default_prefix }

refresh-lookup_example :
    lookup (text "n1") (refresh entries lists outside whitelist).1.allowed_nodes
    ≡ last_info entries default_prefix (text "n1") pairs
refresh-lookup_example =
    refresh-lookup entries default_prefix (text "n1") lists outside pairs whitelist refl refl refl
      (unfold refresh load_from_consul str_eq in refl)

abbrev allowed : KeyWhitelist
allowed = record {
  allowed_keys = (text "0a", text "ed25519") ∷ [];
  source = text "consul";
  path = [];
}

verify_listed_iff_example : (verify_listed echo allowed (message []) ≡ ok tt) ↔ (
    (text "raw" ≢ [])
    × ((raw : Str) × (some (text "raw") ≡ some raw)
        × Any (λ e. key_accepts echo e.0 e.1 raw (text "raw") ≡ true) allowed.allowed_keys))
verify_listed_iff_example = verify_listed_iff echo allowed (message [])
