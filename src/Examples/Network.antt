-- ===== src/Examples/Network.antt =====
-- The network as the orchestrator reads it.
use aicw_node.Base.{
  ◌≡◌, refl, ◌&&◌, none, some, List, [], ◌∷◌, ◌++◌, Str, text, pos, elem, flag, or_else, Dict,
}
use aicw_node.Consul.{Codec}
use aicw_node.Eligibility.Membership.{default_prefix}
use aicw_node.Orchestrator.Wallets.{eddsa, Snapshot, candidate_pool}
use aicw_node.Orchestrator.Inventory.{KeyInfo, keyinfo_prefix, scan_keyinfo}
use aicw_node.Orchestrator.Inventoried.{key_in, last_key, key_in-scan_keyinfo}
use aicw_node.Orchestrator.Liveness.{ActiveNodes, ready_prefix, ping_set, snapshot}
use aicw_node.Orchestrator.Candidates.{names, candidates-snapshot}
use aicw_node.Examples.World.{Cluster, cluster, listed}

abbrev infos : Codec KeyInfo
infos = record {
  encode = λ i. [];
  decode = λ s. some (record { participant_peer_ids = s ∷ []; threshold = pos 1; version = pos 1 });
}

abbrev entries : Dict Str
entries =
    (keyinfo_prefix ++ text "eddsa:w1", text "a") ∷ (keyinfo_prefix ++ text "eddsa:", text "b") ∷ []

key_in-scan_keyinfo_example :
    key_in infos eddsa (text "w1") (scan_keyinfo infos entries [])
    ≡ or_else (last_key infos eddsa (text "w1") entries) (key_in infos eddsa (text "w1") [])
key_in-scan_keyinfo_example = key_in-scan_keyinfo infos eddsa (text "w1") entries []

abbrev wrapped : Codec ActiveNodes
wrapped = record {
  encode = λ a. [];
  decode = λ s. some (record { active = some (text "n1" ∷ []) });
}

abbrev bare : Codec (List Str)
bare = record { encode = λ l. []; decode = λ s. none }

abbrev nodes : Cluster
nodes = record {
  kv = (ready_prefix ++ text "n1", text "1") ∷ (default_prefix ++ text "n1", text "{}") ∷ [];
  holders = [];
}

candidates-snapshot_example :
    (s : Snapshot) × ((snapshot wrapped bare cluster [] none nodes).0 ≡ some s)
    × (elem (text "n1") (candidate_pool s) ≡ (
        names ready_prefix (text "n1") (listed ready_prefix nodes.kv)
        && (names default_prefix (text "n1") (listed default_prefix nodes.kv)
            && flag (text "n1") (ping_set wrapped bare [] none s.ready))))
candidates-snapshot_example =
    candidates-snapshot wrapped bare cluster [] none nodes (listed ready_prefix nodes.kv)
      (listed default_prefix nodes.kv) refl refl (text "n1")
