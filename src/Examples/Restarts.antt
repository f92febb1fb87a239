-- ===== src/Examples/Restarts.antt =====
-- A node restarts, and an orchestrator reads its settings.
use aicw_node.Base.{
  ◌≡◌, ◌≤◌, ℕ, refl, true, false, none, some, [], ◌∷◌, arith, Str, text, pos, All, Dict, str_eq, ok,
}
use aicw_node.Consul.{Codec}
use aicw_node.Committee.Policy.{default_policy, validate}
use aicw_node.Committee.Settings.{load_policy}
use aicw_node.Identity.{Store}
use aicw_node.Identity.Directory.{NodeIdentityValue}
use aicw_node.Orchestrator.Settings.{Viper, config_of, with_specs, load_config}
use aicw_node.Orchestrator.Durations.{durations, IsPositive, load_config_lem}
use aicw_node.Recovery.Manager.{PeerCacheEntry}

abbrev store : Dict Str → Store
store keys = record {
  self_id = text "n1";
  self_key = 7 ∷ [];
  peer_keys = keys;
  sym_keys = [];
  verifier = some (λ id key. str_eq key (9 ∷ []));
}

abbrev known : Store
known = store ((text "n2", 9 ∷ []) ∷ [])

abbrev held : Dict PeerCacheEntry
held =
    (
      text "n2",
      record {
        node_id = text "n2";
        public_key = 9 ∷ [];
        last_seen = text "t";
        cached_at = text "t";
      },
    )
    ∷ []

-- What the file holds is read as the cache that was written.
abbrev codec : Codec (Dict PeerCacheEntry)
codec = record { encode = λ c. []; decode = λ s. some held }

abbrev identities : Codec NodeIdentityValue
identities = record { encode = λ i. []; decode = λ s. none }

-- Ten seconds wherever a number is asked for.
abbrev settings : Viper
settings = record {
  int = λ key. pos 10;
  bool = λ key. false;
  string = λ key. [];
  policy = record { policy_block = none; mpc_threshold = none; keygen_filter_enabled = true };
  authorizers = some [];
  env = λ name. [];
}

load_config_lem_example :
    All IsPositive (durations (config_of settings default_policy []))
    × (validate (config_of settings default_policy []).policy ≡ ok tt)
load_config_lem_example =
    load_config_lem settings (config_of settings default_policy []) few
      (unfold load_config with_specs load_policy in refl)
  where
    few : (key : Str) (n : ℕ) → pos 10 ≡ pos n → n ≤ 153_722_867
    few key n e = ground arith
