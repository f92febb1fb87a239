-- ===== src/Orchestrator/Settings.antt =====
-- pkg/orchestrator/config.go: the configuration of the orchestrator from its settings.
-- A duration is an int64 of nanoseconds, by its bits: a number below 2 ^ 64. A product wraps around.
use aicw_node.Base.{
  ℕ, suc, ◌*◌, ◌%◌, Bool, not, ◌&&◌, Option, none, some, List, [], ◌∷◌, map, if◌then◌else◌, Str,
  text, str_eq, ℤ, pos, Result, ok, err,
}
use aicw_node.Committee.Policy.{Policy}
use aicw_node.Committee.Settings.{PolicySettings, LoadError, load_policy}
use aicw_node.Orchestrator.Authorizers.{AuthorizerSpec}

-- What viper and the environment hold; the list of authorizers is `none` if it does not unmarshal.
pub record Viper : Type 0 where
  pub int : Str → ℤ
  pub bool : Str → Bool
  pub string : Str → Str
  pub policy : PolicySettings
  pub authorizers : Option (List AuthorizerSpec)
  pub env : Str → Str

pub record OrchestratorConfig : Type 0 where
  pub environment : Str
  pub scan_interval : ℕ
  pub ecdh_gate_timeout : ℕ
  pub cooldown_success : ℕ
  pub cooldown_failure : ℕ
  pub cooldown_fail_max : ℕ
  pub global_max_inflight : ℤ
  pub reshare_result_timeout : ℕ
  pub inflight_lock_ttl : ℕ
  pub sweep_enabled : Bool
  pub sweep_interval : ℕ
  pub confirm_dead_scans : ℤ
  pub migrate_oversized : Bool
  pub node_web_url : Str
  pub event_initiator_key_path : Str
  pub event_initiator_algorithm : Str
  pub nats_url : Str
  pub policy : Policy
  pub authorizers : List AuthorizerSpec
  pub authorizer_timeout : ℕ

abbrev pub second : ℕ
second = 1_000_000_000

abbrev pub minute : ℕ
minute = 60_000_000_000

-- A positive setting in units, or the default.
unfoldable pub seconds_or : ℤ → ℕ → ℕ
seconds_or (pos (suc n)) default = (suc n * second) % 18_446_744_073_709_551_616
seconds_or _ default = default

unfoldable pub minutes_or : ℤ → ℕ → ℕ
minutes_or (pos (suc n)) default = (suc n * minute) % 18_446_744_073_709_551_616
minutes_or _ default = default

unfoldable pub count_or : ℤ → ℤ → ℤ
count_or (pos (suc n)) default = pos (suc n)
count_or _ default = default

unfoldable pub string_or : Str → Str → Str
string_or [] default = default
string_or (c ∷ s) default = c ∷ s

-- A token that is not given is read from the environment.
unfoldable pub with_token : (Str → Str) → AuthorizerSpec → AuthorizerSpec
with_token env spec =
    if str_eq spec.token [] && not (str_eq spec.token_env [])
    then record spec { token = env spec.token_env }
    else spec

pub data ConfigFailure : Type 0 where
  bad_policy : LoadError → ConfigFailure
  bad_authorizers : ConfigFailure

-- The defaults of defaultConfig stand beside the settings that override them.
unfoldable pub config_of : Viper → Policy → List AuthorizerSpec → OrchestratorConfig
config_of v policy specs = record {
  environment = v.string (text "environment");
  scan_interval = seconds_or (v.int (text "orchestrator.scan_interval_seconds")) (60 * second);
  ecdh_gate_timeout =
      seconds_or (v.int (text "orchestrator.ecdh_gate.timeout_seconds")) (120 * second);
  cooldown_success =
      minutes_or (v.int (text "orchestrator.cooldown_success_minutes")) (30 * minute);
  cooldown_failure = minutes_or (v.int (text "orchestrator.cooldown_failure_minutes")) (5 * minute);
  cooldown_fail_max =
      minutes_or (v.int (text "orchestrator.cooldown_failure_max_minutes")) (60 * minute);
  global_max_inflight = count_or (v.int (text "orchestrator.global_max_inflight")) (pos 3);
  reshare_result_timeout =
      minutes_or (v.int (text "orchestrator.reshare_result_timeout_minutes")) (10 * minute);
  inflight_lock_ttl =
      minutes_or (v.int (text "orchestrator.inflight_lock_ttl_minutes")) (15 * minute);
  sweep_enabled = v.bool (text "orchestrator.inflight_sweep_enabled");
  sweep_interval =
      seconds_or (v.int (text "orchestrator.inflight_sweep_interval_seconds")) (300 * second);
  confirm_dead_scans = count_or (v.int (text "orchestrator.confirm_dead_scans")) (pos 2);
  migrate_oversized = v.bool (text "orchestrator.migrate_oversized");
  node_web_url =
      string_or (v.string (text "orchestrator.node_web_url")) (v.string (text "node_web.url"));
  event_initiator_key_path = v.string (text "orchestrator.event_initiator_key_path");
  event_initiator_algorithm =
      string_or (v.string (text "event_initiator_algorithm")) (text "ed25519");
  nats_url = v.string (text "nats.url");
  policy = policy;
  authorizers = map (with_token v.env) specs;
  authorizer_timeout =
      seconds_or (v.int (text "orchestrator.authorizers.request_timeout_seconds")) (10 * second);
}

unfoldable pub with_specs :
    Viper → Policy → Option (List AuthorizerSpec) → Result ConfigFailure OrchestratorConfig
with_specs v policy none = err bad_authorizers
with_specs v policy (some specs) = ok (config_of v policy specs)

unfoldable pub load_config : Viper → Result ConfigFailure OrchestratorConfig
unfolding with_specs
load_config v = elim (load_policy v.policy) [
  | err e ↦ err (bad_policy e)
  | ok policy ↦ with_specs v policy v.authorizers
]
