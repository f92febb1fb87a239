-- ===== src/Orchestrator/Durations.antt =====
-- The durations of a loaded configuration.
use mathlib.Core.Path.{subst}
use aicw_node.Base.{
  ℕ, zero, suc, ◌*◌, ◌≤◌, ◌<◌, ◌≡◌, refl, inl, inr, List, [], ◌∷◌, arith, All, Str, text, ℤ, pos,
  negsuc, Result, ok, Result-cases, Option-cases,
}
use aicw_node.Committee.Policy.{Policy, validate}
use aicw_node.Committee.Settings.{load_policy, load_policy-validate}
use aicw_node.Orchestrator.Authorizers.{AuthorizerSpec}
use aicw_node.Orchestrator.Settings.{
  Viper, ConfigFailure, OrchestratorConfig, second, minute, seconds_or, minutes_or, config_of,
  with_specs, load_config,
}

abbrev pub durations : OrchestratorConfig → List ℕ
durations c =
    c.scan_interval ∷ c.ecdh_gate_timeout ∷ c.cooldown_success ∷ c.cooldown_failure
    ∷ c.cooldown_fail_max ∷ c.reshare_result_timeout ∷ c.inflight_lock_ttl ∷ c.sweep_interval
    ∷ c.authorizer_timeout ∷ []

-- Positive as an int64.
abbrev pub IsPositive : ℕ → Type 0
IsPositive d = (0 < d) × (d < 9_223_372_036_854_775_808)

-- At most some 292 years in minutes.
abbrev pub IsModerate : ℤ → Type 0
IsModerate v = (n : ℕ) → v ≡ pos n → n ≤ 153_722_867

seconds_or-IsPositive :
    (v : ℤ) (default : ℕ) → IsModerate v → IsPositive default → IsPositive (seconds_or v default)
unfolding seconds_or
seconds_or-IsPositive (pos zero) default m p = p
seconds_or-IsPositive (pos (suc n)) default m p =
    let few = m (suc n) refl in (omega arith, omega arith)
seconds_or-IsPositive (negsuc n) default m p = p

minutes_or-IsPositive :
    (v : ℤ) (default : ℕ) → IsModerate v → IsPositive default → IsPositive (minutes_or v default)
unfolding minutes_or
minutes_or-IsPositive (pos zero) default m p = p
minutes_or-IsPositive (pos (suc n)) default m p =
    let few = m (suc n) refl in (omega arith, omega arith)
minutes_or-IsPositive (negsuc n) default m p = p

config_durations :
    (v : Viper)
    → ((key : Str) → IsModerate (v.int key))
    → (policy : Policy) (specs : List AuthorizerSpec)
    → All IsPositive (durations (config_of v policy specs))
unfolding config_of
config_durations v m policy specs =
    let at_second : (key : Str) (default : ℕ)
        → IsPositive default
        → IsPositive (seconds_or (v.int key) default) =
      λ key default. seconds_or-IsPositive (v.int key) default (m key) in
    let at_minute : (key : Str) (default : ℕ)
        → IsPositive default
        → IsPositive (minutes_or (v.int key) default) =
      λ key default. minutes_or-IsPositive (v.int key) default (m key) in
    (
      at_second (text "orchestrator.scan_interval_seconds") (60 * second)
          (omega arith, omega arith),
      (
        at_second (text "orchestrator.ecdh_gate.timeout_seconds") (120 * second)
            (omega arith, omega arith),
        (
          at_minute (text "orchestrator.cooldown_success_minutes") (30 * minute)
              (omega arith, omega arith),
          (
            at_minute (text "orchestrator.cooldown_failure_minutes") (5 * minute)
                (omega arith, omega arith),
            (
              at_minute (text "orchestrator.cooldown_failure_max_minutes") (60 * minute)
                  (omega arith, omega arith),
              (
                at_minute (text "orchestrator.reshare_result_timeout_minutes") (10 * minute)
                    (omega arith, omega arith),
                (
                  at_minute (text "orchestrator.inflight_lock_ttl_minutes") (15 * minute)
                      (omega arith, omega arith),
                  (
                    at_second (text "orchestrator.inflight_sweep_interval_seconds") (300 * second)
                        (omega arith, omega arith),
                    (
                      at_second (text "orchestrator.authorizers.request_timeout_seconds")
                          (10 * second) (omega arith, omega arith),
                      tt,
                    ),
                  ),
                ),
              ),
            ),
          ),
        ),
      ),
    )

answers_once :
    (r : Result ConfigFailure OrchestratorConfig) (a b : OrchestratorConfig)
    → r ≡ ok a
    → r ≡ ok b
    → a ≡ b
answers_once r a b p q = cc

-- Where no number of the settings exceeds 153722867, every duration of a configuration that loads is
-- positive, and so no product has wrapped around to a negative one; and its policy is valid.
pub load_config_lem :
    (v : Viper) (c : OrchestratorConfig)
    → ((key : Str) → IsModerate (v.int key))
    → load_config v ≡ ok c
    → All IsPositive (durations c) × (validate c.policy ≡ ok tt)
unfolding load_config with_specs config_of
load_config_lem v c m h = elim (Result-cases (load_policy v.policy)) [
  | inr (e, q) ↦ absurd (ground arith)
  | inl (policy, q) ↦ elim (Option-cases v.authorizers) [
    | inl n ↦ absurd (ground arith)
    | inr (specs, n) ↦
        let loaded : config_of v policy specs ≡ c =
          answers_once (load_config v) (config_of v policy specs) c
            (rw (load_config, q, with_specs, n) refl) h in
        subst (λ k. All IsPositive (durations k) × (validate k.policy ≡ ok tt)) loaded
          (config_durations v m policy specs, load_policy-validate v.policy policy q)
  ]
]
