-- ===== src/Config/Normalized.antt =====
-- The legacy settings after they are read.
use aicw_node.Base.{
  ℕ, zero, suc, Bool, Option, ◌<◌, ◌≡◌, refl, inl, inr, none, some, [], ◌∷◌, arith, Str, text,
  str_eq, ℤ, pos, negsuc, Bool-cases,
}
use aicw_node.Orchestrator.Liveness.{trim_right}
use aicw_node.Config.{
  before_suffix, trim_suffix, trim_space, normalize_node_web_base_url, parse_interval_seconds,
  NodeWeb, DashboardPing, set_enabled, set_url, set_seconds, set_interval, string_of,
  normalize_legacy_ping_config,
}

before_suffix-trim_right : (c : ℕ) (s : Str) → before_suffix (c ∷ []) (trim_right c s) ≡ none
unfolding before_suffix trim_right str_eq
before_suffix-trim_right c [] = refl
before_suffix-trim_right c (d ∷ s) = ground (arith, before_suffix-trim_right c s)

-- The address of the ping does not end in a slash.
pub before_suffix-normalize_node_web_base_url :
    (raw : Str) → before_suffix (text "/") (normalize_node_web_base_url raw) ≡ none
unfolding normalize_node_web_base_url
before_suffix-normalize_node_web_base_url raw =
    before_suffix-trim_right 47
      (trim_suffix (text "/api/nodes/ping") (trim_right 47 (trim_space raw)))

abbrev magnitude_above : ℤ → ℕ
magnitude_above (pos n) = n
magnitude_above (negsuc n) = 0

abbrev pub IsPositiveInt : ℤ → Type 0
IsPositiveInt n = 0 < magnitude_above n

set_seconds-IsPositiveInt :
    (n : ℤ) (web : NodeWeb)
    → IsPositiveInt web.ping_interval_seconds
    → IsPositiveInt (set_seconds n web).ping_interval_seconds
unfolding set_seconds
set_seconds-IsPositiveInt (pos zero) web p = p
set_seconds-IsPositiveInt (pos (suc n)) web p = omega arith
set_seconds-IsPositiveInt (negsuc n) web p = p

set_interval-IsPositiveInt :
    (interval : Str) (web : NodeWeb)
    → IsPositiveInt web.ping_interval_seconds
    → IsPositiveInt (set_interval interval web).ping_interval_seconds
unfolding set_interval
set_interval-IsPositiveInt interval web p = elim (Bool-cases (str_eq interval [])) [
  | inl e ↦ rw (set_interval, e) p
  | inr e ↦ rw (set_interval, e) (set_seconds-IsPositiveInt (parse_interval_seconds interval) web p)
]

set_url_interval :
    (legacy : Str) (web : NodeWeb)
    → (set_url legacy web).ping_interval_seconds ≡ web.ping_interval_seconds
unfolding set_url
set_url_interval legacy web = ground arith

set_enabled_interval :
    (enabled : Option Bool) (web : NodeWeb)
    → (set_enabled enabled web).ping_interval_seconds ≡ web.ping_interval_seconds
unfolding set_enabled
set_enabled_interval none web = refl
set_enabled_interval (some b) web = refl

-- Whatever the legacy settings say, a ping interval that was positive stays positive.
pub normalize_legacy_ping_config-IsPositiveInt :
    (legacy : DashboardPing) (web : NodeWeb)
    → IsPositiveInt web.ping_interval_seconds
    → IsPositiveInt (normalize_legacy_ping_config legacy web).ping_interval_seconds
unfolding normalize_legacy_ping_config
normalize_legacy_ping_config-IsPositiveInt legacy web p =
    set_interval-IsPositiveInt (trim_space (string_of legacy.interval))
      (set_url (trim_space (string_of legacy.url)) (set_enabled legacy.enabled web))
      (rw
        (
          set_url_interval (trim_space (string_of legacy.url)) (set_enabled legacy.enabled web),
          set_enabled_interval legacy.enabled web,
        )
        p)
