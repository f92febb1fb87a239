-- ===== src/Config.antt =====
-- pkg/config/load.go: the legacy settings of the ping, its address and its interval. The whitespace
-- of strings.TrimSpace is that of Unicode; strings.ToLower is written for ASCII, since a character
-- beyond it is no digit and no unit either way.
pub mod Normalized
use aicw_node.Base.{
  ℕ, zero, suc, ◌+◌, ◌*◌, ◌-◌, ◌%◌, ◌<◌, ◌≡◌, refl, inl, inr, Bool, true, false, not, ◌&&◌, ◌||◌,
  ◌==◌, ltb, leb, Option, none, some, List, [], ◌∷◌, arith, if◌then◌else◌, map, Str, text, str_eq,
  ℤ, pos, negsuc, Option-cases, Bool-cases,
}
use aicw_node.Orchestrator.Liveness.{trim_right}

unfoldable pub is_space : ℕ → Bool
is_space c =
    (leb 9 c && leb c 13)
    || (c == 32)
    || (c == 133)
    || (c == 160)
    || (c == 5760)
    || (leb 8192 c && leb c 8202)
    || (c == 8232)
    || (c == 8233)
    || (c == 8239)
    || (c == 8287)
    || (c == 12288)

unfoldable pub trim_space_left : Str → Str
trim_space_left [] = []
trim_space_left (c ∷ s) = let rest = trim_space_left s in if is_space c then rest else c ∷ s

unfoldable pub trim_space_right : Str → Str
trim_space_right [] = []
trim_space_right (c ∷ s) =
    let rest = trim_space_right s in if is_space c && str_eq rest [] then [] else c ∷ rest

abbrev pub trim_space : Str → Str
trim_space s = trim_space_right (trim_space_left s)

-- What is before a suffix; `none` if it is not one.
unfoldable pub before_suffix : Str → Str → Option Str
before_suffix p [] = if str_eq p [] then some [] else none
before_suffix p (c ∷ s) =
    let rest = before_suffix p s in
    if str_eq p (c ∷ s) then some [] else elim rest [ none ↦ none | some r ↦ some (c ∷ r) ]

unfoldable pub trim_suffix : Str → Str → Str
trim_suffix p s = elim (before_suffix p s) [ none ↦ s | some r ↦ r ]

unfoldable pub normalize_node_web_base_url : Str → Str
normalize_node_web_base_url raw =
    trim_right 47 (trim_suffix (text "/api/nodes/ping") (trim_right 47 (trim_space raw)))

unfoldable pub to_lower : Str → Str
to_lower s = map (λ c. if leb 65 c && leb c 90 then c + 32 else c) s

-- strconv.Atoi: a sign or none, one digit or more, and the range of int64.
unfoldable pub digits : ℕ → Str → Option ℕ
digits acc [] = some acc
digits acc (c ∷ s) =
    let rest = digits (acc * 10 + (c - 48)) s in if leb 48 c && leb c 57 then rest else none

unfoldable pub magnitude : Str → Option ℕ
magnitude [] = none
magnitude (c ∷ s) = digits 0 (c ∷ s)

unfoldable pub to_negative : ℕ → ℤ
to_negative zero = pos 0
to_negative (suc n) = negsuc n

unfoldable pub atoi_negative : Option ℕ → Option ℤ
atoi_negative none = none
atoi_negative (some n) = if leb n 9_223_372_036_854_775_808 then some (to_negative n) else none

unfoldable pub atoi_positive : Option ℕ → Option ℤ
atoi_positive none = none
atoi_positive (some n) = if ltb n 9_223_372_036_854_775_808 then some (pos n) else none

unfoldable pub atoi : Str → Option ℤ
atoi [] = none
atoi (c ∷ s) =
    if c == 45
    then atoi_negative (magnitude s)
    else if c == 43
    then atoi_positive (magnitude s)
    else atoi_positive (magnitude (c ∷ s))

-- A product of the machine's int.
unfoldable pub wrapped : ℕ → ℤ
wrapped n =
    let low = n % 18_446_744_073_709_551_616 in
    if ltb low 9_223_372_036_854_775_808 then pos low else negsuc (18_446_744_073_709_551_615 - low)

-- A number that parses and is positive, in units of so many seconds; otherwise 0.
unfoldable pub in_seconds : ℕ → Option ℤ → ℤ
in_seconds unit (some (pos (suc n))) = wrapped (suc n * unit)
in_seconds unit _ = pos 0

unfoldable pub parse_value : Str → ℤ
parse_value value = elim (before_suffix (text "s") value) [
  | some seconds ↦ in_seconds 1 (atoi seconds)
  | none ↦ elim (before_suffix (text "m") value) [
    | some minutes ↦ in_seconds 60 (atoi minutes)
    | none ↦ in_seconds 1 (atoi value)
  ]
]

unfoldable pub parse_interval_seconds : Str → ℤ
parse_interval_seconds raw =
    let value = trim_space (to_lower raw) in if str_eq value [] then pos 0 else parse_value value

-- The settings under dashboard_ping, `none` where they are not set, and those under node_web.
pub record DashboardPing : Type 0 where
  pub enabled : Option Bool
  pub url : Option Str
  pub interval : Option Str

pub record NodeWeb : Type 0 where
  pub ping_enabled : Bool
  pub url : Str
  pub ping_interval_seconds : ℤ

-- The string of a setting.
abbrev pub string_of : Option Str → Str
string_of none = []
string_of (some s) = s

unfoldable pub set_enabled : Option Bool → NodeWeb → NodeWeb
set_enabled none web = web
set_enabled (some b) web = record web { ping_enabled = b }

unfoldable pub set_url : Str → NodeWeb → NodeWeb
set_url legacy web =
    if str_eq legacy [] then web else record web { url = normalize_node_web_base_url legacy }

unfoldable pub set_seconds : ℤ → NodeWeb → NodeWeb
set_seconds (pos (suc n)) web = record web { ping_interval_seconds = pos (suc n) }
set_seconds _ web = web

unfoldable pub set_interval : Str → NodeWeb → NodeWeb
set_interval interval web =
    if str_eq interval [] then web else set_seconds (parse_interval_seconds interval) web

unfoldable pub normalize_legacy_ping_config : DashboardPing → NodeWeb → NodeWeb
normalize_legacy_ping_config legacy web =
    set_interval (trim_space (string_of legacy.interval))
      (set_url (trim_space (string_of legacy.url)) (set_enabled legacy.enabled web))
