-- ===== src/Orchestrator/Liveness.antt =====
-- pkg/orchestrator/liveness.go: the sets of nodes that the orchestrator believes ready, listed and
-- active. The request to node_web is the parameter `Fetch`.
use aicw_node.Base.{
  ℕ, Bool, true, ◌||◌, Option, none, some, List, [], ◌∷◌, if◌then◌else◌, ◌==◌, leb, ltb, Str, text,
  str_eq, Dict, insert,
}
use aicw_node.Consul.{Consul, Codec}
use aicw_node.Eligibility.Membership.{default_prefix}
use aicw_node.Orchestrator.Wallets.{Snapshot}
use aicw_node.Orchestrator.Sweeper.{trim_prefix}

-- strings.TrimLeft, TrimRight and Trim with one character.
unfoldable pub trim_left : ℕ → Str → Str
trim_left c [] = []
trim_left c (d ∷ s) = let rest = trim_left c s in if d == c then rest else d ∷ s

unfoldable pub trim_right : ℕ → Str → Str
trim_right c [] = []
trim_right c (d ∷ s) =
    let rest = trim_right c s in
    if d == c then (if str_eq rest [] then [] else d ∷ rest) else d ∷ rest

abbrev pub trim_both : ℕ → Str → Str
trim_both c s = trim_right c (trim_left c s)

abbrev pub ready_prefix : Str
ready_prefix = text "ready/"

unfoldable pub add_name : Str → Dict Bool → Dict Bool
add_name id set = if str_eq id [] then set else insert id true set

unfoldable pub to_set : List Str → Dict Bool → Dict Bool
to_set [] set = set
to_set (id ∷ ids) set = to_set ids (add_name id set)

-- The node that a key of a listing names, slashes (code 47) around it removed.
unfoldable pub node_of : Str → Str → Str
node_of prefix key = trim_both 47 (trim_prefix prefix key)

unfoldable pub listed_set : Str → Dict Str → Dict Bool → Dict Bool
listed_set prefix [] set = set
listed_set prefix ((key, value) ∷ pairs) set =
    listed_set prefix pairs (add_name (node_of prefix key) set)

-- `none` is a request or a body that failed.
pub record Fetch : Type 0 where
  pub status : ℕ
  pub body : Str

-- The field `active`, `none` for null or an absent one.
pub record ActiveNodes : Type 0 where
  pub active : Option (List Str)

unfoldable pub wrapped_active : Option ActiveNodes → Option (List Str)
wrapped_active none = none
wrapped_active (some w) = w.active

module _ (c : Consul) where
  unfoldable pub read_set : Str → c.State → Option (Dict Bool) × c.State
  read_set prefix w =
      let (listing, w') = c.list prefix w in
      elim listing [ none ↦ (none, w') | some pairs ↦ (some (listed_set prefix pairs []), w') ]

module _ (wrapped : Codec ActiveNodes) (bare : Codec (List Str)) where
  -- After the request, whose redirects and failures the HTTP client has dealt with.
  unfoldable pub ping_active_of : Option Fetch → Option (Dict Bool)
  ping_active_of none = none
  ping_active_of (some r) =
      if ltb r.status 200 || leb 300 r.status
      then none
      else elim (wrapped_active (wrapped.decode r.body)) [
        | some ids ↦ some (to_set ids [])
        | none ↦ elim (bare.decode r.body) [ none ↦ none | some ids ↦ some (to_set ids []) ]
      ]

  -- The ping set is the ready set where node_web is not configured or does not answer.
  unfoldable pub ping_set : Str → Option Fetch → Dict Bool → Dict Bool
  ping_set url fetched ready =
      if str_eq url []
      then ready
      else elim (ping_active_of fetched) [ none ↦ ready | some active ↦ active ]

  module _ (c : Consul) where
    -- `none` is a failed listing. `url` is trimmed, `fetched` what node_web answers.
    unfoldable pub snapshot : Str → Option Fetch → c.State → Option Snapshot × c.State
    snapshot url fetched w =
        let (ready, w') = read_set c ready_prefix w in
        elim ready [
          | none ↦ (none, w')
          | some r ↦
              let (whitelist, w'') = read_set c default_prefix w' in
              elim whitelist [
                | none ↦ (none, w'')
                | some l ↦ (
                  some (record { ready = r; whitelist = l; ping_active = ping_set url fetched r }),
                  w'',
                )
              ]
        ]
