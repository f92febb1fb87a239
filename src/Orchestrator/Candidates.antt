-- ===== src/Orchestrator/Candidates.antt =====
-- Which nodes a snapshot of the network makes candidates.
use aicw_node.Base.{
  ◌≡◌, refl, ap, ◌∙◌, Bool, true, false, not, ◌&&◌, ◌||◌, Option, some, List, [], ◌∷◌, arith, Str,
  str_eq, str_eq_iff, elem, elem-keep, elem-sort_by, keep, str_less, Dict, keys, flag, lookup,
  lookup-insert, elem-insert,
}
use aicw_node.Consul.{Consul, Codec}
use aicw_node.Eligibility.Membership.{default_prefix}
use aicw_node.Orchestrator.Wallets.{Snapshot, candidate_pool}
use aicw_node.Orchestrator.Liveness.{
  ready_prefix, add_name, node_of, listed_set, Fetch, ActiveNodes, ping_set, read_set, snapshot,
}

-- An entry of the listing names the node.
abbrev pub names : Str → Str → Dict Str → Bool
names prefix z [] = false
names prefix z ((key, value) ∷ pairs) =
    (not (str_eq z []) && str_eq z (node_of prefix key)) || names prefix z pairs

flag-add_name :
    (z id : Str) (set : Dict Bool)
    → flag z (add_name id set) ≡ ((not (str_eq z []) && str_eq z id) || flag z set)
unfolding flag add_name
flag-add_name z id set =
    ground (arith, lookup-insert z id true set, str_eq_iff z id, str_eq_iff z [], str_eq_iff id [])

elem-add_name :
    (z id : Str) (set : Dict Bool)
    → elem z (keys (add_name id set)) ≡ ((not (str_eq z []) && str_eq z id) || elem z (keys set))
unfolding add_name
elem-add_name z id set =
    ground (arith, elem-insert z id true set, str_eq_iff z id, str_eq_iff z [], str_eq_iff id [])

flag-listed_set :
    (prefix z : Str) (pairs : Dict Str) (set : Dict Bool)
    → flag z (listed_set prefix pairs set) ≡ (names prefix z pairs || flag z set)
unfolding listed_set
flag-listed_set prefix z [] set = refl
flag-listed_set prefix z ((key, value) ∷ pairs) set =
    let id = node_of prefix key in
    ground (arith, flag-listed_set prefix z pairs (add_name id set), flag-add_name z id set)

elem-listed_set :
    (prefix z : Str) (pairs : Dict Str) (set : Dict Bool)
    → elem z (keys (listed_set prefix pairs set)) ≡ (names prefix z pairs || elem z (keys set))
unfolding listed_set
elem-listed_set prefix z [] set = refl
elem-listed_set prefix z ((key, value) ∷ pairs) set =
    let id = node_of prefix key in
    ground (arith, elem-listed_set prefix z pairs (add_name id set), elem-add_name z id set)

elem-candidate_pool :
    (z : Str) (s : Snapshot)
    → elem z (candidate_pool s)
      ≡ (elem z (keys s.ready) && (flag z s.ping_active && flag z s.whitelist))
unfolding candidate_pool
elem-candidate_pool z s =
    let live : Str → Bool = λ id. flag id s.ping_active && flag id s.whitelist in
    elem-sort_by str_less z (keep live (keys s.ready)) ∙ elem-keep live z (keys s.ready)

read_set_lem :
    (c : Consul) (prefix : Str) (w : c.State) (pairs : Dict Str)
    → (c.list prefix w).0 ≡ some pairs
    → read_set c prefix w ≡ (some (listed_set prefix pairs []), (c.list prefix w).1)
unfolding read_set
read_set_lem c prefix w pairs h = rw (read_set, h) refl

module _ (wrapped : Codec ActiveNodes) (bare : Codec (List Str)) (c : Consul) (url : Str)
    (fetched : Option Fetch) (w : c.State) (ready listed : Dict Str)
    (read : (c.list ready_prefix w).0 ≡ some ready)
    (read_listed : (c.list default_prefix (c.list ready_prefix w).1).0 ≡ some listed) where
  abbrev pub taken : Snapshot
  taken = record {
    ready = listed_set ready_prefix ready [];
    whitelist = listed_set default_prefix listed [];
    ping_active = ping_set wrapped bare url fetched (listed_set ready_prefix ready []);
  }

  snapshot_lem : (snapshot wrapped bare c url fetched w).0 ≡ some taken
  unfolding snapshot
  snapshot_lem =
      let first = read_set_lem c ready_prefix w ready read in
      let second = read_set_lem c default_prefix (c.list ready_prefix w).1 listed read_listed in
      rw (snapshot, ap (λ r. r.0) first, ap (λ r. r.1) first, ap (λ r. r.0) second) refl

  -- Where both listings are read, there is a snapshot, and its candidates are the nodes that an entry
  -- under ready/ and an entry of the whitelist name, and that the ping set holds.
  pub candidates-snapshot :
      (z : Str)
      → ((s : Snapshot) × ((snapshot wrapped bare c url fetched w).0 ≡ some s)
          × (elem z (candidate_pool s) ≡ (
              names ready_prefix z ready
              && (names default_prefix z listed
                  && flag z (ping_set wrapped bare url fetched s.ready)))))
  unfolding elem flag lookup
  candidates-snapshot z = (taken, snapshot_lem, proof)
    where
      proof : elem z (candidate_pool taken) ≡ (
          names ready_prefix z ready && (names default_prefix z listed && flag z taken.ping_active))
      proof = ground (
        arith,
        elem-candidate_pool z taken,
        elem-listed_set ready_prefix z ready [],
        flag-listed_set default_prefix z listed [],
      )
