-- ===== src/Eligibility/Members.antt =====
-- Which nodes the whitelist of VerifyMembership accepts, and what a listing puts on it.
use aicw_node.Base.{
  ◌≡◌, ◌⊎◌, refl, ap, ◌∙◌, inl, inr, Option, none, some, List, [], ◌∷◌, arith, if◌then◌else◌, Str,
  text, str_eq, str_eq_iff, Dict, lookup, lookup-insert, or_else, Bool-cases, Option-cases, insert,
}
use aicw_node.Consul.{Codec}
use aicw_node.Eligibility.Keys.{normalize_public_key}
use aicw_node.Eligibility.Membership.{
  PeerInfo, MembershipEntry, FileAnswer, no_file, unreadable, contents, Outside, Whitelist,
  RefreshError, no_client, pair_info, store_info, load_pairs, load_from_consul, read_peers,
  load_from_file, refresh,
}

-- The key and the listed one are the same up to hex, or one of them is absent.
abbrev pub IsAgreed : Str → PeerInfo → Type 0
IsAgreed key peer =
    (key ≡ [])
    ⊎ (peer.public_key ≡ [])
    ⊎ (normalize_public_key key ≡ normalize_public_key peer.public_key)

abbrev pub IsListed : Str → Str → Whitelist → Type 0
IsListed id key w = (peer : PeerInfo) × (lookup id w.allowed_nodes ≡ some peer) × IsAgreed key peer

module _ (json : Codec MembershipEntry) (json_list : Codec (List PeerInfo)) where
  file_keeps :
      (w : Whitelist) (f : FileAnswer) (e : RefreshError)
      → (read_peers json_list w f).0 ≡ some e
      → (read_peers json_list w f).1 ≡ w
  unfolding read_peers
  file_keeps w no_file e h = absurd (cc)
  file_keeps w unreadable e h = refl
  file_keeps w (contents bytes) e h = ground arith

  consul_keeps :
      (out : Outside) (w : Whitelist) (e : RefreshError)
      → (load_from_consul json out w).0 ≡ some e
      → (load_from_consul json out w).1 ≡ w
  unfolding load_from_consul
  consul_keeps out w e h = ground arith

  -- A refresh that fails leaves the whitelist as it is.
  pub refresh_keeps :
      (out : Outside) (w : Whitelist) (e : RefreshError)
      → (refresh json json_list out w).0 ≡ some e
      → (refresh json json_list out w).1 ≡ w
  unfolding refresh load_from_file
  refresh_keeps out w e h = ground (arith, consul_keeps out w e, file_keeps w (out.file w.path) e)

module _ (json : Codec MembershipEntry) (prefix id : Str) where
  -- The last well-formed pair that names the node.
  abbrev pub last_info : Dict Str → Option PeerInfo
  last_info [] = none
  last_info ((k, v) ∷ pairs) = elim (last_info pairs) [
    | some info ↦ some info
    | none ↦ elim (pair_info json prefix k v) [
      | none ↦ none
      | some info ↦ if str_eq id info.node_id then some info else none
    ]
  ]

  lookup-load_pairs :
      (pairs : Dict Str) (nodes : Dict PeerInfo)
      → lookup id (load_pairs json prefix pairs nodes) ≡ or_else (last_info pairs) (lookup id nodes)
  unfolding load_pairs store_info
  lookup-load_pairs [] nodes = refl
  lookup-load_pairs ((k, v) ∷ pairs) nodes = elim (Option-cases (pair_info json prefix k v)) [
    | inl e ↦ ground (arith, lookup-load_pairs pairs nodes)
    | inr (info, e) ↦ ground (
      arith,
      lookup-load_pairs pairs (insert info.node_id info nodes),
      lookup-insert id info.node_id info nodes,
    )
  ]

  lookup-loaded : (pairs : Dict Str) → lookup id (load_pairs json prefix pairs []) ≡ last_info pairs
  unfolding lookup
  lookup-loaded pairs = lookup-load_pairs pairs [] ∙ or_none (last_info pairs)
    where
      or_none : (o : Option PeerInfo) → or_else o none ≡ o
      or_none none = refl
      or_none (some info) = refl

  -- After a successful refresh from Consul.
  loaded_cases :
      (out : Outside) (pairs : Dict Str) (w : Whitelist)
      → out.listing w.path ≡ some pairs
      → (load_from_consul json out w ≡ (some no_client, w))
        ⊎ (load_from_consul json out w
            ≡ (none, record w { allowed_nodes = load_pairs json w.path pairs [] }))
  unfolding load_from_consul
  loaded_cases out pairs w l = elim (Bool-cases out.has_client) [
    | inl e ↦ inr (rw (e, l) refl)
    | inr e ↦ inl (rw e refl)
  ]

  -- A whitelist that was refreshed from a Consul prefix gives a node the last well-formed entry of
  -- the listing that names it: a malformed entry, or one whose key is not hex, adds no node.
  pub refresh-lookup :
      (json_list : Codec (List PeerInfo)) (out : Outside) (pairs : Dict Str) (w : Whitelist)
      → w.source ≡ text "consul"
      → w.path ≡ prefix
      → out.listing prefix ≡ some pairs
      → (refresh json json_list out w).0 ≡ none
      → lookup id (refresh json json_list out w).1.allowed_nodes ≡ last_info pairs
  unfolding refresh
  refresh-lookup json_list out pairs w c p l h =
      elim (loaded_cases out pairs w (ap out.listing p ∙ l)) [
        | inl e ↦ absurd (ground (arith, str_eq_iff w.source (text "consul")))
        | inr e ↦ ground (arith, str_eq_iff w.source (text "consul"), p, lookup-loaded pairs)
      ]
