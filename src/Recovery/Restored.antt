-- ===== src/Recovery/Restored.antt =====
-- What a node recovers from its cache after a restart.
use aicw_node.Base.{Option, none, some, [], ◌∷◌, if◌then◌else◌, Str, str_eq, Dict, lookup, or_else}
use aicw_node.Consul.{Consul, Codec}
use aicw_node.Identity.{Store, Verifier, accepts, get_all_peer_ids}
use aicw_node.Recovery.Manager.{PeerCacheEntry, cache_ids}

-- The key of a cached peer.
abbrev pub cached_key : Str → Dict PeerCacheEntry → Option Str
cached_key id cache = elim (lookup id cache) [ none ↦ none | some entry ↦ some entry.public_key ]

-- A key that the verifier of a store accepts.
abbrev accepted : Verifier → Str → Option Str → Option Str
accepted v id none = none
accepted v id (some key) = if accepts v id key then some key else none

-- The last entry of a peer in a cache that is accepted; a map has one entry of a peer at most.
abbrev last_key : Verifier → Str → Dict PeerCacheEntry → Option Str
last_key v id [] = none
last_key v id ((j, entry) ∷ cache) =
    or_else (last_key v id cache)
      (if str_eq id j then accepted v id (some entry.public_key) else none)

module _ (json : Codec (Dict PeerCacheEntry)) (now id : Str) (s : Store) (fresh : Store) where
  abbrev pub cached : Dict PeerCacheEntry
  cached = cache_ids now s (get_all_peer_ids s) []
