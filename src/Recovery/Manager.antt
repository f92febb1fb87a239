-- ===== src/Recovery/Manager.antt =====
-- pkg/recovery/recovery.go: the cache of the peers, and the recovery from Consul or from it.
use aicw_node.Base.{
  Bool, true, false, Option, none, some, List, [], ◌∷◌, if◌then◌else◌, Str, str_eq, Dict, insert,
}
use aicw_node.Consul.{Consul, Codec}
use aicw_node.Identity.{Store, get_public_key, register_peer, get_all_peer_ids}
use aicw_node.Identity.Directory.{NodeIdentityValue, load_peers_from_consul}

pub record PeerCacheEntry : Type 0 where
  pub node_id : Str
  pub public_key : Str
  pub last_seen : Str
  pub cached_at : Str

-- The cache file peers.json is what it holds, `none` if it cannot be read.
pub record RecoveryManager : Type 0 where
  pub node_id : Str
  pub peer_cache : Dict PeerCacheEntry
  pub last_update : Str

abbrev pub File : Type 0
File = Option Str

-- The loop of CachePeers.
unfoldable pub cache_ids : Str → Store → List Str → Dict PeerCacheEntry → Dict PeerCacheEntry
cache_ids now s [] cache = cache
cache_ids now s (id ∷ ids) cache = elim (get_public_key s id) [
  | none ↦ cache_ids now s ids cache
  | some key ↦ cache_ids now s ids (
      insert id (record { node_id = id; public_key = key; last_seen = now; cached_at = now }) cache)
]

-- The loop of recoverFromCache; a peer that is refused is only logged.
unfoldable pub register_cached : Str → Dict PeerCacheEntry → Store → Store
register_cached self [] s = s
register_cached self ((id, entry) ∷ cache) s =
    if str_eq id self
    then register_cached self cache s
    else register_cached self cache (register_peer s id entry.public_key).1

unfoldable pub recover_from_cache : RecoveryManager → Store → Bool × Store
recover_from_cache m s = elim m.peer_cache [
  | [] ↦ (false, s)
  | e ∷ es ↦ (true, register_cached m.node_id m.peer_cache s)
]

module _ (json : Codec (Dict PeerCacheEntry)) where
  -- A file that cannot be read or parsed leaves the cache; one that parses only in part counts as one
  -- that does not.
  unfoldable pub load_cache : File → Dict PeerCacheEntry → Dict PeerCacheEntry
  load_cache none cache = cache
  load_cache (some bytes) cache = elim (json.decode bytes) [ none ↦ cache | some read ↦ read ]

  unfoldable pub new_recovery_manager : Str → File → RecoveryManager
  new_recovery_manager id file = record {
    node_id = id;
    peer_cache = load_cache file [];
    last_update = [];
  }

  -- `writable` says whether the file can be written; the Bool that it was.
  unfoldable pub save_cache : Bool → RecoveryManager → File → Bool × File
  save_cache writable m file =
      if writable then (true, some (json.encode m.peer_cache)) else (false, file)

  unfoldable pub cache_peers :
      Bool → Str → Store → RecoveryManager → File → Bool × RecoveryManager × File
  cache_peers writable now s m file =
      let m' : RecoveryManager = record m {
        peer_cache = cache_ids now s (get_all_peer_ids s) m.peer_cache;
        last_update = now;
      } in
      let (done, file') = save_cache writable m' file in (done, m', file')

  -- Without a Consul client the load fails.
  unfoldable pub recover_from_consul :
      Codec NodeIdentityValue → Bool → (c : Consul) → Store → c.State → Bool × Store × c.State
  recover_from_consul identities has_client c s w =
      if has_client then load_peers_from_consul identities c s w else (false, s, w)

  -- The last step saves the cache as it is, whatever was recovered; its failure is only logged.
  unfoldable pub recover_state :
      Codec NodeIdentityValue
      → Bool
      → Bool
      → (c : Consul) → RecoveryManager
      → Store
      → File
      → c.State
      → Bool × Store × File × c.State
  recover_state identities has_client writable c m s file w =
      let (loaded, s', w') = recover_from_consul identities has_client c s w in
      let (cached, s'') = recover_from_cache m s' in
      let (saved, file') = save_cache writable m file in
      if loaded
      then (true, s', file', w')
      else if cached
      then (true, s'', file', w')
      else (false, s', file, w')
