-- ===== src/Identity/Directory.antt =====
-- pkg/identity/dynamic_store.go: the peer directory in Consul, loaded, watched and written.
use aicw_node.Base.{
  Bool, true, false, Option, none, some, List, [], ◌∷◌, ◌++◌, if◌then◌else◌, length, drop, Str,
  text, str_eq, Dict, lookup, insert, delete, keys, hex_decode, hex_encode,
}
use aicw_node.Consul.{Consul, Codec}
use aicw_node.Identity.{Store}

pub record NodeIdentityValue : Type 0 where
  pub node_id : Str
  pub node_name : Str
  pub public_key : Str
  pub registered_at : Str

abbrev pub peer_identity_prefix : Str
peer_identity_prefix = text "mpc_node_identity/"

-- A key that decodes is stored under its node, which is not the store's own.
unfoldable pub store_key : Str → Str × Bool → Store → Store
store_key id (key, fine) s =
    if str_eq id s.self_id
    then s
    else if fine
    then record s { peer_keys = insert id key s.peer_keys }
    else s

unfoldable pub self_identity : Str → Store → NodeIdentityValue
self_identity node_name s = record {
  node_id = s.self_id;
  node_name = node_name;
  public_key = hex_encode s.self_key;
  registered_at = [];
}

-- One entry of the new peer set. The bytes before an error of the hex decoder are its key.
unfoldable pub watched_entry : Str → Option NodeIdentityValue → Dict Str → Dict Str
watched_entry self none peers = peers
watched_entry self (some identity) peers =
    if str_eq identity.node_id self
    then peers
    else insert identity.node_id (hex_decode identity.public_key).0 peers

module _ (json : Codec NodeIdentityValue) where
  -- Which node an entry of the directory is about, and its key as stored there: a value that is no
  -- record is the key of the node that the name of the entry gives.
  unfoldable pub directory_entry : Str → Str → Str × Str
  directory_entry name value = elim (json.decode value) [
    | some identity ↦ (identity.node_id, identity.public_key)
    | none ↦ (drop (length peer_identity_prefix) name, value)
  ]

  unfoldable pub load_entry : Str → Str → Store → Store
  load_entry name value s =
      let entry = directory_entry name value in store_key entry.0 (hex_decode entry.1) s

  unfoldable pub load_entries : Dict Str → Store → Store
  load_entries [] s = s
  load_entries ((name, value) ∷ pairs) s = load_entries pairs (load_entry name value s)

  -- The Bool is false for an error.
  unfoldable pub load_peers_from_consul : (c : Consul) → Store → c.State → Bool × Store × c.State
  load_peers_from_consul c s w =
      let (listing, w') = c.list peer_identity_prefix w in
      elim listing [ none ↦ (false, s, w') | some pairs ↦ (true, load_entries pairs s, w') ]

  unfoldable pub sync_self_to_consul : (c : Consul) → Str → Store → c.State → Bool × c.State
  sync_self_to_consul c node_name s w =
      c.put (peer_identity_prefix ++ s.self_id) (json.encode (self_identity node_name s)) w

  unfoldable pub new_peers : Str → Dict Str → Dict Str → Dict Str
  new_peers self [] peers = peers
  new_peers self ((name, value) ∷ pairs) peers =
      new_peers self pairs (watched_entry self (json.decode value) peers)

-- The first loop of the watch, with the nodes it adds.
unfoldable pub add_new : Dict Str → Store → List Str × Store
add_new [] s = ([], s)
add_new ((id, key) ∷ peers) s = elim (lookup id s.peer_keys) [
  | some old ↦ add_new peers s
  | none ↦
      let (added, s') = add_new peers (record s { peer_keys = insert id key s.peer_keys }) in
      (id ∷ added, s')
]

-- The second loop, over the peers of the store, with the nodes it removes.
unfoldable pub remove_gone : Dict Str → List Str → Store → List Str × Store
remove_gone peers [] s = ([], s)
remove_gone peers (id ∷ ids) s = elim (lookup id peers) [
  | some key ↦ remove_gone peers ids s
  | none ↦
      let (removed, s') =
        remove_gone peers ids
          (record s { peer_keys = delete id s.peer_keys; sym_keys = delete id s.sym_keys }) in
      (id ∷ removed, s')
]

-- A pass with a new set of peers: the nodes added and removed, for whom the callbacks run next.
unfoldable pub watch_pass : Dict Str → Store → List Str × List Str × Store
watch_pass peers s =
    let (added, s') = add_new peers s in
    let (removed, s'') = remove_gone peers (keys s'.peer_keys) s' in (added, removed, s'')
