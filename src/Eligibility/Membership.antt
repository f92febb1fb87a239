-- ===== src/Eligibility/Membership.antt =====
-- pkg/eligibility/whitelist_membership.go: the whitelist of the nodes that may join.
use aicw_node.Base.{
  Bool, true, false, not, Option, none, some, List, [], ◌∷◌, if◌then◌else◌, length, drop, Str, text,
  str_eq, Dict, lookup, insert, map, hex_decode, Result, ok, err,
}
use aicw_node.Consul.{Codec}
use aicw_node.Eligibility.Keys.{normalize_public_key}

-- The fields node_id, public_key and metadata of PeerInfo.
pub record PeerInfo : Type 0 where
  pub node_id : Str
  pub public_key : Str
  pub metadata : Dict Str

-- The local type membershipEntry of loadFromConsul, its key in hex.
pub record MembershipEntry : Type 0 where
  pub node_id : Str
  pub public_key : Str
  pub metadata : Dict Str

pub data FileAnswer : Type 0 where
  no_file unreadable : FileAnswer
  contents : Str → FileAnswer

-- What the outside answers during a call: whether there is a Consul client, its listing of a
-- prefix, and the file of a path.
pub record Outside : Type 0 where
  pub has_client : Bool
  pub listing : Str → Option (Dict Str)
  pub file : Str → FileAnswer

pub record Whitelist : Type 0 where
  pub allowed_nodes : Dict PeerInfo
  pub source : Str
  pub path : Str

pub data RefreshError : Type 0 where
  no_client list_failed read_failed parse_failed unknown_source : RefreshError

pub data MemberError : Type 0 where
  not_in_whitelist verification_failed not_implemented : MemberError

abbrev pub default_prefix : Str
default_prefix = text "mpc_eligibility/membership_whitelist/"

record_of : MembershipEntry → Str → Str → PeerInfo
record_of entry id key = record { node_id = id; public_key = key; metadata = entry.metadata }

decoded_entry : MembershipEntry → Str → Str × Bool → Option PeerInfo
decoded_entry entry id (raw, fine) = if fine then some (record_of entry id raw) else none

-- What one pair of the listing adds: nothing if it is malformed.
unfoldable pub entry_info : Option MembershipEntry → Str → Option PeerInfo
unfolding record_of decoded_entry
entry_info none key_id = none
entry_info (some entry) key_id =
    let id = if str_eq entry.node_id [] then key_id else entry.node_id in
    if str_eq entry.public_key []
    then some (record_of entry id [])
    else decoded_entry entry id (hex_decode entry.public_key)

unfoldable pub store_info : Option PeerInfo → Dict PeerInfo → Dict PeerInfo
store_info none nodes = nodes
store_info (some info) nodes = insert info.node_id info nodes

unfoldable pub store_peers : List PeerInfo → Dict PeerInfo → Dict PeerInfo
store_peers [] nodes = nodes
store_peers (p ∷ ps) nodes = store_peers ps (insert p.node_id p nodes)

-- The comparison of the keys of a node that is listed.
unfoldable pub compare_keys : Str → PeerInfo → Result MemberError (Unit {0})
compare_keys key peer =
    if str_eq key []
    then ok tt
    else if str_eq peer.public_key []
    then ok tt
    else if str_eq (normalize_public_key key) (normalize_public_key peer.public_key)
    then ok tt
    else err verification_failed

unfoldable pub answer : Str → Option PeerInfo → Result MemberError (Unit {0})
answer key none = err not_in_whitelist
answer key (some peer) = compare_keys key peer

-- After a refresh on a miss.
unfoldable pub retried :
    Str → Str → Option RefreshError × Whitelist → Result MemberError (Unit {0}) × Whitelist
retried id key (some e, w) = (err not_in_whitelist, w)
retried id key (none, w) = (answer key (lookup id w.allowed_nodes), w)

module _ (json : Codec MembershipEntry) where
  unfoldable pub pair_info : Str → Str → Str → Option PeerInfo
  pair_info prefix key value = entry_info (json.decode value) (drop (length prefix) key)

  -- The loop of loadFromConsul with the nodes so far.
  unfoldable pub load_pairs : Str → Dict Str → Dict PeerInfo → Dict PeerInfo
  load_pairs prefix [] nodes = nodes
  load_pairs prefix ((key, value) ∷ pairs) nodes =
      load_pairs prefix pairs (store_info (pair_info prefix key value) nodes)

  unfoldable pub load_from_consul : Outside → Whitelist → Option RefreshError × Whitelist
  load_from_consul out w =
      if not out.has_client then (some no_client, w) else elim (out.listing w.path) [
        | none ↦ (some list_failed, w)
        | some pairs ↦ (none, record w { allowed_nodes = load_pairs w.path pairs [] })
      ]

module _ (json_list : Codec (List PeerInfo)) where
  unfoldable pub read_peers : Whitelist → FileAnswer → Option RefreshError × Whitelist
  read_peers w no_file = (none, record w { allowed_nodes = [] })
  read_peers w unreadable = (some read_failed, w)
  read_peers w (contents bytes) = elim (json_list.decode bytes) [
    | none ↦ (some parse_failed, w)
    | some peers ↦ (none, record w { allowed_nodes = store_peers peers [] })
  ]

  unfoldable pub load_from_file : Outside → Whitelist → Option RefreshError × Whitelist
  load_from_file out w = read_peers w (out.file w.path)

module _ (json : Codec MembershipEntry) (json_list : Codec (List PeerInfo)) where
  unfoldable pub refresh : Outside → Whitelist → Option RefreshError × Whitelist
  refresh out w =
      if str_eq w.source (text "consul")
      then load_from_consul json out w
      else if str_eq w.source (text "file")
      then load_from_file json_list out w
      else (some unknown_source, w)

  unfoldable pub new_whitelist_membership_verifier :
      Str → Str → Outside → Result RefreshError Whitelist
  new_whitelist_membership_verifier source path out =
      let loaded = refresh out (record {
        allowed_nodes = [];
        source = source;
        path = if str_eq path [] then default_prefix else path;
      }) in
      elim loaded.0 [ none ↦ ok loaded.1 | some e ↦ err e ]

  unfoldable pub verify_membership :
      Outside → Str → Str → Whitelist → Result MemberError (Unit {0}) × Whitelist
  verify_membership out id key w = elim (lookup id w.allowed_nodes) [
    | some peer ↦ (compare_keys key peer, w)
    | none ↦ retried id key (refresh out w)
  ]

unfoldable pub get_allowed_nodes : Whitelist → List PeerInfo
get_allowed_nodes w = map (λ e. e.1) w.allowed_nodes

unfoldable pub is_node_allowed : Whitelist → Str → Bool
is_node_allowed w id = elim (lookup id w.allowed_nodes) [ none ↦ false | some p ↦ true ]
