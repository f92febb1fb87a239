-- ===== src/Identity.antt =====
-- pkg/identity/dynamic_store.go: the public and symmetric keys of the peers. The file, signature and
-- encryption methods are left out. A verifier is what it answers at the time of the call, `none` is
-- nil; the Bool of a method says that it returned no error.
pub mod Crypto
pub mod Authorization
pub mod Authorized
pub mod Directory
pub mod Watched
pub mod Signatures
pub mod Loaded
pub mod Verified
pub mod Node
pub mod Started
use aicw_node.Base.{
  Bool, true, false, Option, none, some, List, if◌then◌else◌, Str, str_eq, Dict, lookup, insert,
  delete, map,
}

abbrev pub Verifier : Type 0
Verifier = Option (Str → Str → Bool)

pub record Store : Type 0 where
  pub self_id : Str
  pub self_key : Str
  pub peer_keys : Dict Str
  pub sym_keys : Dict Str
  pub verifier : Verifier

abbrev pub accepts : Verifier → Str → Str → Bool
accepts none id key = true
accepts (some f) id key = f id key

unfoldable pub get_public_key : Store → Str → Option Str
get_public_key s id = if str_eq id s.self_id then some s.self_key else lookup id s.peer_keys

unfoldable pub register_peer : Store → Str → Str → Bool × Store
register_peer s id key =
    if str_eq id s.self_id
    then (false, s)
    else if accepts s.verifier id key
    then (true, record s { peer_keys = insert id key s.peer_keys })
    else (false, s)

unfoldable pub unregister_peer : Store → Str → Bool × Store
unregister_peer s id = elim (lookup id s.peer_keys) [
  | none ↦ (false, s)
  | some key ↦
      (true, record s { peer_keys = delete id s.peer_keys; sym_keys = delete id s.sym_keys })
]

unfoldable pub get_symmetric_key : Store → Str → Option Str
get_symmetric_key s id = lookup id s.sym_keys

unfoldable pub set_symmetric_key : Store → Str → Str → Store
set_symmetric_key s id key = record s { sym_keys = insert id key s.sym_keys }

unfoldable pub remove_symmetric_key : Store → Str → Store
remove_symmetric_key s id = record s { sym_keys = delete id s.sym_keys }

unfoldable pub is_self_member : Store → Bool
is_self_member s = accepts s.verifier s.self_id s.self_key

unfoldable pub get_all_peer_ids : Store → List Str
get_all_peer_ids s = map (λ e. e.0) s.peer_keys
