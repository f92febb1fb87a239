-- ===== src/Orchestrator/Wallets.antt =====
-- pkg/orchestrator/types.go: wallets, liveness snapshots, and the counts over committees.

use aicw_node.Base.{
  ℕ, ◌+◌, Bool, true, false, ◌&&◌, ◌||◌, Option, none, some, List, [], ◌∷◌, if◌then◌else◌, Str, ℤ,
  pos, ◌+ℤ◌, ltb_int, sort_by, str_less, keep, Dict, keys, flag,
}

pub data KeyKind : Type 0 where
  eddsa ecdsa : KeyKind

pub record WalletKey : Type 0 where
  pub committee : List Str
  pub threshold : ℤ
  pub version : ℤ

-- The map of at most one key for each kind, by its two entries.
pub record Wallet : Type 0 where
  pub id : Str
  pub eddsa_key : Option WalletKey
  pub ecdsa_key : Option WalletKey

unfoldable pub key_of : Wallet → KeyKind → Option WalletKey
key_of w eddsa = w.eddsa_key
key_of w ecdsa = w.ecdsa_key

-- nil is the empty list.
committee_of : Option WalletKey → List Str
committee_of none = []
committee_of (some k) = k.committee

first_non_empty : List Str → List Str → List Str
first_non_empty [] ys = ys
first_non_empty (x ∷ xs) ys = x ∷ xs

unfoldable pub old_committee : Wallet → List Str
unfolding committee_of first_non_empty
old_committee w = first_non_empty (committee_of w.eddsa_key) (committee_of w.ecdsa_key)

pub record Snapshot : Type 0 where
  pub ready : Dict Bool
  pub whitelist : Dict Bool
  pub ping_active : Dict Bool

unfoldable pub candidate_pool : Snapshot → List Str
candidate_pool s =
    sort_by str_less (keep (λ id. flag id s.ping_active && flag id s.whitelist) (keys s.ready))

unfoldable pub count_alive : List Str → Dict Bool → ℕ
count_alive [] set = 0
count_alive (id ∷ ids) set = (if flag id set then 1 else 0) + count_alive ids set

is_nil {ℓ} : {A : Type ℓ} → List A → Bool
is_nil [] = true
is_nil (x ∷ xs) = false

unfoldable pub reachable_committee : List Str → Dict Bool → List Str
unfolding is_nil
reachable_committee committee whitelist =
    if is_nil committee || is_nil whitelist then [] else keep (λ id. flag id whitelist) committee

-- reconciler.go: aliveList.
unfoldable pub alive_list : List Str → Dict Bool → List Str
alive_list committee set = keep (λ id. flag id set) committee

-- The last loop of preflightReady.
unfoldable pub all_ready : Dict Bool → List Str → Bool
all_ready ready [] = true
all_ready ready (id ∷ ids) = flag id ready && all_ready ready ids

-- reconciler.go: preflightReady.
unfoldable pub preflight_ready : List Str → List Str → Snapshot → ℤ → Bool
unfolding is_nil
preflight_ready old new_committee snap threshold =
    let reachable = reachable_committee old snap.whitelist in
    if is_nil reachable
    then false
    else if ltb_int (pos (count_alive reachable snap.ready)) (threshold +ℤ pos 1)
    then false
    else all_ready snap.ready new_committee
