-- ===== src/Consul.antt =====
-- The Consul client and the JSON codec, which the program calls and does not implement: their
-- operations, and the documented behaviour that the proofs rely on.
use aicw_node.Base.{◌≡◌, ◌≢◌, ◌⊎◌, Bool, true, Option, none, some, Str, Dict}

-- A call takes the state of the cluster and returns its answer with the next state. `none` and, for
-- a write, `false` are failed requests.
pub record Consul : Type 1 where
  pub State : Type 0
  pub get : Str → State → Option (Option Str) × State
  pub put : Str → Str → State → Bool × State
  pub del : Str → State → Bool × State
  pub list : Str → State → Option (Dict Str) × State
  -- Key, value, session.
  pub acquire : Str → Str → Str → State → Option Bool × State

-- What the cluster stores under a key, and which session holds it.
pub record IsConsul (c : Consul) : Type 1 where
  pub stored : c.State → Str → Option Str
  pub holder : c.State → Str → Option Str
  pub get_stored :
      (k : Str) (s : c.State) (v : Option Str) → (c.get k s).0 ≡ some v → v ≡ stored s k
  pub get_keeps : (k j : Str) (s : c.State) → stored (c.get k s).1 j ≡ stored s j
  pub put_stores :
      (k v : Str) (s : c.State) → (c.put k v s).0 ≡ true → stored (c.put k v s).1 k ≡ some v
  pub put_others : (k v j : Str) (s : c.State) → j ≢ k → stored (c.put k v s).1 j ≡ stored s j
  pub del_removes : (k : Str) (s : c.State) → (c.del k s).0 ≡ true → stored (c.del k s).1 k ≡ none
  pub del_others : (k j : Str) (s : c.State) → j ≢ k → stored (c.del k s).1 j ≡ stored s j
  -- A session lock is granted only if no other session holds the key.
  pub acquire_granted :
      (k v n : Str) (s : c.State)
      → (c.acquire k v n s).0 ≡ some true
      → (holder (c.acquire k v n s).1 k ≡ some n) × ((holder s k ≡ none) ⊎ (holder s k ≡ some n))
  -- No acquire takes a key from the session that holds it, not even one that fails.
  pub acquire_keeps :
      (k v n j m : Str) (s : c.State)
      → holder s j ≡ some m
      → holder (c.acquire k v n s).1 j ≡ some m
  -- A deleted key is held by nobody, and no other key is let go.
  pub del_frees : (k : Str) (s : c.State) → (c.del k s).0 ≡ true → holder (c.del k s).1 k ≡ none
  pub del_keeps : (k j : Str) (s : c.State) → j ≢ k → holder (c.del k s).1 j ≡ holder s j

-- json.Marshal and json.Unmarshal at one record type; `none` is a value that does not parse.
pub record Codec (R : Type 0) : Type 0 where
  pub encode : R → Str
  pub decode : Str → Option R

abbrev pub RoundTrips : {R : Type 0} → Codec R → Type 0
RoundTrips {R} c = (r : R) → c.decode (c.encode r) ≡ some r
