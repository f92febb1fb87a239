-- ===== src/Orchestrator/Freeze.antt =====
-- pkg/orchestrator/verifier.go: the flag of a frozen wallet. FrozenAt, a time that nothing reads, is
-- left to the codec.
use aicw_node.Base.{◌++◌, Bool, true, false, Option, none, some, Str, text, Result, ok, err}
use aicw_node.Consul.{Consul, Codec}
use aicw_node.Orchestrator.Lock.{LockError, request_failed}

abbrev pub freeze_prefix : Str
freeze_prefix = text "orchestrator/reshare/freeze/"

pub record FreezeRecord : Type 0 where
  pub wallet_id : Str
  pub reason : Str
  pub key_type : Str
  pub expected : Str
  pub got : Str

module _ (c : Consul) where
  open c use {State}

  flagged : Option (Option Str) → Result LockError Bool
  flagged none = err request_failed
  flagged (some none) = ok false
  flagged (some (some v)) = ok true

  unfoldable pub is_frozen : Str → State → Result LockError Bool × State
  unfolding flagged
  is_frozen wallet s = let (r, s') = c.get (freeze_prefix ++ wallet) s in (flagged r, s')

  -- The Bool says that the write succeeded.
  unfoldable pub freeze : Codec FreezeRecord → FreezeRecord → State → Bool × State
  freeze codec rec s = c.put (freeze_prefix ++ rec.wallet_id) (codec.encode rec) s
