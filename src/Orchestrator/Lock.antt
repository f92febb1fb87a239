-- ===== src/Orchestrator/Lock.antt =====
-- pkg/orchestrator/lock.go: the per-wallet in-flight lock and the cooldowns (the sweeper
-- is in Sweeper).
-- A time is a number of nanoseconds since the year 1, and `now` is an argument. A cooldown is an int64
-- by its bits, a number below 2 ^ 64, and doubling it wraps around; the counts stay below the bounds
-- of int. A method is one function here; Race has the moments between its requests.
use aicw_node.Base.{
  ℕ, zero, suc, ◌+◌, ◌*◌, ◌-◌, ◌%◌, Bool, true, false, Option, none, some, List, [], ◌++◌, ltb, leb,
  if◌then◌else◌, Str, text, Dict, insert, delete, flag, Result, ok, err,
}
use aicw_node.Consul.{Consul, Codec}

abbrev pub inflight_prefix : Str
inflight_prefix = text "orchestrator/reshare/inflight/"

abbrev pub cooldown_prefix : Str
cooldown_prefix = text "orchestrator/reshare/cooldown/"

pub record InflightRecord : Type 0 where
  pub session_id : Str
  pub started_at : ℕ
  pub key_types_pending : List Str

pub record CooldownRecord : Type 0 where
  pub next_eligible : ℕ
  pub fail_count : ℕ

-- The fields that the methods read; the Consul session is maintained by maintainLockSession.
pub record LockManager : Type 0 where
  pub session_id : Str
  pub cooldown_success : ℕ
  pub cooldown_failure : ℕ
  pub cooldown_fail_max : ℕ
  pub held : Dict Bool

-- A request that Consul did not answer.
pub data LockError : Type 0 where
  request_failed : LockError

-- The last step of maintainLockSession: a recreated session drops the held set.
unfoldable pub recreate_session : Str → LockManager → LockManager
recreate_session id m = record m { session_id = id; held = [] }

-- The order of int64 on the bits, those from 2 ^ 63 on being negative.
unfoldable pub int64_leb : ℕ → ℕ → Bool
int64_leb a b =
    leb ((a + 9_223_372_036_854_775_808) % 18_446_744_073_709_551_616)
      ((b + 9_223_372_036_854_775_808) % 18_446_744_073_709_551_616)

-- Time.Add of a duration.
unfoldable pub add_duration : ℕ → ℕ → ℕ
add_duration now d =
    if ltb d 9_223_372_036_854_775_808 then now + d else now - (18_446_744_073_709_551_616 - d)

-- The loop of MarkFailure, with the rounds left.
unfoldable pub double_backoff : ℕ → ℕ → ℕ → ℕ
double_backoff fail_max zero backoff = backoff
double_backoff fail_max (suc rounds) backoff =
    let doubled = (backoff * 2) % 18_446_744_073_709_551_616 in
    let rest = double_backoff fail_max rounds doubled in
    if int64_leb fail_max doubled then fail_max else rest

unfoldable pub failure_backoff : LockManager → ℕ → ℕ
failure_backoff m fail_count =
    double_backoff m.cooldown_fail_max (fail_count - 1) m.cooldown_failure

module _ (c : Consul) (inflight : Codec InflightRecord) (cooldown : Codec CooldownRecord) where
  open c use {State}

  unfoldable pub take_lock :
      LockManager → Str → Option Bool × State → Result LockError Bool × LockManager × State
  take_lock m wallet (none, s) = (err request_failed, m, s)
  take_lock m wallet (some false, s) = (ok false, m, s)
  take_lock m wallet (some true, s) = (ok true, record m { held = insert wallet true m.held }, s)

  unfoldable pub acquire :
      LockManager → Str → Str → List Str → ℕ → State → Result LockError Bool × LockManager × State
  unfolding take_lock
  acquire m wallet session key_types now s =
      if flag wallet m.held
      then (ok false, m, s)
      else take_lock m wallet (
          c.acquire (inflight_prefix ++ wallet)
            (inflight.encode
              (record { session_id = session; started_at = now; key_types_pending = key_types }))
            m.session_id s)

  unfoldable pub release : LockManager → Str → State → Bool × LockManager × State
  release m wallet s =
      let (done, s') = c.del (inflight_prefix ++ wallet) s in
      (done, record m { held = delete wallet m.held }, s')

  parse_cooldown : Option (Option Str) × State → Result LockError (Option CooldownRecord) × State
  parse_cooldown (none, s) = (err request_failed, s)
  parse_cooldown (some none, s) = (ok none, s)
  parse_cooldown (some (some v), s) = (ok (cooldown.decode v), s)

  unfoldable pub read_cooldown : Str → State → Result LockError (Option CooldownRecord) × State
  unfolding parse_cooldown
  read_cooldown wallet s = parse_cooldown (c.get (cooldown_prefix ++ wallet) s)

  unfoldable pub write_cooldown : Str → CooldownRecord → State → Bool × State
  write_cooldown wallet rec s = c.put (cooldown_prefix ++ wallet) (cooldown.encode rec) s

  eligible : ℕ → Result LockError (Option CooldownRecord) → Result LockError Bool
  eligible now (err e) = err e
  eligible now (ok none) = ok true
  eligible now (ok (some rec)) = ok (ltb rec.next_eligible now)

  unfoldable pub cooldown_ok : Str → ℕ → State → Result LockError Bool × State
  unfolding eligible
  cooldown_ok wallet now s = let (r, s') = read_cooldown wallet s in (eligible now r, s')

  -- The Bool of a write says that it succeeded.
  unfoldable pub mark_success : LockManager → Str → ℕ → State → Bool × State
  mark_success m wallet now s =
      write_cooldown wallet
        (record { next_eligible = add_duration now m.cooldown_success; fail_count = 0 }) s

  next_fail_count : Option CooldownRecord → ℕ
  next_fail_count none = 1
  next_fail_count (some rec) = rec.fail_count + 1

  unfoldable pub mark_failure : LockManager → Str → ℕ → State → Bool × State
  unfolding next_fail_count
  mark_failure m wallet now s =
      let (r, s') = read_cooldown wallet s in
      elim r [
        | err e ↦ (false, s')
        | ok rec ↦
            let fails = next_fail_count rec in
            write_cooldown wallet
              (record {
                next_eligible = add_duration now (failure_backoff m fails);
                fail_count = fails;
              })
              s'
      ]
