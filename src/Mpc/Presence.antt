-- ===== src/Mpc/Presence.antt =====
-- pkg/mpc/dynamic_registry.go: the ready/ entry of a node in Consul, its session, and Resign.
use aicw_node.Base.{
  ℕ, ◌*◌, Bool, true, false, ◌&&◌, Option, none, some, [], ◌++◌, if◌then◌else◌, ltb, Str, text,
  str_eq,
}
use aicw_node.Consul.{Consul}

-- Consul's sessions with the behaviour delete: a created session's id, and whether one is destroyed.
pub record Sessions (c : Consul) : Type 0 where
  pub create : c.State → Option Str × c.State
  pub destroy : Str → c.State → Bool × c.State

-- The fields of DynamicRegistry that these methods use. A channel is whether it is closed, and the
-- stop channel of the session `none` for nil.
pub record Presence : Type 0 where
  pub node_id : Str
  pub ready_session_id : Str
  pub ready_session_stopped : Option Bool
  pub watch_stopped : Bool
  pub broadcast_stopped : Bool
  pub resigned : Bool

abbrev pub ready_key : Presence → Str
ready_key p = text "ready/" ++ p.node_id

-- readyReregisterBackoffMin and Max, in nanoseconds.
abbrev pub backoff_min : ℕ
backoff_min = 5_000_000_000

abbrev pub backoff_max : ℕ
backoff_max = 60_000_000_000

unfoldable pub next_ready_reregister_backoff : ℕ → ℕ
next_ready_reregister_backoff current =
    if ltb backoff_max (current * 2) then backoff_max else current * 2

-- The second attempt: what Consul decided is not looked at.
unfoldable pub answered : {S : Type 0} → Option Bool × S → Bool × S
answered (none, s) = (false, s)
answered (some acquired, s) = (true, s)

unfoldable pub close_channels : Presence → Presence
close_channels p = record p {
  ready_session_id = [];
  ready_session_stopped = none;
  watch_stopped = true;
  broadcast_stopped = true;
  resigned = true;
}

unfoldable pub created : {S : Type 0} → Presence → Option Str × S → Option Str × Presence × S
created p (none, s) = (none, p, s)
created p (some session, s) =
    (some session, record p { ready_session_id = session; ready_session_stopped = some false }, s)

module _ (c : Consul) (sessions : Sessions c) where
  open c use {State}

  unfoldable pub create_ready_session : Presence → State → Option Str × Presence × State
  create_ready_session p s = created p (sessions.create s)

  unfoldable pub acquire_again : Str → Str → Str → Bool × State → Bool × State
  acquire_again key epoch session (false, s) = (false, s)
  acquire_again key epoch session (true, s) = answered (c.acquire key epoch session s)

  -- After the first Acquire.
  unfoldable pub acquired_or_again : Str → Str → Str → Option Bool × State → Bool × State
  acquired_or_again key epoch session (none, s) = (false, s)
  acquired_or_again key epoch session (some true, s) = (true, s)
  acquired_or_again key epoch session (some false, s) =
      acquire_again key epoch session (c.del key s)

  -- The Bool says that no error was returned. `epoch` is the time in nanoseconds, in decimal.
  unfoldable pub register_session : Str → Option Str × Presence × State → Bool × Presence × State
  register_session epoch (none, p, s) = (false, p, s)
  register_session epoch (some session, p, s) =
      let (done, s') =
        acquired_or_again (ready_key p) epoch session (c.acquire (ready_key p) epoch session s) in
      (done, p, s')

  unfoldable pub register_ready : Str → Presence → State → Bool × Presence × State
  register_ready epoch p s = register_session epoch (create_ready_session p s)

  unfoldable pub destroy_session : Str → State → Bool × State
  destroy_session session s = if str_eq session [] then (true, s) else sessions.destroy session s

  -- resignOnce makes every later call return at once.
  unfoldable pub resign : Presence → State → Bool × Presence × State
  resign p s =
      if p.resigned
      then (true, p, s)
      else let (gone, s') = c.del (ready_key p) s in
        let (ended, s'') = destroy_session p.ready_session_id s' in
        (gone && ended, close_channels p, s'')
