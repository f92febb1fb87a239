-- ===== src/Orchestrator/Trigger.antt =====
-- pkg/orchestrator/trigger.go: the trigger matrix and the hysteresis of the confirm tracker.
use aicw_node.Base.{
  ℕ, ◌+◌, Bool, true, false, [], ltb, leb, ◌==◌, if◌then◌else◌, Str, ℤ, pos, negsuc, ◌+ℤ◌, ltb_int,
  Dict, lookup, insert, delete, or_zero,
}

pub data Trigger : Type 0 where
  healthy proactive urgent unrecoverable migration : Trigger

-- The counts are lengths; the threshold and the spare are ints of the policy.
unfoldable pub decide_trigger : ℤ → ℤ → ℕ → ℕ → Trigger
decide_trigger threshold spare a_ping a_ready =
    let min_sign = threshold +ℤ pos 1 in
    if a_ready == 0
    then unrecoverable
    else if ltb_int (pos a_ready) min_sign
    then urgent
    else if ltb_int (pos a_ready) (min_sign +ℤ spare)
    then proactive
    else healthy

pub record ConfirmTracker : Type 0 where
  pub need : ℕ
  pub streak : Dict ℕ

unfoldable pub new_confirm_tracker : ℤ → ConfirmTracker
new_confirm_tracker (pos n) = record { need = if ltb n 1 then 1 else n; streak = [] }
new_confirm_tracker (negsuc n) = record { need = 1; streak = [] }

abbrev pub streak_of : ConfirmTracker → Str → ℕ
streak_of c wallet = or_zero 0 (lookup wallet c.streak)

-- The default branch of the switch in observe.
unfoldable pub count_scan : ConfirmTracker → Str → ConfirmTracker × Bool
count_scan c wallet =
    let n = streak_of c wallet + 1 in
    let counted = insert wallet n c.streak in
    if leb c.need n
    then (record c { streak = delete wallet counted }, true)
    else (record c { streak = counted }, false)

unfoldable pub observe : ConfirmTracker → Str → Trigger → ConfirmTracker × Bool
unfolding count_scan
observe c wallet healthy = (record c { streak = delete wallet c.streak }, false)
observe c wallet unrecoverable = (record c { streak = delete wallet c.streak }, false)
observe c wallet urgent = (record c { streak = delete wallet c.streak }, true)
observe c wallet proactive = count_scan c wallet
observe c wallet migration = count_scan c wallet
