-- ===== src/Orchestrator/Confirm.antt =====
-- The hysteresis: what a wallet's history of triggers says of its streak and of the next answer.
use native.Mathlib.Nat.{mod-lt, mod-eq_of_lt, mod_self, suc-mod, zero-mod}
use aicw_node.Base.{
  ℕ, suc, ◌+◌, ◌%◌, ◌<◌, ◌≡◌, refl, sym, ap, ◌∙◌, inl, inr, Bool-cases, Bool, true, false, List, [],
  ◌∷◌, arith, leb, if◌then◌else◌, Str, str_eq, str_eq_iff, ℤ, pos, negsuc, lookup, insert,
  lookup-insert, lookup-delete, ◌==◌,
}
use aicw_node.Orchestrator.Trigger.{
  Trigger, proactive, urgent, migration, ConfirmTracker, new_confirm_tracker, streak_of, observe,
}

-- The triggers that wait for confirmation.
abbrev pub waits : Trigger → Bool
waits proactive = true
waits migration = true
waits _ = false

-- The tracker after a history of scans, the latest first; each scan names its wallet.
pub watch : ConfirmTracker → List (Str × Trigger) → ConfirmTracker
watch c [] = c
watch c ((w, t) ∷ scans) = (observe (watch c scans) w t).0

-- The waiting triggers of a wallet in a row, back from the latest scan, other wallets aside.
pub trailing : Str → List (Str × Trigger) → ℕ
trailing wallet [] = 0
trailing wallet ((w, t) ∷ scans) =
    if str_eq wallet w
    then (if waits t then suc (trailing wallet scans) else 0)
    else trailing wallet scans

pub need-new : (n : ℤ) → 0 < (new_confirm_tracker n).need
unfolding new_confirm_tracker
need-new (pos n) = ground arith
need-new (negsuc n) = ground arith

need-watch : (c : ConfirmTracker) (scans : List (Str × Trigger)) → (watch c scans).need ≡ c.need
unfolding watch observe
need-watch c [] = refl
need-watch c ((w, t) ∷ scans) = ground (arith, need-watch c scans)

streak-observe :
    (c : ConfirmTracker) (w z : Str) (t : Trigger)
    → streak_of (observe c w t).0 z ≡ (
        if str_eq z w
        then (if waits t
            then (if leb c.need (streak_of c w + 1) then 0 else streak_of c w + 1)
            else 0)
        else streak_of c z)
unfolding observe
streak-observe c w z t = ground (
  arith,
  lookup-delete z w c.streak,
  lookup-delete z w (insert w (streak_of c w + 1) c.streak),
  lookup-insert z w (streak_of c w + 1) c.streak,
)

next_mod :
    (need n k : ℕ)
    → 0 < need
    → k ≡ n % need
    → (if leb need (k + 1) then 0 else k + 1) ≡ suc n % need
next_mod need n k h e = elim (Bool-cases (leb need (k + 1))) [
  | inl full ↦
      let k' : suc (n % need) ≡ need = ground (arith, mod-lt n h) in
      rw full (sym (suc-mod n need ∙ (ap (λ (j : ℕ). j % need) k' ∙ mod_self need)))
  | inr room ↦
      let below : suc (n % need) < need = ground arith in
      rw room (omega (arith, suc-mod n need, mod-eq_of_lt below))
]

streak-watch_from :
    (c : ConfirmTracker) (wallet : Str) (scans : List (Str × Trigger))
    → 0 < c.need
    → streak_of c wallet ≡ 0
    → streak_of (watch c scans) wallet ≡ trailing wallet scans % c.need
unfolding watch trailing
streak-watch_from c wallet [] h e = ground (arith, zero-mod c.need)
streak-watch_from c wallet ((w, t) ∷ scans) h e =
    let ih = streak-watch_from c wallet scans h e in
    ground (
      arith,
      ih,
      streak-observe (watch c scans) w wallet t,
      need-watch c scans,
      next_mod c.need (trailing wallet scans) (streak_of (watch c scans) wallet) h ih,
      str_eq_iff wallet w,
      zero-mod c.need,
    )

new_streak : (n : ℤ) (wallet : Str) → streak_of (new_confirm_tracker n) wallet ≡ 0
unfolding new_confirm_tracker lookup
new_streak (pos n) wallet = refl
new_streak (negsuc n) wallet = refl

-- From a new tracker, a wallet's streak is the length of its row of waiting triggers, counted
-- modulo the scans needed.
pub streak-watch :
    (n : ℤ) (wallet : Str) (scans : List (Str × Trigger))
    → let c = new_confirm_tracker n in
      streak_of (watch c scans) wallet ≡ trailing wallet scans % c.need
streak-watch n wallet scans =
    streak-watch_from (new_confirm_tracker n) wallet scans (need-new n) (new_streak n wallet)

acts :
    (c : ConfirmTracker) (w : Str) (t : Trigger)
    → waits t ≡ true
    → (observe c w t).1 ≡ leb c.need (streak_of c w + 1)
unfolding observe
acts c w t h = ground arith

unfoldable pub is_urgent : Trigger → Bool
is_urgent urgent = true
is_urgent t = false

-- After any history of scans, over any wallets: a proactive or migration trigger is acted upon
-- exactly when the wallet's row of such triggers, this one included, has reached a multiple of the
-- scans needed; an urgent one is acted upon at once, and the others never.
pub observe_confirms :
    (n : ℤ) (wallet : Str) (t : Trigger) (scans : List (Str × Trigger))
    → let c = new_confirm_tracker n in
      (observe (watch c scans) wallet t).1
      ≡ (if waits t then suc (trailing wallet scans) % c.need == 0 else is_urgent t)
unfolding is_urgent
observe_confirms n wallet t scans = elim (Bool-cases (waits t)) [
  | inl h ↦ ground (
    arith,
    acts (watch c scans) wallet t h,
    need-watch c scans,
    next_mod c.need (trailing wallet scans) (streak_of (watch c scans) wallet) (need-new n)
        (streak-watch n wallet scans),
  )
  | inr h ↦ unfold observe in ground arith
]
  where
    c : ConfirmTracker
    c = new_confirm_tracker n
