-- ===== src/Orchestrator/Urgency.antt =====
-- The trigger matrix against the readiness of a committee, and against pre-flight.
use aicw_node.Base.{
  ℕ, ◌+◌, ◌≤◌, ◌<◌, ◌≡◌, ◌↔◌, Bool, true, false, List, [], ◌∷◌, arith, Str, ℤ, pos, ◌+ℤ◌, ◌≤ℤ◌,
  elem, str_eq_iff, Dict, flag,
}
use aicw_node.Orchestrator.Trigger.{
  Trigger, healthy, proactive, urgent, unrecoverable, migration, decide_trigger,
}
use aicw_node.Orchestrator.Wallets.{
  Snapshot, count_alive, reachable_committee, all_ready, preflight_ready,
}

-- How pressing a trigger of the matrix is.
abbrev pub urgency : Trigger → ℕ
urgency healthy = 0
urgency migration = 0
urgency proactive = 1
urgency urgent = 2
urgency unrecoverable = 3

-- A committee with more ready members never gets a more pressing trigger from the matrix, whatever
-- the threshold, the spare and the pings.
pub urgency_antitone :
    (threshold spare : ℤ) (ping ping' ready ready' : ℕ)
    → ready ≤ ready'
    → urgency (decide_trigger threshold spare ping' ready')
      ≤ urgency (decide_trigger threshold spare ping ready)
unfolding decide_trigger
urgency_antitone threshold spare ping ping' ready ready' h = ground arith

-- With no negative threshold and spare, the matrix is: unrecoverable without a ready member, urgent
-- below threshold + 1 of them, proactive below threshold + 1 + spare, and else healthy.
pub decide_trigger_matrix :
    (threshold spare ping ready : ℕ)
    → let t = decide_trigger (pos threshold) (pos spare) ping ready in
      ((t ≡ unrecoverable) ↔ (ready ≡ 0))
      × ((t ≡ urgent) ↔ ((0 < ready) × (ready ≤ threshold)))
      × ((t ≡ proactive) ↔ ((threshold < ready) × (ready ≤ threshold + spare)))
      × ((t ≡ healthy) ↔ ((threshold < ready) × (threshold + spare < ready)))
unfolding decide_trigger ◌+ℤ◌
decide_trigger_matrix threshold spare ping ready = ground arith

all_ready-elem :
    (ready : Dict Bool) (ids : List Str) (z : Str)
    → all_ready ready ids ≡ true
    → elem z ids ≡ true
    → flag z ready ≡ true
unfolding all_ready elem
all_ready-elem ready [] z h e = cc
all_ready-elem ready (id ∷ ids) z h e = ground (arith, all_ready-elem ready ids z, str_eq_iff z id)

-- Pre-flight lets a reshare pass only if at least threshold + 1 whitelisted members of the old
-- committee are ready, and every member of the new committee is ready.
pub preflight_sound :
    (old new_committee : List Str) (s : Snapshot) (threshold : ℤ)
    → preflight_ready old new_committee s threshold ≡ true
    → (threshold +ℤ pos 1 ≤ℤ pos (count_alive (reachable_committee old s.whitelist) s.ready))
      × ((z : Str) → elem z new_committee ≡ true → flag z s.ready ≡ true)
unfolding preflight_ready
preflight_sound old new_committee s threshold h =
    (ground arith, λ z e. all_ready-elem s.ready new_committee z (ground arith) e)

-- A wallet that the matrix calls urgent never passes pre-flight: both read the same count of ready
-- members, and pre-flight asks for the threshold + 1 that an urgent wallet lacks.
pub preflight_urgent :
    (old new_committee : List Str) (s : Snapshot) (threshold spare : ℤ) (ping : ℕ)
    → decide_trigger threshold spare ping
        (count_alive (reachable_committee old s.whitelist) s.ready)
      ≡ urgent
    → preflight_ready old new_committee s threshold ≡ false
unfolding decide_trigger preflight_ready
preflight_urgent old new_committee s threshold spare ping h = ground arith
