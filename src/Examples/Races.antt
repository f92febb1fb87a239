-- ===== src/Examples/Races.antt =====
-- Two orchestrators.
use aicw_node.Base.{
  ℕ, ◌≡◌, ◌≢◌, refl, inl, true, none, some, [], ◌∷◌, ◌++◌, arith, text, str_eq, flag, lookup,
  insert,
}
use aicw_node.Orchestrator.Lock.{LockManager, inflight_prefix, acquire, take_lock}
use aicw_node.Orchestrator.Race.{
  System, Step, IsInitial, Reach, Claims, asking, granted_by, recording, acquiring, releasing,
  release_unheld,
}
use aicw_node.Orchestrator.Race.Safety.{Keeps, mutual_exclusion}
use aicw_node.Examples.World.{cluster, laws, inflight, cooldown, lock_key, empty}

-- The instances have the session ids 0, 1, 2 and so on, as texts of one byte.
abbrev instance_of : ℕ → LockManager
instance_of i = record {
  session_id = i ∷ [];
  cooldown_success = 600;
  cooldown_failure = 30;
  cooldown_fail_max = 100;
  held = [];
}

abbrev rest : System cluster laws inflight cooldown
rest = record { managers = instance_of; granted = λ i. none; state = empty }

abbrev taken : System cluster laws inflight cooldown
taken = acquiring cluster laws inflight cooldown 0 (text "w1") (text "r1") [] 7 rest

distinct : (i j : ℕ) → (i ∷ []) ≡ (j ∷ []) → i ≡ j
distinct i j e = cc

initial : IsInitial cluster laws inflight cooldown rest
unfolding flag lookup
initial = (distinct, λ i. refl, λ i w. refl)

-- Instance 0 takes the wallet, and then instance 1 asks for it.
abbrev asked : System cluster laws inflight cooldown
asked = asking cluster laws inflight cooldown 0 (text "w1") (text "r1") [] 7 rest

abbrev recorded : System cluster laws inflight cooldown
recorded = recording cluster laws inflight cooldown 0 (text "w1") asked

abbrev refused : System cluster laws inflight cooldown
refused = asking cluster laws inflight cooldown 1 (text "w1") (text "r2") [] 9 recorded

granted : asked.granted 0 ≡ some (text "w1")
unfolding asking granted_by flag lookup lock_key
granted = refl

idle : recorded.granted 1 ≡ none
unfolding asking granted_by flag lookup lock_key
idle = refl

abbrev reached : Reach cluster laws inflight cooldown refused
reached =
    Reach.next
      (Reach.next
        (Reach.next (Reach.initially initial) (Step.asks 0 (text "w1") (text "r1") [] 7 refl))
        (Step.records 0 (text "w1") granted))
      (Step.asks 1 (text "w1") (text "r2") [] 9 idle)

spared : Keeps cluster laws inflight cooldown (text "w1") reached
spared = (((tt, tt), tt), tt)

claimed : Claims cluster laws inflight cooldown refused 0 (text "w1")
unfolding asking granted_by flag lookup insert str_eq lock_key
claimed = inl refl

held : flag (text "w1") (taken.managers 0).held ≡ true
held = unfold acquire take_lock flag lookup insert str_eq lock_key in refl

mutual_exclusion_example :
    (laws.holder refused.state (inflight_prefix ++ text "w1")
      ≡ some (refused.managers 0).session_id)
    × (Claims cluster laws inflight cooldown refused 1 (text "w1") → ◌≡◌ {A = ℕ} 1 0)
mutual_exclusion_example =
    mutual_exclusion cluster laws inflight cooldown (text "w1") 0 1 reached spared claimed

apart : ◌≢◌ {A = ℕ} 0 1
apart e = omega (arith, e)

release_unheld_example :
    let u = releasing cluster laws inflight cooldown 1 (text "w1") taken in
    (flag (text "w1") (u.managers 0).held ≡ true)
    × (laws.holder u.state (inflight_prefix ++ text "w1") ≡ none)
release_unheld_example =
    release_unheld cluster laws inflight cooldown taken 1 0 (text "w1") apart held refl
