-- ===== src/Examples/Presences.antt =====
-- A node that registers, and its broadcast loop.
use aicw_node.Base.{ℕ, ◌+◌, ◌≡◌, ◌↔◌, true, false, none, some, List, [], ◌∷◌, ltb, Str, text}
use aicw_node.Mpc.Presence.{Sessions, Presence, ready_key, register_ready}
use aicw_node.Mpc.Registered.{IsTried, register_ready_iff}
use aicw_node.Mpc.Rebroadcast.{Tick, ends, grace_after, grace_period, complete_since, ends_iff}
use aicw_node.Examples.World.{cluster, empty, lock_key}

abbrev sessions : Sessions cluster
sessions = record { create = λ s. (some (text "c1"), s); destroy = λ id s. (true, s) }

abbrev node : Presence
node = record {
  node_id = text "n1";
  ready_session_id = [];
  ready_session_stopped = none;
  watch_stopped = false;
  broadcast_stopped = false;
  resigned = false;
}

register_ready_iff_example : ((register_ready cluster sessions (text "e") node empty).0 ≡ true) ↔ (
    (session : Str) × (some (text "c1") ≡ some session)
    × IsTried cluster sessions
        (ready_key node)
        (text "e")
        session
        (lock_key (ready_key node) (text "e") session empty))
register_ready_iff_example = register_ready_iff cluster sessions (text "e") node empty

-- One peer, whose key is held or not.
abbrev tick : ℕ → List (Str × Str) → Tick
tick now held = record {
  now = now;
  later = now;
  session = record { node_id = text "n1"; peer_ids = text "n2" ∷ []; ceremony_peers = [] };
  store = record {
    self_id = text "n1";
    self_key = [];
    peer_keys = [];
    sym_keys = held;
    verifier = none;
  };
}

abbrev complete : ℕ → Tick
complete now = tick now ((text "n2", text "k") ∷ [])

ends_iff_example :
    ends (complete 40_000_000_000) (grace_after (complete 5 ∷ tick 3 [] ∷ []))
    ≡ elim (complete_since (complete 40_000_000_000 ∷ complete 5 ∷ tick 3 [] ∷ [])) [
      | none ↦ false
      | some n ↦ ltb (n + grace_period) 40_000_000_000
    ]
ends_iff_example = ends_iff (complete 40_000_000_000) (complete 5 ∷ tick 3 [] ∷ [])
