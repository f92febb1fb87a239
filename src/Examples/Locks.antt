-- ===== src/Examples/Locks.antt =====
-- Locks, cooldowns and sweeps.
use aicw_node.Base.{
  ◌+◌, ltb, insert, ◌∷◌, ◌*◌, ◌^◌, min, ◌≡◌, ◌≢◌, ◌⊎◌, refl, true, false, none, some, [], ◌++◌,
  arith, Str, text, str_eq, str_eq_iff, flag, lookup, ok,
}
use aicw_node.Orchestrator.Lock.{
  LockManager, inflight_prefix, acquire, take_lock, CooldownRecord, cooldown_prefix, read_cooldown,
  mark_failure, cooldown_ok, write_cooldown, failure_backoff, double_backoff, add_duration,
  int64_leb,
}
use aicw_node.Orchestrator.Backoff.{failures, mark_failure_kept}
use aicw_node.Orchestrator.Exclusion.{acquire_excludes}
use aicw_node.Examples.World.{
  Cluster, lock_key, cluster, laws, inflight, cooldown, parses, parse_cooldown, empty,
}

abbrev manager : Str → LockManager
manager id = record {
  session_id = id;
  cooldown_success = 600;
  cooldown_failure = 30;
  cooldown_fail_max = 100;
  held = [];
}

abbrev wallet : Str
wallet = text "w1"

-- The state after the instance s1 took the wallet.
abbrev locked : Cluster
locked = (acquire cluster inflight cooldown (manager (text "s1")) wallet (text "r1") [] 7 empty).2

acquired :
    (acquire cluster inflight cooldown (manager (text "s1")) wallet (text "r1") [] 7 empty).0
    ≡ ok true
unfolding acquire take_lock flag lookup lock_key
acquired = refl

others : text "s2" ≢ text "s1"
others e = unfold str_eq in ground (arith, (str_eq_iff (text "s2") (text "s1")).1 e)

acquire_excludes_example :
    let r = acquire cluster inflight cooldown (manager (text "s1")) wallet (text "r1") [] 7 empty in
    (flag wallet [] ≡ false)
    × (flag wallet r.1.held ≡ true)
    × ((laws.holder empty (inflight_prefix ++ wallet) ≡ none)
        ⊎ (laws.holder empty (inflight_prefix ++ wallet) ≡ some (text "s1")))
    × (laws.holder r.2 (inflight_prefix ++ wallet) ≡ some (text "s1"))
    × (acquire cluster inflight cooldown r.1 wallet (text "r2") [] 9 locked
        ≡ (ok false, r.1, locked))
    × ((acquire cluster inflight cooldown (manager (text "s2")) wallet (text "r2") [] 9 locked).0
        ≢ ok true)
acquire_excludes_example =
    acquire_excludes cluster laws inflight cooldown (manager (text "s1")) (manager (text "s2"))
      wallet (text "r1") (text "r2") [] [] 7 9 empty locked acquired others refl

-- The wallet has failed once.
abbrev noted : Cluster
noted = record { kv = (cooldown_prefix ++ wallet, 40 ∷ 1 ∷ []) ∷ []; holders = [] }

abbrev failed_once : CooldownRecord
failed_once = record { next_eligible = 40; fail_count = 1 }

abbrev failed_twice : CooldownRecord
failed_twice = record { next_eligible = 67; fail_count = 2 }

mark_failure_kept_example :
    (failures (some failed_twice) ≡ 2) × (false ≡ ltb (7 + min 100 (30 * 2 ^ 1)) 9)
unfolding mark_failure failure_backoff double_backoff add_duration int64_leb read_cooldown
    write_cooldown cooldown_ok parse_cooldown lookup insert str_eq
mark_failure_kept_example =
    mark_failure_kept cluster laws inflight cooldown parses (manager []) wallet 7 9 noted
      (some failed_once) (some failed_twice) false (omega arith) (omega arith) refl refl refl refl
