-- ===== src/Examples/Scans.antt =====
-- A pass of the reconcile loop.
use aicw_node.Base.{
  ◌≤◌, ◌≡◌, refl, Bool, true, false, none, some, List, [], ◌∷◌, arith, length, All, Str, text,
  str_eq, str_less, elem, keep, sort_by, insert_by, ℤ, pos, ◌+ℤ◌, Dict, flag, lookup, insert,
  delete,
}
use aicw_node.Committee.Policy.{
  default_policy, tier_for, first_fit, sorted_tiers, decimal, format_tiers, last_tier, min3,
  policy_hash, target_size, validate, validate_tier, validate_tiers,
}
use aicw_node.Orchestrator.Trigger.{decide_trigger, new_confirm_tracker, observe, count_scan}
use aicw_node.Orchestrator.Wallets.{
  Wallet, Snapshot, candidate_pool, count_alive, reachable_committee, preflight_ready, all_ready,
  old_committee,
}
use aicw_node.Orchestrator.Reconcile.{
  Config, Scan, Meanwhile, scan, reconcile_once, interfere, turn, settle, visit, wallet_trigger,
  migrate, confirm_stage, cooldown_stage, count, lock_stage, plan_stage,
}
use aicw_node.Orchestrator.Launches.{IsJustified}
use aicw_node.Orchestrator.Pass.{Balanced, reconcile_bounded, reconcile-IsJustified}
use aicw_node.Committee.Select.{
  choose, fill, fill_candidates, form, form_sized, hash_key, hash_less, retain_from,
  retained_members, select_committee, sort_by_hash, trim, unique_from, unique_sorted,
}
use aicw_node.Orchestrator.Lock.{acquire, cooldown_ok, read_cooldown, take_lock}
use aicw_node.Orchestrator.Freeze.{is_frozen}
use aicw_node.Examples.World.{cluster, lock_key, inflight, cooldown, empty}

abbrev pub sha : Str → Str
sha s = s

abbrev pub flags : List Str → Dict Bool
flags [] = []
flags (id ∷ ids) = (id, true) ∷ flags ids

abbrev pub five : List Str
five = text "n1" ∷ text "n2" ∷ text "n3" ∷ text "n4" ∷ text "n5" ∷ []

-- n9 is eligible and down.
abbrev pub network : Snapshot
network = record {
  ready = flags five;
  whitelist = flags (text "n9" ∷ five);
  ping_active = flags five;
}

abbrev pub old : List Str
old = text "n1" ∷ text "n2" ∷ text "n4" ∷ text "n9" ∷ []

abbrev pub wallet : Wallet
wallet = record {
  id = text "w1";
  eddsa_key = some (record { committee = old; threshold = pos 2; version = pos 1 });
  ecdsa_key = none;
}

abbrev config : Config
config = record { policy = default_policy; global_max_inflight = 1; migrate_oversized = false }

abbrev start : Scan cluster inflight cooldown sha
start = record {
  shared = record {
    locks = record {
      session_id = text "s1";
      cooldown_success = 600;
      cooldown_failure = 30;
      cooldown_fail_max = 100;
      held = [];
    };
    consul = empty;
    confirm = new_confirm_tracker (pos 1);
  };
  active = 0;
  tally = record {
    scanned = 0;
    healthy_count = 0;
    deferred_count = 0;
    triggered = 0;
    unrecoverable_count = 0;
  };
  launches = [];
}

abbrev meanwhile : Meanwhile cluster inflight cooldown sha
meanwhile = record { ended = 0; effect = λ m s. (m, s); now = 7; session = text "r1" }

abbrev wallets : List (Wallet × Meanwhile cluster inflight cooldown sha)
wallets = (wallet, meanwhile) ∷ (wallet, meanwhile) ∷ []

abbrev done : Scan cluster inflight cooldown sha
done =
    scan cluster inflight cooldown sha config (pos 1) network (candidate_pool network) wallets start

-- The wallet is launched; the second turn is at the limit.
launches_one : length done.launches ≡ 1
unfolding scan lookup decide_trigger count_alive reachable_committee keep flag str_eq ◌+ℤ◌
    default_policy elem delete insert insert_by sort_by str_less sorted_tiers tier_for observe
    all_ready preflight_ready candidate_pool new_confirm_tracker decimal first_fit format_tiers
    last_tier min3 policy_hash target_size validate validate_tier validate_tiers choose fill
    fill_candidates form form_sized hash_key hash_less retain_from retained_members select_committee
    sort_by_hash trim unique_from unique_sorted acquire cooldown_ok read_cooldown take_lock
    interfere turn settle visit wallet_trigger migrate confirm_stage cooldown_stage count lock_stage
    plan_stage is_frozen old_committee count_scan lock_key
launches_one = refl

reached : reconcile_once cluster inflight cooldown sha config network wallets start ≡ some done
unfolding reconcile_once candidate_pool keep flag lookup str_eq sort_by insert_by str_less tier_for
    first_fit sorted_tiers default_policy
reached = refl

reconcile-IsJustified_example :
    Balanced cluster inflight cooldown sha done
    × ((size spare : ℤ) × (tier_for config.policy (length (candidate_pool network))
          ≡ some (size, spare))
        × All (IsJustified sha config spare network (candidate_pool network)) done.launches)
reconcile-IsJustified_example =
    reconcile-IsJustified cluster inflight cooldown sha config network wallets start done refl
      (refl, refl) reached

reconcile_bounded_example : done.active ≤ 1
reconcile_bounded_example =
    reconcile_bounded cluster inflight cooldown sha config network wallets start done (omega arith)
      reached
