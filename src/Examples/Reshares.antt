-- ===== src/Examples/Reshares.antt =====
-- Decisions over snapshots and histories, reshares with their results, and their verification.
use aicw_node.Base.{
  ℕ, suc, ◌%◌, ◌≡◌, ◌≢◌, ◌⊎◌, refl, Bool, true, false, Option, none, some, List, [], ◌∷◌, ◌++◌,
  if◌then◌else◌, ◌==◌, Str, text, str_eq, str_less, keep, sort_by, insert_by, ℤ, pos, ◌+ℤ◌, flag,
  lookup, insert, ok,
}
use aicw_node.Orchestrator.Trigger.{
  Trigger, healthy, proactive, urgent, migration, decide_trigger, new_confirm_tracker, observe,
}
use aicw_node.Orchestrator.Wallets.{
  KeyKind, eddsa, ecdsa, count_alive, reachable_committee, preflight_ready, all_ready,
}
use aicw_node.Orchestrator.Urgency.{preflight_urgent}
use aicw_node.Orchestrator.Confirm.{waits, watch, trailing, is_urgent, observe_confirms}
use aicw_node.Orchestrator.KeyTypes.{
  key_kind_for, KeyType, ed25519, secp256k1, kt_eq, has, attempted_key_types, remaining_key_types,
}
use aicw_node.Orchestrator.Publisher.{
  Event, Attempt, on_result, Waiters, waiter_key, deliver_all, deliver, register, reshare_one,
  reshare_wallet,
}
use aicw_node.Orchestrator.Delivery.{InEvents, reshare_one_ok}
use aicw_node.Orchestrator.Families.{DistinctTypes, reshare_wallet_families}
use aicw_node.Orchestrator.StringSets.{equal_string_set, dedup_sorted, dedup_after, same_entries}
use aicw_node.Orchestrator.Verify.{
  first_use, KeyInfo, verify, verify_families, verify_family, check_info, check_key, check_stored,
  recorded, key_for, stuck_at,
}
use aicw_node.Orchestrator.Immutability.{AllVerified, verify_ok}
use aicw_node.Examples.World.{cluster, freezes, empty}
use aicw_node.Examples.Scans.{sha, five, network, old}

-- The ready members of the old committee are threshold + 1.
passed : preflight_ready old five network (pos 2) ≡ true
unfolding preflight_ready reachable_committee count_alive keep all_ready flag lookup str_eq ◌+ℤ◌
passed = refl

-- With one ready member fewer.
abbrev short : List Str
short = text "n1" ∷ text "n2" ∷ text "n8" ∷ text "n9" ∷ []

preflight_urgent_example : preflight_ready short five network (pos 2) ≡ false
preflight_urgent_example = preflight_urgent short five network (pos 2) (pos 1) 2 pressing
  where
    pressing :
        decide_trigger
          (pos 2)
          (pos 1)
          2
          (count_alive (reachable_committee short network.whitelist) network.ready)
        ≡ urgent
    pressing =
        unfold decide_trigger reachable_committee count_alive keep flag lookup str_eq ◌+ℤ◌ in refl

abbrev scans : List (Str × Trigger)
scans =
    (text "w1", proactive)
    ∷ (text "w2", healthy)
    ∷ (text "w1", migration)
    ∷ (text "w1", healthy)
    ∷ []

observe_confirms_example :
    let c = new_confirm_tracker (pos 3) in
    (observe (watch c scans) (text "w1") proactive).1 ≡ (
      if waits proactive
      then suc (trailing (text "w1") scans) % c.need == 0
      else is_urgent proactive)
observe_confirms_example = observe_confirms (pos 3) (text "w1") proactive scans

-- A result of one family, after one of the other.
abbrev pub result : KeyType → Bool → Event
result kt b = record { wallet_id = text "w1"; key_type = kt; success = b; pub_key = text "key" }

abbrev pub attempt : KeyType → Attempt
attempt kt = record {
  published = true;
  arrivals = result secp256k1 false ∷ result ed25519 true ∷ [];
  wake = on_result;
  ctx_over = false;
}

abbrev waiting : Waiters
waiting = (text "w2|ed25519", none) ∷ []

returned : (reshare_one (text "w1") ed25519 (attempt ed25519) waiting).0 ≡ ok (text "key")
unfolding reshare_one lookup deliver_all deliver register insert str_eq waiter_key
returned = refl

reshare_one_ok_example :
    ((attempt ed25519).published ≡ true)
    × (text "key" ≢ [])
    × ((e : Event) × InEvents e (attempt ed25519).arrivals
        × (waiter_key (text "w1") ed25519 ≡ waiter_key e.wallet_id e.key_type)
        × (e.success ≡ true)
        × (e.pub_key ≡ text "key"))
reshare_one_ok_example =
    reshare_one_ok (text "w1") ed25519 (attempt ed25519) waiting (text "key") returned

-- Attempts are numbered; the second family fails.
abbrev next : Str → List Str → ℤ → KeyType → ℕ → Attempt × ℕ
next id committee threshold kt n = (attempt kt, suc n)

both : DistinctTypes (attempted_key_types [])
unfolding attempted_key_types has kt_eq
both = (refl, (refl, tt))

reshare_wallet_families_example :
    let attempted = attempted_key_types [] in
    let r = reshare_wallet next (text "w1") five (pos 2) [] 0 waiting in
    (did rest : List KeyType) × (attempted ≡ did ++ rest)
    × ((k : KeyType) → has k r.0.done ≡ has k did)
    × (((rest ≡ []) × (r.1 ≡ none)) ⊎ ((rest ≢ []) × (r.1 ≢ none)))
    × (remaining_key_types attempted r.0.done ≡ rest)
reshare_wallet_families_example =
    reshare_wallet_families next (text "w1") five (pos 2) [] 0 waiting both

abbrev pub moved : Str → cluster.State → Option KeyInfo × cluster.State
moved k s = (some (record { participants = text "n2" ∷ five; version = pos 2 }), s)

abbrev versions : KeyKind → Option ℤ
versions eddsa = some (pos 1)
versions ecdsa = none

verified :
    (verify cluster freezes sha moved
      (text "w1")
      five
      versions
      (ed25519 ∷ [])
      ((ed25519, text "key") ∷ [])
      empty).0.ok_so_far
    ≡ true
unfolding verify verify_families verify_family key_kind_for check_key str_eq key_for kt_eq
    check_stored recorded lookup first_use check_info stuck_at equal_string_set dedup_sorted sort_by
    str_less insert_by dedup_after same_entries insert
verified = refl

verify_ok_example :
    AllVerified cluster freezes sha moved
      (text "w1")
      five
      versions
      ((ed25519, text "key") ∷ [])
      (ed25519 ∷ [])
      (record { ok_so_far = true; frozen = false; problems = [] })
      empty
verify_ok_example =
    verify_ok cluster freezes sha moved (text "w1") five versions ((ed25519, text "key") ∷ [])
      (ed25519 ∷ []) empty verified
