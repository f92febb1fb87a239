-- ===== src/Orchestrator/Publisher.antt =====
-- pkg/orchestrator/publisher.go: waiters for results, and the reshare of a wallet with its retries.
-- The mpcium client, the network and the clock are the parameter `next`, which gives what one
-- attempt meets.
use aicw_node.Base.{
  ℕ, zero, suc, Bool, Option, none, some, List, [], ◌∷◌, ◌++◌, if◌then◌else◌, Str, text, str_eq, ℤ,
  Dict, lookup, insert, delete, Result, ok, err,
}
use aicw_node.Orchestrator.KeyTypes.{KeyType, name_of, attempted_key_types}

-- The fields of event.ResharingResultEvent that the publisher reads.
pub record Event : Type 0 where
  pub wallet_id : Str
  pub key_type : KeyType
  pub success : Bool
  pub pub_key : Str

pub data PublishError : Type 0 where
  no_attempt publish_failed cancelled timed_out failed_result empty_pub_key : PublishError

-- A waiter's channel has room for one event.
abbrev pub Waiters : Type 0
Waiters = Dict (Option Event)

unfoldable pub waiter_key : Str → KeyType → Str
waiter_key wallet kt = wallet ++ (text "|" ++ name_of kt)

offer : Str → Event → Option (Option Event) → Waiters → Waiters
offer key e none ws = ws
offer key e (some none) ws = insert key (some e) ws
offer key e (some (some first)) ws = ws

-- A result goes to the waiter of its wallet and family, if there is one with an empty channel.
unfoldable pub deliver : Event → Waiters → Waiters
unfolding offer
deliver e ws = let key = waiter_key e.wallet_id e.key_type in offer key e (lookup key ws) ws

unfoldable pub register : Str → Waiters → Waiters
register key ws = insert key none ws

unfoldable pub unregister : Str → Waiters → Waiters
unregister key ws = delete key ws

-- The case that the final select takes.
pub data Wake : Type 0 where
  on_cancel on_timer on_result : Wake

-- What one attempt meets: whether publishing (with the authorizers' signatures, where configured)
-- succeeds, the results that arrive while it waits, the case that wakes it, and whether the context
-- is over afterwards.
pub record Attempt : Type 0 where
  pub published : Bool
  pub arrivals : List Event
  pub wake : Wake
  pub ctx_over : Bool

unfoldable pub deliver_all : List Event → Waiters → Waiters
deliver_all [] ws = ws
deliver_all (e ∷ es) ws = deliver_all es (deliver e ws)

unfoldable pub check_event : Event → Result PublishError Str
check_event e =
    if e.success
    then (if str_eq e.pub_key [] then err empty_pub_key else ok e.pub_key)
    else err failed_result

-- Without an event to read, the timer ends the wait.
unfoldable pub await : Wake → Option (Option Event) → Result PublishError Str
unfolding check_event
await on_cancel ch = err cancelled
await on_timer ch = err timed_out
await on_result none = err timed_out
await on_result (some none) = err timed_out
await on_result (some (some e)) = check_event e

unfoldable pub reshare_one : Str → KeyType → Attempt → Waiters → Result PublishError Str × Waiters
unfolding await
reshare_one wallet kt a ws =
    let key = waiter_key wallet kt in
    let waiting = register key ws in
    let arrived = deliver_all a.arrivals waiting in
    if a.published
    then (await a.wake (lookup key arrived), unregister key arrived)
    else (err publish_failed, unregister key waiting)

abbrev pub reshare_max_tries : ℕ
reshare_max_tries = 2

pub record ReshareResult : Type 0 where
  pub done : List KeyType
  pub pub_keys : List (KeyType × Str)

module _ {World : Type 0} (next : Str → List Str → ℤ → KeyType → World → Attempt × World) where
  -- The loop of reshareOneWithRetry with the tries left and the last error.
  unfoldable pub retry :
      Str
      → List Str
      → ℤ
      → KeyType
      → ℕ
      → PublishError
      → World
      → Waiters
      → Result PublishError Str × World × Waiters
  retry wallet committee threshold kt zero last w ws = (err last, w, ws)
  retry wallet committee threshold kt (suc tries) last w ws =
      let (a, w') = next wallet committee threshold kt w in
      let (r, ws') = reshare_one wallet kt a ws in
      elim r [
        | ok key ↦ (ok key, w', ws')
        | err e ↦
            let again = retry wallet committee threshold kt tries e w' ws' in
            if a.ctx_over then (err e, w', ws') else again
      ]

  unfoldable pub reshare_one_with_retry :
      Str → List Str → ℤ → KeyType → World → Waiters → Result PublishError Str × World × Waiters
  reshare_one_with_retry wallet committee threshold kt w ws =
      retry wallet committee threshold kt reshare_max_tries no_attempt w ws

  -- The loop of ReshareWallet, with the result so far.
  unfoldable pub reshare_types :
      Str
      → List Str
      → ℤ
      → List KeyType
      → ReshareResult
      → World
      → Waiters
      → ReshareResult × Option PublishError × World × Waiters
  reshare_types wallet committee threshold [] res w ws = (res, none, w, ws)
  reshare_types wallet committee threshold (kt ∷ kts) res w ws =
      let (r, w', ws') = reshare_one_with_retry wallet committee threshold kt w ws in
      elim r [
        | err e ↦ (res, some e, w', ws')
        | ok key ↦
            reshare_types wallet committee threshold kts
              (record { done = kt ∷ res.done; pub_keys = (kt, key) ∷ res.pub_keys }) w' ws'
      ]

  unfoldable pub reshare_wallet :
      Str
      → List Str
      → ℤ
      → List KeyType
      → World
      → Waiters
      → ReshareResult × Option PublishError × World × Waiters
  reshare_wallet wallet committee threshold only w ws =
      reshare_types wallet committee threshold (attempted_key_types only)
        (record { done = []; pub_keys = [] }) w ws
