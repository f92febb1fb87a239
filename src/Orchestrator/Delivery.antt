-- ===== src/Orchestrator/Delivery.antt =====
-- What the waiters of the publisher receive.
use aicw_node.Base.{
  ◌≡◌, ◌↔◌, ◌⊎◌, ◌≢◌, refl, inl, inr, true, Option, none, some, List, [], ◌∷◌, arith, Bool-cases,
  Str, str_eq_iff, str_eq_refl, lookup, insert, lookup-insert, lookup-delete, ok,
}
use aicw_node.Orchestrator.KeyTypes.{KeyType}
use aicw_node.Orchestrator.Publisher.{
  Event, Attempt, Waiters, waiter_key, deliver, deliver_all, register, unregister, reshare_one,
  await, on_cancel, on_timer, on_result, Wake,
}

abbrev pub InEvents : Event → List Event → Type 0
InEvents e [] = ⊥
InEvents e (f ∷ es) = (e ≡ f) ⊎ InEvents e es

abbrev key_of_event : Event → Str
key_of_event e = waiter_key e.wallet_id e.key_type

-- A delivery neither adds nor removes a waiter.
deliver_waits :
    (k : Str) (e : Event) (ws : Waiters) → (lookup k (deliver e ws) ≡ none) ↔ (lookup k ws ≡ none)
unfolding deliver
deliver_waits k e ws =
    ground (arith, lookup-insert k (key_of_event e) (some e) ws, str_eq_iff k (key_of_event e))

deliver_all_waits :
    (k : Str) (es : List Event) (ws : Waiters)
    → (lookup k (deliver_all es ws) ≡ none) ↔ (lookup k ws ≡ none)
unfolding deliver_all
deliver_all_waits k [] ws = (λ h. h, λ h. h)
deliver_all_waits k (e ∷ es) ws =
    let a = deliver_all_waits k es (deliver e ws) in
    let b = deliver_waits k e ws in (λ h. b.0 (a.0 h), λ h. a.1 (b.1 h))

deliver_buffer :
    (k : Str) (e f : Event) (ws : Waiters)
    → lookup k (deliver e ws) ≡ some (some f)
    → (lookup k ws ≡ some (some f)) ⊎ ((f ≡ e) × (k ≡ key_of_event e))
unfolding deliver
deliver_buffer k e f ws h =
    ground (arith, lookup-insert k (key_of_event e) (some e) ws, str_eq_iff k (key_of_event e))

-- What a channel holds stood there before, or is an arrival under its key.
deliver_all_buffer :
    (k : Str) (f : Event) (es : List Event) (ws : Waiters)
    → lookup k (deliver_all es ws) ≡ some (some f)
    → (lookup k ws ≡ some (some f)) ⊎ (InEvents f es × (k ≡ key_of_event f))
unfolding deliver_all
deliver_all_buffer k f [] ws h = inl h
deliver_all_buffer k f (e ∷ es) ws h = elim (deliver_all_buffer k f es (deliver e ws) h) [
  | inr (i, q) ↦ inr (inr i, q)
  | inl b ↦ elim (deliver_buffer k e f ws b) [
    | inl c ↦ inl c
    | inr (q, r) ↦ inr (inl q, ground arith)
  ]
]

-- One attempt leaves no waiter of its own behind, whatever it meets, and leaves every other waiter
-- registered or unregistered as it was.
pub reshare_one_waiters :
    (wallet : Str) (kt : KeyType) (a : Attempt) (ws : Waiters) (k : Str)
    → (lookup k (reshare_one wallet kt a ws).1 ≡ none)
      ↔ ((k ≡ waiter_key wallet kt) ⊎ (lookup k ws ≡ none))
unfolding reshare_one register unregister
reshare_one_waiters wallet kt a ws k = ground (
  arith,
  str_eq_iff k key,
  lookup-delete k key (deliver_all a.arrivals (insert key none ws)),
  lookup-delete k key (insert key none ws),
  lookup-insert k key none ws,
  deliver_all_waits k a.arrivals (insert key none ws),
)
  where
    key : Str
    key = waiter_key wallet kt

-- What makes a wait succeed.
await_ok :
    (w : Wake) (ch : Option (Option Event)) (k : Str)
    → await w ch ≡ ok k
    → (e : Event) × (ch ≡ some (some e)) × (e.success ≡ true) × (e.pub_key ≡ k) × (k ≢ [])
unfolding await
await_ok on_cancel ch k h = absurd (cc)
await_ok on_timer ch k h = absurd (cc)
await_ok on_result none k h = absurd (cc)
await_ok on_result (some none) k h = absurd (cc)
await_ok on_result (some (some e)) k h =
    (e, refl, ground arith, ground arith, λ q. ground (arith, str_eq_iff e.pub_key []))

-- An attempt that succeeds was published, and returns the non-empty public key of a successful
-- result that arrived under the key of its own wallet and family.
pub reshare_one_ok :
    (wallet : Str) (kt : KeyType) (a : Attempt) (ws : Waiters) (k : Str)
    → (reshare_one wallet kt a ws).0 ≡ ok k
    → (a.published ≡ true)
      × (k ≢ [])
      × ((e : Event) × InEvents e a.arrivals
          × (waiter_key wallet kt ≡ waiter_key e.wallet_id e.key_type)
          × (e.success ≡ true)
          × (e.pub_key ≡ k))
unfolding reshare_one register
reshare_one_ok wallet kt a ws k h = elim (Bool-cases a.published) [
  | inr off ↦ absurd (ground arith)
  | inl sent ↦
      let waited : await a.wake (lookup key (deliver_all a.arrivals (insert key none ws))) ≡ ok k =
        ground arith in
      let (e, held, won, same, filled) = await_ok a.wake _ k waited in
      (
        sent,
        filled,
        elim (deliver_all_buffer key e a.arrivals (insert key none ws) held) [
          | inl old ↦ absurd (ground (arith, lookup-insert key key none ws, str_eq_refl key))
          | inr (i, q) ↦ (e, i, q, won, same)
        ],
      )
]
  where
    key : Str
    key = waiter_key wallet kt
