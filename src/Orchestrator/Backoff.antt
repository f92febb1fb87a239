-- ===== src/Orchestrator/Backoff.antt =====
-- The cooldowns: how long a failing wallet waits, and that the wait is kept.
use native.Mathlib.Nat.{mul_assoc, pow-succ', one-le-pow}
use native.Mathlib.Numerals.{add-one}
use aicw_node.Base.{
  ℕ, zero, suc, ◌+◌, ◌*◌, ◌-◌, ◌^◌, ◌≤◌, ◌<◌, ◌%◌, min, ◌≡◌, refl, sym, ap, ◌∙◌, Bool, true, Option,
  none, some, ◌++◌, arith, leb, ltb, Bool-cases, Option-cases, inl, inr, Str, ok,
}
use aicw_node.Consul.{Consul, IsConsul, Codec, RoundTrips}
use aicw_node.Orchestrator.Lock.{
  InflightRecord, CooldownRecord, LockManager, int64_leb, add_duration, double_backoff,
  failure_backoff, cooldown_prefix, read_cooldown, write_cooldown, cooldown_ok, mark_success,
  mark_failure,
}

-- Below 2 ^ 62 ns, some 146 years, a duration can be doubled.
abbrev pub IsDoubled : ℕ → Type 0
IsDoubled d = d < 4_611_686_018_427_387_904

doubled_in_range :
    (fail_max backoff : ℕ)
    → IsDoubled fail_max
    → backoff ≤ fail_max
    → ((backoff * 2) % 18_446_744_073_709_551_616 ≡ backoff * 2)
      × (int64_leb fail_max (backoff * 2) ≡ leb fail_max (backoff * 2))
unfolding int64_leb
doubled_in_range fail_max backoff r h = (omega arith, ground arith)

double_backoff_lem :
    (fail_max rounds backoff : ℕ)
    → IsDoubled fail_max
    → backoff ≤ fail_max
    → double_backoff fail_max rounds backoff ≡ min fail_max (backoff * 2 ^ rounds)
unfolding double_backoff
double_backoff_lem fail_max zero backoff r h = omega arith
double_backoff_lem fail_max (suc rounds) backoff r h =
    let (low, order) = doubled_in_range fail_max backoff r h in
    elim (Bool-cases (leb fail_max (backoff * 2))) [
      | inl full ↦
          let grown : backoff * 2 ≤ backoff * 2 * 2 ^ rounds =
            grind (arith, one-le-pow rounds 2 (omega arith)) in
          rw (low, order, full, twice) (ground arith)
      | inr room ↦
          rw (low, order, room, twice)
            (double_backoff_lem fail_max rounds (backoff * 2) r (ground arith))
    ]
  where
    twice : backoff * 2 ^ suc rounds ≡ backoff * 2 * 2 ^ rounds
    twice = rw pow-succ' (sym (mul_assoc backoff 2 (2 ^ rounds)))

failure_backoff_lem :
    (m : LockManager) (k : ℕ)
    → IsDoubled m.cooldown_fail_max
    → m.cooldown_failure ≤ m.cooldown_fail_max
    → failure_backoff m (suc k) ≡ min m.cooldown_fail_max (m.cooldown_failure * 2 ^ k)
unfolding failure_backoff
failure_backoff_lem m k r h =
    let e : suc k - 1 ≡ k = omega arith in
    rw e (double_backoff_lem m.cooldown_fail_max k m.cooldown_failure r h)

-- The cap does not reach a first failure: there the wait is cooldown_failure, also where that lies
-- above cooldown_fail_max.
pub first_backoff : (m : LockManager) → failure_backoff m 1 ≡ m.cooldown_failure
unfolding failure_backoff double_backoff
first_backoff m = refl

-- The failures in a row that a record shows.
abbrev pub failures : Option CooldownRecord → ℕ
failures none = 0
failures (some rec) = rec.fail_count

failed : LockManager → ℕ → Option CooldownRecord → CooldownRecord
failed m now old = record {
  next_eligible = add_duration now (failure_backoff m (suc (failures old)));
  fail_count = suc (failures old);
}

module _ (c : Consul) (laws : IsConsul c) (inflight : Codec InflightRecord)
    (cooldown : Codec CooldownRecord) (parses : RoundTrips cooldown) where
  -- What a write of a record does to a later read.
  read_written :
      (wallet : Str) (rec : CooldownRecord) (t : ℕ) (s : c.State) (b : Bool)
      → (write_cooldown c inflight cooldown wallet rec s).0 ≡ true
      → (cooldown_ok c inflight cooldown wallet t
          (write_cooldown c inflight cooldown wallet rec s).1).0
        ≡ ok b
      → b ≡ ltb rec.next_eligible t
  unfolding cooldown_ok read_cooldown write_cooldown
  read_written wallet rec t s b w h = elim (Option-cases (c.get key after).0) [
    | inl q ↦ absurd (ground arith)
    | inr (v, q) ↦ ground (
      arith,
      laws.get_stored key after v q,
      laws.put_stores key (cooldown.encode rec) s,
      parses rec,
    )
  ]
    where
      key : Str
      key = cooldown_prefix ++ wallet

      after : c.State
      after = (c.put key (cooldown.encode rec) s).1

  -- A success that Consul recorded keeps the wallet out for cooldown_success: wherever the next
  -- cooldown check gets an answer, it allows exactly the times after that.
  pub success_kept :
      (m : LockManager) (wallet : Str) (now t : ℕ) (s : c.State) (b : Bool)
      → let r = mark_success c inflight cooldown m wallet now s in
        r.0 ≡ true
        → (cooldown_ok c inflight cooldown wallet t r.1).0 ≡ ok b
        → b ≡ ltb (add_duration now m.cooldown_success) t
  unfolding mark_success
  success_kept m wallet now t s b w h =
      read_written wallet
        (record { next_eligible = add_duration now m.cooldown_success; fail_count = 0 }) t s b w h

  mark_failure_lem :
      (m : LockManager) (wallet : Str) (now : ℕ) (s : c.State) (old : Option CooldownRecord)
      → (read_cooldown c inflight cooldown wallet s).0 ≡ ok old
      → mark_failure c inflight cooldown m wallet now s
        ≡ write_cooldown c inflight cooldown wallet
            (failed m now old)
            (read_cooldown c inflight cooldown wallet s).1
  unfolding mark_failure failed
  mark_failure_lem m wallet now s none q = rw (q, mark_failure) refl
  mark_failure_lem m wallet now s (some rec) q = rw (q, mark_failure, add-one) refl

  stored_record :
      (wallet : Str) (rec : CooldownRecord) (s : c.State) (found : Option CooldownRecord)
      → (write_cooldown c inflight cooldown wallet rec s).0 ≡ true
      → (read_cooldown c inflight cooldown wallet
          (write_cooldown c inflight cooldown wallet rec s).1).0
        ≡ ok found
      → found ≡ some rec
  unfolding read_cooldown write_cooldown
  stored_record wallet rec s found w h = elim (Option-cases (c.get key after).0) [
    | inl q ↦ absurd (ground arith)
    | inr (v, q) ↦ ground (
      arith,
      laws.get_stored key after v q,
      laws.put_stores key (cooldown.encode rec) s,
      parses rec,
    )
  ]
    where
      key : Str
      key = cooldown_prefix ++ wallet

      after : c.State
      after = (c.put key (cooldown.encode rec) s).1

  waited :
      (m : LockManager) (now : ℕ) (old : Option CooldownRecord)
      → IsDoubled m.cooldown_fail_max
      → m.cooldown_failure ≤ m.cooldown_fail_max
      → (failed m now old).next_eligible
        ≡ now + min m.cooldown_fail_max (m.cooldown_failure * 2 ^ failures old)
  unfolding failed add_duration
  waited m now old r h = rw (failure_backoff_lem m (failures old) r h) (ground arith)

  -- A failure that Consul recorded, of a wallet whose cooldown record counted k failures in a row (0
  -- if there was none), counts k + 1, as the next read that is answered shows; and it keeps the
  -- wallet out for cooldown_failure doubled k times, capped at cooldown_fail_max: a cooldown check
  -- that gets an answer allows exactly the times after that. This is where cooldown_failure is within
  -- the cap, and the cap below 2 ^ 62 ns, from where on a doubled int64 wraps around.
  pub mark_failure_kept :
      (m : LockManager) (wallet : Str) (now t : ℕ) (s : c.State) (old found : Option CooldownRecord)
      (b : Bool)
      → IsDoubled m.cooldown_fail_max
      → m.cooldown_failure ≤ m.cooldown_fail_max
      → let r = mark_failure c inflight cooldown m wallet now s in
        (read_cooldown c inflight cooldown wallet s).0 ≡ ok old
        → r.0 ≡ true
        → (read_cooldown c inflight cooldown wallet r.1).0 ≡ ok found
        → (cooldown_ok c inflight cooldown wallet t r.1).0 ≡ ok b
        → (failures found ≡ suc (failures old))
          × (b ≡ ltb (now + min m.cooldown_fail_max (m.cooldown_failure * 2 ^ failures old)) t)
  mark_failure_kept m wallet now t s old found b small within q w f h =
      let e = mark_failure_lem m wallet now s old q in
      let rec = failed m now old in
      let s' = (read_cooldown c inflight cooldown wallet s).1 in
      let done : (write_cooldown c inflight cooldown wallet rec s').0 ≡ true =
        sym (ap (λ (r : Bool × c.State). r.0) e) ∙ w in
      let seen = stored_record wallet rec s' found done (
        ap (λ (r : Bool × c.State). (read_cooldown c inflight cooldown wallet r.1).0) (sym e)
        ∙ f) in
      let asked = read_written wallet rec t s' b done (
        ap (λ (r : Bool × c.State). (cooldown_ok c inflight cooldown wallet t r.1).0) (sym e)
        ∙ h) in
      (rw seen (unfold failed in refl), asked ∙ ap (λ n. ltb n t) (waited m now old small within))
