-- ===== src/Orchestrator/Exclusion.antt =====
-- The in-flight lock excludes a second reshare of the wallet; what the sweeper spares.
use aicw_node.Base.{
  str_eq, ℕ, ◌+◌, ◌≤◌, ◌≡◌, ◌≢◌, ◌⊎◌, ◌↔◌, refl, sym, ap, ◌∙◌, inl, inr, Bool, true, false, Option,
  none, some, List, [], ◌++◌, arith, Bool-cases, Option-cases, Str, str_eq_iff, str_eq_refl, Dict,
  insert, lookup-insert, lookup-delete, flag, Result, ok, ◌&&◌, not, if◌then◌else◌,
}
use aicw_node.Consul.{Consul, IsConsul, Codec}
use aicw_node.Orchestrator.Lock.{
  InflightRecord, CooldownRecord, LockManager, LockError, inflight_prefix, take_lock, acquire,
  release,
}
use aicw_node.Orchestrator.Sweeper.{trim_prefix, sweeps, decide_inflight_sweep}

module _ (c : Consul) (laws : IsConsul c) (inflight : Codec InflightRecord)
    (cooldown : Codec CooldownRecord) where
  abbrev key : Str → Str
  key wallet = inflight_prefix ++ wallet

  take_lock_ok :
      (m : LockManager) (wallet : Str) (r : Option Bool × c.State)
      → (take_lock c inflight cooldown m wallet r).0 ≡ ok true
      → (r.0 ≡ some true)
        × ((take_lock c inflight cooldown m wallet r).1
            ≡ record m { held = insert wallet true m.held })
        × ((take_lock c inflight cooldown m wallet r).2 ≡ r.1)
  unfolding take_lock
  take_lock_ok m wallet (none, s) h = absurd (cc)
  take_lock_ok m wallet (some false, s) h = absurd (cc)
  take_lock_ok m wallet (some true, s) h = (refl, refl, refl)

  acquire_held :
      (m : LockManager) (wallet session : Str) (kts : List Str) (now : ℕ) (s : c.State)
      → flag wallet m.held ≡ true
      → acquire c inflight cooldown m wallet session kts now s ≡ (ok false, m, s)
  unfolding acquire
  acquire_held m wallet session kts now s h = rw h refl

  -- What stands behind a granted lock: a free wallet, and a session lock that Consul granted.
  granted :
      (m : LockManager) (wallet session : Str) (kts : List Str) (now : ℕ) (s : c.State)
      → let r = acquire c inflight cooldown m wallet session kts now s in
        r.0 ≡ ok true
        → (flag wallet m.held ≡ false)
          × ((v : Str) × ((c.acquire (key wallet) v m.session_id s).0 ≡ some true)
              × (r.1 ≡ record m { held = insert wallet true m.held })
              × (r.2 ≡ (c.acquire (key wallet) v m.session_id s).1))
  unfolding acquire
  granted m wallet session kts now s h = elim (Bool-cases (flag wallet m.held)) [
    | inl f ↦ absurd (
        ground (
          arith,
          ap (λ (r : Result LockError Bool × LockManager × c.State). r.0)
              (acquire_held m wallet session kts now s f),
        ))
    | inr f ↦
        let v =
          inflight.encode
            (record { session_id = session; started_at = now; key_types_pending = kts }) in
        let (a, b, d) =
          take_lock_ok m wallet (c.acquire (key wallet) v m.session_id s) (rw (f, acquire) at h) in
        (f, (v, a, rw f b, rw f d))
  ]

  flag-insert : (wallet : Str) (d : Dict Bool) → flag wallet (insert wallet true d) ≡ true
  unfolding flag
  flag-insert wallet d = ground (arith, lookup-insert wallet wallet true d, str_eq_refl wallet)

  -- A granted lock was free: this instance did not hold the wallet, and no other session did. It is
  -- then held here and, in Consul, by this session; a second call of this instance for the wallet
  -- is refused with nothing changed, and so is not granted any call of an instance with another
  -- session, in every later state of Consul where the session still holds the key.
  pub acquire_excludes :
      (m n : LockManager) (wallet session session' : Str) (kts kts' : List Str) (now now' : ℕ)
      (s later : c.State)
      → let r = acquire c inflight cooldown m wallet session kts now s in
        r.0 ≡ ok true
        → n.session_id ≢ m.session_id
        → laws.holder later (inflight_prefix ++ wallet)
          ≡ laws.holder r.2 (inflight_prefix ++ wallet)
        → (flag wallet m.held ≡ false)
          × (flag wallet r.1.held ≡ true)
          × ((laws.holder s (inflight_prefix ++ wallet) ≡ none)
              ⊎ (laws.holder s (inflight_prefix ++ wallet) ≡ some m.session_id))
          × (laws.holder r.2 (inflight_prefix ++ wallet) ≡ some m.session_id)
          × (acquire c inflight cooldown r.1 wallet session' kts' now' later
              ≡ (ok false, r.1, later))
          × ((acquire c inflight cooldown n wallet session' kts' now' later).0 ≢ ok true)
  acquire_excludes m n wallet session session' kts kts' now now' s later h other same =
      let (free, (v, a, m', s')) = granted m wallet session kts now s h in
      let (mine, before) = laws.acquire_granted (key wallet) v m.session_id s a in
      let held' = ap (λ (l : LockManager). flag wallet l.held) m' ∙ flag-insert wallet m.held in
      let holds = ap (λ t. laws.holder t (key wallet)) s' ∙ mine in
      (
        free,
        held',
        before,
        holds,
        acquire_held _ wallet session' kts' now' later held',
        λ g.
            let (_, (v', a', _, _)) = granted n wallet session' kts' now' later g in
            let taken = (laws.acquire_granted (key wallet) v' n.session_id later a').1 in
            elim taken [
              | inl e ↦ absurd (cc (same, holds))
              | inr e ↦
                  let one : ◌≡◌ {A = Option Str} (some n.session_id) (some m.session_id) =
                    sym e ∙ (same ∙ holds) in
                  other (cc one)
            ],
      )

  -- A release that Consul answers forgets the wallet here and removes its key there; it keeps every
  -- other wallet and every other key.
  pub release_lem :
      (m : LockManager) (wallet other : Str) (s : c.State)
      → let r = release c inflight cooldown m wallet s in
        r.0 ≡ true
        → (flag other r.1.held ≡ (flag other m.held && not (str_eq other wallet)))
          × (laws.stored r.2 other
              ≡ (if str_eq other (inflight_prefix ++ wallet) then none else laws.stored s other))
  unfolding release flag
  release_lem m wallet other s d = (
    ground (arith, lookup-delete other wallet m.held, str_eq_iff other wallet),
    elim (Bool-cases (str_eq other (key wallet))) [
      | inl e ↦
          let same = (str_eq_iff other (key wallet)).0 e in
          rw e (ap (laws.stored _) same ∙ laws.del_removes (key wallet) s d)
      | inr e ↦ rw e (
          laws.del_others (key wallet) other s (λ q. ground (arith, str_eq_iff other (key wallet))))
    ],
  )

-- A swept key is not the inflight prefix alone and begins with it, and its record is unparsable, or
-- has reached the maximal age while this instance does not hold the wallet.
pub sweeps_lem :
    (m : LockManager) (inflight : Codec InflightRecord) (max_age now : ℕ) (k v : Str)
    → let wallet = trim_prefix inflight_prefix k in
      (sweeps m inflight max_age now k v ≡ true) ↔ (
        (wallet ≢ [])
        × (wallet ≢ k)
        × ((inflight.decode v ≡ none)
            ⊎ ((rec : InflightRecord) × (inflight.decode v ≡ some rec)
                × (flag wallet m.held ≡ false)
                × (rec.started_at + max_age ≤ now))))
unfolding sweeps decide_inflight_sweep
sweeps_lem m inflight max_age now k v = elim (Option-cases (inflight.decode v)) [
  | inl e ↦ (
    λ h. (
      λ p. ground (arith, str_eq_iff wallet [], str_eq_iff wallet k),
      λ p. ground (arith, str_eq_iff wallet [], str_eq_iff wallet k),
      inl e,
    ),
    λ h. ground (arith, str_eq_iff wallet [], str_eq_iff wallet k, h.0, h.1),
  )
  | inr (rec, e) ↦ (
    λ h. (
      λ p. ground (arith, str_eq_iff wallet [], str_eq_iff wallet k),
      λ p. ground (arith, str_eq_iff wallet [], str_eq_iff wallet k),
      inr (
        rec,
        e,
        ground (arith, str_eq_iff wallet [], str_eq_iff wallet k),
        ground (arith, str_eq_iff wallet [], str_eq_iff wallet k),
      ),
    ),
    λ h. ground (arith, str_eq_iff wallet [], str_eq_iff wallet k, h.0, h.1),
  )
]
  where
    wallet : Str
    wallet = trim_prefix inflight_prefix k

-- An unparsable record is swept also while this instance holds the wallet.
pub sweeps_held :
    (m : LockManager) (inflight : Codec InflightRecord) (max_age now : ℕ) (k v : Str)
    → let wallet = trim_prefix inflight_prefix k in
      wallet ≢ []
      → wallet ≢ k
      → flag wallet m.held ≡ true
      → inflight.decode v ≡ none
      → sweeps m inflight max_age now k v ≡ true
sweeps_held m inflight max_age now k v n p h d =
    (sweeps_lem m inflight max_age now k v).1 (n, p, inl d)
