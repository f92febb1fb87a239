-- ===== src/Orchestrator/Race.antt =====
-- Several orchestrators over one Consul: the interleavings of their lock calls. A call of Acquire or
-- Release is two steps, its request to Consul and its write of `held` under the mutex; SweepStale
-- deletes one key in a step; the loss of a session and its replacement are two steps.
pub mod Backed
pub mod Safety
use aicw_node.Base.{
  ℕ, ◌≡◌, ◌≢◌, ◌⊎◌, refl, sym, ap, ◌∙◌, inl, inr, Bool, true, false, Option, none, some, List, ◌++◌,
  arith, ◌==◌, if◌then◌else◌, Str, str_eq, str_eq_iff, insert, delete, lookup, lookup-insert,
  lookup-delete, flag, some_injective, append_cancel, Bool-cases,
}
use aicw_node.Consul.{Consul, IsConsul, Codec}
use aicw_node.Orchestrator.Lock.{
  InflightRecord, CooldownRecord, LockManager, inflight_prefix, recreate_session, take_lock,
  acquire, release,
}
use aicw_node.Orchestrator.Sweeper.{sweeps}

update_cases :
    {A : Type 0} (i j : ℕ) (a : A) (f : ℕ → A)
    → ((j ≡ i) × ((if j == i then a else f j) ≡ a))
      ⊎ ((j ≢ i) × ((if j == i then a else f j) ≡ f j))
update_cases i j a f = elim (Bool-cases (j == i)) [
  | inl e ↦ inl (ground arith, rw e refl)
  | inr e ↦ inr (λ q. absurd (ground arith), rw e refl)
]

module _ (c : Consul) (laws : IsConsul c) (inflight : Codec InflightRecord)
    (cooldown : Codec CooldownRecord) where
  -- `granted` is the wallet of a running Acquire whose lock was granted and is not in `held` yet.
  pub record System : Type 0 where
    pub managers : ℕ → LockManager
    pub granted : ℕ → Option Str
    pub state : c.State

  abbrev pub entered : ℕ → LockManager → Option Str → c.State → System → System
  entered i m g s t = record {
    managers = λ j. if j == i then m else t.managers j;
    granted = λ j. if j == i then g else t.granted j;
    state = s;
  }

  abbrev pub after_call : ℕ → LockManager → c.State → System → System
  after_call i m s t = entered i m (t.granted i) s t

  abbrev pub acquiring : ℕ → Str → Str → List Str → ℕ → System → System
  acquiring i wallet session key_types now t =
      let r = acquire c inflight cooldown (t.managers i) wallet session key_types now t.state in
      after_call i r.1 r.2 t

  abbrev pub releasing : ℕ → Str → System → System
  releasing i wallet t =
      let r = release c inflight cooldown (t.managers i) wallet t.state in after_call i r.1 r.2 t

  -- The first step of Acquire, with its answer.
  unfoldable pub granted_by : Str → Option Bool → Option Str
  granted_by wallet (some true) = some wallet
  granted_by wallet _ = none

  unfoldable pub asking : ℕ → Str → Str → List Str → ℕ → System → System
  unfolding granted_by
  asking i wallet session key_types now t =
      let m = t.managers i in
      let r =
        c.acquire (inflight_prefix ++ wallet)
          (inflight.encode
            (record { session_id = session; started_at = now; key_types_pending = key_types }))
          m.session_id t.state in
      if flag wallet m.held then t else entered i m (granted_by wallet r.0) r.1 t

  -- Its second step, where the lock was granted.
  abbrev pub recording : ℕ → Str → System → System
  recording i wallet t =
      let m = t.managers i in
      entered i (record m { held = insert wallet true m.held }) none t.state t

  -- The first step of Release.
  abbrev pub forgetting : ℕ → Str → System → System
  forgetting i wallet t =
      let m = t.managers i in after_call i (record m { held = delete wallet m.held }) t.state t

  -- Its second step, and one of SweepStale: a key is deleted.
  abbrev pub deleting : Str → System → System
  deleting key t = record t { state = (c.del key t.state).1 }

  -- A step of one instance, or of its session. Acquire runs in the reconcile loop alone, so that an
  -- instance has one at a time; it asks with the session that the instance has then. Release is
  -- called for any wallet, and a request to delete a key is sent at any time after. SweepStale
  -- deletes what it took for stale at some moment before, when it read the entry and `held`. Where a
  -- session is lost, or destroyed by Close, Consul lets go of its keys at most; the instance goes on
  -- with it until it has a new one, which nobody else has.
  pub data Step (t : System) : System → Type 0 where
    asks :
        (i : ℕ) (wallet session : Str) (key_types : List Str) (now : ℕ)
        → t.granted i ≡ none
        → Step t (asking i wallet session key_types now t)
    records : (i : ℕ) (wallet : Str) → t.granted i ≡ some wallet → Step t (recording i wallet t)
    forgets : (i : ℕ) (wallet : Str) → Step t (forgetting i wallet t)
    deletes : (wallet : Str) → Step t (deleting (inflight_prefix ++ wallet) t)
    sweeps_key :
        (seen : LockManager) (max_age now : ℕ) (key value : Str)
        → sweeps seen inflight max_age now key value ≡ true
        → Step t (deleting key t)
    expires :
        (i : ℕ) (s : c.State)
        → ((k n : Str)
            → n ≢ (t.managers i).session_id
            → laws.holder t.state k ≡ some n
            → laws.holder s k ≡ some n)
        → Step t (record t { state = s })
    renews :
        (i : ℕ) (id : Str)
        → ((j : ℕ) → (t.managers j).session_id ≢ id)
        → Step t (after_call i (recreate_session id (t.managers i)) t.state t)

  -- Different sessions, no call under way, and none holds a wallet.
  abbrev pub IsInitial : System → Type 0
  IsInitial t =
      ((i j : ℕ) → (t.managers i).session_id ≡ (t.managers j).session_id → i ≡ j)
      × ((i : ℕ) → t.granted i ≡ none)
      × ((i : ℕ) (w : Str) → flag w (t.managers i).held ≡ false)

  pub data Reach : System → Type 0 where
    initially : {t : System} → IsInitial t → Reach t
    next : {t u : System} → Reach t → Step t u → Reach u

  -- An instance holds a wallet, or is about to.
  abbrev pub Claim : Str → LockManager → Option Str → Type 0
  Claim w m g = (flag w m.held ≡ true) ⊎ (g ≡ some w)

  abbrev pub Claims : System → ℕ → Str → Type 0
  Claims t i w = Claim w (t.managers i) (t.granted i)

  answered :
      (m : LockManager) (wallet : Str) (r : Option Bool × c.State)
      → granted_by wallet r.0 ≡ some wallet
      → let o = take_lock c inflight cooldown m wallet r in
        (o.1 ≡ record m { held = insert wallet true m.held }) × (o.2 ≡ r.1)
  unfolding take_lock granted_by
  answered m wallet (none, s) h = absurd (cc)
  answered m wallet (some true, s) h = (refl, refl)
  answered m wallet (some false, s) h = absurd (cc)

  -- The two steps of Acquire make the call, and so do those of Release.
  pub recording-asking :
      (i : ℕ) (wallet session : Str) (key_types : List Str) (now : ℕ) (t : System)
      → let u = asking i wallet session key_types now t in
        let v = acquiring i wallet session key_types now t in
        u.granted i ≡ some wallet
        → t.granted i ≡ none
        → ((recording i wallet u).managers i ≡ v.managers i) × (u.state ≡ v.state)
  unfolding asking acquire
  recording-asking i wallet session key_types now t g n =
      let m = t.managers i in
      let self : (i == i) ≡ true = ground arith in
      elim (Bool-cases (flag wallet m.held)) [
        | inl e ↦ absurd (ground arith)
        | inr e ↦
            let r =
              c.acquire (inflight_prefix ++ wallet)
                (inflight.encode (record {
                  session_id = session;
                  started_at = now;
                  key_types_pending = key_types;
                }))
                m.session_id t.state in
            let (same, state) = answered m wallet r (rw (asking, e, self) at g) in
            rw (asking, acquire, e, self) (sym same, sym state)
      ]

  pub deleting-forgetting :
      (i : ℕ) (wallet : Str) (t : System)
      → let u = deleting (inflight_prefix ++ wallet) (forgetting i wallet t) in
        (u.managers i ≡ (releasing i wallet t).managers i)
        × (u.state ≡ (releasing i wallet t).state)
  unfolding release
  deleting-forgetting i wallet t = (refl, refl)

  -- Release does not ask whether the instance holds the wallet: one that Consul answers takes the
  -- lock from whichever instance does, which goes on holding it for all it knows.
  pub release_unheld :
      (t : System) (i j : ℕ) (w : Str)
      → j ≢ i
      → flag w (t.managers j).held ≡ true
      → (c.del (inflight_prefix ++ w) t.state).0 ≡ true
      → (flag w ((releasing i w t).managers j).held ≡ true)
        × (laws.holder (releasing i w t).state (inflight_prefix ++ w) ≡ none)
  unfolding release
  release_unheld t i j w n h d =
      let m = t.managers i in
      elim (update_cases i j (record m { held = delete w m.held }) t.managers) [
        | inl (e, x) ↦ absurd (n e)
        | inr (o, x) ↦ (
          ap (λ (l : LockManager). flag w l.held) x ∙ h,
          laws.del_frees (inflight_prefix ++ w) t.state d,
        )
      ]
