-- ===== src/Orchestrator/Race/Backed.antt =====
-- An instance that claims a wallet has it locked: what each step does to this.

use aicw_node.Base.{
  ℕ, ◌≡◌, ◌≢◌, ◌⊎◌, refl, sym, ap, ◌∙◌, inl, inr, Bool, true, false, Option, none, some, List, ◌++◌,
  arith, ◌==◌, Str, str_eq, str_eq_iff, delete, insert, lookup, lookup-insert, lookup-delete, flag,
  some_injective, Bool-cases,
}
use aicw_node.Consul.{Consul, IsConsul, Codec}
use aicw_node.Orchestrator.Lock.{
  InflightRecord, CooldownRecord, LockManager, inflight_prefix, recreate_session,
}
use aicw_node.Orchestrator.Race.{
  System, Claim, Claims, entered, granted_by, asking, recording, forgetting, deleting,
}

module _ (c : Consul) (laws : IsConsul c) (inflight : Codec InflightRecord)
    (cooldown : Codec CooldownRecord) where
  module _ (w : Str) where
    abbrev pub key : Str
    key = inflight_prefix ++ w

    pub record Inv (t : System c laws inflight cooldown) : Type 0 where
      pub distinct : (i j : ℕ) → (t.managers i).session_id ≡ (t.managers j).session_id → i ≡ j
      pub backed :
          (i : ℕ)
          → Claims c laws inflight cooldown t i w
          → laws.holder t.state key ≡ some (t.managers i).session_id

    pub entered_cases :
        (i j : ℕ) (m : LockManager) (g : Option Str) (s : c.State)
        (t : System c laws inflight cooldown)
        → let u = entered c laws inflight cooldown i m g s t in
          ((j ≡ i) × (u.managers j ≡ m) × (u.granted j ≡ g))
          ⊎ ((j ≢ i) × (u.managers j ≡ t.managers j) × (u.granted j ≡ t.granted j))
    entered_cases i j m g s t = elim (Bool-cases (j == i)) [
      | inl e ↦ inl (ground arith, rw e refl, rw e refl)
      | inr e ↦ inr (λ q. absurd (ground arith), rw e refl, rw e refl)
    ]

    pub moved :
        {m n : LockManager} {g h : Option Str}
        → m ≡ n
        → g ≡ h
        → Claim c laws inflight cooldown w m g
        → Claim c laws inflight cooldown w n h
    moved {m} {n} {g} {h} p q (inl f) = inl (ap (λ (l : LockManager). flag w l.held) (sym p) ∙ f)
    moved p q (inr f) = inr (sym q ∙ f)

    session : LockManager → Str
    session l = l.session_id

    entered-Inv :
        {t : System c laws inflight cooldown} (i : ℕ) (m : LockManager) (g : Option Str)
        (s : c.State)
        → Inv t
        → ((j : ℕ) → j ≢ i → (t.managers j).session_id ≢ m.session_id)
        → ((j : ℕ)
            → j ≢ i
            → Claims c laws inflight cooldown t j w
            → laws.holder s key ≡ some (t.managers j).session_id)
        → (Claim c laws inflight cooldown w m g → laws.holder s key ≡ some m.session_id)
        → Inv (entered c laws inflight cooldown i m g s t)
    unfolding session
    entered-Inv {t} i m g s v apart others mine = record {
      distinct = λ a b e. elim (entered_cases i a m g s t) [
        | inl (p, x, _) ↦ elim (entered_cases i b m g s t) [
          | inl (q, y, _) ↦ p ∙ sym q
          | inr (n, y, _) ↦ absurd (apart b n (sym (ap session y) ∙ (sym e ∙ ap session x)))
        ]
        | inr (n, x, _) ↦ elim (entered_cases i b m g s t) [
          | inl (q, y, _) ↦ absurd (apart a n (sym (ap session x) ∙ (e ∙ ap session y)))
          | inr (o, y, _) ↦ v.distinct a b (sym (ap session x) ∙ (e ∙ ap session y))
        ]
      ];
      backed = λ j h. elim (entered_cases i j m g s t) [
        | inl (p, x, y) ↦ mine (moved x y h) ∙ ap some (sym (ap session x))
        | inr (n, x, y) ↦ others j n (moved x y h) ∙ ap some (sym (ap session x))
      ];
    }

    pub same_state :
        {t : System c laws inflight cooldown} (s : c.State)
        → Inv t
        → ((j : ℕ)
            → Claims c laws inflight cooldown t j w
            → laws.holder t.state key ≡ some (t.managers j).session_id
            → laws.holder s key ≡ some (t.managers j).session_id)
        → Inv (record t { state = s })
    same_state s v keeps = record {
      distinct = v.distinct;
      backed = λ j h. keeps j h (v.backed j h);
    }

    pub deleting-Inv :
        {t : System c laws inflight cooldown} (k : Str)
        → (k ≡ key → (j : ℕ) → ¬ Claims c laws inflight cooldown t j w)
        → Inv t
        → Inv (deleting c laws inflight cooldown k t)
    deleting-Inv {t} k spared v = elim (Bool-cases (str_eq k key)) [
      | inl e ↦
          same_state (c.del k t.state).1 v (λ j h b. absurd (spared ((str_eq_iff k key).0 e) j h))
      | inr e ↦ same_state (c.del k t.state).1 v (λ j h b.
          laws.del_keeps k key t.state (λ q. absurd (ground (arith, str_eq_iff k key))) ∙ b)
    ]

    granted_by-some :
        (wallet : Str) (r : Option Bool)
        → granted_by c laws inflight cooldown wallet r ≡ some w
        → (wallet ≡ w) × (r ≡ some true)
    unfolding granted_by
    granted_by-some wallet none h = absurd (cc)
    granted_by-some wallet (some true) h = (some_injective h, refl)
    granted_by-some wallet (some false) h = absurd (cc)

    pub asking-Inv :
        {t : System c laws inflight cooldown} (i : ℕ) (wallet id : Str) (kts : List Str) (now : ℕ)
        → Inv t
        → Inv (asking c laws inflight cooldown i wallet id kts now t)
    unfolding asking
    asking-Inv {t} i wallet id kts now v =
        let m = t.managers i in
        let k = inflight_prefix ++ wallet in
        let value =
          inflight.encode (record { session_id = id; started_at = now; key_types_pending = kts }) in
        let r = c.acquire k value m.session_id t.state in
        elim (Bool-cases (flag wallet m.held)) [
          | inl e ↦ rw (asking, e) v
          | inr e ↦
              rw (asking, e)
                (entered-Inv i m (granted_by c laws inflight cooldown wallet r.0) r.1 v
                  (λ j n q. n (v.distinct j i q))
                  (λ j n h.
                    laws.acquire_keeps k value m.session_id key (t.managers j).session_id t.state
                      (v.backed j h))
                  (λ h. elim h [
                    | inl f ↦
                        laws.acquire_keeps k value m.session_id key m.session_id t.state
                          (v.backed i (inl f))
                    | inr f ↦
                        let (same, granted) = granted_by-some wallet r.0 f in
                        ap (λ x. laws.holder r.1 (inflight_prefix ++ x)) (sym same)
                        ∙ (laws.acquire_granted k value m.session_id t.state granted).0
                  ]))
        ]

    pub recording-Inv :
        {t : System c laws inflight cooldown} (i : ℕ) (wallet : Str)
        → t.granted i ≡ some wallet
        → Inv t
        → Inv (recording c laws inflight cooldown i wallet t)
    unfolding flag
    recording-Inv {t} i wallet g v =
        let m = t.managers i in
        entered-Inv i (record m { held = insert wallet true m.held }) none t.state v
          (λ j n q. n (v.distinct j i q)) (λ j n h. v.backed j h)
          (λ h. v.backed i (elim h [
            | inl f ↦ elim (Bool-cases (str_eq w wallet)) [
              | inl e ↦ inr (g ∙ ap some (sym ((str_eq_iff w wallet).0 e)))
              | inr e ↦ inl (ground (arith, lookup-insert w wallet true m.held))
            ]
            | inr f ↦ absurd (cc)
          ]))

    pub forgetting-Inv :
        {t : System c laws inflight cooldown} (i : ℕ) (wallet : Str)
        → Inv t
        → Inv (forgetting c laws inflight cooldown i wallet t)
    unfolding flag
    forgetting-Inv {t} i wallet v =
        let m = t.managers i in
        entered-Inv i (record m { held = delete wallet m.held }) (t.granted i) t.state v
          (λ j n q. n (v.distinct j i q)) (λ j n h. v.backed j h)
          (λ h. v.backed i (elim h [
            | inl f ↦ inl (ground (arith, lookup-delete w wallet m.held))
            | inr f ↦ inr f
          ]))

    pub renewing-Inv :
        {t : System c laws inflight cooldown} (i : ℕ) (id : Str)
        → ((j : ℕ) → (t.managers j).session_id ≢ id)
        → t.granted i ≢ some w
        → Inv t
        → Inv (
            entered c laws inflight cooldown i
              (recreate_session id (t.managers i))
              (t.granted i)
              t.state
              t)
    unfolding recreate_session flag lookup
    renewing-Inv {t} i id fresh idle v =
        entered-Inv i (recreate_session id (t.managers i)) (t.granted i) t.state v (λ j n. fresh j)
          (λ j n h. v.backed j h) (λ h. elim h [ inl f ↦ absurd (cc) | inr f ↦ absurd (idle f) ])
