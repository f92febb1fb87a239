-- ===== src/Orchestrator/Pass.antt =====
-- What a pass of reconcileOnce keeps, and what it counts.
use mathlib.Core.Path.{subst}
use aicw_node.Base.{
  ◌+◌, ◌≤◌, ◌≡◌, ◌⊎◌, refl, sym, inl, inr, some, List, [], ◌∷◌, arith, leb, length, All, Bool-cases,
  Option-cases, Str, ℤ,
}
use aicw_node.Consul.{Consul, Codec}
use aicw_node.Committee.Policy.{tier_for}
use aicw_node.Orchestrator.Wallets.{Wallet, Snapshot, candidate_pool}
use aicw_node.Orchestrator.Lock.{InflightRecord, CooldownRecord}
use aicw_node.Orchestrator.Reconcile.{
  Config, Launch, Outcome, launched, deferred, stays_healthy, gone, Shared, visit, count, Scan,
  Meanwhile, interfere, settle, turn, scan, reconcile_once,
}
use aicw_node.Orchestrator.Launches.{IsJustified, visit_launched}

module _ (c : Consul) (inflight : Codec InflightRecord) (cooldown : Codec CooldownRecord)
    (sha : Str → Str) where
  turn_active :
      (cfg : Config) (spare : ℤ) (snap : Snapshot) (pool : List Str) (w : Wallet)
      (m : Meanwhile c inflight cooldown sha) (st : Scan c inflight cooldown sha)
      → (turn c inflight cooldown sha cfg spare snap pool w m st).active ≤ st.active + 1
  unfolding turn settle
  turn_active cfg spare snap pool w m st = ground arith

  scan_active :
      (cfg : Config) (spare : ℤ) (snap : Snapshot) (pool : List Str)
      (ws : List (Wallet × Meanwhile c inflight cooldown sha)) (st : Scan c inflight cooldown sha)
      → st.active ≤ cfg.global_max_inflight
      → (scan c inflight cooldown sha cfg spare snap pool ws st).active ≤ cfg.global_max_inflight
  unfolding scan interfere
  scan_active cfg spare snap pool [] st h = h
  scan_active cfg spare snap pool ((w, m) ∷ ws) st h =
      let st' = interfere c inflight cooldown sha m st in
      ground (
        arith,
        turn_active cfg spare snap pool w m st',
        scan_active cfg spare snap pool ws
            (turn c inflight cooldown sha cfg spare snap pool w m st'),
      )

  -- A pass that does not panic ends with at most global_max_inflight reshares in flight, if it
  -- starts so, whatever ends and whatever other processes do meanwhile.
  pub reconcile_bounded :
      (cfg : Config) (snap : Snapshot) (ws : List (Wallet × Meanwhile c inflight cooldown sha))
      (st st' : Scan c inflight cooldown sha)
      → st.active ≤ cfg.global_max_inflight
      → reconcile_once c inflight cooldown sha cfg snap ws st ≡ some st'
      → st'.active ≤ cfg.global_max_inflight
  unfolding reconcile_once
  reconcile_bounded cfg snap ws st st' h e =
      let pool = candidate_pool snap in
      elim (Option-cases (tier_for cfg.policy (length pool))) [
        | inl q ↦ absurd (ground arith)
        | inr (tier, q) ↦ ground (arith, scan_active cfg tier.1 snap pool ws st h)
      ]

  -- A turn changes nothing, or settles the outcome of a visit.
  turn_cases :
      (cfg : Config) (spare : ℤ) (snap : Snapshot) (pool : List Str) (w : Wallet)
      (m : Meanwhile c inflight cooldown sha) (st : Scan c inflight cooldown sha)
      → let v = visit c inflight cooldown sha cfg spare snap pool m.now m.session w st.shared in
        (turn c inflight cooldown sha cfg spare snap pool w m st ≡ st)
        ⊎ (turn c inflight cooldown sha cfg spare snap pool w m st
            ≡ settle c inflight cooldown sha v.0 v.1 st)
  unfolding turn
  turn_cases cfg spare snap pool w m st = ground arith

  -- An invariant of the visits and of what other processes do is one of the scan.
  scan_inv :
      (P : Scan c inflight cooldown sha → Type 0) (cfg : Config) (spare : ℤ) (snap : Snapshot)
      (pool : List Str)
      → ((m : Meanwhile c inflight cooldown sha) (st : Scan c inflight cooldown sha)
          → P st
          → P (interfere c inflight cooldown sha m st))
      → ((w : Wallet) (m : Meanwhile c inflight cooldown sha) (st : Scan c inflight cooldown sha)
          → let v = visit c inflight cooldown sha cfg spare snap pool m.now m.session w st.shared in
            P st → P (settle c inflight cooldown sha v.0 v.1 st))
      → (ws : List (Wallet × Meanwhile c inflight cooldown sha)) (st : Scan c inflight cooldown sha)
      → P st
      → P (scan c inflight cooldown sha cfg spare snap pool ws st)
  unfolding scan
  scan_inv P cfg spare snap pool hi hs [] st h = h
  scan_inv P cfg spare snap pool hi hs ((w, m) ∷ ws) st h =
      let st' = interfere c inflight cooldown sha m st in
      elim (Bool-cases (leb cfg.global_max_inflight st'.active)) [
        | inl full ↦ rw full (hi m st h)
        | inr room ↦ rw room (
            scan_inv P cfg spare snap pool hi hs ws _
              (elim (turn_cases cfg spare snap pool w m st') [
                | inl e ↦ subst P (sym e) (hi m st h)
                | inr e ↦ subst P (sym e) (hs w m st' (hi m st h))
              ]))
      ]

  -- Every counted wallet stands in one counter, and every triggered one has its launch.
  abbrev pub Balanced : Scan c inflight cooldown sha → Type 0
  Balanced st =
      (st.tally.scanned
        ≡ st.tally.healthy_count + st.tally.deferred_count + st.tally.triggered
          + st.tally.unrecoverable_count)
      × (st.tally.triggered ≡ length st.launches)

  abbrev Justified : Config → ℤ → Snapshot → List Str → Scan c inflight cooldown sha → Type 0
  Justified cfg spare snap pool st = All (IsJustified sha cfg spare snap pool) st.launches

  settle-Balanced :
      (o : Outcome) (shared : Shared c inflight cooldown sha) (st : Scan c inflight cooldown sha)
      → Balanced st
      → Balanced (settle c inflight cooldown sha o shared st)
  unfolding settle count
  settle-Balanced o shared st h = ground arith

  settle-Justified :
      (cfg : Config) (spare : ℤ) (snap : Snapshot) (pool : List Str) (o : Outcome)
      (shared : Shared c inflight cooldown sha) (st : Scan c inflight cooldown sha)
      → ((l : Launch) → o ≡ launched l → IsJustified sha cfg spare snap pool l)
      → Justified cfg spare snap pool st
      → Justified cfg spare snap pool (settle c inflight cooldown sha o shared st)
  unfolding settle
  settle-Justified cfg spare snap pool (launched l) shared st f h = (f l refl, h)
  settle-Justified cfg spare snap pool stays_healthy shared st f h = h
  settle-Justified cfg spare snap pool deferred shared st f h = h
  settle-Justified cfg spare snap pool gone shared st f h = h

  -- For a pass that starts with no launches and with counters that agree, and does not panic:
  -- every reshare that it starts is for the wallet's old committee and for the committee that
  -- SelectCommittee plans out of the candidate pool; it passed pre-flight, and its trigger is the
  -- wallet's under the spare target of the policy's tier for the size of the candidate pool, and is
  -- proactive or a migration, never urgent. Each scanned wallet stands in exactly
  -- one counter, and the triggered ones are those started.
  pub reconcile-IsJustified :
      (cfg : Config) (snap : Snapshot) (ws : List (Wallet × Meanwhile c inflight cooldown sha))
      (st st' : Scan c inflight cooldown sha)
      → st.launches ≡ []
      → Balanced st
      → reconcile_once c inflight cooldown sha cfg snap ws st ≡ some st'
      → Balanced st'
        × ((size spare : ℤ) × (tier_for cfg.policy (length (candidate_pool snap))
              ≡ some (size, spare))
            × All (IsJustified sha cfg spare snap (candidate_pool snap)) st'.launches)
  unfolding reconcile_once
  reconcile-IsJustified cfg snap ws st st' none_yet b e =
      let pool = candidate_pool snap in
      elim (Option-cases (tier_for cfg.policy (length pool))) [
        | inl q ↦ absurd (ground arith)
        | inr (tier, q) ↦
            let done : scan c inflight cooldown sha cfg tier.1 snap pool ws st ≡ st' =
              ground arith in
            (
              subst Balanced done (
                  scan_inv Balanced cfg tier.1 snap pool (λ m t h. unfold interfere in h)
                    (λ w m t. settle-Balanced _ _ t) ws st b),
              (
                tier.0,
                tier.1,
                q,
                subst (Justified cfg tier.1 snap pool) done (
                    scan_inv (Justified cfg tier.1 snap pool) cfg tier.1 snap pool
                      (λ m t h. unfold interfere in h)
                      (λ w m t. settle-Justified cfg tier.1 snap pool _ _ t (
                        visit_launched c inflight cooldown sha cfg tier.1 snap pool m.now m.session
                          w t.shared))
                      ws st (subst (All (IsJustified sha cfg tier.1 snap pool)) (sym none_yet) tt)),
              ),
            )
      ]
