-- ===== src/Orchestrator/Race/Safety.antt =====
-- Which histories of several orchestrators keep their reshares apart.
use mathlib.Core.Path.{subst}
use aicw_node.Base.{
  ℕ, ◌≡◌, ◌≢◌, sym, ◌∙◌, inl, inr, true, none, some, ◌++◌, arith, Str, str_eq_iff, delete,
  lookup-delete, flag, some_injective, append_cancel,
}
use aicw_node.Consul.{Consul, IsConsul, Codec}
use aicw_node.Orchestrator.Lock.{InflightRecord, CooldownRecord, inflight_prefix}
use aicw_node.Orchestrator.Race.{System, Step, Reach, Claims, forgetting}
use aicw_node.Orchestrator.Race.Backed.{
  key, Inv, deleting-Inv, same_state, asking-Inv, recording-Inv, forgetting-Inv, renewing-Inv,
  entered_cases, moved,
}

module _ (c : Consul) (laws : IsConsul c) (inflight : Codec InflightRecord)
    (cooldown : Codec CooldownRecord) where
  -- A step that takes no lock of the wallet from an instance: its key is deleted only while no instance
  -- claims the wallet, and a session is lost only while its instance does not, nor replaced while an
  -- Acquire of the wallet waits to be recorded.
  abbrev pub Spares :
      Str → {t u : System c laws inflight cooldown} → Step c laws inflight cooldown t u → Type 0
  Spares w (Step.asks i wallet session key_types now n) = Unit {0}
  Spares w (Step.records i wallet g) = Unit {0}
  Spares w (Step.forgets i wallet) = Unit {0}
  Spares w {t} (Step.deletes wallet) =
      wallet ≡ w → (j : ℕ) → ¬ Claims c laws inflight cooldown t j w
  Spares w {t} (Step.sweeps_key seen max_age now key value h) =
      key ≡ inflight_prefix ++ w → (j : ℕ) → ¬ Claims c laws inflight cooldown t j w
  Spares w {t} (Step.expires i s keeps) = ¬ Claims c laws inflight cooldown t i w
  Spares w {t} (Step.renews i id fresh) = t.granted i ≢ some w

  abbrev pub Keeps :
      Str → {t : System c laws inflight cooldown} → Reach c laws inflight cooldown t → Type 0
  Keeps w (Reach.initially e) = Unit {0}
  Keeps w (Reach.next r s) = Keeps w r × Spares w s

  module _ (w : Str) where
    Step-Inv :
        {t u : System c laws inflight cooldown}
        → Inv c laws inflight cooldown w t
        → (s : Step c laws inflight cooldown t u) → Spares w s
        → Inv c laws inflight cooldown w u
    Step-Inv v (Step.asks i wallet id kts now n) p =
        asking-Inv c laws inflight cooldown w i wallet id kts now v
    Step-Inv v (Step.records i wallet g) p = recording-Inv c laws inflight cooldown w i wallet g v
    Step-Inv v (Step.forgets i wallet) p = forgetting-Inv c laws inflight cooldown w i wallet v
    Step-Inv v (Step.deletes wallet) p =
        deleting-Inv c laws inflight cooldown w (inflight_prefix ++ wallet)
          (λ e. p (append_cancel inflight_prefix wallet w e)) v
    Step-Inv v (Step.sweeps_key seen max_age now k value h) p =
        deleting-Inv c laws inflight cooldown w k p v
    Step-Inv {t} v (Step.expires i s keeps) p = same_state c laws inflight cooldown w s v (λ j h b.
        keeps (key c laws inflight cooldown w) (t.managers j).session_id
          (λ q. p (subst (λ n. Claims c laws inflight cooldown t n w) (v.distinct j i q) h)) b)
    Step-Inv v (Step.renews i id fresh) p = renewing-Inv c laws inflight cooldown w i id fresh p v

    Reach-Inv :
        {t : System c laws inflight cooldown} (r : Reach c laws inflight cooldown t)
        → Keeps w r
        → Inv c laws inflight cooldown w t
    Reach-Inv (Reach.initially (d, g, e)) k = record {
      distinct = d;
      backed = λ i h. elim h [ inl f ↦ absurd (cc (e i w)) | inr f ↦ absurd (cc (g i)) ];
    }
    Reach-Inv (Reach.next r s) (k, p) = Step-Inv (Reach-Inv r k) s p

    -- An instance claims a wallet if it holds it, or was granted its lock by an Acquire that has not
    -- recorded it yet. As long as the key of the wallet is deleted only while no instance claims the
    -- wallet, and an instance neither loses its session while it claims the wallet nor replaces it
    -- before such an Acquire has recorded it: an instance that claims the wallet has it locked in
    -- Consul by its session, and no other one claims it, so that at most one reshares it.
    pub mutual_exclusion :
        {t : System c laws inflight cooldown} (i j : ℕ) (r : Reach c laws inflight cooldown t)
        → Keeps w r
        → Claims c laws inflight cooldown t i w
        → (laws.holder t.state (key c laws inflight cooldown w) ≡ some (t.managers i).session_id)
          × (Claims c laws inflight cooldown t j w → j ≡ i)
    mutual_exclusion {t} i j r k h =
        let v = Reach-Inv r k in
        let mine = v.backed i h in
        (mine, λ g. v.distinct j i (some_injective (sym (v.backed j g) ∙ mine)))

    -- There the Release of an instance that holds the wallet, and has no Acquire under way, sends its
    -- request while no instance claims the wallet: it does not break the condition.
    pub forgetting_spares :
        {t : System c laws inflight cooldown} (i : ℕ) (r : Reach c laws inflight cooldown t)
        → Keeps w r
        → flag w (t.managers i).held ≡ true
        → t.granted i ≡ none
        → (j : ℕ)
        → ¬ Claims c laws inflight cooldown (forgetting c laws inflight cooldown i w t) j w
    unfolding flag
    forgetting_spares {t} i r k h n j g =
        let m = t.managers i in
        let only = (mutual_exclusion i j r k (inl h)).1 in
        elim (entered_cases c laws inflight cooldown w i j (record m { held = delete w m.held })
          (t.granted i) t.state t) [
            | inl (p, x, y) ↦ elim (moved c laws inflight cooldown w x y g) [
              | inl f ↦ absurd (ground (arith, lookup-delete w w m.held, str_eq_iff w w))
              | inr f ↦ absurd (cc)
            ]
            | inr (o, x, y) ↦ absurd (o (only (moved c laws inflight cooldown w x y g)))
          ]
