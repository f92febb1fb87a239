-- ===== src/Orchestrator/Progress.antt =====
-- pkg/orchestrator/progress.go: the families that a wallet still needs after a partial failure.
-- UpdatedAt, a time that nothing reads, is left to the codec.
use aicw_node.Base.{
  ◌≡◌, sym, ap, ◌∙◌, Bool, true, Option, none, some, List, [], ◌∷◌, ◌++◌, arith, Str, text, Result,
  ok, err, inl, inr, Option-cases,
}
use aicw_node.Consul.{Consul, IsConsul, Codec, RoundTrips}
use aicw_node.Orchestrator.KeyTypes.{KeyType}
use aicw_node.Orchestrator.Lock.{LockError, request_failed}

abbrev pub progress_prefix : Str
progress_prefix = text "orchestrator/reshare/pending/"

module _ (c : Consul) (codec : Codec (List KeyType)) where
  open c use {State}

  -- A record that does not parse counts as none.
  unfoldable pub parse_progress : Option (Option Str) → Result LockError (List KeyType)
  parse_progress none = err request_failed
  parse_progress (some none) = ok []
  parse_progress (some (some v)) = elim (codec.decode v) [ none ↦ ok [] | some kts ↦ ok kts ]

  unfoldable pub pending : Str → State → Result LockError (List KeyType) × State
  pending wallet s = let (r, s') = c.get (progress_prefix ++ wallet) s in (parse_progress r, s')

  -- The Bool of a write says that it succeeded.
  unfoldable pub clear_progress : Str → State → Bool × State
  clear_progress wallet s = c.del (progress_prefix ++ wallet) s

  unfoldable pub set_pending : Str → List KeyType → State → Bool × State
  set_pending wallet [] s = clear_progress wallet s
  set_pending wallet (kt ∷ kts) s = c.put (progress_prefix ++ wallet) (codec.encode (kt ∷ kts)) s

  module _ (laws : IsConsul c) (parses : RoundTrips codec) where
    -- What a read of the key gives, by what is stored there.
    pending_lem :
        (wallet : Str) (s : State) (kts : List KeyType)
        → (pending wallet s).0 ≡ ok kts
        → parse_progress (some (laws.stored s (progress_prefix ++ wallet))) ≡ ok kts
    unfolding pending
    pending_lem wallet s kts h = elim (Option-cases (c.get (progress_prefix ++ wallet) s).0) [
      | inl e ↦ absurd (unfold parse_progress in ground (arith, ap parse_progress e))
      | inr (v, e) ↦
          sym
            (ap (λ x. parse_progress (some x)) (laws.get_stored (progress_prefix ++ wallet) s v e))
          ∙ (sym (ap parse_progress e) ∙ h)
    ]

    -- After SetPending has succeeded, Pending, wherever it gets an answer, returns exactly the
    -- families that were set, none where the record was cleared because none remained.
    pub pending-set_pending :
        (wallet : Str) (kts answer : List KeyType) (s : State)
        → (set_pending wallet kts s).0 ≡ true
        → (pending wallet (set_pending wallet kts s).1).0 ≡ ok answer
        → answer ≡ kts
    unfolding set_pending clear_progress parse_progress
    pending-set_pending wallet [] answer s w h =
        ground
          (arith, pending_lem wallet _ answer h, laws.del_removes (progress_prefix ++ wallet) s w)
    pending-set_pending wallet (kt ∷ kts) answer s w h = ground (
      arith,
      pending_lem wallet _ answer h,
      laws.put_stores (progress_prefix ++ wallet) (codec.encode (kt ∷ kts)) s w,
      parses (kt ∷ kts),
    )
