-- ===== src/Types/Participants.antt =====
-- What ValidateParticipants accepts.
use aicw_node.Base.{
  ◌≡◌, ◌↔◌, ◌⊎◌, refl, inl, inr, List, [], ◌∷◌, arith, length, Str, first_absent, first_absent_iff,
  IsCovered, ℤ, pos, ◌+ℤ◌, ◌≤ℤ◌, ok, Option-cases,
}
use aicw_node.Types.Messages.{SignTxMessage, validate_participants}

-- ValidateParticipants accepts a message exactly if it names no participant, or names available
-- peers only, at least threshold + 1 of them, a repeated one counted as often as it is named.
pub validate_participants_iff :
    (m : SignTxMessage) (available : List Str) (threshold : ℤ)
    → (validate_participants m available threshold ≡ ok tt) ↔ (
        (m.participant_peer_ids ≡ [])
        ⊎ (IsCovered available m.participant_peer_ids
            × (threshold +ℤ pos 1 ≤ℤ pos (length m.participant_peer_ids))))
unfolding validate_participants
validate_participants_iff m available threshold = go m.participant_peer_ids
  where
    go :
        (ids : List Str)
        → (validate_participants (record m { participant_peer_ids = ids }) available threshold
            ≡ ok tt)
          ↔ ((ids ≡ []) ⊎ (IsCovered available ids × (threshold +ℤ pos 1 ≤ℤ pos (length ids))))
    go [] = (λ _. inl refl, λ _. refl)
    go (p ∷ ps) = elim (Option-cases (first_absent available (p ∷ ps))) [
      | inl e ↦
          (λ h. inr ((first_absent_iff available (p ∷ ps)).0 e, ground arith), λ h. ground arith)
      | inr (q, e) ↦ (
        λ h. absurd (ground arith),
        λ h. absurd (ground (arith, (first_absent_iff available (p ∷ ps)).1)),
      )
    ]
