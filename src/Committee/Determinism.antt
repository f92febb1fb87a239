-- ===== src/Committee/Determinism.antt =====
-- SelectCommittee depends on its inputs as sets: every node that sees the same ids computes the same
-- plan.
use aicw_node.Base.{
  ℕ, ◌≡◌, refl, sym, ap, ◌∙◌, inl, inr, List, [], arith, Bool-cases, Str, str_eq, IsDistinct,
  SameIds, length, ℤ, pos, ◌+ℤ◌, ◌≤ℤ◌, ok, Result-cases,
}
use aicw_node.Committee.Policy.{Policy, validate}
use aicw_node.Committee.Select.{choose, unique_sorted, form, select_committee}
use aicw_node.Committee.Pool.{
  SameNodes, unique_sorted-IsDistinct, sort_strings_ext, unique_sorted_ext,
}
use aicw_node.Committee.Choose.{choose-IsDistinct, choose_same}
use aicw_node.Committee.Tiers.{IsValid, validate_iff, tier_for-IsValidTier}
use aicw_node.Committee.Plan.{plan_of, form_lem, select_cases}

module _ (sha : Str → Str) (p : Policy) (wallet : Str) (old old' : List Str)
    (same : SameIds old old') where
  plan_same :
      (pool : List Str) (s : ℕ) (spare : ℤ)
      → IsDistinct pool
      → plan_of sha p wallet old pool s spare ≡ plan_of sha p wallet old' pool s spare
  unfolding plan_of
  plan_same pool s spare d = ground (
    arith,
    sort_strings_ext (choose sha wallet p.version (pos s) old pool)
        (choose sha wallet p.version (pos s) old' pool)
        (choose-IsDistinct sha wallet p.version s old pool d)
        (choose-IsDistinct sha wallet p.version s old' pool d)
        (choose_same sha wallet p.version s old old' pool same),
  )

  form_same :
      (pool : List Str) (tier_size spare : ℤ)
      → IsValid p
      → p.mpc_threshold +ℤ pos 1 ≤ℤ tier_size
      → IsDistinct pool
      → form sha p wallet old pool (tier_size, spare)
        ≡ form sha p wallet old' pool (tier_size, spare)
  form_same pool tier_size spare v q d =
      elim (form_lem sha p wallet old pool tier_size spare v q d) [
        | inl (few, e) ↦ elim (form_lem sha p wallet old' pool tier_size spare v q d) [
          | inl (few', e') ↦ e ∙ sym e'
          | inr (enough', rest) ↦ absurd (omega arith)
        ]
        | inr (enough, (s, least, capped, fits, size, e)) ↦
            elim (form_lem sha p wallet old' pool tier_size spare v q d) [
              | inl (few', e') ↦ absurd (omega arith)
              | inr (enough', (s', least', capped', fits', size', e')) ↦
                  let n : s ≡ s' = cc in
                  e
                  ∙ (ap ok (
                        plan_same pool s spare d
                        ∙ ap (λ k. plan_of sha p wallet old' pool k spare) n)
                      ∙ sym e')
            ]
      ]

  old_same :
      (active : List Str)
      → select_committee sha p wallet old active ≡ select_committee sha p wallet old' active
  old_same active = elim (Result-cases (validate p)) [
    | inr (e, q) ↦ unfold select_committee in ground arith
    | inl (u, q) ↦ elim (Bool-cases (str_eq wallet [])) [
      | inl w ↦ unfold select_committee in ground arith
      | inr w ↦
          let valid : validate p ≡ ok tt = q in
          let v = (validate_iff p).0 valid in
          let pool = unique_sorted active in
          let (t, vt, found) = tier_for-IsValidTier p (length pool) v in
          ground (
            arith,
            select_cases sha p wallet old active valid w t.committee_size t.spare found,
            select_cases sha p wallet old' active valid w t.committee_size t.spare found,
            form_same pool t.committee_size t.spare v vt.quorum (unique_sorted-IsDistinct active),
          )
    ]
  ]

-- SelectCommittee returns the same for two views of the network that hold the same non-empty ids
-- in the active pool and the same ids in the old committee, in whatever order and however often:
-- the same plan, or the same error.
pub select_deterministic :
    (sha : Str → Str) (p : Policy) (wallet : Str) (old old' active active' : List Str)
    → SameIds old old'
    → SameNodes active active'
    → select_committee sha p wallet old active ≡ select_committee sha p wallet old' active'
select_deterministic sha p wallet old old' active active' o a =
    old_same sha p wallet old old' o active ∙ active_same
  where
    active_same :
        select_committee sha p wallet old' active ≡ select_committee sha p wallet old' active'
    active_same = unfold select_committee in rw (unique_sorted_ext active active' a) refl
