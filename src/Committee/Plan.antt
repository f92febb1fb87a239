-- ===== src/Committee/Plan.antt =====
-- When SelectCommittee succeeds, and with which plan.
use aicw_node.Base.{
  ℕ, ◌≤◌, ◌<◌, ◌≡◌, ◌⊎◌, ap, ◌∙◌, inl, inr, false, some, List, [], arith, Bool-cases, Str, str_eq,
  str_less, IsDistinct, length, sort_by, ℤ, pos, pos_part, neg_part, ◌+ℤ◌, ◌≤ℤ◌, ◌<ℤ◌, ltb_int,
  +ℤ_parts, pos_of_nonneg, ok, err,
}
use aicw_node.Committee.Policy.{
  Policy, empty_pool, no_quorum, validate, tier_for, min3, target_size, policy_hash,
}
use aicw_node.Committee.Select.{Plan, choose, unique_sorted, form, form_sized, select_committee}
use aicw_node.Committee.Pool.{unique_sorted-IsDistinct}
use aicw_node.Committee.Choose.{length-choose}
use aicw_node.Committee.Tiers.{IsValid, validate_iff, tier_for-IsValidTier}

min3_lem :
    (a b c : ℤ)
    → (min3 a b c ≤ℤ a)
      × (min3 a b c ≤ℤ b)
      × (min3 a b c ≤ℤ c)
      × ((min3 a b c ≡ a) ⊎ (min3 a b c ≡ b) ⊎ (min3 a b c ≡ c))
unfolding min3
min3_lem a b c = ground arith

module _ (sha : Str → Str) (p : Policy) (wallet : Str) where
  -- The plan of a committee of s members out of a pool.
  unfoldable pub plan_of : List Str → List Str → ℕ → ℤ → Plan
  plan_of old pool s spare = record {
    node_ids = sort_by str_less (choose sha wallet p.version (pos s) old pool);
    threshold = p.mpc_threshold;
    spare = spare;
    committee_size = pos s;
    hash = policy_hash sha p;
    version = p.version;
  }

  -- What `form` returns for a distinct pool.
  abbrev pub Formed : List Str → List Str → ℤ × ℤ → Type 0
  Formed old pool (tier_size, spare) =
      ((pos (length pool) <ℤ p.mpc_threshold +ℤ pos 1)
        × (form sha p wallet old pool (tier_size, spare) ≡ err no_quorum))
      ⊎ ((p.mpc_threshold +ℤ pos 1 ≤ℤ pos (length pool))
          × ((s : ℕ) × (p.mpc_threshold +ℤ pos 1 ≤ℤ pos s)
              × (pos s ≤ℤ p.cap)
              × (s ≤ length pool)
              × (min3 (pos (length pool)) p.cap tier_size ≡ pos s)
              × (form sha p wallet old pool (tier_size, spare) ≡ ok (plan_of old pool s spare))))

  form_sized_small :
      (old pool : List Str) (spare size : ℤ)
      → size <ℤ p.mpc_threshold +ℤ pos 1
      → form_sized sha p wallet old pool spare size ≡ err no_quorum
  unfolding form_sized
  form_sized_small old pool spare size h = ground arith

  form_sized_ok :
      (old pool : List Str) (spare : ℤ) (s : ℕ)
      → p.mpc_threshold +ℤ pos 1 ≤ℤ pos s
      → s ≤ length pool
      → IsDistinct pool
      → form_sized sha p wallet old pool spare (pos s) ≡ ok (plan_of old pool s spare)
  unfolding form_sized plan_of
  form_sized_ok old pool spare s h k d =
      ground (arith, length-choose sha wallet p.version s old pool d)

  pub form_lem :
      (old pool : List Str) (tier_size spare : ℤ)
      → IsValid p
      → p.mpc_threshold +ℤ pos 1 ≤ℤ tier_size
      → IsDistinct pool
      → Formed old pool (tier_size, spare)
  unfolding form
  form_lem old pool tier_size spare v q d =
      elim (Bool-cases (ltb_int (pos (length pool)) (p.mpc_threshold +ℤ pos 1))) [
        | inl e ↦ inl (ground arith, form_sized_small old pool spare size (ground (arith, least)))
        | inr e ↦
            let big : p.mpc_threshold +ℤ pos 1 ≤ℤ size = ground (arith, least, v.cap) in
            let exact : size ≡ pos (pos_part size) =
              pos_of_nonneg size
                (omega (arith, +ℤ_parts p.mpc_threshold (pos 1), big, v.threshold)) in
            inr (
              ground arith,
              (
                pos_part size,
                omega (arith, big, ap neg_part exact),
                omega (arith, least.1, ap neg_part exact),
                omega (arith, least.0, ap neg_part exact),
                exact,
                ap (form_sized sha p wallet old pool spare) exact
                    ∙ form_sized_ok old pool spare (pos_part size)
                        (omega (arith, big, ap neg_part exact))
                        (omega (arith, least.0, ap neg_part exact)) d,
              ),
            )
      ]
    where
      size : ℤ
      size = min3 (pos (length pool)) p.cap tier_size

      least :
          (size ≤ℤ pos (length pool))
          × (size ≤ℤ p.cap)
          × (size ≤ℤ tier_size)
          × ((size ≡ pos (length pool)) ⊎ (size ≡ p.cap) ⊎ (size ≡ tier_size))
      least = min3_lem (pos (length pool)) p.cap tier_size

module _ (sha : Str → Str) (p : Policy) (wallet : Str) (old active : List Str)
    (valid : validate p ≡ ok tt) (named : str_eq wallet [] ≡ false) where
  abbrev pub pool : List Str
  pool = unique_sorted active

  pub select_cases :
      (tier_size spare : ℤ)
      → tier_for p (length pool) ≡ some (tier_size, spare)
      → ((length pool ≡ 0) × (select_committee sha p wallet old active ≡ err empty_pool))
        ⊎ ((0 < length pool)
            × (select_committee sha p wallet old active
                ≡ form sha p wallet old pool (tier_size, spare)))
  unfolding select_committee
  select_cases tier_size spare e = ground (arith, e)

  -- With a valid policy and a wallet id, SelectCommittee succeeds exactly when the distinct
  -- non-empty ids of the active pool number at least threshold + 1, and then with the size that
  -- TargetSize gives, which lies between threshold + 1 and the cap; else it reports an empty pool
  -- or a missing quorum. The error "insufficient candidates" does not occur.
  pub select_outcome :
      ((length pool ≡ 0) × (select_committee sha p wallet old active ≡ err empty_pool))
      ⊎ ((0 < length pool)
          × (pos (length pool) <ℤ p.mpc_threshold +ℤ pos 1)
          × (select_committee sha p wallet old active ≡ err no_quorum))
      ⊎ ((p.mpc_threshold +ℤ pos 1 ≤ℤ pos (length pool))
          × ((s : ℕ) × (spare : ℤ) × (p.mpc_threshold +ℤ pos 1 ≤ℤ pos s)
              × (pos s ≤ℤ p.cap)
              × (s ≤ length pool)
              × (target_size p (length pool) ≡ some (pos s))
              × (select_committee sha p wallet old active
                  ≡ ok (plan_of sha p wallet old pool s spare))))
  unfolding target_size
  select_outcome =
      let v = (validate_iff p).0 valid in
      let (t, vt, found) = tier_for-IsValidTier p (length pool) v in
      elim (select_cases t.committee_size t.spare found) [
        | inl e ↦ inl e
        | inr (some_node, e) ↦
            elim (form_lem sha p wallet old pool t.committee_size t.spare v vt.quorum
              (unique_sorted-IsDistinct active)) [
                | inl (few, q) ↦ inr (inl (some_node, few, e ∙ q))
                | inr (enough, (s, least, capped, fits, size, q)) ↦ inr (
                    inr (enough, (s, t.spare, least, capped, fits, rw found (ap some size), e ∙ q)))
              ]
      ]
