-- ===== src/Committee/Members.antt =====
-- Whom the plan of SelectCommittee names.
use aicw_node.Base.{
  ℕ, ◌≤◌, ◌≡◌, ◌⊎◌, refl, sym, ap, ◌∙◌, inl, inr, true, false, some, List, [], arith, Str, str_eq,
  str_less, elem, elem-sort_by, IsDistinct, sort_by-IsDistinct, IsSorted, length, length-sort_by, ℤ,
  pos, ◌+ℤ◌, ◌≤ℤ◌, ok,
}
use aicw_node.Committee.Policy.{Policy, validate, target_size}
use aicw_node.Committee.Select.{Plan, contains, choose, unique_sorted, select_committee}
use aicw_node.Committee.Pool.{elem-unique_sorted, unique_sorted-IsDistinct, IsSorted-strings}
use aicw_node.Committee.Choose.{choose-IsDistinct, choose_subset, length-choose, choose_retains}
use aicw_node.Committee.Plan.{plan_of, select_outcome}

-- What a plan of SelectCommittee holds.
pub record IsPlanFor (p : Policy) (active : List Str) (plan : Plan) : Type 0 where
  pub sorted : IsSorted str_less plan.node_ids
  pub distinct : IsDistinct plan.node_ids
  pub members : (z : Str) → contains plan z ≡ true → (elem z active ≡ true) × (str_eq z [] ≡ false)
  pub size : pos (length plan.node_ids) ≡ plan.committee_size
  pub target : target_size p (length (unique_sorted active)) ≡ some plan.committee_size
  pub threshold : plan.threshold ≡ p.mpc_threshold
  pub quorum : p.mpc_threshold +ℤ pos 1 ≤ℤ plan.committee_size

module _ (sha : Str → Str) (p : Policy) (wallet : Str) (old active : List Str) (plan : Plan)
    (h : select_committee sha p wallet old active ≡ ok plan) where
  select_needs : (validate p ≡ ok tt) × (str_eq wallet [] ≡ false)
  unfolding select_committee
  select_needs = ground arith

  -- The one committee behind the plan.
  formed :
      (s : ℕ) × (spare : ℤ) × (p.mpc_threshold +ℤ pos 1 ≤ℤ pos s)
      × (pos s ≤ℤ p.cap)
      × (s ≤ length (unique_sorted active))
      × (target_size p (length (unique_sorted active)) ≡ some (pos s))
      × (plan ≡ plan_of sha p wallet old (unique_sorted active) s spare)
  formed = elim (select_outcome sha p wallet old active select_needs.0 select_needs.1) [
    | inl (e, q) ↦ absurd (cc)
    | inr (inl (e, f, q)) ↦ absurd (cc)
    | inr (inr (enough, (s, spare, least, capped, fits, target, q))) ↦
        (s, spare, least, capped, fits, target, cc)
  ]

  -- The plan of a successful SelectCommittee lists, in order and each once, non-empty ids of the
  -- active pool; they number TargetSize of the pool, which is at least threshold + 1.
  pub select-IsPlanFor : IsPlanFor p active plan
  unfolding plan_of contains
  select-IsPlanFor =
      let (s, spare, least, capped, fits, target, e) = formed in
      rw e (record {
        sorted = IsSorted-strings _;
        distinct =
            sort_by-IsDistinct str_less _
              (choose-IsDistinct sha wallet p.version s old pool (unique_sorted-IsDistinct active));
        members = λ z m. ground (
          arith,
          elem-sort_by str_less z (choose sha wallet p.version (pos s) old pool),
          choose_subset sha wallet p.version s old pool z,
          elem-unique_sorted z active,
        );
        size = ground (
          arith,
          length-sort_by str_less (choose sha wallet p.version (pos s) old pool),
          length-choose sha wallet p.version s old pool (unique_sorted-IsDistinct active) fits,
        );
        target = target;
        threshold = refl;
        quorum = least;
      })
    where
      pool : List Str
      pool = unique_sorted active

  -- A successful SelectCommittee keeps every old member that is in the active pool, or, where these
  -- are too many, picks old members only.
  pub select_retains :
      ((z : Str)
        → elem z old ≡ true
        → elem z active ≡ true
        → str_eq z [] ≡ false
        → contains plan z ≡ true)
      ⊎ ((z : Str) → contains plan z ≡ true → elem z old ≡ true)
  unfolding plan_of contains
  select_retains =
      let (s, spare, least, capped, fits, target, e) = formed in
      let ids : (z : Str)
          → contains plan z
            ≡ elem z (choose sha wallet p.version (pos s) old (unique_sorted active)) =
        λ z. ap (λ (q : Plan). elem z q.node_ids) e ∙ elem-sort_by str_less z _ in
      elim (choose_retains sha wallet p.version s old (unique_sorted active)) [
        | inl all ↦ inl (λ z o a n. ids z ∙ all z o (ground (arith, elem-unique_sorted z active)))
        | inr some_old ↦ inr (λ z m. some_old z (sym (ids z) ∙ m))
      ]
