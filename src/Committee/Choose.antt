-- ===== src/Committee/Choose.antt =====
-- Steps 3 and 4 of SelectCommittee: who is retained, who fills the committee up.
use mathlib.Core.Path.{fun_ext}
use mathlib.Core.List.{append_assoc, append-nil}
use aicw_node.Base.{
  ℕ, suc, ◌-◌, ◌≤◌, ◌≡◌, ◌⊎◌, refl, sym, ap, ◌∙◌, inl, inr, Bool, true, not, ◌&&◌, List, [], ◌∷◌,
  ◌++◌, arith, ltb, Bool-cases, Str, elem, keep, elem-keep, elem-append, elem-sort_by, elem-take,
  IsDistinct, SameIds, keep-IsDistinct, sort_by-IsDistinct, take-IsDistinct, append-IsDistinct,
  sort_by-IsSorted, sorted_ext, length-le_of_subset, length-SameIds, pos, ltb_int, length, take,
  length-take, length-append, length-sort_by, sort_by,
}
use aicw_node.Committee.Select.{
  hash_less, sort_by_hash, retain_from, trim, fill, retained_members, fill_candidates, choose,
}
use aicw_node.Committee.Pool.{
  elem-retain_from, retain_from-IsDistinct, hash_order, hash_less_antisymm,
}

fill_lem : (s : ℕ) (acc xs : List Str) → fill (pos s) acc xs ≡ acc ++ take (s - length acc) xs
unfolding fill
fill_lem s acc [] = elim (Bool-cases (ltb 0 (s - length acc))) [
  | inl h ↦
      let e : s - length acc ≡ suc (s - length acc - 1) = ground arith in rw (e, append-nil) refl
  | inr h ↦ let e : s - length acc ≡ 0 = ground arith in rw (e, append-nil) refl
]
fill_lem s acc (x ∷ xs) = elim (Bool-cases (ltb (length acc) s)) [
  | inl h ↦
      let e : s - length acc ≡ suc (s - length (acc ++ x ∷ [])) =
        ground (arith, length-append acc (x ∷ [])) in
      rw e (
        ground (
          arith,
          fill_lem s (acc ++ x ∷ []) xs,
          append_assoc acc (x ∷ []) (take (s - length (acc ++ x ∷ [])) xs),
        ))
  | inr h ↦ let e : s - length acc ≡ 0 = ground arith in rw (e, append-nil) (ground arith)
]

module _ (sha : Str → Str) (wallet version : Str) (s : ℕ) where
  abbrev by_hash : List Str → List Str
  by_hash = sort_by_hash sha wallet version

  -- Sorting distinct strings by hash depends on the set alone.
  by_hash_ext :
      (xs ys : List Str) → IsDistinct xs → IsDistinct ys → SameIds xs ys → by_hash xs ≡ by_hash ys
  unfolding sort_by_hash
  by_hash_ext xs ys dx dy h =
      sorted_ext (hash_less sha wallet version) (hash_less_antisymm sha wallet version) _ _
        (sort_by-IsDistinct _ xs dx) (sort_by-IsDistinct _ ys dy)
        (sort_by-IsSorted _ (hash_order sha wallet version) xs)
        (sort_by-IsSorted _ (hash_order sha wallet version) ys)
        (λ z. elem-sort_by _ z xs ∙ (h z ∙ sym (elem-sort_by _ z ys)))

  module _ (old pool : List Str) where
    abbrev retained : List Str
    retained = retained_members sha wallet version (pos s) old pool

    abbrev candidates : List Str
    candidates = fill_candidates sha wallet version retained pool

    pub retained-IsDistinct : IsDistinct retained
    unfolding retained_members trim sort_by_hash
    retained-IsDistinct =
        elim (Bool-cases (ltb_int (pos s) (pos (length (retain_from pool [] old))))) [
          | inl e ↦
              rw e
                (take-IsDistinct s _ (sort_by-IsDistinct _ _ (retain_from-IsDistinct pool [] old)))
          | inr e ↦ rw e (retain_from-IsDistinct pool [] old)
        ]

    pub elem-retained :
        (z : Str) → elem z retained ≡ true → (elem z old ≡ true) × (elem z pool ≡ true)
    unfolding retained_members trim sort_by_hash elem
    elem-retained z = ground (
      arith,
      elem-retain_from pool z [] old,
      elem-take s z (sort_by (hash_less sha wallet version) (retain_from pool [] old)),
      elem-sort_by (hash_less sha wallet version) z (retain_from pool [] old),
    )

    pub length-retained-le : length retained ≤ s
    unfolding retained_members trim sort_by_hash
    length-retained-le =
        ground
          (arith, length-take s (sort_by (hash_less sha wallet version) (retain_from pool [] old)))

    -- Either every old member in the pool is retained, or the retained fill the whole committee.
    pub retained_cases : (retained ≡ retain_from pool [] old) ⊎ (length retained ≡ s)
    unfolding retained_members trim sort_by_hash
    retained_cases = ground (
      arith,
      length-take s (sort_by (hash_less sha wallet version) (retain_from pool [] old)),
      length-sort_by (hash_less sha wallet version) (retain_from pool [] old),
    )

    pub elem-candidates : (z : Str) → elem z candidates ≡ (elem z pool && not (elem z retained))
    unfolding fill_candidates sort_by_hash
    elem-candidates z =
        elem-sort_by _ z (keep (λ id. not (elem id retained)) pool)
        ∙ elem-keep (λ id. not (elem id retained)) z pool

    pub choose_lem :
        choose sha wallet version (pos s) old pool
        ≡ retained ++ take (s - length retained) candidates
    unfolding choose
    choose_lem = fill_lem s retained candidates

    pub choose-IsDistinct :
        IsDistinct pool → IsDistinct (choose sha wallet version (pos s) old pool)
    unfolding fill_candidates sort_by_hash
    choose-IsDistinct d = rw choose_lem (
        append-IsDistinct retained _ retained-IsDistinct
          (take-IsDistinct (s - length retained) candidates
            (sort_by-IsDistinct _ _ (keep-IsDistinct _ pool d)))
          (λ z e. elim (Bool-cases (elem z (take (s - length retained) candidates))) [
            | inl t ↦
                absurd
                  (ground (arith, elem-take (s - length retained) z candidates, elem-candidates z))
            | inr t ↦ t
          ]))

    pub choose_subset :
        (z : Str) → elem z (choose sha wallet version (pos s) old pool) ≡ true → elem z pool ≡ true
    choose_subset z h = ground (
      arith,
      ap (elem z) choose_lem,
      elem-append z retained (take (s - length retained) candidates),
      elem-retained z,
      elem-take (s - length retained) z candidates,
      elem-candidates z,
    )

    -- With enough strings in the pool the committee has its size.
    pub length-choose :
        IsDistinct pool → s ≤ length pool → length (choose sha wallet version (pos s) old pool) ≡ s
    length-choose d h = omega (
      arith,
      ap length choose_lem,
      length-append retained (take (s - length retained) candidates),
      length-take (s - length retained) candidates,
      length-append retained candidates,
      length-retained-le,
      length-le_of_subset pool (retained ++ candidates) d
          (λ z e. ground (arith, elem-append z retained candidates, elem-candidates z)),
    )

    -- The old members in the pool all stay, or the committee is made of old members only.
    pub choose_retains :
        ((z : Str)
          → elem z old ≡ true
          → elem z pool ≡ true
          → elem z (choose sha wallet version (pos s) old pool) ≡ true)
        ⊎ ((z : Str)
            → elem z (choose sha wallet version (pos s) old pool) ≡ true
            → elem z old ≡ true)
    unfolding elem
    choose_retains = elim retained_cases [
      | inl r ↦ inl (λ z o p. ground (
        arith,
        ap (elem z) choose_lem,
        elem-append z retained (take (s - length retained) candidates),
        ap (elem z) r,
        elem-retain_from pool z [] old,
      ))
      | inr f ↦ inr (λ z e.
          let none_left : s - length retained ≡ 0 = omega arith in
          let whole : choose sha wallet version (pos s) old pool ≡ retained =
            choose_lem ∙ rw (none_left, append-nil) refl in
          (elem-retained z (sym (ap (elem z) whole) ∙ e)).0)
    ]

  module _ (old old' pool : List Str) (same : SameIds old old') where
    kept : List Str → List Str
    kept o = retain_from pool [] o

    kept_same : SameIds (kept old) (kept old')
    unfolding kept
    kept_same z =
        ground (arith, elem-retain_from pool z [] old, elem-retain_from pool z [] old', same z)

    length-kept : length (kept old) ≡ length (kept old')
    unfolding kept
    length-kept =
        length-SameIds _ _ (retain_from-IsDistinct pool [] old)
          (retain_from-IsDistinct pool [] old') kept_same

    retained_same : SameIds (retained old pool) (retained old' pool)
    unfolding retained_members trim kept
    retained_same z = ground (
      arith,
      length-kept,
      kept_same z,
      ap (λ l. elem z (take s l))
          (by_hash_ext _ _ (retain_from-IsDistinct pool [] old)
            (retain_from-IsDistinct pool [] old') kept_same),
    )

    candidates_same : candidates old pool ≡ candidates old' pool
    unfolding fill_candidates
    candidates_same =
        ap (λ (p : Str → Bool). by_hash (keep p pool)) (fun_ext λ z. ap not (retained_same z))

    -- The order of the old committee does not matter, nor do its repetitions.
    pub choose_same :
        SameIds
          (choose sha wallet version (pos s) old pool)
          (choose sha wallet version (pos s) old' pool)
    choose_same z = ground (
      arith,
      ap (elem z) (choose_lem old pool),
      ap (elem z) (choose_lem old' pool),
      elem-append z (retained old pool)
          (take (s - length (retained old pool)) (candidates old pool)),
      elem-append z (retained old' pool)
          (take (s - length (retained old' pool)) (candidates old' pool)),
      retained_same z,
      ap (λ l. elem z (take (s - length (retained old pool)) l)) candidates_same,
      length-SameIds _ _ (retained-IsDistinct old pool) (retained-IsDistinct old' pool)
          retained_same,
    )
