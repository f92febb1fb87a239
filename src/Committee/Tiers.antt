-- ===== src/Committee/Tiers.antt =====
-- What Validate accepts, and which tier TierFor picks.
use mathlib.Core.Path.{subst}
use aicw_node.Base.{
  ℕ, ◌<◌, ◌≡◌, ◌↔◌, ◌⊎◌, refl, inl, inr, false, none, some, List, [], ◌∷◌, arith, Bool-cases,
  Option-cases, All, All-both, All-map, All-sort_by, All-sort_by_inv, IsSorted, sort_by-IsSorted,
  IsWeakOrder, length, length-sort_by, ℤ, pos, ◌+ℤ◌, ◌≤ℤ◌, ◌<ℤ◌, ltb_int, ok,
}
use aicw_node.Committee.Policy.{
  Tier, Policy, validate_tier, validate_tiers, validate, tier_less, sorted_tiers, first_fit,
  last_tier, tier_for,
}

pub record IsValidTier (threshold : ℤ) (t : Tier) : Type 0 where
  pub counts : pos 1 ≤ℤ t.max_active
  pub quorum : threshold +ℤ pos 1 ≤ℤ t.committee_size
  pub spare : pos 0 ≤ℤ t.spare

pub record IsValid (p : Policy) : Type 0 where
  pub threshold : pos 1 ≤ℤ p.mpc_threshold
  pub cap : p.mpc_threshold +ℤ pos 1 ≤ℤ p.cap
  pub some_tier : 0 < length p.tiers
  pub tiers : All (IsValidTier p.mpc_threshold) p.tiers

validate_tier_ok :
    (threshold : ℤ) (t : Tier) → validate_tier threshold t ≡ ok tt → IsValidTier threshold t
unfolding validate_tier
validate_tier_ok threshold t h = ground arith

ok_validate_tier :
    (threshold : ℤ) (t : Tier) → IsValidTier threshold t → validate_tier threshold t ≡ ok tt
unfolding validate_tier
ok_validate_tier threshold t h = ground arith

validate_tiers_ok :
    (threshold : ℤ) (ts : List Tier)
    → validate_tiers threshold ts ≡ ok tt
    → All (IsValidTier threshold) ts
unfolding validate_tiers
validate_tiers_ok threshold [] h = tt
validate_tiers_ok threshold (t ∷ ts) h =
    (validate_tier_ok threshold t (ground arith), validate_tiers_ok threshold ts (ground arith))

ok_validate_tiers :
    (threshold : ℤ) (ts : List Tier)
    → All (IsValidTier threshold) ts
    → validate_tiers threshold ts ≡ ok tt
unfolding validate_tiers
ok_validate_tiers threshold [] h = refl
ok_validate_tiers threshold (t ∷ ts) h =
    ground (arith, ok_validate_tier threshold t h.0, ok_validate_tiers threshold ts h.1)

-- Validate accepts exactly the policies with a threshold of at least one, a cap and tiers that
-- leave room for threshold + 1 members, at least one tier, and no negative spare.
pub validate_iff : (p : Policy) → (validate p ≡ ok tt) ↔ IsValid p
unfolding validate
validate_iff p = (sound, complete)
  where
    sound : validate p ≡ ok tt → IsValid p
    sound h = record {
      threshold = ground arith;
      cap = ground arith;
      some_tier = ground arith;
      tiers = validate_tiers_ok p.mpc_threshold p.tiers (ground arith);
    }

    complete : IsValid p → validate p ≡ ok tt
    complete v = ground (arith, ok_validate_tiers p.mpc_threshold p.tiers v.tiers)

ltb_false→le : (u t : Tier) → tier_less u t ≡ false → t.max_active ≤ℤ u.max_active
ltb_false→le u t h = ground arith

tier_order : IsWeakOrder tier_less
tier_order = record { asymm = λ a b h. ground arith; le_trans = λ a b c h k. ground arith }

-- `t` stands in the list.
abbrev pub InTiers : Tier → List Tier → Type 0
InTiers t [] = ⊥
InTiers t (u ∷ ts) = (t ≡ u) ⊎ InTiers t ts

All-InTiers : (P : Tier → Type 0) (t : Tier) (ts : List Tier) → All P ts → InTiers t ts → P t
All-InTiers P t [] h i = absurd i
All-InTiers P t (u ∷ ts) h (inl e) = rw e h.0
All-InTiers P t (u ∷ ts) h (inr i) = All-InTiers P t ts h.1 i

All-in : (ts : List Tier) → All (λ t. InTiers t ts) ts
All-in [] = tt
All-in (t ∷ ts) =
    (inl refl, All-map (λ u. InTiers u ts) (λ u. InTiers u (t ∷ ts)) ts (λ u i. inr i) (All-in ts))

-- The tier that serves a count: the lowest that the count fits, or, if it fits none, the highest.
abbrev pub Serves : ℕ → Tier → List Tier → Type 0
Serves n t ts =
    ((pos n ≤ℤ t.max_active) × All (λ u. u.max_active <ℤ t.max_active → u.max_active <ℤ pos n) ts)
    ⊎ All (λ u. (u.max_active <ℤ pos n) × (u.max_active ≤ℤ t.max_active)) ts

-- A tier of the list that the count fits, and no lower one.
abbrev LowestFit : ℕ → List Tier → Tier → Type 0
LowestFit n ts t =
    InTiers t ts
    × (pos n ≤ℤ t.max_active)
    × All (λ u. u.max_active <ℤ t.max_active → u.max_active <ℤ pos n) ts

first_fit-some :
    (ts : List Tier) (n : ℕ) (t : Tier)
    → IsSorted tier_less ts
    → first_fit ts n ≡ some t
    → LowestFit n ts t
unfolding first_fit
first_fit-some [] n t s h = absurd (cc)
first_fit-some (u ∷ ts) n t s h = elim (Bool-cases (ltb_int u.max_active (pos n))) [
  | inl e ↦
      let (i, fits, lowest) = first_fit-some ts n t s.1 (rw (e, first_fit) at h) in
      (inr i, fits, (λ k. ground arith, lowest))
  | inr e ↦
      let q : u ≡ t = ground arith in
      subst (LowestFit n (u ∷ ts)) q (
        inl refl,
        ground arith,
        (
          λ k. absurd (omega arith),
          All-map (λ v. tier_less v u ≡ false)
              (λ v. v.max_active <ℤ u.max_active → v.max_active <ℤ pos n) ts
              (λ v b k. absurd (ground arith)) s.0,
        ),
      )
]

first_fit-none :
    (ts : List Tier) (n : ℕ) → first_fit ts n ≡ none → All (λ u. u.max_active <ℤ pos n) ts
unfolding first_fit
first_fit-none [] n h = tt
first_fit-none (u ∷ ts) n h = elim (Bool-cases (ltb_int u.max_active (pos n))) [
  | inl e ↦ (ground arith, first_fit-none ts n (rw (e, first_fit) at h))
  | inr e ↦ absurd (ground arith)
]

last_tier_lem :
    (t : Tier) (ts : List Tier)
    → IsSorted tier_less (t ∷ ts)
    → (u : Tier) × (last_tier (t ∷ ts) ≡ some u)
      × InTiers u (t ∷ ts)
      × All (λ v. v.max_active ≤ℤ u.max_active) (t ∷ ts)
unfolding last_tier
last_tier_lem t [] s = (t, refl, inl refl, (omega arith, tt))
last_tier_lem t (v ∷ ts) s =
    let (u, e, i, highest) = last_tier_lem v ts s.1 in
    (u, e, inr i, (omega (arith, ltb_false→le v t s.0.0, highest.0), highest))

serving :
    (ts : List Tier) (n : ℕ)
    → IsSorted tier_less ts
    → 0 < length ts
    → (t : Tier) × InTiers t ts
      × Serves n t ts
      × ((first_fit ts n ≡ some t) ⊎ ((first_fit ts n ≡ none) × (last_tier ts ≡ some t)))
serving [] n s h = absurd (omega arith)
serving (v ∷ ts) n s h = elim (Option-cases (first_fit (v ∷ ts) n)) [
  | inl e ↦
      let (u, last, i, highest) = last_tier_lem v ts s in
      (u, i, inr (All-both _ _ (v ∷ ts) (first_fit-none (v ∷ ts) n e) highest), inr (e, last))
  | inr (t, e) ↦
      let (i, fits, lowest) = first_fit-some (v ∷ ts) n t s e in (t, i, inl (fits, lowest), inl e)
]

-- The tiers in order are the tiers of the policy.
Serves-sorted : (n : ℕ) (t : Tier) (p : Policy) → Serves n t (sorted_tiers p) → Serves n t p.tiers
unfolding sorted_tiers
Serves-sorted n t p (inl (fits, lowest)) = inl (fits, All-sort_by_inv tier_less _ p.tiers lowest)
Serves-sorted n t p (inr highest) = inr (All-sort_by_inv tier_less _ p.tiers highest)

In_sorted : (t : Tier) (p : Policy) → InTiers t (sorted_tiers p) → InTiers t p.tiers
unfolding sorted_tiers
In_sorted t p i =
    All-InTiers (λ u. InTiers u p.tiers) t _ (All-sort_by tier_less _ p.tiers (All-in p.tiers)) i

-- On a policy that Validate accepts, TierFor returns the size and the spare of one of its tiers:
-- of one that the count fits and no lower tier does, or, where the count exceeds every tier, of one
-- with the largest max_active.
pub tier_for_lem :
    (p : Policy) (n : ℕ)
    → validate p ≡ ok tt
    → (t : Tier) × InTiers t p.tiers
      × Serves n t p.tiers
      × (tier_for p n ≡ some (t.committee_size, t.spare))
unfolding tier_for sorted_tiers
tier_for_lem p n h =
    let (t, i, serves, e) =
      serving (sorted_tiers p) n (sort_by-IsSorted tier_less tier_order p.tiers)
        (omega (arith, length-sort_by tier_less p.tiers, ((validate_iff p).0 h).some_tier)) in
    (t, In_sorted t p i, Serves-sorted n t p serves, ground arith)

-- What the callers use: some tier is found, and it leaves room for threshold + 1 members.
pub tier_for-IsValidTier :
    (p : Policy) (n : ℕ)
    → IsValid p
    → (t : Tier) × IsValidTier p.mpc_threshold t × (tier_for p n ≡ some (t.committee_size, t.spare))
tier_for-IsValidTier p n v =
    let (t, i, serves, e) = tier_for_lem p n ((validate_iff p).1 v) in
    (t, All-InTiers (IsValidTier p.mpc_threshold) t p.tiers v.tiers i, e)
