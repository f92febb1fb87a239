-- ===== src/Committee/Pool.antt =====
-- The lists that SelectCommittee builds, by their members.
use aicw_node.Base.{
  ◌≡◌, refl, sym, ◌∙◌, true, false, not, ◌&&◌, List, [], ◌∷◌, arith, Str, str_eq, str_eq_iff,
  str_eq_refl, str_eq_comm, str_less, str_less-asymm, str_less-le_trans, str_less_antisymm, elem,
  elem-sort_by, IsDistinct, SameIds, sort_by-IsDistinct, sort_by-IsSorted, sorted_ext, IsWeakOrder,
  IsSorted, sort_by,
}
use aicw_node.Committee.Select.{hash_key, hash_less, unique_from, unique_sorted, retain_from}

-- The same strings, the empty one aside.
abbrev pub SameNodes : List Str → List Str → Type 0
SameNodes xs ys = (z : Str) → str_eq z [] ≡ false → elem z xs ≡ elem z ys

pub str_order : IsWeakOrder str_less
str_order = record { asymm = str_less-asymm; le_trans = str_less-le_trans }

elem-unique_from :
    (z : Str) (seen ids : List Str)
    → elem z (unique_from seen ids) ≡ (elem z ids && (not (str_eq z []) && not (elem z seen)))
unfolding unique_from elem
elem-unique_from z seen [] = refl
elem-unique_from z seen (id ∷ ids) =
    ground (arith, elem-unique_from z seen ids, elem-unique_from z (id ∷ seen) ids, str_eq_iff z id)

unique_from-IsDistinct : (seen ids : List Str) → IsDistinct (unique_from seen ids)
unfolding unique_from elem
unique_from-IsDistinct seen [] = tt
unique_from-IsDistinct seen (id ∷ ids) = ground (
  arith,
  unique_from-IsDistinct seen ids,
  unique_from-IsDistinct (id ∷ seen) ids,
  elem-unique_from id (id ∷ seen) ids,
  str_eq_refl id,
)

pub elem-unique_sorted :
    (z : Str) (ids : List Str) → elem z (unique_sorted ids) ≡ (elem z ids && not (str_eq z []))
unfolding unique_sorted elem
elem-unique_sorted z ids =
    ground (arith, elem-sort_by str_less z (unique_from [] ids), elem-unique_from z [] ids)

pub unique_sorted-IsDistinct : (ids : List Str) → IsDistinct (unique_sorted ids)
unfolding unique_sorted
unique_sorted-IsDistinct ids = sort_by-IsDistinct str_less _ (unique_from-IsDistinct [] ids)

pub IsSorted-strings : (ids : List Str) → IsSorted str_less (sort_by str_less ids)
IsSorted-strings ids = sort_by-IsSorted str_less str_order ids

-- Sorting distinct strings depends on the set alone.
pub sort_strings_ext :
    (xs ys : List Str)
    → IsDistinct xs
    → IsDistinct ys
    → SameIds xs ys
    → sort_by str_less xs ≡ sort_by str_less ys
sort_strings_ext xs ys dx dy h =
    sorted_ext str_less str_less_antisymm _ _ (sort_by-IsDistinct str_less xs dx)
      (sort_by-IsDistinct str_less ys dy) (IsSorted-strings xs) (IsSorted-strings ys)
      (λ z. elem-sort_by str_less z xs ∙ (h z ∙ sym (elem-sort_by str_less z ys)))

pub unique_sorted_ext : (xs ys : List Str) → SameNodes xs ys → unique_sorted xs ≡ unique_sorted ys
unfolding unique_sorted elem
unique_sorted_ext xs ys h =
    sort_strings_ext _ _ (unique_from-IsDistinct [] xs) (unique_from-IsDistinct [] ys)
      (λ z. ground (arith, elem-unique_from z [] xs, elem-unique_from z [] ys, h z))

pub elem-retain_from :
    (pool : List Str) (z : Str) (seen old : List Str)
    → elem z (retain_from pool seen old) ≡ (elem z old && (elem z pool && not (elem z seen)))
unfolding retain_from elem
elem-retain_from pool z seen [] = refl
elem-retain_from pool z seen (id ∷ ids) = ground (
  arith,
  elem-retain_from pool z seen ids,
  elem-retain_from pool z (id ∷ seen) ids,
  str_eq_iff z id,
)

pub retain_from-IsDistinct : (pool seen old : List Str) → IsDistinct (retain_from pool seen old)
unfolding retain_from elem
retain_from-IsDistinct pool seen [] = tt
retain_from-IsDistinct pool seen (id ∷ ids) = ground (
  arith,
  retain_from-IsDistinct pool seen ids,
  retain_from-IsDistinct pool (id ∷ seen) ids,
  elem-retain_from pool id (id ∷ seen) ids,
  str_eq_refl id,
)

module _ (sha : Str → Str) (wallet version : Str) where
  pub hash_order : IsWeakOrder (hash_less sha wallet version)
  unfolding hash_less
  hash_order = record { asymm = asymm_lem; le_trans = trans_lem }
    where
      k : Str → Str
      k a = hash_key sha wallet a version

      asymm_lem :
          (a b : Str)
          → hash_less sha wallet version a b ≡ true
          → hash_less sha wallet version b a ≡ false
      asymm_lem a b h =
          ground (arith, str_eq_comm (k a) (k b), str_less-asymm a b, str_less-asymm (k a) (k b))

      trans_lem :
          (a b c : Str)
          → hash_less sha wallet version b a ≡ false
          → hash_less sha wallet version c b ≡ false
          → hash_less sha wallet version c a ≡ false
      trans_lem a b c h g = ground (
        arith,
        str_eq_iff (k b) (k a),
        str_eq_iff (k c) (k b),
        str_eq_iff (k c) (k a),
        str_less-le_trans a b c,
        str_less-le_trans (k a) (k b) (k c),
        str_less_antisymm (k a) (k b),
      )

  pub hash_less_antisymm :
      (a b : Str)
      → hash_less sha wallet version a b ≡ false
      → hash_less sha wallet version b a ≡ false
      → a ≡ b
  unfolding hash_less
  hash_less_antisymm a b h g = ground (
    arith,
    str_eq_comm (hash_key sha wallet a version) (hash_key sha wallet b version),
    str_eq_iff (hash_key sha wallet a version) (hash_key sha wallet b version),
    str_less_antisymm a b,
    str_less_antisymm (hash_key sha wallet a version) (hash_key sha wallet b version),
  )
