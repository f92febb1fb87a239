-- ===== src/Mpc/Counts.antt =====
-- The counts of true entries, and sets of ids, under the updates of the registry.

use aicw_node.Base.{
  ◌+◌, ◌≡◌, refl, inl, inr, Bool, false, ◌||◌, List, [], ◌∷◌, if◌then◌else◌, arith, Bool-cases, Str,
  str_eq, str_eq_iff, elem, elem-append, IsDistinct, append-IsDistinct, Dict, keys, lookup, insert,
  delete, flag,
}
use aicw_node.Mpc.Session.{add_id}
use aicw_node.Mpc.Registry.{trues}

pub trues-insert :
    (k : Str) (b : Bool) (m : Dict Bool)
    → trues (insert k b m) + (if flag k m then 1 else 0) ≡ trues m + (if b then 1 else 0)
unfolding trues insert flag lookup
trues-insert k b [] = ground arith
trues-insert k b ((j, w) ∷ m) = ground (arith, trues-insert k b m)

pub flag_absent : (k : Str) (m : Dict Bool) → elem k (keys m) ≡ false → flag k m ≡ false
unfolding elem flag lookup
flag_absent k [] h = refl
flag_absent k ((j, w) ∷ m) h = ground (arith, flag_absent k m)

pub delete_absent : (k : Str) (m : Dict Bool) → elem k (keys m) ≡ false → delete k m ≡ m
unfolding elem delete
delete_absent k [] h = refl
delete_absent k ((j, w) ∷ m) h = ground (arith, delete_absent k m)

pub trues-delete :
    (k : Str) (m : Dict Bool)
    → IsDistinct (keys m)
    → trues (delete k m) + (if flag k m then 1 else 0) ≡ trues m
unfolding trues delete flag lookup
trues-delete k [] d = ground arith
trues-delete k ((j, w) ∷ m) d =
    ground (arith, trues-delete k m d.1, str_eq_iff k j, flag_absent k m, delete_absent k m)

pub elem-add_id :
    (z id : Str) (ids : List Str) → elem z (add_id id ids) ≡ (str_eq z id || elem z ids)
unfolding add_id elem
elem-add_id z id ids = ground (arith, elem-append z ids (id ∷ []), str_eq_iff z id)

pub add_id-IsDistinct : (id : Str) (ids : List Str) → IsDistinct ids → IsDistinct (add_id id ids)
unfolding add_id elem
add_id-IsDistinct id ids d = elim (Bool-cases (elem id ids)) [
  | inl e ↦ rw e d
  | inr e ↦
      rw e (append-IsDistinct ids (id ∷ []) d (refl, tt) (λ z h. ground (arith, str_eq_iff z id)))
]
