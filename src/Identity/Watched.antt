-- ===== src/Identity/Watched.antt =====
-- What a pass of WatchPeerDirectory makes of the store, and what it reports.
use aicw_node.Base.{
  ◌≡◌, refl, ◌∙◌, inl, inr, not, ◌&&◌, none, List, [], ◌∷◌, arith, if◌then◌else◌, Str, str_eq_iff,
  elem, Dict, lookup, insert, delete, keys, lookup-insert, lookup-delete, elem-keys, defined,
  or_else, Option-cases,
}
use aicw_node.Identity.{Store}
use aicw_node.Identity.Directory.{add_new, remove_gone, watch_pass}

module _ (id : Str) where
  lookup-add_new :
      (peers : Dict Str) (s : Store)
      → (lookup id (add_new peers s).1.peer_keys
          ≡ or_else (lookup id s.peer_keys) (lookup id peers))
        × (lookup id (add_new peers s).1.sym_keys ≡ lookup id s.sym_keys)
        × (elem id (add_new peers s).0
            ≡ (defined (lookup id peers) && not (defined (lookup id s.peer_keys))))
  unfolding add_new elem lookup
  lookup-add_new [] s = ground arith
  lookup-add_new ((j, key) ∷ peers) s = elim (Option-cases (lookup j s.peer_keys)) [
    | inr (old, e) ↦ ground (arith, lookup-add_new peers s, str_eq_iff id j)
    | inl e ↦
        let next : Store = record s { peer_keys = insert j key s.peer_keys } in
        ground
          (arith, lookup-add_new peers next, str_eq_iff id j, lookup-insert id j key s.peer_keys)
  ]

  lookup-remove_gone :
      (peers : Dict Str) (ids : List Str) (s : Store)
      → let gone = elem id ids && not (defined (lookup id peers)) in
        let (removed, s') = remove_gone peers ids s in
        (lookup id s'.peer_keys ≡ (if gone then none else lookup id s.peer_keys))
        × (lookup id s'.sym_keys ≡ (if gone then none else lookup id s.sym_keys))
        × (elem id removed ≡ gone)
  unfolding remove_gone elem
  lookup-remove_gone peers [] s = (refl, refl, refl)
  lookup-remove_gone peers (j ∷ ids) s = elim (Option-cases (lookup j peers)) [
    | inr (key, e) ↦ ground (arith, lookup-remove_gone peers ids s, str_eq_iff id j)
    | inl e ↦
        let next : Store = record s {
          peer_keys = delete j s.peer_keys;
          sym_keys = delete j s.sym_keys;
        } in
        ground (
          arith,
          lookup-remove_gone peers ids next,
          str_eq_iff id j,
          lookup-delete id j s.peer_keys,
          lookup-delete id j s.sym_keys,
        )
  ]

  -- After a pass the store has exactly the peers of the new set: a key that it had is kept, the key
  -- of a new peer is the directory's. A peer that is gone loses its symmetric key too, the others
  -- keep theirs, and the peers reported as added and as removed are the new and the gone ones.
  pub watch_pass_lem :
      (peers : Dict Str) (s : Store)
      → let (added, removed, s') = watch_pass peers s in
        let here = defined (lookup id peers) in
        let before = defined (lookup id s.peer_keys) in
        (lookup id s'.peer_keys
          ≡ (if here then or_else (lookup id s.peer_keys) (lookup id peers) else none))
        × (lookup id s'.sym_keys ≡ (if before && not here then none else lookup id s.sym_keys))
        × (elem id added ≡ (here && not before))
        × (elem id removed ≡ (before && not here))
  unfolding watch_pass
  watch_pass_lem peers s =
      let s' = (add_new peers s).1 in
      ground (
        arith,
        lookup-add_new peers s,
        lookup-remove_gone peers (keys s'.peer_keys) s',
        elem-keys id s'.peer_keys,
      )

add_new_self : (peers : Dict Str) (s : Store) → (add_new peers s).1.self_id ≡ s.self_id
unfolding add_new
add_new_self [] s = refl
add_new_self ((j, key) ∷ peers) s = ground (
  arith,
  add_new_self peers s,
  add_new_self peers (record s { peer_keys = insert j key s.peer_keys }),
)

remove_gone_self :
    (peers : Dict Str) (ids : List Str) (s : Store)
    → (remove_gone peers ids s).1.self_id ≡ s.self_id
unfolding remove_gone
remove_gone_self peers [] s = refl
remove_gone_self peers (j ∷ ids) s =
    let next : Store = record s {
      peer_keys = delete j s.peer_keys;
      sym_keys = delete j s.sym_keys;
    } in
    ground (arith, remove_gone_self peers ids s, remove_gone_self peers ids next)

pub watch_pass_self : (peers : Dict Str) (s : Store) → (watch_pass peers s).2.self_id ≡ s.self_id
unfolding watch_pass
watch_pass_self peers s =
    let s' = (add_new peers s).1 in
    remove_gone_self peers (keys s'.peer_keys) s' ∙ add_new_self peers s
