-- ===== src/Identity/Loaded.antt =====
-- What a node that loads the directory knows of a node that wrote itself to it.
use aicw_node.Base.{
  ◌≡◌, ◌≢◌, refl, ap, ◌∙◌, Bool, some, [], ◌∷◌, ◌++◌, arith, Str, str_eq_iff, str_eq_refl, IsBytes,
  hex_decode, hex_encode, hex_decode-hex_encode, Dict, lookup, insert, lookup-insert, All,
}
use aicw_node.Consul.{Codec}
use aicw_node.Identity.{Store, get_public_key}
use aicw_node.Identity.Directory.{
  NodeIdentityValue, store_key, directory_entry, load_entry, load_entries, self_identity,
}

store_key_self : (id : Str) (r : Str × Bool) (s : Store) → (store_key id r s).self_id ≡ s.self_id
unfolding store_key
store_key_self id (key, fine) s = ground arith

store_key_other :
    (id z : Str) (r : Str × Bool) (s : Store)
    → z ≢ id
    → lookup z (store_key id r s).peer_keys ≡ lookup z s.peer_keys
unfolding store_key
store_key_other id z (key, fine) s n =
    ground (arith, lookup-insert z id key s.peer_keys, str_eq_iff z id)

module _ (json : Codec NodeIdentityValue) where
  -- No entry of the list is about the node.
  abbrev pub IsUnnamed : Str → Dict Str → Type 0
  IsUnnamed id pairs = All (λ e. id ≢ (directory_entry json e.0 e.1).0) pairs

  load_entries_self :
      (pairs : Dict Str) (s : Store) → (load_entries json pairs s).self_id ≡ s.self_id
  unfolding load_entries load_entry
  load_entries_self [] s = refl
  load_entries_self ((name, value) ∷ pairs) s =
      let entry = directory_entry json name value in
      load_entries_self pairs (load_entry json name value s)
      ∙ store_key_self entry.0 (hex_decode entry.1) s

  load_entries_other :
      (id : Str) (pairs : Dict Str) (s : Store)
      → IsUnnamed id pairs
      → lookup id (load_entries json pairs s).peer_keys ≡ lookup id s.peer_keys
  unfolding load_entries load_entry
  load_entries_other id [] s h = refl
  load_entries_other id ((name, value) ∷ pairs) s h =
      let entry = directory_entry json name value in
      load_entries_other id pairs (load_entry json name value s) h.1
      ∙ store_key_other entry.0 id (hex_decode entry.1) s h.0

  load_entries-append :
      (xs ys : Dict Str) (s : Store)
      → load_entries json (xs ++ ys) s ≡ load_entries json ys (load_entries json xs s)
  unfolding load_entries
  load_entries-append [] ys s = refl
  load_entries-append ((name, value) ∷ xs) ys s =
      load_entries-append xs ys (load_entry json name value s)

  entry_self :
      (name node_name : Str) (a : Store)
      → json.decode (json.encode (self_identity node_name a)) ≡ some (self_identity node_name a)
      → directory_entry json name (json.encode (self_identity node_name a))
        ≡ (a.self_id, hex_encode a.self_key)
  unfolding directory_entry self_identity
  entry_self name node_name a r = rw (directory_entry, r) refl

  -- The entry that a node writes of itself, loaded by another node.
  load_self :
      (name node_name : Str) (a b : Store)
      → json.decode (json.encode (self_identity node_name a)) ≡ some (self_identity node_name a)
      → IsBytes a.self_key
      → a.self_id ≢ b.self_id
      → load_entry json name (json.encode (self_identity node_name a)) b
        ≡ record b { peer_keys = insert a.self_id a.self_key b.peer_keys }
  unfolding load_entry store_key
  load_self name node_name a b r k n =
      rw (entry_self name node_name a r)
        (rw (hex_decode-hex_encode a.self_key k) (ground (arith, str_eq_iff a.self_id b.self_id)))

  -- A node that loads a listing which holds the entry another node wrote of itself, and after it
  -- none about that node, then has that node's public key.
  pub load-sync :
      (earlier later : Dict Str) (name node_name : Str) (a b : Store)
      → json.decode (json.encode (self_identity node_name a)) ≡ some (self_identity node_name a)
      → IsBytes a.self_key
      → a.self_id ≢ b.self_id
      → IsUnnamed a.self_id later
      → get_public_key
          (load_entries json
            (earlier ++ ((name, json.encode (self_identity node_name a)) ∷ later))
            b)
          a.self_id
        ≡ some a.self_key
  unfolding get_public_key load_entries
  load-sync earlier later name node_name a b r k n u =
      let base = load_entries json earlier b in
      let value = json.encode (self_identity node_name a) in
      let mine : Store = record base { peer_keys = insert a.self_id a.self_key base.peer_keys } in
      let same = load_entries_self earlier b in
      let total : load_entries json (earlier ++ ((name, value) ∷ later)) b
          ≡ load_entries json later mine =
        load_entries-append earlier ((name, value) ∷ later) b
        ∙ ap (load_entries json later) (load_self name node_name a base r k (λ e. n (e ∙ same))) in
      rw total (
        ground (
          arith,
          same,
          load_entries_self later mine,
          load_entries_other a.self_id later mine u,
          lookup-insert a.self_id a.self_id a.self_key base.peer_keys,
          str_eq_refl a.self_id,
          str_eq_iff a.self_id b.self_id,
        ))
