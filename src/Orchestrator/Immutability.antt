-- ===== src/Orchestrator/Immutability.antt =====
-- What a verification that is OK has established.
use aicw_node.Base.{
  ◌≡◌, ◌≢◌, ◌⊎◌, refl, ap, ◌∙◌, inl, inr, true, false, Option, none, some, List, [], ◌∷◌, ◌++◌,
  arith, Bool-cases, Option-cases, Str, text, str_eq, str_eq_iff, SameIds, ℤ,
}
use aicw_node.Consul.{Consul, Codec}
use aicw_node.Orchestrator.Wallets.{KeyKind}
use aicw_node.Orchestrator.KeyTypes.{KeyType, key_kind_for}
use aicw_node.Orchestrator.Freeze.{FreezeRecord}
use aicw_node.Orchestrator.StringSets.{equal_string_set_iff}
use aicw_node.Orchestrator.Verify.{
  KeyInfo, Verdict, fail, kind_text, pubkey_key, key_for, stuck_at, check_info, recorded, first_use,
  compare_key, check_stored, check_key, verify_family, verify_families, verify,
}

-- keyinfo names the new committee, with a version after the old one, if that is known.
abbrev pub IsMigrated : List Str → Option ℤ → Option KeyInfo → Type 0
IsMigrated committee old found =
    (info : KeyInfo) × (found ≡ some info)
    × SameIds info.participants committee
    × (stuck_at old info.version ≡ false)

info_lem :
    (kind : KeyKind) (committee : List Str) (old : Option ℤ) (found : Option KeyInfo) (v : Verdict)
    → (check_info kind committee old found v).ok_so_far ≡ true
    → IsMigrated committee old found × (v.ok_so_far ≡ true)
unfolding check_info fail
info_lem kind committee old none v h = absurd (ground arith)
info_lem kind committee old (some info) v h = (
  (info, refl, (equal_string_set_iff info.participants committee).0 (ground arith), ground arith),
  ground arith,
)

module _ (c : Consul) (codec : Codec FreezeRecord) (hex : Str → Str)
    (info_of : Str → c.State → Option KeyInfo × c.State) where
  -- The key is not empty, and is the recorded one, if Consul answers with one.
  abbrev pub IsKept : KeyKind → Str → Str → c.State → Type 0
  IsKept kind wallet new s =
      (new ≢ [])
      × ((value : Option Str) × ((c.get (pubkey_key wallet kind) s).0 ≡ some value)
          × ((recorded value ≡ none) ⊎ (recorded value ≡ some new)))

  stored_lem :
      (kind : KeyKind) (wallet new : Str) (v : Verdict) (answer : Option (Option Str)) (s : c.State)
      → (check_stored c codec hex info_of kind wallet new v (answer, s)).0.ok_so_far ≡ true
      → ((value : Option Str) × (answer ≡ some value)
          × ((recorded value ≡ none) ⊎ (recorded value ≡ some new)))
        × (v.ok_so_far ≡ true)
  unfolding check_stored fail first_use compare_key
  stored_lem kind wallet new v none s h = absurd (ground arith)
  stored_lem kind wallet new v (some value) s h = elim (Option-cases (recorded value)) [
    | inl e ↦ ((value, refl, inl e), ground arith)
    | inr (old, e) ↦
        let same : old ≡ new = (str_eq_iff old new).0 (ground arith) in
        ((value, refl, inr (e ∙ ap some same)), ground arith)
  ]

  key_lem :
      (kind : KeyKind) (wallet new : Str) (v : Verdict) (s : c.State)
      → (check_key c codec hex info_of kind wallet new v s).0.ok_so_far ≡ true
      → IsKept kind wallet new s × (v.ok_so_far ≡ true)
  unfolding check_key fail
  key_lem kind wallet new v s h = elim (Bool-cases (str_eq new [])) [
    | inl e ↦ absurd (ground arith)
    | inr e ↦
        let at = c.get (pubkey_key wallet kind) s in
        let (found, ok) = stored_lem kind wallet new v at.0 at.1 (ground arith) in
        ((λ n. ground (arith, str_eq_iff new []), found), ok)
  ]

  -- What a completed family passed: keyinfo has moved to the new committee, and the public key is
  -- kept.
  abbrev pub IsVerified :
      Str → List Str → (KeyKind → Option ℤ) → List (KeyType × Str) → KeyType → c.State → Type 0
  IsVerified wallet committee old_versions pub_keys kt s =
      (kind : KeyKind) × (key_kind_for kt ≡ some kind)
      × (let found = info_of (kind_text kind ++ (text ":" ++ wallet)) s in
          IsMigrated committee (old_versions kind) found.0
          × IsKept kind wallet (key_for kt pub_keys) found.1)

  module _ (wallet : Str) (committee : List Str) (old_versions : KeyKind → Option ℤ)
      (pub_keys : List (KeyType × Str)) where
    family_lem :
        (kt : KeyType) (v : Verdict) (s : c.State)
        → (verify_family c codec hex info_of wallet committee old_versions pub_keys kt v
            s).0.ok_so_far
          ≡ true
        → IsVerified wallet committee old_versions pub_keys kt s × (v.ok_so_far ≡ true)
    unfolding verify_family fail
    family_lem kt v s h = elim (Option-cases (key_kind_for kt)) [
      | inl e ↦ absurd (ground arith)
      | inr (kind, e) ↦
          let found = info_of (kind_text kind ++ (text ":" ++ wallet)) s in
          let (kept, before) =
            key_lem kind wallet (key_for kt pub_keys)
              (check_info kind committee (old_versions kind) found.0 v) found.1 (ground arith) in
          let (moved, ok) = info_lem kind committee (old_versions kind) found.0 v before in
          ((kind, e, (moved, kept)), ok)
    ]

    -- Each family is verified in the state that the verification of those before it leaves.
    abbrev pub AllVerified : List KeyType → Verdict → c.State → Type 0
    AllVerified [] v s = Unit
    AllVerified (kt ∷ kts) v s =
        IsVerified wallet committee old_versions pub_keys kt s
        × (let next =
              verify_family c codec hex info_of wallet committee old_versions pub_keys kt v s in
            AllVerified kts next.0 next.1)

    families_lem :
        (kts : List KeyType) (v : Verdict) (s : c.State)
        → (verify_families c codec hex info_of wallet committee old_versions pub_keys kts v
            s).0.ok_so_far
          ≡ true
        → AllVerified kts v s × (v.ok_so_far ≡ true)
    unfolding verify_families
    families_lem [] v s h = (tt, h)
    families_lem (kt ∷ kts) v s h =
        let next =
          verify_family c codec hex info_of wallet committee old_versions pub_keys kt v s in
        let (rest, before) = families_lem kts next.0 next.1 h in
        let (one, ok) = family_lem kt v s before in ((one, rest), ok)

    -- If Verify is OK, then every completed family is a known one; its keyinfo names exactly the
    -- members of the new committee, with a version greater than the old one, where that is known;
    -- and its public key is not empty and equals the one recorded in Consul, if one is recorded.
    pub verify_ok :
        (done : List KeyType) (s : c.State)
        → (verify c codec hex info_of wallet committee old_versions done pub_keys s).0.ok_so_far
          ≡ true
        → AllVerified done (record { ok_so_far = true; frozen = false; problems = [] }) s
    unfolding verify
    verify_ok done s h = (families_lem done _ s h).0
