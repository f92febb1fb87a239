-- ===== src/Orchestrator/Verify.antt =====
-- pkg/orchestrator/verifier.go: Verify, by key family. The keyinfo store of mpcium is the parameter
-- `info_of` and hex.EncodeToString is `hex`. A problem's text is a constructor.
use aicw_node.Base.{
  Bool, true, false, not, Option, none, some, List, [], ◌∷◌, ◌++◌, if◌then◌else◌, Str, text, str_eq,
  ℤ, ltb_int,
}
use aicw_node.Consul.{Consul, Codec}
use aicw_node.Orchestrator.Wallets.{KeyKind, eddsa, ecdsa}
use aicw_node.Orchestrator.KeyTypes.{KeyType, key_kind_for, kt_eq}
use aicw_node.Orchestrator.Freeze.{FreezeRecord, freeze}
use aicw_node.Orchestrator.StringSets.{equal_string_set}

-- The fields of mpcium's keyinfo that Verify reads.
pub record KeyInfo : Type 0 where
  pub participants : List Str
  pub version : ℤ

pub data Problem : Type 0 where
  unknown_family : KeyType → Problem
  info_unread wrong_committee old_version empty_key key_unread baseline_unwritten key_changed :
      KeyKind → Problem

pub record Verdict : Type 0 where
  pub ok_so_far : Bool
  pub frozen : Bool
  pub problems : List Problem

unfoldable pub fail : Problem → Verdict → Verdict
fail p v = record v { ok_so_far = false; problems = v.problems ++ p ∷ [] }

abbrev pub kind_text : KeyKind → Str
kind_text eddsa = text "eddsa"
kind_text ecdsa = text "ecdsa"

abbrev pub pubkey_key : Str → KeyKind → Str
pubkey_key wallet kind =
    text "orchestrator/reshare/pubkey/" ++ (wallet ++ (text "/" ++ kind_text kind))

-- The map PubKeys, with the empty key where it has none.
unfoldable pub key_for : KeyType → List (KeyType × Str) → Str
key_for kt [] = []
key_for kt ((k, key) ∷ ks) = if kt_eq kt k then key else key_for kt ks

-- Whether an old version is known and the new one is not greater.
unfoldable pub stuck_at : Option ℤ → ℤ → Bool
stuck_at none new = false
stuck_at (some old) new = not (ltb_int old new)

unfoldable pub check_info : KeyKind → List Str → Option ℤ → Option KeyInfo → Verdict → Verdict
check_info kind committee old none v = fail (info_unread kind) v
check_info kind committee old (some info) v =
    let v' =
      if equal_string_set info.participants committee then v else fail (wrong_committee kind) v in
    if stuck_at old info.version then fail (old_version kind) v' else v'

-- readPubkey copies the value with append, which makes nil of an empty one.
unfoldable pub recorded : Option Str → Option Str
recorded none = none
recorded (some []) = none
recorded (some (x ∷ xs)) = some (x ∷ xs)

module _ (c : Consul) (codec : Codec FreezeRecord) (hex : Str → Str)
    (info_of : Str → c.State → Option KeyInfo × c.State) where
  open c use {State}

  -- A failed write of the baseline is a problem, and does not fail the verification.
  unfoldable pub first_use : KeyKind → Str → Str → Verdict → State → Verdict × State
  first_use kind wallet new v s =
      let (done, s') = c.put (pubkey_key wallet kind) new s in
      (if done then v else record v { problems = v.problems ++ baseline_unwritten kind ∷ [] }, s')

  -- The error of Freeze is dropped.
  unfoldable pub compare_key : KeyKind → Str → Str → Str → Verdict → State → Verdict × State
  compare_key kind wallet old new v s = if str_eq old new then (v, s) else (
    record (fail (key_changed kind) v) { frozen = true },
    (freeze c codec
        (record {
          wallet_id = wallet;
          reason = text "reshare changed public key";
          key_type = kind_text kind;
          expected = hex old;
          got = hex new;
        })
        s).1,
  )

  unfoldable pub check_stored :
      KeyKind → Str → Str → Verdict → Option (Option Str) × State → Verdict × State
  check_stored kind wallet new v (none, s) = (fail (key_unread kind) v, s)
  check_stored kind wallet new v (some value, s) = elim (recorded value) [
    | none ↦ first_use kind wallet new v s
    | some old ↦ compare_key kind wallet old new v s
  ]

  unfoldable pub check_key : KeyKind → Str → Str → Verdict → State → Verdict × State
  check_key kind wallet new v s =
      if str_eq new []
      then (fail (empty_key kind) v, s)
      else check_stored kind wallet new v (c.get (pubkey_key wallet kind) s)

  -- The body of the loop of Verify for a completed family.
  unfoldable pub verify_family :
      Str
      → List Str
      → (KeyKind → Option ℤ)
      → List (KeyType × Str)
      → KeyType
      → Verdict
      → State
      → Verdict × State
  verify_family wallet committee old_versions pub_keys kt v s = elim (key_kind_for kt) [
    | none ↦ (fail (unknown_family kt) v, s)
    | some kind ↦
        let (info, s') = info_of (kind_text kind ++ (text ":" ++ wallet)) s in
        check_key kind wallet (key_for kt pub_keys)
          (check_info kind committee (old_versions kind) info v) s'
  ]

  unfoldable pub verify_families :
      Str
      → List Str
      → (KeyKind → Option ℤ)
      → List (KeyType × Str)
      → List KeyType
      → Verdict
      → State
      → Verdict × State
  verify_families wallet committee old_versions pub_keys [] v s = (v, s)
  verify_families wallet committee old_versions pub_keys (kt ∷ kts) v s =
      let (v', s') = verify_family wallet committee old_versions pub_keys kt v s in
      verify_families wallet committee old_versions pub_keys kts v' s'

  -- `done` are the families whose entry of Done is true, in the order of the range over the map.
  unfoldable pub verify :
      Str
      → List Str
      → (KeyKind → Option ℤ)
      → List KeyType
      → List (KeyType × Str)
      → State
      → Verdict × State
  verify wallet committee old_versions done pub_keys s =
      verify_families wallet committee old_versions pub_keys done
        (record { ok_so_far = true; frozen = false; problems = [] }) s
