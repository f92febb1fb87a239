-- ===== src/Orchestrator/KeyTypes.antt =====
-- The key families: pkg/types/initiator_msg.go (KeyType) and the helpers of
-- pkg/orchestrator/publisher.go and verifier.go over lists of them.
use aicw_node.Base.{
  Bool, true, false, ◌&&◌, ◌||◌, Option, none, some, List, [], ◌∷◌, if◌then◌else◌, Str, text,
  str_eq,
}
use aicw_node.Orchestrator.Wallets.{KeyKind, eddsa, ecdsa, Wallet, key_of}

-- A string type with two constants; `other` is any further value, which a stored record may hold.
pub data KeyType : Type 0 where
  ed25519 secp256k1 : KeyType
  other : Str → KeyType

abbrev pub name_of : KeyType → Str
name_of ed25519 = text "ed25519"
name_of secp256k1 = text "secp256k1"
name_of (other s) = s

unfoldable pub kt_eq : KeyType → KeyType → Bool
kt_eq ed25519 ed25519 = true
kt_eq secp256k1 secp256k1 = true
kt_eq (other a) (other b) = str_eq a b
kt_eq _ _ = false

unfoldable pub has : KeyType → List KeyType → Bool
has k [] = false
has k (j ∷ js) = kt_eq k j || has k js

abbrev pub reshare_key_types : List KeyType
reshare_key_types = ed25519 ∷ secp256k1 ∷ []

-- `none` is the empty kind of an unknown family.
unfoldable pub key_kind_for : KeyType → Option KeyKind
key_kind_for ed25519 = some eddsa
key_kind_for secp256k1 = some ecdsa
key_kind_for (other s) = none

unfoldable pub attempted_key_types : List KeyType → List KeyType
attempted_key_types [] = reshare_key_types
attempted_key_types (k ∷ ks) = k ∷ ks

-- Whether the wallet's map of keys has the kind.
holds : Wallet → Option KeyKind → Bool
holds w none = false
holds w (some kind) = elim (key_of w kind) [ none ↦ false | some k ↦ true ]

held_types : Wallet → List KeyType → List KeyType
held_types w [] = []
held_types w (k ∷ ks) = if holds w (key_kind_for k) then k ∷ held_types w ks else held_types w ks

unfoldable pub wallet_key_types : Wallet → List KeyType
unfolding holds held_types
wallet_key_types w = held_types w reshare_key_types

-- `done` is the list of the families whose entry of the map Done is true.
unfoldable pub remaining_key_types : List KeyType → List KeyType → List KeyType
remaining_key_types [] done = []
remaining_key_types (k ∷ ks) done =
    if has k done then remaining_key_types ks done else k ∷ remaining_key_types ks done

all_in : List KeyType → List KeyType → Bool
all_in [] done = true
all_in (k ∷ ks) done = has k done && all_in ks done

unfoldable pub all_done : List KeyType → Bool
unfolding all_in
all_done done = all_in reshare_key_types done
