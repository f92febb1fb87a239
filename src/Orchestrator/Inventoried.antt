-- ===== src/Orchestrator/Inventoried.antt =====
-- The key that the inventory reads for a wallet.
use aicw_node.Base.{
  ◌≡◌, ◌≢◌, ◌↔◌, refl, ap, ◌∙◌, inl, inr, Bool, true, false, ◌&&◌, Option, none, some, [], ◌∷◌,
  ◌++◌, arith, if◌then◌else◌, ◌==◌, Str, str_eq, str_eq_iff, Dict, lookup, lookup-insert, or_else,
  or_zero, Option-cases, Bool-cases,
}
use aicw_node.Consul.{Codec}
use aicw_node.Orchestrator.Wallets.{KeyKind, eddsa, ecdsa, WalletKey, Wallet, key_of}
use aicw_node.Orchestrator.Sweeper.{trim_prefix}
use aicw_node.Orchestrator.Inventory.{
  KeyInfo, keyinfo_prefix, kind_name, split_colon, kind_and_wallet, split_keyinfo_suffix,
  wallet_key, empty_wallet, set_key, add_key, scan_keyinfo,
}

split→ : (s a b : Str) → split_colon s ≡ some (a, b) → s ≡ (a ++ (58 ∷ b))
unfolding split_colon
split→ [] a b h = absurd (cc)
split→ (c ∷ s) a b h = elim (Bool-cases (c == 58)) [
  | inl e ↦ let p : (a ≡ []) × (b ≡ s) × (c ≡ 58) = ground arith in rw (p.0, p.1, p.2) refl
  | inr e ↦ elim (Option-cases (split_colon s)) [
    | inl q ↦ absurd (ground arith)
    | inr ((a', b'), q) ↦
        let p : (a ≡ (c ∷ a')) × (b ≡ b') = ground arith in
        rw (p.0, p.1) (ap (λ t. c ∷ t) (split→ s a' b' q))
  ]
]

split_name :
    (kind : KeyKind) (wallet : Str)
    → wallet ≢ []
    → split_keyinfo_suffix (kind_name kind ++ (58 ∷ wallet)) ≡ some (kind, wallet)
unfolding split_keyinfo_suffix split_colon kind_and_wallet str_eq
split_name eddsa wallet n = ground (arith, str_eq_iff wallet [])
split_name ecdsa wallet n = ground (arith, str_eq_iff wallet [])

named :
    (a b : Str) (kind : KeyKind) (wallet : Str)
    → kind_and_wallet a b ≡ some (kind, wallet)
    → (a ≡ kind_name kind) × (b ≡ wallet) × (wallet ≢ [])
unfolding kind_and_wallet
named a b eddsa wallet h =
    ground (arith, str_eq_iff a (kind_name eddsa), str_eq_iff a (kind_name ecdsa), str_eq_iff b [])
named a b ecdsa wallet h =
    ground (arith, str_eq_iff a (kind_name eddsa), str_eq_iff a (kind_name ecdsa), str_eq_iff b [])

-- The name of an entry is read as a kind and a wallet exactly if it is the name of the kind, a colon,
-- and the wallet's id, which is not empty.
pub split_keyinfo_suffix_iff :
    (suffix : Str) (kind : KeyKind) (wallet : Str)
    → (split_keyinfo_suffix suffix ≡ some (kind, wallet))
      ↔ ((suffix ≡ (kind_name kind ++ (58 ∷ wallet))) × (wallet ≢ []))
unfolding split_keyinfo_suffix
split_keyinfo_suffix_iff suffix kind wallet = elim (Option-cases (split_colon suffix)) [
  | inl e ↦ (λ h. absurd (ground arith), λ h. rw (h.0) (split_name kind wallet h.1))
  | inr ((a, b), e) ↦ (
    λ h.
        let (p, q, n) = named a b kind wallet (ground arith) in
        (split→ suffix a b e ∙ rw (p, q) refl, n),
    λ h. rw (h.0) (split_name kind wallet h.1),
  )
]

or_else_assoc : {A : Type 0} (a b c : Option A) → or_else a (or_else b c) ≡ or_else (or_else a b) c
or_else_assoc none b c = refl
or_else_assoc (some a) b c = refl

abbrev same_kind : KeyKind → KeyKind → Bool
same_kind eddsa eddsa = true
same_kind ecdsa ecdsa = true
same_kind _ _ = false

key_of-set_key :
    (kind k : KeyKind) (key : WalletKey) (w : Wallet)
    → key_of (set_key k key w) kind ≡ (if same_kind kind k then some key else key_of w kind)
unfolding set_key key_of
key_of-set_key eddsa eddsa key w = refl
key_of-set_key eddsa ecdsa key w = refl
key_of-set_key ecdsa eddsa key w = refl
key_of-set_key ecdsa ecdsa key w = refl

key_of-empty : (kind : KeyKind) (id : Str) → key_of (empty_wallet id) kind ≡ none
unfolding key_of
key_of-empty eddsa id = refl
key_of-empty ecdsa id = refl

module _ (json : Codec KeyInfo) (kind : KeyKind) (id : Str) where
  abbrev pub key_in : Dict Wallet → Option WalletKey
  key_in wallets = elim (lookup id wallets) [ none ↦ none | some w ↦ key_of w kind ]

  -- What an entry says of the key, if it is about it.
  abbrev pub said : Option (KeyKind × Str) → Option KeyInfo → Option WalletKey
  said (some (k, i)) (some info) =
      if same_kind kind k && str_eq id i then some (wallet_key info) else none
  said _ _ = none

  -- The last well-formed entry about the key.
  abbrev pub last_key : Dict Str → Option WalletKey
  last_key [] = none
  last_key ((key, value) ∷ pairs) =
      or_else (last_key pairs)
        (said (split_keyinfo_suffix (trim_prefix keyinfo_prefix key)) (json.decode value))

  key_in-add_key :
      (split : Option (KeyKind × Str)) (info : Option KeyInfo) (wallets : Dict Wallet)
      → key_in (add_key split info wallets) ≡ or_else (said split info) (key_in wallets)
  unfolding add_key
  key_in-add_key none info wallets = refl
  key_in-add_key (some s) none wallets = refl
  key_in-add_key (some (k, i)) (some info) wallets =
      let old = or_zero (empty_wallet i) (lookup i wallets) in
      let next = set_key k (wallet_key info) old in
      elim (Option-cases (lookup i wallets)) [
        | inl e ↦ ground (
          arith,
          lookup-insert id i next wallets,
          key_of-set_key kind k (wallet_key info) old,
          key_of-empty kind i,
          str_eq_iff id i,
        )
        | inr (w, e) ↦ ground (
          arith,
          lookup-insert id i next wallets,
          key_of-set_key kind k (wallet_key info) old,
          str_eq_iff id i,
        )
      ]

  -- The inventory has for each wallet and kind the last well-formed entry of the listing about it,
  -- and no key where there is none: malformed entries and other names leave no trace.
  pub key_in-scan_keyinfo :
      (pairs : Dict Str) (wallets : Dict Wallet)
      → key_in (scan_keyinfo json pairs wallets) ≡ or_else (last_key pairs) (key_in wallets)
  unfolding scan_keyinfo
  key_in-scan_keyinfo [] wallets = refl
  key_in-scan_keyinfo ((key, value) ∷ pairs) wallets =
      let split = split_keyinfo_suffix (trim_prefix keyinfo_prefix key) in
      let info = json.decode value in
      key_in-scan_keyinfo pairs (add_key split info wallets)
      ∙ (ap (or_else (last_key pairs)) (key_in-add_key split info wallets)
          ∙ or_else_assoc (last_key pairs) (said split info) (key_in wallets))
