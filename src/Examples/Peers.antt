-- ===== src/Examples/Peers.antt =====
-- Peers of the directory.
use aicw_node.Base.{
  ℕ, zero, suc, ◌≡◌, ◌≢◌, ◌↔◌, ◌⊎◌, refl, false, not, ◌&&◌, none, some, [], ◌∷◌, ◌++◌, arith,
  if◌then◌else◌, replicate, Str, text, str_eq, str_eq_iff, str_eq_refl, IsBytes, Dict, elem, lookup,
  defined, or_else, ok, err,
}
use aicw_node.Consul.{Codec}
use aicw_node.Identity.{Store}
use aicw_node.Identity.Directory.{NodeIdentityValue, self_identity, load_entries, watch_pass}
use aicw_node.Identity.Watched.{watch_pass_lem}
use aicw_node.Identity.Signatures.{
  TssMessage, EcdhMessage, verify_message, party_id_to_node_id, verify_signature, sign_message,
  sign_raw_message, panics,
}
use aicw_node.Identity.Verified.{IsMisfit, verify_message-panics_iff, verify-sign}
use aicw_node.Mpc.Registry.{Registry}
use aicw_node.Mpc.Watch.{on_peer_added, unverified_stored}
use aicw_node.Examples.Signers.{echo}

abbrev store : Str → Store
store id = record {
  self_id = id;
  self_key = replicate 32 1;
  peer_keys = (text "gone", text "k1") ∷ (text "bad", text "short") ∷ [];
  sym_keys = (text "gone", text "s") ∷ [];
  verifier = none;
}

abbrev directory : Dict Str
directory = (text "new", text "k2") ∷ (text "bad", text "short") ∷ []

watch_pass_lem_example :
    let (added, removed, s) = watch_pass directory (store (text "n1")) in
    let here = defined (lookup (text "gone") directory) in
    let before = defined (lookup (text "gone") (store (text "n1")).peer_keys) in
    (lookup (text "gone") s.peer_keys ≡ (
      if here
      then or_else
          (lookup (text "gone") (store (text "n1")).peer_keys)
          (lookup (text "gone") directory)
      else none))
    × (lookup (text "gone") s.sym_keys
        ≡ (if before && not here then none else lookup (text "gone") (store (text "n1")).sym_keys))
    × (elem (text "gone") added ≡ (here && not before))
    × (elem (text "gone") removed ≡ (before && not here))
watch_pass_lem_example = watch_pass_lem (text "gone") directory (store (text "n1"))

abbrev json : Codec NodeIdentityValue
json = record {
  encode = λ v. [];
  decode = λ s. some (self_identity (text "node") (store (text "n2")));
}

others : text "n2" ≢ text "n1"
others e = unfold str_eq in ground (arith, (str_eq_iff (text "n2") (text "n1")).1 e)

ones : (n : ℕ) → IsBytes (replicate n 1)
ones zero = tt
ones (suc n) = (omega arith, ones n)

bytes : IsBytes (replicate 32 1)
bytes = ones 32

abbrev from_peer : EcdhMessage
from_peer = record { from = text "n2"; signed_bytes = some (text "m"); signature = some (text "m") }

verify-sign_example :
    verify_signature echo
      (load_entries json ([] ++ ((text "p", []) ∷ [])) (store (text "n1")))
      from_peer
    ≡ ok tt
verify-sign_example =
    verify-sign echo json [] [] (text "p") (text "node") (replicate 64 2) (text "m") (text "m")
      (store (text "n2")) (store (text "n1")) refl bytes refl others tt str_eq_refl
      (unfold sign_message sign_raw_message in refl)

-- A signed TSS message with no sender.
abbrev unsent : TssMessage
unsent = record { from = none; signed_bytes = some (text "m"); signature = some (text "m") }

verify_message-panics_iff_example :
    ((verify_message echo (store (text "n1")) unsent ≡ err panics) ↔ (
      (sig : Str) × (some (text "m") ≡ some sig)
      × ((unsent.from ≡ none)
          ⊎ ((party : Str) × (unsent.from ≡ some party)
              × IsMisfit (store (text "n1")) (party_id_to_node_id party) (some (text "m"))))))
    × ((verify_signature echo (store (text "n1")) from_peer ≡ err panics) ↔ (
        (sig : Str) × (some (text "m") ≡ some sig)
        × IsMisfit (store (text "n1")) (text "n2") (some (text "m"))))
verify_message-panics_iff_example =
    verify_message-panics_iff echo (store (text "n1")) unsent from_peer

abbrev registry : Registry
registry = record {
  node_id = text "n1";
  peers = [];
  ready_map = [];
  ready_count = 1;
  ready = false;
  threshold = 2;
  store = store (text "n1");
  verifier = some (λ id key. false);
  session = none;
  ready_epoch = [];
}

fresh : text "new" ≢ text "n1"
fresh e = unfold str_eq in ground (arith, (str_eq_iff (text "new") (text "n1")).1 e)

unverified_stored_example :
    let s = (watch_pass directory (store (text "n1"))).2 in
    let after : Registry = record registry { store = s } in
    (on_peer_added none (text "new") after ≡ after)
    × (lookup (text "new") after.store.peer_keys ≡ some (text "k2"))
unverified_stored_example =
    unverified_stored none directory registry (text "new") (text "k2")
      (unfold lookup str_eq in refl) (unfold lookup str_eq in refl) fresh refl (unfold elem in refl)
      refl
