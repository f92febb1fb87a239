-- ===== src/Types/Signed.antt =====
-- What the signed bytes of a message determine.
use aicw_node.Base.{◌≡◌, ◌↔◌, sym, ap, ◌∙◌, some, arith, SameItems, sort_items_iff}
use aicw_node.Consul.{Codec}
use aicw_node.Types.Messages.{SignTxMessage, SignTxPayload, sign_tx_payload, sign_tx_raw}

-- The same request, with the same participants in whatever order; the signatures do not matter.
pub record IsSameRequest (m m' : SignTxMessage) : Type 0 where
  pub key_type : m.key_type ≡ m'.key_type
  pub wallet_id : m.wallet_id ≡ m'.wallet_id
  pub network_internal_code : m.network_internal_code ≡ m'.network_internal_code
  pub tx_id : m.tx_id ≡ m'.tx_id
  pub tx : m.tx ≡ m'.tx
  pub derivation_path : m.derivation_path ≡ m'.derivation_path
  pub participants : SameItems m.participant_peer_ids m'.participant_peer_ids

payload_iff : (m m' : SignTxMessage) → (sign_tx_payload m ≡ sign_tx_payload m') ↔ IsSameRequest m m'
unfolding sign_tx_payload
payload_iff m m' = (
  λ e. record {
    key_type = ap (λ (p : SignTxPayload). p.key_type) e;
    wallet_id = ap (λ (p : SignTxPayload). p.wallet_id) e;
    network_internal_code = ap (λ (p : SignTxPayload). p.network_internal_code) e;
    tx_id = ap (λ (p : SignTxPayload). p.tx_id) e;
    tx = ap (λ (p : SignTxPayload). p.tx) e;
    derivation_path = ap (λ (p : SignTxPayload). p.derivation_path) e;
    participants =
        (sort_items_iff m.participant_peer_ids m'.participant_peer_ids).0
          (ap (λ (p : SignTxPayload). p.participant_peer_ids) e);
  },
  λ h. ground (
    arith,
    h.key_type,
    h.wallet_id,
    h.network_internal_code,
    h.tx_id,
    h.tx,
    h.derivation_path,
    (sort_items_iff m.participant_peer_ids m'.participant_peer_ids).1 h.participants,
  ),
)

-- Where JSON reads back what it wrote of the two payloads, two signing requests have the same
-- signed bytes exactly if they agree in every signed field and name the same participants as
-- often, in whatever order: the committee cannot be changed under a signature, and its order does
-- not matter.
pub sign_tx_raw_iff :
    (json : Codec SignTxPayload) (m m' : SignTxMessage)
    → json.decode (sign_tx_raw json m) ≡ some (sign_tx_payload m)
    → json.decode (sign_tx_raw json m') ≡ some (sign_tx_payload m')
    → (sign_tx_raw json m ≡ sign_tx_raw json m') ↔ IsSameRequest m m'
unfolding sign_tx_raw
sign_tx_raw_iff json m m' r r' = (
  λ e. (payload_iff m m').0 (some_inj (sym r ∙ (ap json.decode e ∙ r'))),
  λ h. ap json.encode ((payload_iff m m').1 h),
)
  where
    some_inj : {a b : SignTxPayload} → some a ≡ some b → a ≡ b
    some_inj e = cc
