-- ===== src/Ping.antt =====
-- pkg/nodeweb/ping.go: the signed ping of a node. The signature, base64, JSON and the HTTP client are
-- arguments.
pub mod Started
use aicw_node.Base.{
  ℕ, suc, Bool, true, false, not, ◌==◌, ◌&&◌, leb, Option, none, some, [], ◌∷◌, ◌++◌, if◌then◌else◌,
  Str, text, str_eq, length, ℤ, pos, negsuc, Result, ok, err,
}
use aicw_node.Config.{trim_space}
use aicw_node.Orchestrator.Liveness.{trim_right}

pub record PingConfig : Type 0 where
  pub enabled : Bool
  pub base_url : Str
  pub interval_seconds : ℤ

pub record PingRequest : Type 0 where
  pub node_id : Str
  pub timestamp : Str
  pub signature_base64 : Str

-- What the libraries answer: `marshal` and `request` fail with `none`, `post` gives the status of
-- the body sent to an address.
pub record PingOutside : Type 0 where
  pub sign : Str → Str → Str
  pub base64 : Str → Str
  pub marshal : PingRequest → Option Str
  pub is_url : Str → Bool
  pub post : Str → Str → Option ℕ

pub data PingError : Type 0 where
  empty_url empty_id bad_key marshal_failed bad_request request_failed : PingError
  bad_status : ℕ → PingError

unfoldable pub build_node_ping_message : Str → Str → Str
build_node_ping_message id timestamp =
    text "AICW Node Ping" ++ 10 ∷ text "Node ID: " ++ id ++ 10 ∷ text "Timestamp: " ++ timestamp

unfoldable pub ping_endpoint : Str → Str
ping_endpoint base = trim_right 47 (trim_space base) ++ text "/api/nodes/ping"

unfoldable pub status_answer : Option ℕ → Result PingError (Unit {0})
status_answer none = err request_failed
status_answer (some status) =
    if leb 200 status && leb status 299 then ok tt else err (bad_status status)

unfoldable pub post_ping : PingOutside → Str → PingRequest → Result PingError (Unit {0})
post_ping out endpoint request = elim (out.marshal request) [
  | none ↦ err marshal_failed
  | some body ↦
      if out.is_url endpoint then status_answer (out.post endpoint body) else err bad_request
]

-- `timestamp` is the time of the call, and 64 the size of a private key.
unfoldable pub send_ping : PingOutside → Str → Str → Str → Str → Result PingError (Unit {0})
send_ping out timestamp base id key =
    if str_eq (trim_space base) []
    then err empty_url
    else if str_eq (trim_space id) []
    then err empty_id
    else if not (length key == 64)
    then err bad_key
    else post_ping out (ping_endpoint base) (record {
      node_id = id;
      timestamp = timestamp;
      signature_base64 = out.base64 (out.sign key (build_node_ping_message id timestamp));
    })

unfoldable pub interval_or : ℤ → ℤ
interval_or (pos (suc n)) = pos (suc n)
interval_or _ = pos 120

-- The seconds between the pings that start, `none` where none do.
unfoldable pub start_periodic_ping : Str → Str → PingConfig → Option ℤ
start_periodic_ping id key cfg =
    if not cfg.enabled
    then none
    else if str_eq (trim_space cfg.base_url) []
    then none
    else if str_eq (trim_space id) []
    then none
    else if not (length key == 64)
    then none
    else some (interval_or cfg.interval_seconds)
