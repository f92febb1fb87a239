-- ===== src/Ping/Started.antt =====
-- The pings that StartPeriodicPing starts.
use aicw_node.Base.{◌≡◌, some, arith, Str, ℤ}
use aicw_node.Ping.{
  PingConfig, PingOutside, build_node_ping_message, ping_endpoint, post_ping, send_ping,
  start_periodic_ping,
}

-- Where the pings are started, no guard of a ping refuses it: it is signed and sent, and fails as the
-- request does.
pub send_ping-start_periodic_ping :
    (out : PingOutside) (timestamp id key : Str) (cfg : PingConfig) (seconds : ℤ)
    → start_periodic_ping id key cfg ≡ some seconds
    → send_ping out timestamp cfg.base_url id key
      ≡ post_ping out (ping_endpoint cfg.base_url) (record {
        node_id = id;
        timestamp = timestamp;
        signature_base64 = out.base64 (out.sign key (build_node_ping_message id timestamp));
      })
unfolding start_periodic_ping send_ping
send_ping-start_periodic_ping out timestamp id key cfg seconds h = ground arith
