-- ===== src/Examples/Intervals.antt =====
-- The addresses and intervals of pkg/config/load_test.go.
use aicw_node.Base.{◌≡◌, refl, text, pos, str_eq}
use aicw_node.Orchestrator.Liveness.{trim_right}
use aicw_node.Config.{
  is_space, trim_space_left, trim_space_right, before_suffix, trim_suffix,
  normalize_node_web_base_url, to_lower, digits, magnitude, atoi, atoi_positive, wrapped,
  in_seconds, parse_value, parse_interval_seconds,
}

intervals_test :
    (parse_interval_seconds (text "90s") ≡ pos 90)
    × (parse_interval_seconds (text " 2M ") ≡ pos 120)
    × (parse_interval_seconds (text "90") ≡ pos 90)
unfolding is_space trim_space_left trim_space_right before_suffix to_lower digits magnitude atoi
    atoi_positive wrapped in_seconds parse_value parse_interval_seconds str_eq
intervals_test = (refl, refl, refl)

base_url_test :
    normalize_node_web_base_url (text "https://node.aicw.ai/api/nodes/ping/")
    ≡ text "https://node.aicw.ai"
unfolding is_space trim_space_left trim_space_right before_suffix trim_suffix trim_right
    normalize_node_web_base_url str_eq
base_url_test = refl
