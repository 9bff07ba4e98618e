-- ===== src/NetworkTransforms/Signal.antt =====
-- networkTransforms.ts: distance, width and colour of a node or link from its signal and activity.
pub mod Laws
use stridetastic.Prelude.{ℕ, String, Bool, true, false, ◌&&◌, Option, none, some, if◌then◌else◌}
use stridetastic.Prelude.Int.{pos, negsuc, Decimal, int, leb_dec, ltb_dec, is_zero}
use stridetastic.Types.{Edge}
use stridetastic.Platform.{Platform}
use stridetastic.ActivityFilters.{get_minutes_ago}

unfoldable pub is_mqtt_link : Edge → Bool
is_mqtt_link edge = is_zero edge.last_rx_rssi && is_zero edge.last_rx_snr

unfoldable pub get_link_distance : Edge → ℕ
unfolding is_mqtt_link
get_link_distance edge =
    if is_mqtt_link edge
    then 200
    else if leb_dec (int (pos 10)) edge.last_rx_snr
    then 60
    else if leb_dec (int (pos 5)) edge.last_rx_snr
    then 80
    else if leb_dec (int (pos 0)) edge.last_rx_snr
    then 100
    else if leb_dec (int (negsuc 4)) edge.last_rx_snr
    then 120
    else 140

unfoldable pub get_link_width : Edge → ℕ
unfolding is_mqtt_link
get_link_width edge =
    if is_mqtt_link edge
    then 1
    else if leb_dec (int (pos 10)) edge.last_rx_snr
    then 5
    else if leb_dec (int (pos 5)) edge.last_rx_snr
    then 4
    else if leb_dec (int (pos 0)) edge.last_rx_snr
    then 3
    else if leb_dec (int (negsuc 4)) edge.last_rx_snr
    then 2
    else 1

-- A comparison with NaN is false.
abbrev pub less_than : Option Decimal → ℕ → Bool
less_than none bound = false
less_than (some minutes) bound = ltb_dec minutes (int (pos bound))

module _ (platform : Platform) where
  unfoldable pub get_node_activity_color : String → String
  get_node_activity_color last_seen =
      let minutes_ago = get_minutes_ago platform last_seen in
      if less_than minutes_ago 5
      then "#22c55e"
      else if less_than minutes_ago 60
      then "#84cc16"
      else if less_than minutes_ago 120
      then "#eab308"
      else if less_than minutes_ago 1440
      then "#f97316"
      else "#ef4444"

  unfoldable pub get_link_activity_color : String → String
  get_link_activity_color last_seen =
      let minutes_ago = get_minutes_ago platform last_seen in
      if less_than minutes_ago 5
      then "#22c55e"
      else if less_than minutes_ago 60
      then "#84cc16"
      else if less_than minutes_ago 120
      then "#eab308"
      else if less_than minutes_ago 1440
      then "#f97316"
      else "#ef4444"

  unfoldable pub get_link_color : Edge → String
  get_link_color edge = get_link_activity_color edge.last_seen
