-- ===== src/NodeSelection.antt =====
-- web_stridetastic/src/hooks/useNodeSelection.ts: the state of the hook and its four callbacks. What
-- the API answers is the argument `fetch`; none stands for a rejected request.
pub mod Laws
mod Tests
use stridetastic.Prelude.{
  ℕ, String, Bool, true, false, not, ◌||◌, Option, none, some, List, [], ◌∷◌, ◌==◌, if◌then◌else◌,
}
use stridetastic.Prelude.Int.{negsuc}
use stridetastic.Types.{Node, ForceGraphNode}

pub record NodeSelectionState : Type 0 where
  pub selected_node : Option Node
  pub selected_node_id : Option String
  pub second_selected_node : Option Node
  pub second_selected_node_id : Option String

abbrev pub cleared : NodeSelectionState
cleared = record {
  selected_node = none;
  selected_node_id = none;
  second_selected_node = none;
  second_selected_node_id = none;
}

-- `!id`
abbrev pub is_unset : Option String → Bool
is_unset none = true
is_unset (some s) = s == ""

-- `selectedNodeId === id`
abbrev pub equals_id : Option String → String → Bool
equals_id none id = false
equals_id (some s) id = s == id

-- A flag of a node that may be missing.
abbrev pub flag : Option Bool → Bool
flag none = false
flag (some b) = b

-- The updater that `handleNodeClick` hands to `setState`.
unfoldable pub select_node : Node → String → NodeSelectionState → NodeSelectionState
select_node node_data id prev =
    if is_unset prev.selected_node_id
    then record {
      selected_node = some node_data;
      selected_node_id = some id;
      second_selected_node = none;
      second_selected_node_id = none;
    }
    else if equals_id prev.selected_node_id id
    then cleared
    else if is_unset prev.second_selected_node_id
    then record prev { second_selected_node = some node_data; second_selected_node_id = some id }
    else if equals_id prev.second_selected_node_id id
    then record prev { second_selected_node = none; second_selected_node_id = none }
    else record prev { second_selected_node = some node_data; second_selected_node_id = some id }

-- The data of the MQTT client, which the API does not know.
unfoldable pub mqtt_node : String → Node
mqtt_node now_text = record {
  id = negsuc 998;
  node_num = negsuc 998;
  node_id = "mqtt_broker";
  mac_address = "00:00:00:00:00:00";
  short_name = some "MQTT Client";
  long_name = some "MQTT Message Broker";
  hw_model = some "Virtual Node";
  is_licensed = false;
  role = some "BROKER";
  public_key = none;
  is_low_entropy_public_key = false;
  has_private_key = false;
  private_key_fingerprint = none;
  is_unmessagable = some true;
  is_virtual = true;
  latitude = none;
  longitude = none;
  altitude = none;
  position_accuracy = none;
  location_source = none;
  battery_level = none;
  voltage = none;
  channel_utilization = none;
  air_util_tx = none;
  uptime_seconds = none;
  temperature = none;
  relative_humidity = none;
  barometric_pressure = none;
  gas_resistance = none;
  iaq = none;
  latency_reachable = none;
  latency_ms = none;
  first_seen = now_text;
  last_seen = now_text;
  private_key_updated_at = none;
  interfaces = some ("MQTT Interface" ∷ []);
}

-- What the API answers for the clicked node reaches the state through `setState`.
unfoldable pub apply_fetched : String → Option Node → NodeSelectionState → NodeSelectionState
apply_fetched id none s = s
apply_fetched id (some node_data) s = select_node node_data id s

module _ (now_text : String) (fetch : String → Option Node) where
  unfoldable pub handle_node_click : ForceGraphNode → NodeSelectionState → NodeSelectionState
  handle_node_click node s =
      if flag node.is_hidden
      then s
      else apply_fetched node.id
          (if flag node.is_mqtt_broker then some (mqtt_node now_text) else fetch node.node_id) s

  unfoldable pub set_fetched : Option Node → NodeSelectionState → NodeSelectionState × Bool
  set_fetched none s = (s, false)
  set_fetched (some node_data) s = (
    record cleared { selected_node = some node_data; selected_node_id = some node_data.node_id },
    true,
  )

  -- The callback's result says whether the node was selected.
  unfoldable pub select_node_by_id : Option String → NodeSelectionState → NodeSelectionState × Bool
  select_node_by_id none s = (s, false)
  select_node_by_id (some id) s = if id == "" then (s, false) else set_fetched (fetch id) s

unfoldable pub clear_selection : NodeSelectionState → NodeSelectionState
clear_selection s = cleared

unfoldable pub swap_nodes : NodeSelectionState → NodeSelectionState
swap_nodes prev = record {
  selected_node = prev.second_selected_node;
  selected_node_id = prev.second_selected_node_id;
  second_selected_node = prev.selected_node;
  second_selected_node_id = prev.selected_node_id;
}
