-- ===== src/NetworkTransforms/Build.antt =====
-- networkTransforms.ts, transformNetworkData: the loops that push nodes and links.
use Prim.Native.String.{◌++◌ as str_append, slice, len}
use stridetastic.Prelude.{
  ℕ, zero, suc, ◌+◌, ◌-◌, String, Bool, true, false, not, ◌&&◌, ◌||◌, Option, none, some, List, [],
  ◌∷◌, ◌++◌, ◌==◌, if◌then◌else◌, ltb, eqb, or_else,
}
use stridetastic.Prelude.Int.{ℤ, pos, negsuc, int, abs, over_suc}
use stridetastic.Types.{Node, Edge, ForceGraphNode, ForceGraphLink, text}
use stridetastic.Platform.{Platform}
use stridetastic.NetworkTransforms.Signal.{
  is_mqtt_link, get_link_distance, get_link_width, get_node_activity_color, get_link_activity_color,
  get_link_color,
}
use stridetastic.NetworkTransforms.Filters.{node_id_of, is_loop, SelfDirected}

-- 'graph' or 'map'
pub data View : Type 0 where
  graph map_view : View

abbrev pub is_map : View → Bool
is_map graph = false
is_map map_view = true

-- The arrays and the counter that the loop over the edges pushes to.
pub record Graph : Type 0 where
  pub nodes : List ForceGraphNode
  pub links : List ForceGraphLink
  pub hidden_node_counter : ℕ

abbrev pub is_loops_empty : SelfDirected → Bool
is_loops_empty [] = true
is_loops_empty (_ ∷ _) = false

-- `selfDirectedNodes.size > 0 && showMqttInterface`
abbrev pub has_broker : Bool → SelfDirected → Bool
has_broker show loops = not (is_loops_empty loops) && show

-- `text || fallback`, for an optional text
abbrev pub text_or : Option String → String → String
text_or none fallback = fallback
text_or (some s) fallback = if s == "" then fallback else s

-- `node_id.slice(-4)`, for the ASCII identifiers of the API
abbrev pub last_four : String → String
last_four s = slice s (len s - 4) (len s)

module _ (platform : Platform) where
  unfoldable pub to_graph_node : Node → ForceGraphNode
  to_graph_node node = record {
    id = node.node_id;
    name = text_or node.short_name (last_four node.node_id);
    node_num = node.node_num;
    node_id = node.node_id;
    battery_level = node.battery_level;
    hw_model = node.hw_model;
    role = node.role;
    last_seen = node.last_seen;
    latitude = node.latitude;
    longitude = node.longitude;
    altitude = node.altitude;
    position_accuracy = node.position_accuracy;
    location_source = node.location_source;
    short_name = node.short_name;
    long_name = node.long_name;
    color =
        some
          (if node.is_virtual then "#6366f1" else get_node_activity_color platform node.last_seen);
    size = some 10;
    is_hidden = some false;
    is_mqtt_broker = none;
    is_interface_node = none;
    mac_address = some node.mac_address;
    is_licensed = some node.is_licensed;
    public_key = node.public_key;
    is_unmessagable = node.is_unmessagable;
    voltage = node.voltage;
    channel_utilization = node.channel_utilization;
    air_util_tx = node.air_util_tx;
    uptime_seconds = node.uptime_seconds;
    temperature = node.temperature;
    relative_humidity = node.relative_humidity;
    barometric_pressure = node.barometric_pressure;
    gas_resistance = node.gas_resistance;
    iaq = node.iaq;
    latency_reachable = node.latency_reachable;
    latency_ms = node.latency_ms;
    first_seen = some node.first_seen;
    is_virtual = some node.is_virtual;
  }

  -- A graph node of which the optional fields are not set.
  abbrev pub bare_node : String → String → ℤ → String → ForceGraphNode
  bare_node id name node_num last_seen = record {
    id = id;
    name = name;
    node_num = node_num;
    node_id = id;
    battery_level = none;
    hw_model = none;
    role = none;
    last_seen = last_seen;
    latitude = none;
    longitude = none;
    altitude = none;
    position_accuracy = none;
    location_source = none;
    short_name = none;
    long_name = none;
    color = none;
    size = none;
    is_hidden = none;
    is_mqtt_broker = none;
    is_interface_node = none;
    mac_address = none;
    is_licensed = none;
    public_key = none;
    is_unmessagable = none;
    voltage = none;
    channel_utilization = none;
    air_util_tx = none;
    uptime_seconds = none;
    temperature = none;
    relative_humidity = none;
    barometric_pressure = none;
    gas_resistance = none;
    iaq = none;
    latency_reachable = none;
    latency_ms = none;
    first_seen = none;
    is_virtual = none;
  }

  unfoldable pub mqtt_broker_node : ForceGraphNode
  mqtt_broker_node = record (bare_node "mqtt_broker" "MQTT Client" (negsuc 998) platform.now_text) {
    hw_model = some "MQTT Client";
    role = some "BROKER";
    color = some "#8b5cf6";
    size = some 15;
    is_hidden = some false;
    is_mqtt_broker = some true;
  }

  -- `hidden_${counter}`
  unfoldable pub hidden_id : ℕ → String
  hidden_id n = str_append "hidden_" (platform.decimal n)

  unfoldable pub hidden_node : Edge → ℕ → ForceGraphNode
  hidden_node edge n = record (bare_node (hidden_id n) "?" (negsuc 0) edge.last_seen) {
    color = some (get_link_activity_color platform edge.last_seen);
    size = some 2;
    is_hidden = some true;
  }

  -- The link of an edge with no hop between; a multi-hop edge differs by its two flags.
  unfoldable pub direct_link : Edge → String → String → ForceGraphLink
  direct_link edge source_id target_id = record {
    source = text source_id;
    target = text target_id;
    rssi = edge.last_rx_rssi;
    snr = edge.last_rx_snr;
    hops = edge.last_hops;
    last_seen = edge.last_seen;
    color = some (get_link_color platform edge);
    width = some (get_link_width edge);
    value = some (abs edge.last_rx_rssi);
    is_mqtt = some (is_mqtt_link edge);
    distance = some (int (pos (get_link_distance edge)));
    is_multi_hop_segment = none;
    original_hops = none;
    is_last_hop = none;
    is_mqtt_broker_link = none;
    is_direct_multi_hop = none;
  }

  unfoldable pub multi_hop_link : Edge → String → String → ForceGraphLink
  multi_hop_link edge source_id target_id = record (direct_link edge source_id target_id) {
    is_direct_multi_hop = some true;
    original_hops = some edge.last_hops;
  }

  unfoldable pub segment : Edge → Bool → String → String → ForceGraphLink
  segment edge is_last source_id target_id = record {
    source = text source_id;
    target = text target_id;
    rssi = edge.last_rx_rssi;
    snr = edge.last_rx_snr;
    hops = 0;
    last_seen = edge.last_seen;
    color = some (get_link_activity_color platform edge.last_seen);
    width = some (get_link_width edge);
    value = some (abs edge.last_rx_rssi);
    is_mqtt = some (is_mqtt_link edge);
    distance = some (over_suc (int (pos (get_link_distance edge))) edge.last_hops);
    is_multi_hop_segment = some true;
    original_hops = some edge.last_hops;
    is_last_hop = some is_last;
    is_mqtt_broker_link = none;
    is_direct_multi_hop = none;
  }

  -- The identifiers of the next `count` hidden nodes, from the counter's value on.
  unfoldable pub hidden_ids : ℕ → ℕ → List String
  hidden_ids counter zero = []
  hidden_ids counter (suc count) = hidden_id counter ∷ hidden_ids (counter + 1) count

  unfoldable pub hidden_nodes : Edge → ℕ → ℕ → List ForceGraphNode
  hidden_nodes edge counter zero = []
  hidden_nodes edge counter (suc count) =
      hidden_node edge counter ∷ hidden_nodes edge (counter + 1) count

  -- The loop over `nodeChain`.
  unfoldable pub chain_links : Edge → List String → List ForceGraphLink
  chain_links edge [] = []
  chain_links edge (id ∷ []) = []
  chain_links edge (id ∷ next ∷ []) = segment edge true id next ∷ []
  chain_links edge (id ∷ next ∷ after ∷ rest) =
      segment edge false id next ∷ chain_links edge (next ∷ after ∷ rest)

  -- An edge of at least one hop: the direct link of the map view, the hidden nodes and the chain.
  unfoldable pub push_multi_hop : View → Edge → String → String → Graph → Graph
  push_multi_hop view edge source_id target_id g =
      let direct = if is_map view then multi_hop_link edge source_id target_id ∷ [] else [] in
      let hidden = hidden_ids g.hidden_node_counter edge.last_hops in
      record {
        nodes = g.nodes ++ hidden_nodes edge g.hidden_node_counter edge.last_hops;
        links = (g.links ++ direct) ++ chain_links edge (source_id ∷ (hidden ++ target_id ∷ []));
        hidden_node_counter = g.hidden_node_counter + edge.last_hops;
      }

  -- The callback of `filteredEdges.forEach`, behind the look-up of the two ends.
  unfoldable pub push_known : View → Bool → Edge → String → String → Graph → Graph
  push_known view exclude_multi_hop edge source_id target_id g =
      if source_id == "" || target_id == ""
      then g
      else if is_mqtt_link edge && not (is_loop edge)
      then g
      else if exclude_multi_hop && ltb 0 edge.last_hops
      then g
      else if eqb edge.last_hops 0
      then record g { links = g.links ++ direct_link edge source_id target_id ∷ [] }
      else push_multi_hop view edge source_id target_id g

  unfoldable pub push_edge : View → Bool → List Node → Edge → Graph → Graph
  push_edge view exclude_multi_hop nodes edge g =
      push_known view exclude_multi_hop edge (or_else (node_id_of nodes edge.source_node_id) "")
        (or_else (node_id_of nodes edge.target_node_id) "") g

  unfoldable pub push_edges : View → Bool → List Node → List Edge → Graph → Graph
  push_edges view exclude_multi_hop nodes [] g = g
  push_edges view exclude_multi_hop nodes (edge ∷ edges) g =
      push_edges view exclude_multi_hop nodes edges (push_edge view exclude_multi_hop nodes edge g)

  unfoldable pub mqtt_link : String → String → String → ForceGraphLink
  mqtt_link source_id target_id last_seen = record {
    source = text source_id;
    target = text target_id;
    rssi = int (pos 0);
    snr = int (pos 0);
    hops = 1;
    last_seen = last_seen;
    color = some (get_link_activity_color platform last_seen);
    width = some 1;
    value = some (int (pos 1));
    is_mqtt = some true;
    distance = some (int (pos 150));
    is_multi_hop_segment = none;
    original_hops = none;
    is_last_hop = none;
    is_mqtt_broker_link = some true;
    is_direct_multi_hop = none;
  }

  -- The callback of `selfDirectedNodes.forEach`, behind the look-up of the node.
  unfoldable pub mqtt_pair : Option String → String → List ForceGraphLink
  mqtt_pair none last_seen = []
  mqtt_pair (some id) last_seen =
      let seen = if last_seen == "" then platform.now_text else last_seen in
      if id == ""
      then []
      else mqtt_link id "mqtt_broker" seen ∷ mqtt_link "mqtt_broker" id seen ∷ []

  unfoldable pub push_mqtt_links :
      List Node → SelfDirected → List ForceGraphLink → List ForceGraphLink
  push_mqtt_links nodes [] links = links
  push_mqtt_links nodes ((id, last_seen) ∷ loops) links =
      push_mqtt_links nodes loops (links ++ mqtt_pair (node_id_of nodes id) last_seen)
