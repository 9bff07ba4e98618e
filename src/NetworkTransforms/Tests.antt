-- ===== src/NetworkTransforms/Tests.antt =====
-- Runs of transformNetworkData, and instances of its theorems.
use stridetastic.Prelude.{
  if◌then◌else◌, ℕ, ◌≡◌, refl, String, true, false, ◌&&◌, some, List, [], ◌∷◌, All, any,
}
use stridetastic.Prelude.Int.{ℤ, pos, negsuc, int}
use stridetastic.Types.{Node, Edge}
use stridetastic.Platform.{Platform}
use stridetastic.ActivityFilters.{all}
use stridetastic.NodeSelection.{mqtt_node}
use stridetastic.NetworkTransforms.{TransformSettings, transform_network_data}
use stridetastic.NetworkTransforms.Filters.{filter_nodes}
use stridetastic.NetworkTransforms.Build.{map_view, mqtt_broker_node, Graph}
use stridetastic.NetworkTransforms.Reverse.{force_bidirectional_no_effect}
use stridetastic.NetworkTransforms.Anchored.{IsAnchored, transform_network_data-IsAnchored}
use stridetastic.NetworkTransforms.Hops.{IsShown, IsPlainLink, exclude_multi_hop_lem}
use stridetastic.NetworkTransforms.Broker.{is_self_link, brokers, brokers-transform_network_data}

abbrev clock : Platform
clock = record {
  now = pos 0;
  now_text = "1970-01-01T00:00:00.000Z";
  time_of = λ date. some (pos 0);
  decimal = λ n. "0";
  integer_text = λ z. "0";
  number_text = λ d. "0";
}

abbrev node : ℤ → String → Node
node id node_id = record (mqtt_node "") { id = id; node_id = node_id }

abbrev edge : ℤ → ℤ → ℕ → ℤ → Edge
edge source_id target_id hops snr = record {
  source_node_id = source_id;
  target_node_id = target_id;
  first_seen = "";
  last_seen = "x";
  last_packet_id = 0;
  last_rx_rssi = int (negsuc 79);
  last_rx_snr = int snr;
  last_hops = hops;
  edge_type = "PHYSICAL";
  interfaces_names = [];
}

-- 1 → 2 without hops, 2 → 3 with two hops, and 3 to itself.
abbrev nodes : List Node
nodes = node (pos 1) "!a" ∷ node (pos 2) "!b" ∷ node (pos 3) "!c" ∷ []

abbrev edges : List Edge
edges =
    edge (pos 1) (pos 2) 0 (pos 6)
    ∷ edge (pos 2) (pos 3) 2 (pos 1)
    ∷ edge (pos 3) (pos 3) 0 (pos 0)
    ∷ []

abbrev settings : TransformSettings
settings = record {
  graph_or_map = map_view;
  show_bidirectional_only = false;
  show_mqtt_interface = true;
  force_bidirectional = false;
  exclude_multi_hop = true;
  node_activity_filter = all;
  link_activity_filter = all;
}

abbrev empty_graph : Graph
empty_graph = record { nodes = []; links = []; hidden_node_counter = 0 }

force_bidirectional_no_effect_example :
    transform_network_data clock (record settings { force_bidirectional = true }) nodes edges
    ≡ transform_network_data clock (record settings { force_bidirectional = false }) nodes edges
force_bidirectional_no_effect_example = force_bidirectional_no_effect clock settings nodes edges

transform_network_data-IsAnchored_example :
    All
      (IsAnchored (transform_network_data clock settings nodes edges).nodes)
      (transform_network_data clock settings nodes edges).links
transform_network_data-IsAnchored_example =
    transform_network_data-IsAnchored clock settings nodes edges

exclude_multi_hop_lem_example :
    All IsShown (transform_network_data clock settings nodes edges).nodes
    × All IsPlainLink (transform_network_data clock settings nodes edges).links
exclude_multi_hop_lem_example = exclude_multi_hop_lem clock settings nodes edges refl

brokers-transform_network_data_example :
    brokers (transform_network_data clock settings nodes edges).nodes ≡ (
      if any
          (is_self_link clock settings.link_activity_filter
            (filter_nodes clock settings.node_activity_filter nodes))
          edges
        && settings.show_mqtt_interface
      then mqtt_broker_node clock ∷ []
      else [])
brokers-transform_network_data_example = brokers-transform_network_data clock settings nodes edges
