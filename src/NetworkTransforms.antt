-- ===== src/NetworkTransforms.antt =====
-- web_stridetastic/src/lib/networkTransforms.ts: from the API's nodes and edges to the force graph.
-- `Filters` holds the edge filters, `Build` the loops that push nodes and links.
pub mod Signal
pub mod Filters
pub mod Build
pub mod Reverse
pub mod Anchored
pub mod Hops
pub mod Broker
mod Tests
use stridetastic.Prelude.{
  ℕ, String, Bool, true, false, Option, none, some, List, [], ◌∷◌, ◌++◌, map, if◌then◌else◌, leb,
  ltb, length, ◌&&◌,
}
use stridetastic.Types.{Node, Edge, ForceGraphNode, ForceGraphLink}
use stridetastic.Platform.{Platform}
use stridetastic.ActivityFilters.{ActivityTimeRange}
use stridetastic.NetworkTransforms.Filters.{
  filter_nodes, filter_edges, filter_activity, filter_bidirectional, add_reverse_edges,
  self_directed,
}
use stridetastic.NetworkTransforms.Build.{
  View, Graph, to_graph_node, mqtt_broker_node, push_edges, push_mqtt_links, has_broker,
}

pub record TransformSettings : Type 0 where
  pub graph_or_map : View
  pub show_bidirectional_only : Bool
  pub show_mqtt_interface : Bool
  pub force_bidirectional : Bool
  pub exclude_multi_hop : Bool
  pub node_activity_filter : ActivityTimeRange
  pub link_activity_filter : ActivityTimeRange

pub record TransformResult : Type 0 where
  pub nodes : List ForceGraphNode
  pub links : List ForceGraphLink
  pub virtual_edge_set : List String

module _ (platform : Platform) where
  -- The edges after all filters, the reverse edges included.
  unfoldable pub shown_edges : TransformSettings → List Node → List Edge → List Edge
  shown_edges settings nodes edges =
      let active =
        filter_activity platform settings.link_activity_filter (filter_edges nodes edges) in
      let both = if settings.show_bidirectional_only then filter_bidirectional active else active in
      if settings.force_bidirectional then add_reverse_edges both else both

  unfoldable pub transform_network_data :
      TransformSettings → List Node → List Edge → TransformResult
  transform_network_data settings nodes edges =
      let kept = filter_nodes platform settings.node_activity_filter nodes in
      let loops = self_directed platform settings.link_activity_filter kept edges in
      let broker = has_broker settings.show_mqtt_interface loops in
      let plain = map (to_graph_node platform) kept in
      let with_broker = if broker then plain ++ mqtt_broker_node platform ∷ [] else plain in
      let built =
        push_edges platform settings.graph_or_map settings.exclude_multi_hop kept
          (shown_edges settings kept edges)
          (record { nodes = with_broker; links = []; hidden_node_counter = 0 }) in
      record {
        nodes = built.nodes;
        links = if broker then push_mqtt_links platform kept loops built.links else built.links;
        virtual_edge_set = [];
      }
