-- ===== src/NetworkTransforms/Broker.antt =====
-- networkTransforms.ts: when the node of the MQTT client is there.
use stridetastic.Prelude.{
  ap, ◌∙◌, ℕ, zero, suc, ◌+◌, ◌++◌, ◌==◌, true, map, keep_if, keep_if-append, if_rule,
  if◌then◌else◌, eqb, ltb, ◌≡◌, refl, String, Bool, false, not, ◌&&◌, ◌||◌, List, [], ◌∷◌, arith,
  any,
}
use stridetastic.Prelude.Int.{ℤ}
use stridetastic.Types.{ForceGraphNode, Node, Edge}
use stridetastic.Platform.{Platform}
use stridetastic.ActivityFilters.{ActivityTimeRange, is_within_time_range}
use stridetastic.NetworkTransforms.Filters.{
  is_all, is_loop, has_node, SelfDirected, get_loop, set_loop, should_set, note_loop, note_loops,
  self_directed,
}
use stridetastic.NetworkTransforms.Build.{
  Graph, push_edge, push_multi_hop, push_edges, hidden_node, push_known, to_graph_node, View,
  hidden_nodes, mqtt_broker_node, has_broker, is_loops_empty,
}
use stridetastic.NetworkTransforms.Signal.{is_mqtt_link}
use stridetastic.NetworkTransforms.{TransformSettings, shown_edges, transform_network_data}
use stridetastic.NetworkTransforms.Filters.{filter_nodes}
use stridetastic.NodeSelection.{flag}
use mathlib.Core.List.{append-nil}

set_loop-nonempty :
    (id : ℤ) (seen : String) (loops : SelfDirected)
    → is_loops_empty (set_loop id seen loops) ≡ false
unfolding set_loop
set_loop-nonempty id seen [] = refl
set_loop-nonempty id seen ((key, old) ∷ more) = ground arith

module _ (platform : Platform) (range : ActivityTimeRange) (nodes : List Node) where
  -- An edge from a kept node to itself, seen within the range.
  abbrev pub is_self_link : Edge → Bool
  is_self_link edge =
      is_loop edge
      && (has_node nodes edge.source_node_id
          && (is_all range || is_within_time_range platform edge.last_seen range))

  note_loop-empty :
      (loops : SelfDirected) (edge : Edge)
      → is_loops_empty (note_loop platform range nodes loops edge)
        ≡ (is_loops_empty loops && not (is_self_link edge))
  unfolding note_loop should_set get_loop
  note_loop-empty [] edge = ground (arith, set_loop-nonempty edge.source_node_id edge.last_seen [])
  note_loop-empty (entry ∷ more) edge =
      ground (arith, set_loop-nonempty edge.source_node_id edge.last_seen (entry ∷ more))

  note_loops-empty :
      (loops : SelfDirected) (edges : List Edge)
      → is_loops_empty (note_loops platform range nodes loops edges)
        ≡ (is_loops_empty loops && not (any is_self_link edges))
  unfolding note_loops
  note_loops-empty loops [] = ground arith
  note_loops-empty loops (edge ∷ edges) = ground (
    arith,
    note_loops-empty (note_loop platform range nodes loops edge) edges,
    note_loop-empty loops edge,
  )

  -- The guard of the node: it is to be shown, and some kept node has a link to itself within the range.
  has_broker-self_directed :
      (show : Bool) (edges : List Edge)
      → has_broker show (self_directed platform range nodes edges)
        ≡ (any is_self_link edges && show)
  unfolding self_directed
  has_broker-self_directed show edges = ground (arith, note_loops-empty [] edges)

abbrev pub is_broker : ForceGraphNode → Bool
is_broker node = flag node.is_mqtt_broker

-- The nodes of the MQTT client.
abbrev pub brokers : List ForceGraphNode → List ForceGraphNode
brokers nodes = keep_if is_broker nodes

module _ (platform : Platform) where
  brokers-plain : (nodes : List Node) → brokers (map (to_graph_node platform) nodes) ≡ []
  unfolding to_graph_node
  brokers-plain [] = refl
  brokers-plain (node ∷ nodes) = brokers-plain nodes

  brokers-hidden_nodes :
      (edge : Edge) (counter count : ℕ) → brokers (hidden_nodes platform edge counter count) ≡ []
  unfolding hidden_nodes hidden_node
  brokers-hidden_nodes edge counter zero = refl
  brokers-hidden_nodes edge counter (suc count) = brokers-hidden_nodes edge (counter + 1) count

  module _ (view : View) (exclude : Bool) (nodes : List Node) where
    -- The loop over the edges pushes hidden nodes only.
    brokers-push_known :
        (edge : Edge) (source_id target_id : String) (g : Graph)
        → brokers (push_known platform view exclude edge source_id target_id g).nodes
          ≡ brokers g.nodes
    unfolding push_known push_multi_hop
    brokers-push_known edge source_id target_id g =
        let kept = λ (h : Graph). brokers h.nodes ≡ brokers g.nodes in
        if_rule kept (source_id == "" || target_id == "") refl (
          if_rule kept (is_mqtt_link edge && not (is_loop edge)) refl (
            if_rule kept (exclude && ltb 0 edge.last_hops) refl (
              if_rule kept (eqb edge.last_hops 0) refl (
                rw
                  (
                    keep_if-append is_broker g.nodes
                        (hidden_nodes platform edge g.hidden_node_counter edge.last_hops),
                    brokers-hidden_nodes edge g.hidden_node_counter edge.last_hops,
                  )
                  (append-nil (brokers g.nodes))))))

    brokers-push_edges :
        (edges : List Edge) (g : Graph)
        → brokers (push_edges platform view exclude nodes edges g).nodes ≡ brokers g.nodes
    unfolding push_edges push_edge
    brokers-push_edges [] g = refl
    brokers-push_edges (edge ∷ edges) g = brokers-push_edges edges _ ∙ brokers-push_known edge _ _ g

  first_brokers :
      (broker : Bool) (nodes : List Node)
      → let plain = map (to_graph_node platform) nodes in
        brokers (if broker then plain ++ mqtt_broker_node platform ∷ [] else plain)
        ≡ (if broker then mqtt_broker_node platform ∷ [] else [])
  unfolding mqtt_broker_node
  first_brokers true nodes =
      rw
        (
          keep_if-append is_broker (map (to_graph_node platform) nodes)
              (mqtt_broker_node platform ∷ []),
          brokers-plain nodes,
        )
        refl
  first_brokers false nodes = brokers-plain nodes

  -- The result has the node of the MQTT client exactly once if it is to be shown and some node that the
  -- activity filter keeps has an edge to itself within the range of the links, and else not at all.
  pub brokers-transform_network_data :
      (settings : TransformSettings) (nodes : List Node) (edges : List Edge)
      → let kept = filter_nodes platform settings.node_activity_filter nodes in
        brokers (transform_network_data platform settings nodes edges).nodes ≡ (
          if any (is_self_link platform settings.link_activity_filter kept) edges
            && settings.show_mqtt_interface
          then mqtt_broker_node platform ∷ []
          else [])
  unfolding transform_network_data
  brokers-transform_network_data settings nodes edges =
      let kept = filter_nodes platform settings.node_activity_filter nodes in
      let guard =
        has_broker-self_directed platform settings.link_activity_filter kept
          settings.show_mqtt_interface edges in
      brokers-push_edges settings.graph_or_map settings.exclude_multi_hop kept
        (shown_edges platform settings kept edges) _
      ∙ first_brokers _ kept
      ∙ ap (λ b. if b then mqtt_broker_node platform ∷ [] else []) guard
