-- ===== src/NetworkData/Tests.antt =====
-- An instance of the theorem on the hook's state.
use stridetastic.Prelude.{true, false, some, none, List, [], ◌∷◌}
use stridetastic.Prelude.Int.{pos}
use stridetastic.Types.{Node}
use stridetastic.Platform.{Platform}
use stridetastic.ActivityFilters.{all, day}
use stridetastic.NodeSelection.{mqtt_node}
use stridetastic.NetworkTransforms.{TransformSettings}
use stridetastic.NetworkTransforms.Build.{graph, map_view}
use stridetastic.NetworkData.{initial_state, begin_fetch, apply_response, settings_effect}
use stridetastic.NetworkData.Laws.{IsValid, fetch, respond, change, here, next, shown_graph-IsValid}

abbrev clock : Platform
clock = record {
  now = pos 0;
  now_text = "1970-01-01T00:00:00.000Z";
  time_of = λ date. some (pos 0);
  decimal = λ n. "0";
  integer_text = λ z. "0";
  number_text = λ d. "0";
}

abbrev on_graph : TransformSettings
on_graph = record {
  graph_or_map = graph;
  show_bidirectional_only = true;
  show_mqtt_interface = true;
  force_bidirectional = false;
  exclude_multi_hop = false;
  node_activity_filter = day;
  link_activity_filter = all;
}

abbrev nodes : List Node
nodes = mqtt_node "" ∷ []

-- A fetch fails, a second one is answered, and then the view becomes the map.
shown_graph-IsValid_example : IsValid (
    settings_effect clock
      (record on_graph { graph_or_map = map_view })
      (apply_response clock on_graph
        (some (nodes, []))
        (begin_fetch (apply_response clock on_graph none initial_state))))
shown_graph-IsValid_example = shown_graph-IsValid clock (
    next
      (next (next (next here (respond clock on_graph none _)) (fetch _))
        (respond clock on_graph (some (nodes, [])) _))
      (change clock _ _))
