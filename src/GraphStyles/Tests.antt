-- ===== src/GraphStyles/Tests.antt =====
-- Instances of the theorems on how links are drawn.
use mathlib.Core.Bool.{true≢false}
use stridetastic.Prelude.{
  ◌≢◌, sym, eq_iff, arith, add, String, true, false, ◌⊎◌, ◌≡◌, ◌↔◌, refl, some, none, List, [], ◌∷◌,
  ◌++◌, Memᴰ,
}
use stridetastic.Prelude.Int.{int, pos}
use stridetastic.Platform.{Platform}
use stridetastic.ActivityFilters.{all}
use stridetastic.Types.{ForceGraphNode, ForceGraphLink, text, object}
use stridetastic.NetworkTransforms.{TransformSettings, transform_network_data}
use stridetastic.NetworkTransforms.Build.{mqtt_broker_node, graph}
use stridetastic.GraphStyles.{
  GraphStyleOptions, get_link_curvature, is_link_in_path, get_link_color, dim_link_color,
}
use stridetastic.GraphStyles.Laws.{Connects, get_link_curvature_cases, is_link_in_path_iff}
use stridetastic.PathFinding.{
  build_adjacency_list, add_links, add_link, ensure, add_neighbor, get, link_exists,
  calculate_hops_internal, interior_hops, is_zero_hop_node,
}
use stridetastic.PathFinding.Search.{
  search_loop, start, search_budget, path_rounds, rounds, unseen, extend, join,
}
use stridetastic.PathFinding.Search.Plain.{Plain}
use stridetastic.PathFinding.Reachable.{
  find_reachable_links, search_reachable, visit_reachable, collect_links, link_key,
}
use stridetastic.GraphStyles.Reachable.{IsOnRoute, get_link_color-find_reachable_links}
use stridetastic.GraphStyles.Label.{get_link_line_dash}
use stridetastic.GraphStyles.Label.Laws.{get_link_line_dash-transform_network_data}

abbrev link : String → String → ForceGraphLink
link s t = record {
  source = text s;
  target = object t;
  rssi = int (pos 0);
  snr = int (pos 0);
  hops = 0;
  last_seen = "";
  color = none;
  width = none;
  value = none;
  is_mqtt = none;
  distance = none;
  is_multi_hop_segment = none;
  original_hops = none;
  is_last_hop = none;
  is_mqtt_broker_link = none;
  is_direct_multi_hop = none;
}

-- a → b → c, a → c, c → a
abbrev sample : List ForceGraphLink
sample = link "a" "b" ∷ link "b" "c" ∷ link "a" "c" ∷ link "c" "a" ∷ []

abbrev options : GraphStyleOptions
options = record {
  selected_node_id = some "a";
  second_selected_node_id = none;
  reachable_nodes = "a" ∷ "b" ∷ [];
  reachable_links = "a-b" ∷ "a-c" ∷ [];
  path_nodes = [];
  virtual_edge_set = [];
  raw_nodes = [];
  raw_edges = [];
}

abbrev paths : List (List String)
paths = ("a" ∷ "b" ∷ "c" ∷ []) ∷ []

abbrev clock : Platform
clock = record {
  now = pos 0;
  now_text = "1970-01-01T00:00:00.000Z";
  time_of = λ date. some (pos 0);
  decimal = λ n. "0";
  integer_text = λ z. "0";
  number_text = λ d. "0";
}

abbrev settings : TransformSettings
settings = record {
  graph_or_map = graph;
  show_bidirectional_only = false;
  show_mqtt_interface = true;
  force_bidirectional = true;
  exclude_multi_hop = false;
  node_activity_filter = all;
  link_activity_filter = all;
}

get_link_curvature_cases_example :
    let there = Connects sample "a" "c" in
    let back = Connects sample "c" "a" in
    ((get_link_curvature (link "a" "c") sample ≡ record { num = pos 1; over = 9 }) × (there × back))
    ⊎ ((get_link_curvature (link "a" "c") sample ≡ int (pos 0)) × ¬ (there × back))
get_link_curvature_cases_example = get_link_curvature_cases (link "a" "c") sample

is_link_in_path_iff_example :
    (is_link_in_path (link "b" "c") paths ≡ true)
    ↔ ((before : List String) × (after : List String) × Memᴰ (before ++ "b" ∷ "c" ∷ after) paths)
is_link_in_path_iff_example = is_link_in_path_iff (link "b" "c") paths

sample-Plain : Plain sample "a"
sample-Plain = (
  (omega arith, tt),
  ((omega arith, tt), ((omega arith, tt), ((omega arith, tt), ((omega arith, tt), tt)))),
)

named : ◌≢◌ {A = String} "a" ""
named h = true≢false (sym ((eq_iff "a" "").1 h))

reachable_of_sample : find_reachable_links "a" sample 0 none ≡ some ("a-b" ∷ "a-c" ∷ [])
unfolding find_reachable_links search_reachable search_loop start search_budget path_rounds rounds
    unseen visit_reachable collect_links link_key extend join build_adjacency_list add_links
    add_link ensure add_neighbor get link_exists calculate_hops_internal interior_hops
    is_zero_hop_node add
reachable_of_sample = refl

get_link_color-find_reachable_links_example :
    (IsOnRoute "a" sample 0 none sample-Plain named (link "b" "c")
      × (get_link_color (link "b" "c") options paths ≡ "#999999"))
    ⊎ ((IsOnRoute "a" sample 0 none sample-Plain named (link "b" "c") → ⊥)
        × (get_link_color (link "b" "c") options paths ≡ dim_link_color "#999999"))
get_link_color-find_reachable_links_example =
    get_link_color-find_reachable_links "a" sample 0 none sample-Plain named (link "b" "c") options
      paths refl refl reachable_of_sample

get_link_line_dash-transform_network_data_example :
    get_link_line_dash
      (link "b" "c")
      (transform_network_data clock settings [] []).virtual_edge_set
      []
    ≡ none
get_link_line_dash-transform_network_data_example =
    get_link_line_dash-transform_network_data clock settings [] [] (link "b" "c") []

abbrev broker : ForceGraphNode
broker = mqtt_broker_node clock
