-- ===== src/PathFinding/Tests.antt =====
-- Runs of the path finding functions, and instances of their theorems.
use mathlib.Core.Bool.{true≢false}
use stridetastic.Prelude.{
  ◌==◌, sym, ◌∙◌, eq_iff, ◌≤◌, ◌<◌, ◌≢◌, ◌↔◌, true, false, All, Memᴰ, arith, length, contains,
  String, add, ◌≡◌, refl, none, some, List, [], ◌∷◌,
}
use stridetastic.Prelude.Int.{int, pos}
use stridetastic.PathFinding.Adjacency.{contains-build_adjacency_list}
use stridetastic.PathFinding.Search.Plain.{Plain}
use stridetastic.PathFinding.Search.Route.{IsRoute}
use stridetastic.PathFinding.Paths.Sound.{
  IsFound, find_paths_between_nodes_sound, find_paths_between_nodes_lem,
}
use stridetastic.PathFinding.Paths.Complete.{find_paths_between_nodes_complete}
use stridetastic.PathFinding.Reachable.Correct.{
  Within, takes, find_reachable_nodes_correct, find_reachable_links_correct,
}
use stridetastic.Types.{ForceGraphLink, text, object}
use stridetastic.PathFinding.{
  neighbors, PathFindingOptions, build_adjacency_list, add_links, add_link, ensure, add_neighbor,
  get, link_exists, valid_path, calculate_hops_internal, interior_hops, is_zero_hop_node,
}
use stridetastic.PathFinding.Search.{
  search_loop, start, search_budget, path_rounds, rounds, unseen, extend, join,
}
use stridetastic.PathFinding.Paths.{visit_path, search_paths, find_paths_between_nodes}
use stridetastic.PathFinding.Reachable.{
  find_reachable_nodes, find_reachable_links, search_reachable, visit_reachable, collect_nodes,
  collect_links, link_key,
}

abbrev link : String → String → ForceGraphLink
link s t = record {
  source = text s;
  target = object t;
  rssi = int (pos 0);
  snr = int (pos 0);
  hops = 0;
  last_seen = "";
  color = none;
  width = none;
  value = none;
  is_mqtt = none;
  distance = none;
  is_multi_hop_segment = none;
  original_hops = none;
  is_last_hop = none;
  is_mqtt_broker_link = none;
  is_direct_multi_hop = none;
}

-- a → b → c, a → c, c → a
abbrev sample : List ForceGraphLink
sample = link "a" "b" ∷ link "b" "c" ∷ link "a" "c" ∷ link "c" "a" ∷ []

abbrev options : PathFindingOptions
options = record { max_hops = 3; max_paths = 10; zero_hop_nodes = none }

paths_of_sample :
    find_paths_between_nodes "a" "c" sample options
    ≡ some (("a" ∷ "c" ∷ []) ∷ ("a" ∷ "b" ∷ "c" ∷ []) ∷ [])
unfolding find_paths_between_nodes search_paths search_loop start search_budget path_rounds rounds
    unseen visit_path extend join build_adjacency_list add_links add_link ensure add_neighbor get
    link_exists valid_path calculate_hops_internal interior_hops is_zero_hop_node add
paths_of_sample = refl

-- Within no hop at all only the direct links are found, and the link c → a of the reached c is not.
reachable_of_sample :
    (find_reachable_nodes "a" sample 0 none ≡ some ("a" ∷ "b" ∷ "c" ∷ []))
    × (find_reachable_links "a" (link "c" "d" ∷ sample) 0 none ≡ some ("a-b" ∷ "a-c" ∷ []))
unfolding find_reachable_nodes find_reachable_links search_reachable search_loop start search_budget
    path_rounds rounds unseen visit_reachable collect_nodes collect_links link_key extend join
    build_adjacency_list add_links add_link ensure add_neighbor get link_exists
    calculate_hops_internal interior_hops is_zero_hop_node add
reachable_of_sample = (refl, refl)

contains-build_adjacency_list_example :
    contains "a" (neighbors (build_adjacency_list sample) "c") ≡ link_exists sample "c" "a"
contains-build_adjacency_list_example = contains-build_adjacency_list sample "c" "a"

find_paths_between_nodes_sound_example :
    (paths : List (List String)) × (find_paths_between_nodes "a" "c" sample options ≡ some paths)
    × All (IsFound "a" "c" sample options) paths
    × (length paths ≤ 10)
find_paths_between_nodes_sound_example = find_paths_between_nodes_sound "a" "c" sample options

differ : (a b : String) → (a == b) ≡ false → a ≢ b
differ a b h e = true≢false (sym ((eq_iff a b).1 e) ∙ h)

find_paths_between_nodes_lem_example :
    find_paths_between_nodes "a" "c" sample options ≡ search_paths "a" "c" sample options
find_paths_between_nodes_lem_example =
    find_paths_between_nodes_lem "a" "c" sample options (differ "a" "" refl) (differ "c" "" refl)
      (differ "a" "c" refl)

abbrev a_then_b : List String
a_then_b = "a" ∷ "b" ∷ []

sample-Plain : Plain sample "a"
sample-Plain = (
  (omega arith, tt),
  ((omega arith, tt), ((omega arith, tt), ((omega arith, tt), ((omega arith, tt), tt)))),
)

abbrev a_b_c : List String
a_b_c = "a" ∷ "b" ∷ "c" ∷ []

abbrev paths_a_c : List (List String)
paths_a_c = ("a" ∷ "c" ∷ []) ∷ a_b_c ∷ []

a_b_c-IsRoute : IsRoute sample "a" (record { node_id = "c"; path = a_b_c })
unfolding valid_path link_exists
a_b_c-IsRoute = record {
  first = refl;
  last = refl;
  linked = refl;
  simple = (refl, (refl, (refl, tt)));
}

a_then_b-short : calculate_hops_internal a_then_b none < 3
unfolding calculate_hops_internal interior_hops
a_then_b-short = omega arith

find_paths_between_nodes_complete_example : Memᴰ a_b_c paths_a_c
find_paths_between_nodes_complete_example =
    find_paths_between_nodes_complete "a" "c" sample options paths_a_c sample-Plain
      (differ "a" "" refl) (differ "c" "" refl) (differ "a" "c" refl) paths_of_sample (omega arith)
      a_then_b a_b_c-IsRoute a_then_b-short

find_reachable_nodes_correct_example :
    (found : List String) × (find_reachable_nodes "a" sample 1 none ≡ some found)
    × ((id : String) → (contains id found ≡ true) ↔ Within "a" sample 1 none (contains id))
find_reachable_nodes_correct_example =
    find_reachable_nodes_correct "a" sample 1 none sample-Plain (differ "a" "" refl)

find_reachable_links_correct_example :
    (found : List String) × (find_reachable_links "a" sample 1 none ≡ some found)
    × ((key : String) → (contains key found ≡ true) ↔ Within "a" sample 1 none (takes sample key))
find_reachable_links_correct_example =
    find_reachable_links_correct "a" sample 1 none sample-Plain (differ "a" "" refl)
