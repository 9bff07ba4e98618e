-- ===== src/PathFinding/Paths.antt =====
-- pathFinding.ts, findPathsBetweenNodes.
pub mod Sound
pub mod Complete
use mathlib.Core.Option
use stridetastic.Prelude.{
  String, true, ◌&&◌, ◌||◌, Option, some, List, [], ◌∷◌, ◌++◌, ◌==◌, if◌then◌else◌, leb, ltb,
  length, keep_if, contains, add,
}
use stridetastic.Types.{ForceGraphLink}
use stridetastic.PathFinding.{
  PathFindingOptions, calculate_hops_internal, valid_path, AdjacencyList, neighbors,
  build_adjacency_list,
}
use stridetastic.PathFinding.Search.{Item, Search, join, extend, search_loop, start, search_budget}

-- One round of the `while` loop, after the item left the queue.
unfoldable pub visit_path :
    String
    → PathFindingOptions
    → AdjacencyList
    → Item
    → Search (List (List String))
    → Search (List (List String))
visit_path target_id options adjacency item s =
    if item.node_id == target_id && ltb 1 (length item.path)
    then record s { found = s.found ++ item.path ∷ [] }
    else if leb options.max_hops (calculate_hops_internal item.path options.zero_hop_nodes)
    then s
    else if contains (join item.path) s.visited
    then s
    else record s {
      visited = add (join item.path) s.visited;
      queue = s.queue ++ extend (λ _. true) item.path (neighbors adjacency item.node_id);
    }

-- The `while` loop: it ends at `options.maxPaths` paths.
unfoldable pub search_paths :
    String → String → List ForceGraphLink → PathFindingOptions → Option (List (List String))
search_paths source_id target_id links options =
    search_loop (λ paths. leb options.max_paths (length paths))
      (visit_path target_id options (build_adjacency_list links)) (search_budget links source_id)
      (start source_id [])

unfoldable pub find_paths_between_nodes :
    String → String → List ForceGraphLink → PathFindingOptions → Option (List (List String))
find_paths_between_nodes source_id target_id links options =
    if source_id == "" || (target_id == "" || source_id == target_id)
    then some []
    else Option.map (keep_if (valid_path links)) (search_paths source_id target_id links options)
