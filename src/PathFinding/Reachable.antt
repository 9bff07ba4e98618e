-- ===== src/PathFinding/Reachable.antt =====
-- pathFinding.ts, findReachableNodes and findReachableLinks. The two loops differ in what they
-- collect from a path, the argument `collect`.
pub mod Rounds
pub mod Sound
pub mod Complete
pub mod Correct
use Prim.Native.String.{◌++◌ as str_append}
use stridetastic.Prelude.{
  ℕ, String, false, Option, some, List, [], ◌∷◌, ◌++◌, ◌==◌, if◌then◌else◌, ltb, contains, add,
}
use stridetastic.Types.{ForceGraphLink}
use stridetastic.PathFinding.{
  calculate_hops_internal, link_exists, AdjacencyList, neighbors, build_adjacency_list,
}
use stridetastic.PathFinding.Search.{Item, Search, join, extend, search_loop, start, search_budget}

-- One round of the `while` loop, after the item left the queue.
unfoldable pub visit_reachable :
    (List String → List String → List String)
    → List ForceGraphLink
    → ℕ
    → Option (List String)
    → AdjacencyList
    → Item
    → Search (List String)
    → Search (List String)
visit_reachable collect links max_hops zero_hop adjacency item s =
    if ltb max_hops (calculate_hops_internal item.path zero_hop)
    then s
    else if contains (join item.path) s.visited
    then s
    else record s {
      visited = add (join item.path) s.visited;
      found = collect item.path s.found;
      queue =
          s.queue
          ++ extend (link_exists links item.node_id) item.path (neighbors adjacency item.node_id);
    }

unfoldable pub search_reachable :
    (List String → List String → List String)
    → String
    → List ForceGraphLink
    → ℕ
    → Option (List String)
    → Option (List String)
search_reachable collect source_id links max_hops zero_hop =
    if source_id == ""
    then some []
    else search_loop (λ _. false)
        (visit_reachable collect links max_hops zero_hop (build_adjacency_list links))
        (search_budget links source_id) (start source_id [])

-- `path.forEach(pathNodeId => reachableNodes.add(pathNodeId))`
unfoldable pub collect_nodes : List String → List String → List String
collect_nodes [] found = found
collect_nodes (id ∷ rest) found = collect_nodes rest (add id found)

-- `${sourceNodeId}-${targetNodeId}`
unfoldable pub link_key : String → String → String
link_key source_id target_id = str_append source_id (str_append "-" target_id)

-- The loop over the edges of the path.
unfoldable pub collect_links : List ForceGraphLink → List String → List String → List String
collect_links links [] found = found
collect_links links (id ∷ []) found = found
collect_links links (id ∷ next ∷ rest) found =
    collect_links links (next ∷ rest)
      (if link_exists links id next then add (link_key id next) found else found)

unfoldable pub find_reachable_nodes :
    String → List ForceGraphLink → ℕ → Option (List String) → Option (List String)
find_reachable_nodes source_id links max_hops zero_hop =
    search_reachable collect_nodes source_id links max_hops zero_hop

unfoldable pub find_reachable_links :
    String → List ForceGraphLink → ℕ → Option (List String) → Option (List String)
find_reachable_links source_id links max_hops zero_hop =
    search_reachable (collect_links links) source_id links max_hops zero_hop
