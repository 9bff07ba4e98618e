-- ===== src/PathView.antt =====
-- web_stridetastic/src/hooks/usePathFinding.ts: what the hook computes from the selection. `none` is
-- a search that runs out of fuel, which does not happen.
pub mod Laws
mod Tests
use stridetastic.Prelude.{
  ℕ, String, Bool, true, false, not, ◌||◌, Option, none, some, List, [], ◌∷◌, ◌==◌, if◌then◌else◌,
  add, ◌>>=◌,
}
use stridetastic.Types.{ForceGraphLink}
use stridetastic.PathFinding.{PathFindingOptions}
use stridetastic.PathFinding.Paths.{find_paths_between_nodes}
use stridetastic.PathFinding.Reachable.{find_reachable_nodes, find_reachable_links}
use stridetastic.NodeSelection.{is_unset}

-- What the hook is called with.
pub record PathViewInput : Type 0 where
  pub selected_node_id : Option String
  pub second_selected_node_id : Option String
  pub links : List ForceGraphLink
  pub max_hops : ℕ
  pub zero_hop_nodes : List String
  pub max_paths : ℕ

pub record PathView : Type 0 where
  pub paths_between_nodes : List (List String)
  pub path_node_set : List String
  pub reachable_nodes_from_selected : List String
  pub reachable_links_from_selected : List String

-- `a === b`, for two identifiers of which neither is `null`
abbrev pub id_or_empty : Option String → String
id_or_empty none = ""
id_or_empty (some id) = id

unfoldable pub paths_between_nodes : PathViewInput → Option (List (List String))
paths_between_nodes input =
    let first = id_or_empty input.selected_node_id in
    let second = id_or_empty input.second_selected_node_id in
    if is_unset input.selected_node_id
      || (is_unset input.second_selected_node_id || first == second)
    then some []
    else find_paths_between_nodes first second input.links (record {
      max_hops = input.max_hops;
      max_paths = input.max_paths;
      zero_hop_nodes = some input.zero_hop_nodes;
    })

-- `path.forEach(nodeId => nodeSet.add(nodeId))`
unfoldable pub add_path : List String → List String → List String
add_path [] node_set = node_set
add_path (id ∷ path) node_set = add_path path (add id node_set)

unfoldable pub add_paths : List (List String) → List String → List String
add_paths [] node_set = node_set
add_paths (path ∷ paths) node_set = add_paths paths (add_path path node_set)

unfoldable pub path_node_set : List (List String) → List String
path_node_set paths = add_paths paths []

-- `!selectedNodeId || secondSelectedNodeId`
abbrev pub no_single : PathViewInput → Bool
no_single input = is_unset input.selected_node_id || not (is_unset input.second_selected_node_id)

unfoldable pub reachable_nodes_from_selected : PathViewInput → Option (List String)
reachable_nodes_from_selected input =
    if no_single input
    then some []
    else find_reachable_nodes (id_or_empty input.selected_node_id) input.links input.max_hops
        (some input.zero_hop_nodes)

unfoldable pub reachable_links_from_selected : PathViewInput → Option (List String)
reachable_links_from_selected input =
    if no_single input
    then some []
    else find_reachable_links (id_or_empty input.selected_node_id) input.links input.max_hops
        (some input.zero_hop_nodes)

unfoldable pub use_path_finding : PathViewInput → Option PathView
use_path_finding input = do
  paths ← paths_between_nodes input
  nodes ← reachable_nodes_from_selected input
  links ← reachable_links_from_selected input
  some (record {
    paths_between_nodes = paths;
    path_node_set = path_node_set paths;
    reachable_nodes_from_selected = nodes;
    reachable_links_from_selected = links;
  })
