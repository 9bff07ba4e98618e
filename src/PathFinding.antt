-- ===== src/PathFinding.antt =====
-- web_stridetastic/src/lib/pathFinding.ts: the adjacency list, the breadth-first search for paths
-- and the two searches for what is reachable. Proofs are in the modules below.
pub mod Adjacency
pub mod Search
pub mod Paths
pub mod Reachable
mod Tests
use stridetastic.Prelude.{
  ℕ, ◌+◌, String, Bool, true, false, ◌&&◌, Option, none, some, List, [], ◌∷◌, ◌==◌, if◌then◌else◌,
  any, contains, add, or_else,
}
use stridetastic.Types.{ForceGraphLink, endpoint_id}

pub record PathFindingOptions : Type 0 where
  pub max_hops : ℕ
  pub max_paths : ℕ
  pub zero_hop_nodes : Option (List String)

unfoldable pub is_zero_hop_node : String → Option (List String) → Bool
is_zero_hop_node node_id none = false
is_zero_hop_node node_id (some nodes) = contains node_id nodes

-- The loop over `path[1] … path[length - 2]`, handed `path[1] …`.
unfoldable pub interior_hops : Option (List String) → List String → ℕ
interior_hops zero_hop [] = 0
interior_hops zero_hop (last ∷ []) = 0
interior_hops zero_hop (node_id ∷ next ∷ rest) =
    (if is_zero_hop_node node_id zero_hop then 0 else 1) + interior_hops zero_hop (next ∷ rest)

unfoldable pub calculate_hops_internal : List String → Option (List String) → ℕ
calculate_hops_internal [] zero_hop = 0
calculate_hops_internal (first ∷ rest) zero_hop = interior_hops zero_hop rest

pub calculate_actual_hops : List String → Option (List String) → ℕ
calculate_actual_hops path zero_hop = calculate_hops_internal path zero_hop

-- `links.some(link => …)`: is there a link in exactly this direction?
unfoldable pub link_exists : List ForceGraphLink → String → String → Bool
link_exists links source_id target_id =
    any (λ link. endpoint_id link.source == source_id && endpoint_id link.target == target_id) links

-- The predicate of the final `paths.filter`: a link in this direction for each step.
pub valid_path : List ForceGraphLink → List String → Bool
valid_path links [] = true
valid_path links (id ∷ []) = true
valid_path links (id ∷ next ∷ rest) = link_exists links id next && valid_path links (next ∷ rest)

-- `Map<string, Set<string>>`, in insertion order.
abbrev pub AdjacencyList : Type 0
AdjacencyList = List (String × List String)

-- `adjacencyList.get(id)`
unfoldable pub get : String → AdjacencyList → Option (List String)
get id [] = none
get id ((key, ids) ∷ more) = if key == id then some ids else get id more

-- What the searches iterate over: the neighbours of a node, none for an unknown one.
abbrev pub neighbors : AdjacencyList → String → List String
neighbors adjacency id = or_else (get id adjacency) []

-- `if (!adjacencyList.has(id)) adjacencyList.set(id, new Set())`
unfoldable pub ensure : String → AdjacencyList → AdjacencyList
ensure id [] = (id, []) ∷ []
ensure id ((key, ids) ∷ more) = if key == id then (key, ids) ∷ more else (key, ids) ∷ ensure id more

-- `adjacencyList.get(id)!.add(neighbor)`. `build_adjacency_list` makes it behind `ensure` only, so
-- the case of a missing key, a `TypeError` in the source, is never met.
unfoldable pub add_neighbor : String → String → AdjacencyList → AdjacencyList
add_neighbor id neighbor [] = []
add_neighbor id neighbor ((key, ids) ∷ more) =
    if key == id then (key, add neighbor ids) ∷ more else (key, ids) ∷ add_neighbor id neighbor more

-- The callback of `links.forEach`.
unfoldable pub add_link : List ForceGraphLink → AdjacencyList → ForceGraphLink → AdjacencyList
add_link links adjacency link =
    let source_id = endpoint_id link.source in
    let target_id = endpoint_id link.target in
    let keyed = ensure target_id (ensure source_id adjacency) in
    let forward = add_neighbor source_id target_id keyed in
    if link_exists links target_id source_id
    then add_neighbor target_id source_id forward
    else forward

unfoldable pub add_links : List ForceGraphLink → AdjacencyList → List ForceGraphLink → AdjacencyList
add_links links adjacency [] = adjacency
add_links links adjacency (link ∷ rest) = add_links links (add_link links adjacency link) rest

unfoldable pub build_adjacency_list : List ForceGraphLink → AdjacencyList
build_adjacency_list links = add_links links [] links
