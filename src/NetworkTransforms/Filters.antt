-- ===== src/NetworkTransforms/Filters.antt =====
-- networkTransforms.ts, transformNetworkData: the filters of nodes and edges, the nodes with links to
-- themselves, and the reverse edges that `forceBidirectional` adds.
use stridetastic.Prelude.{
  String, Bool, true, false, not, ◌&&◌, ◌||◌, Option, none, some, List, [], ◌∷◌, ◌++◌, ◌==◌,
  if◌then◌else◌, any, keep_if,
}
use stridetastic.Prelude.Int.{ℤ, pos, int, eqb_ℤ, ltb_ℤ}
use stridetastic.Types.{Node, Edge}
use stridetastic.Platform.{Platform}
use stridetastic.ActivityFilters.{ActivityTimeRange, all, is_within_time_range}

-- `filter === 'all'`
abbrev pub is_all : ActivityTimeRange → Bool
is_all all = true
is_all _ = false

-- `filteredNodeIds.has(id)`
unfoldable pub has_node : List Node → ℤ → Bool
has_node nodes id = any (λ node. eqb_ℤ node.id id) nodes

-- `nodeIdMap.get(id)`: of two nodes with one id the later stands in the map.
unfoldable pub node_id_of : List Node → ℤ → Option String
node_id_of [] id = none
node_id_of (node ∷ nodes) id = elim (node_id_of nodes id) [
  | some later ↦ some later
  | none ↦ if eqb_ℤ node.id id then some node.node_id else none
]

-- `selfDirectedNodes`, a `Map<number, string>` in insertion order.
abbrev pub SelfDirected : Type 0
SelfDirected = List (ℤ × String)

unfoldable pub get_loop : ℤ → SelfDirected → Option String
get_loop id [] = none
get_loop id ((key, seen) ∷ more) = if eqb_ℤ key id then some seen else get_loop id more

unfoldable pub set_loop : ℤ → String → SelfDirected → SelfDirected
set_loop id seen [] = (id, seen) ∷ []
set_loop id seen ((key, old) ∷ more) =
    if eqb_ℤ key id then (key, seen) ∷ more else (key, old) ∷ set_loop id seen more

abbrev pub is_loop : Edge → Bool
is_loop edge = eqb_ℤ edge.source_node_id edge.target_node_id

-- The reverse edge exists: the `some` of the bidirectional filter.
unfoldable pub has_reverse : List Edge → Edge → Bool
has_reverse edges edge =
    any
      (λ reverse_edge.
        eqb_ℤ reverse_edge.source_node_id edge.target_node_id
        && eqb_ℤ reverse_edge.target_node_id edge.source_node_id)
      edges

unfoldable pub filter_bidirectional : List Edge → List Edge
filter_bidirectional edges = keep_if (has_reverse edges) edges

-- Self-directed links and those with an unknown end are dropped.
unfoldable pub filter_edges : List Node → List Edge → List Edge
filter_edges nodes edges =
    keep_if
      (λ edge.
        has_node nodes edge.source_node_id
        && (has_node nodes edge.target_node_id && not (is_loop edge)))
      edges

-- `existingEdgeMap`, of which only the keys are read. Its key, two whole numbers joined by a dash,
-- stands here as the pair.
unfoldable pub has_key : ℤ → ℤ → List (ℤ × ℤ) → Bool
has_key s t keys = any (λ key. eqb_ℤ key.0 s && eqb_ℤ key.1 t) keys

unfoldable pub edge_keys : List Edge → List (ℤ × ℤ)
edge_keys [] = []
edge_keys (edge ∷ edges) = (edge.source_node_id, edge.target_node_id) ∷ edge_keys edges

unfoldable pub reverse_edge_of : Edge → Edge
reverse_edge_of edge = record {
  source_node_id = edge.target_node_id;
  target_node_id = edge.source_node_id;
  first_seen = edge.first_seen;
  last_seen = edge.last_seen;
  last_packet_id = 0;
  last_rx_rssi = int (pos 0);
  last_rx_snr = int (pos 0);
  last_hops = edge.last_hops;
  edge_type = "virtual_reverse";
  interfaces_names = edge.interfaces_names;
}

-- The second `forEach`: the reverse edges, where no edge has their key.
unfoldable pub new_reverse_edges : List (ℤ × ℤ) → List Edge → List Edge
new_reverse_edges keys [] = []
new_reverse_edges keys (edge ∷ edges) =
    elim (has_key edge.target_node_id edge.source_node_id keys) [
      | true ↦ new_reverse_edges keys edges
      | false ↦
          reverse_edge_of edge
          ∷ new_reverse_edges ((edge.target_node_id, edge.source_node_id) ∷ keys) edges
    ]

unfoldable pub add_reverse_edges : List Edge → List Edge
add_reverse_edges edges = edges ++ new_reverse_edges (edge_keys edges) edges

module _ (platform : Platform) where
  unfoldable pub filter_nodes : ActivityTimeRange → List Node → List Node
  filter_nodes range nodes =
      if is_all range
      then nodes
      else keep_if (λ node. is_within_time_range platform node.last_seen range) nodes

  unfoldable pub filter_activity : ActivityTimeRange → List Edge → List Edge
  filter_activity range edges =
      if is_all range
      then edges
      else keep_if (λ edge. is_within_time_range platform edge.last_seen range) edges

  -- `new Date(a) > new Date(b)`, false where one is NaN.
  unfoldable pub is_later : String → String → Bool
  is_later a b = elim (platform.time_of a) [
    | none ↦ false
    | some x ↦ elim (platform.time_of b) [ none ↦ false | some y ↦ ltb_ℤ y x ]
  ]

  -- `!prev || new Date(last_seen) > new Date(prev)`
  unfoldable pub should_set : Option String → String → Bool
  should_set none seen = true
  should_set (some prev) seen = prev == "" || is_later seen prev

  unfoldable pub note_loop : ActivityTimeRange → List Node → SelfDirected → Edge → SelfDirected
  note_loop range nodes loops edge =
      if is_loop edge
        && (has_node nodes edge.source_node_id
            && (is_all range || is_within_time_range platform edge.last_seen range))
      then (if should_set (get_loop edge.source_node_id loops) edge.last_seen
          then set_loop edge.source_node_id edge.last_seen loops
          else loops)
      else loops

  unfoldable pub note_loops :
      ActivityTimeRange → List Node → SelfDirected → List Edge → SelfDirected
  note_loops range nodes loops [] = loops
  note_loops range nodes loops (edge ∷ edges) =
      note_loops range nodes (note_loop range nodes loops edge) edges

  unfoldable pub self_directed : ActivityTimeRange → List Node → List Edge → SelfDirected
  self_directed range nodes edges = note_loops range nodes [] edges
