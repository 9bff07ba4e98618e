-- ===== src/GraphStyles/Label.antt =====
-- graphStyles.ts, getLinkLabel and getLinkLineDash: what marks assumed, MQTT and multi-hop links.
pub mod Laws
use Prim.Native.String.{◌++◌ as str_append}
use stridetastic.Prelude.{
  ℕ, String, Bool, true, false, not, ◌&&◌, ◌||◌, Option, none, some, List, [], ◌∷◌, ◌==◌,
  if◌then◌else◌, contains, ltb,
}
use stridetastic.Prelude.Int.{ℤ, eqb_ℤ}
use stridetastic.Types.{Node, Edge, ForceGraphNode, ForceGraphLink, endpoint_id}
use stridetastic.Platform.{Platform}
use stridetastic.NodeSelection.{flag}
use stridetastic.GraphStyles.{GraphStyleOptions}

-- The templates are concatenations.
abbrev pub concat_text : List String → String
concat_text [] = ""
concat_text (s ∷ rest) = str_append s (concat_text rest)

-- `rawNodes.find(n => n.node_id === id)`
unfoldable pub find_raw_node : List Node → String → Option Node
find_raw_node [] id = none
find_raw_node (node ∷ nodes) id = if node.node_id == id then some node else find_raw_node nodes id

-- `graphNodes.find(n => n.id === id)`
unfoldable pub find_graph_node : List ForceGraphNode → String → Option ForceGraphNode
find_graph_node [] id = none
find_graph_node (node ∷ nodes) id = if node.id == id then some node else find_graph_node nodes id

-- `rawEdges.find(…)`: the first edge between the two, in either direction.
unfoldable pub find_edge : List Edge → ℤ → ℤ → Option Edge
find_edge [] s t = none
find_edge (edge ∷ edges) s t =
    if (eqb_ℤ edge.source_node_id s && eqb_ℤ edge.target_node_id t)
      || (eqb_ℤ edge.source_node_id t && eqb_ℤ edge.target_node_id s)
    then some edge
    else find_edge edges s t

-- `originalEdge?.edge_type === 'LOGICAL'`
abbrev pub is_logical : Option Edge → Bool
is_logical none = false
is_logical (some edge) = edge.edge_type == "LOGICAL"

-- `link.originalHops && link.originalHops > bound`
abbrev pub more_hops_than : Option ℕ → ℕ → Bool
more_hops_than none bound = false
more_hops_than (some hops) bound = ltb bound hops

module _ (platform : Platform) where
  -- ` - RSSI: … dBm, SNR: … dB`
  unfoldable pub signal_text : ForceGraphLink → String
  signal_text link = concat_text (
      " - RSSI: "
      ∷ platform.number_text link.rssi
      ∷ " dBm, SNR: "
      ∷ platform.number_text link.snr
      ∷ " dB"
      ∷ [])

  -- `${link.originalHops}`
  unfoldable pub hops_text : Option ℕ → String
  hops_text none = "undefined"
  hops_text (some hops) = platform.decimal hops

  unfoldable pub base_label : ForceGraphLink → Option Edge → String
  base_label link original_edge =
      if flag link.is_mqtt_broker_link
      then "MQTT Client Connection"
      else if flag link.is_mqtt
      then "Aparent Link"
      else if is_logical original_edge
      then str_append "Logical Link" (signal_text link)
      else if flag link.is_multi_hop_segment
      then (if flag link.is_last_hop
          then concat_text
              ("Final hop of " ∷ hops_text link.original_hops ∷ "-hop path" ∷ signal_text link ∷ [])
          else concat_text (
              "Intermediate hop "
              ∷ (if more_hops_than link.original_hops 2
                  then concat_text ("(of " ∷ hops_text link.original_hops ∷ ")" ∷ [])
                  else "")
              ∷ " - Signal data at destination"
              ∷ []))
      else if more_hops_than link.original_hops 1
      then concat_text (hops_text link.original_hops ∷ "-hop path" ∷ signal_text link ∷ [])
      else str_append "Direct link" (signal_text link)

  -- `${sourceDbId}-${targetDbId}`
  unfoldable pub virtual_key : ℤ → ℤ → String
  virtual_key s t = concat_text (platform.integer_text s ∷ "-" ∷ platform.integer_text t ∷ [])

  -- The label behind the look-up of the two raw nodes.
  unfoldable pub label_between :
      ForceGraphLink → GraphStyleOptions → Option Node → Option Node → String
  label_between link options none target = ""
  label_between link options (some source) none = ""
  label_between link options (some source) (some target) =
      let label = base_label link (find_edge options.raw_edges source.id target.id) in
      if contains (virtual_key source.id target.id) options.virtual_edge_set
      then concat_text ("[ASSUMED] " ∷ label ∷ " (estimated based on reverse signal)" ∷ [])
      else label

  unfoldable pub get_link_label : ForceGraphLink → GraphStyleOptions → String
  get_link_label link options =
      label_between link options (find_raw_node options.raw_nodes (endpoint_id link.source))
        (find_raw_node options.raw_nodes (endpoint_id link.target))

-- `${sourceNode?.node_id}-${targetNode?.node_id}`
unfoldable pub pair_key : String → String → String
pair_key s t = str_append s (str_append "-" t)

-- Is the link between the two nodes assumed, in either direction? Unknown nodes have none.
unfoldable pub is_virtual_pair : List String → Option ForceGraphNode → Option ForceGraphNode → Bool
is_virtual_pair virtual_edge_set none target = false
is_virtual_pair virtual_edge_set (some source) none = false
is_virtual_pair virtual_edge_set (some source) (some target) =
    contains (pair_key source.node_id target.node_id) virtual_edge_set
    || contains (pair_key target.node_id source.node_id) virtual_edge_set

unfoldable pub get_link_line_dash :
    ForceGraphLink → List String → List ForceGraphNode → Option (List ℕ)
get_link_line_dash link virtual_edge_set graph_nodes =
    if flag link.is_mqtt_broker_link
    then some (2 ∷ 3 ∷ [])
    else if is_virtual_pair virtual_edge_set (find_graph_node graph_nodes (endpoint_id link.source))
        (find_graph_node graph_nodes (endpoint_id link.target))
    then some (8 ∷ 4 ∷ [])
    else if flag link.is_multi_hop_segment
    then some (5 ∷ 5 ∷ [])
    else none
