-- ===== src/GraphStyles/Label/Laws.antt =====
-- graphStyles.ts: with the set that transformNetworkData returns no link is drawn as an assumed one.
use stridetastic.Prelude.{false, ◌≡◌, refl, Option, none, some, List, [], ◌∷◌, if◌then◌else◌}
use stridetastic.Types.{Node, Edge, ForceGraphNode, ForceGraphLink, endpoint_id}
use stridetastic.Platform.{Platform}
use stridetastic.NodeSelection.{flag}
use stridetastic.NetworkTransforms.{TransformSettings, transform_network_data}
use stridetastic.GraphStyles.Label.{is_virtual_pair, get_link_line_dash, find_graph_node}

not_virtual : (source target : Option ForceGraphNode) → is_virtual_pair [] source target ≡ false
unfolding is_virtual_pair
not_virtual none target = refl
not_virtual (some source) none = refl
not_virtual (some source) (some target) = refl

-- With the virtual edges that transformNetworkData returns, the dash of a link depends on its flags
-- alone: the pattern of assumed links is never used.
pub get_link_line_dash-transform_network_data :
    (platform : Platform) (settings : TransformSettings) (nodes : List Node) (edges : List Edge)
    (link : ForceGraphLink) (graph_nodes : List ForceGraphNode)
    → get_link_line_dash link
        (transform_network_data platform settings nodes edges).virtual_edge_set
        graph_nodes
      ≡ (if flag link.is_mqtt_broker_link
          then some (2 ∷ 3 ∷ [])
          else if flag link.is_multi_hop_segment
          then some (5 ∷ 5 ∷ [])
          else none)
unfolding get_link_line_dash transform_network_data
get_link_line_dash-transform_network_data platform settings nodes edges link graph_nodes =
    rw
      (not_virtual (find_graph_node graph_nodes (endpoint_id link.source))
        (find_graph_node graph_nodes (endpoint_id link.target)))
      refl
