-- ===== src/NetworkGraph/Merge.antt =====
-- NetworkGraph.tsx: the graph of the network with the nodes and links of the interfaces, and the update
-- of what is drawn.
pub mod Laws
use Prim.Native.String.{◌++◌ as str_append}
use stridetastic.Prelude.{
  ℕ, suc, ◌||◌, String, Bool, true, false, not, ◌&&◌, Option, none, some, List, [], ◌∷◌, ◌++◌, ◌==◌,
  if◌then◌else◌, any, keep_if, map, or_else,
}
use stridetastic.Types.{Endpoint, text, object, ForceGraphNode, ForceGraphLink}
use stridetastic.NetworkGraph.Update.{update_in_place}

-- A graph of which the parts have been computed, or that is drawn.
pub record GraphData : Type 0 where
  pub nodes : List ForceGraphNode
  pub links : List ForceGraphLink

abbrev pub has_id : List ForceGraphNode → String → Bool
has_id nodes id = any (λ node. node.id == id) nodes

-- `new Set(nodes.map(n => n.id)).has(end)`: an end that the drawing library has made an object of is
-- none of the texts.
unfoldable pub has_end : List ForceGraphNode → Endpoint → Bool
has_end nodes (text id) = has_id nodes id
has_end nodes (object id) = false

unfoldable pub merged_nodes : List ForceGraphNode → List ForceGraphNode → List ForceGraphNode
merged_nodes nodes interface_nodes =
    keep_if (λ node. not (or_else node.is_mqtt_broker false)) nodes ++ interface_nodes

-- `mergedGraphData`
unfoldable pub merged_graph_data : GraphData → GraphData → GraphData
merged_graph_data graph_data interfaces =
    let nodes = merged_nodes graph_data.nodes interfaces.nodes in
    record {
      nodes = nodes;
      links =
          keep_if (λ link. has_end nodes link.source && has_end nodes link.target)
            (graph_data.links ++ interfaces.links);
    }

-- `newMergedGraphData` of handleIncrementalRefresh
unfoldable pub refreshed_graph_data : GraphData → GraphData → GraphData
refreshed_graph_data graph_data interfaces = record {
  nodes = merged_nodes graph_data.nodes interfaces.nodes;
  links = graph_data.links ++ interfaces.links;
}

-- `zeroHopNodeIds`, in the order of insertion
unfoldable pub zero_hop_node_ids : List ForceGraphNode → Bool → List String
zero_hop_node_ids interface_nodes show_mqtt_interface =
    map (λ node. node.id) interface_nodes
    ++ (if show_mqtt_interface then "mqtt_broker" ∷ [] else [])

abbrev pub end_text : Endpoint → String
end_text (text id) = id
end_text (object id) = "[object Object]"

-- `${l.source}->${l.target}`
unfoldable pub link_key : ForceGraphLink → String
link_key link = str_append (end_text link.source) (str_append "->" (end_text link.target))

-- `Object.assign` on a drawn node and on a drawn link
pub record Assign : Type 0 where
  pub to_node : ForceGraphNode → ForceGraphNode → ForceGraphNode
  pub to_link : ForceGraphLink → ForceGraphLink → ForceGraphLink

-- The effect on the merged data, and the success of handleIncrementalRefresh with its own data.
unfoldable pub update_graph : Assign → GraphData → GraphData → GraphData
update_graph assign current new = record {
  nodes = update_in_place (λ node. node.id) assign.to_node current.nodes new.nodes;
  links = update_in_place link_key assign.to_link current.links new.links;
}

pub record RefreshState : Type 0 where
  pub drawn : GraphData
  pub is_incremental_loading : Bool
  pub graph_version : ℕ

-- The drawn arrays are emptied and filled anew.
unfoldable pub refill : GraphData → RefreshState → RefreshState
refill graph s = record {
  drawn = graph;
  is_incremental_loading = false;
  graph_version = suc s.graph_version;
}

-- handleIncrementalRefresh; `fetched` tells that the request for the data has not failed, and the data of
-- the graph are those that the handler was made with.
unfoldable pub handle_incremental_refresh :
    Assign → Bool → Bool → GraphData → GraphData → RefreshState → RefreshState
handle_incremental_refresh assign is_loading fetched graph_data interfaces s =
    if s.is_incremental_loading || is_loading
    then s
    else (if fetched
        then refill (update_graph assign s.drawn (refreshed_graph_data graph_data interfaces)) s
        else refill (merged_graph_data graph_data interfaces) s)
