-- ===== src/NetworkData.antt =====
-- web_stridetastic/src/hooks/useNetworkData.ts: the state of the hook and its updates. A fetch starts
-- with `begin_fetch` and ends with `apply_response`; what happens between the two is any sequence of
-- other updates.
pub mod Laws
mod Tests
use stridetastic.Prelude.{String, Bool, true, false, Option, none, some, List, [], ◌∷◌}
use stridetastic.Types.{Node, Edge, ForceGraphNode, ForceGraphLink}
use stridetastic.Platform.{Platform}
use stridetastic.NetworkTransforms.{TransformSettings, TransformResult, transform_network_data}

pub record NetworkDataState : Type 0 where
  pub graph_nodes : List ForceGraphNode
  pub graph_links : List ForceGraphLink
  pub raw_nodes : List Node
  pub raw_edges : List Edge
  pub virtual_edge_set : List String
  pub is_loading : Bool
  pub error : Option String
  pub last_update : Option String

abbrev pub initial_state : NetworkDataState
initial_state = record {
  graph_nodes = [];
  graph_links = [];
  raw_nodes = [];
  raw_edges = [];
  virtual_edge_set = [];
  is_loading = true;
  error = none;
  last_update = none;
}

unfoldable pub begin_fetch : NetworkDataState → NetworkDataState
begin_fetch prev = record prev { is_loading = true; error = none }

module _ (platform : Platform) (settings : TransformSettings) where
  -- `graphData` and `virtualEdgeSet` of the transformed data.
  unfoldable pub set_transformed : TransformResult → NetworkDataState → NetworkDataState
  set_transformed transformed prev = record prev {
    graph_nodes = transformed.nodes;
    graph_links = transformed.links;
    virtual_edge_set = transformed.virtual_edge_set;
  }

  -- The rest of `fetchData` after the two requests; none is one of them rejected.
  unfoldable pub apply_response :
      Option (List Node × List Edge) → NetworkDataState → NetworkDataState
  apply_response none prev = record prev {
    error = some "Failed to load network data";
    is_loading = false;
  }
  apply_response (some (nodes, edges)) prev =
      record (set_transformed (transform_network_data platform settings nodes edges)
        (record prev { raw_nodes = nodes; raw_edges = edges })) {
          last_update = some platform.now_text;
          is_loading = false;
        }

  -- The body of the effect, where there are nodes.
  unfoldable pub transform_again : List Node → NetworkDataState → NetworkDataState
  transform_again [] state = state
  transform_again (node ∷ nodes) state =
      set_transformed (transform_network_data platform settings (node ∷ nodes) state.raw_edges)
        state

  -- The effect that runs when a setting or the raw data change.
  unfoldable pub settings_effect : NetworkDataState → NetworkDataState
  settings_effect state = transform_again state.raw_nodes state
