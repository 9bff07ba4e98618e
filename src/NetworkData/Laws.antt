-- ===== src/NetworkData/Laws.antt =====
-- useNetworkData.ts: what holds of the hook's state after any sequence of updates.
use stridetastic.Prelude.{
  ap, sym, String, Bool, true, false, ◌&&◌, ◌≡◌, refl, Option, none, some, is_some, List, [], ◌∷◌,
  arith,
}
use stridetastic.Types.{Node, Edge}
use stridetastic.Platform.{Platform}
use stridetastic.ActivityFilters.{all}
use stridetastic.NetworkTransforms.{
  TransformSettings, TransformResult, shown_edges, transform_network_data,
}
use stridetastic.NetworkTransforms.Filters.{
  filter_nodes, filter_edges, filter_activity, self_directed, note_loops,
}
use stridetastic.NetworkTransforms.Build.{graph, push_edges}
use stridetastic.NetworkData.{
  NetworkDataState, initial_state, begin_fetch, set_transformed, apply_response, transform_again,
  settings_effect,
}

-- The graph in the state is the transform of the raw data, at some time and with some settings; and
-- no error stands beside the loading flag.
pub record IsValid (s : NetworkDataState) : Type 0 where
  pub platform : Platform
  pub settings : TransformSettings
  pub same_nodes :
      s.graph_nodes ≡ (transform_network_data platform settings s.raw_nodes s.raw_edges).nodes
  pub same_links :
      s.graph_links ≡ (transform_network_data platform settings s.raw_nodes s.raw_edges).links
  pub same_virtual :
      s.virtual_edge_set
      ≡ (transform_network_data platform settings s.raw_nodes s.raw_edges).virtual_edge_set
  pub quiet : (is_some s.error && s.is_loading) ≡ false

pub data Step : NetworkDataState → NetworkDataState → Type 0 where
  fetch : (s : NetworkDataState) → Step s (begin_fetch s)
  respond :
      (platform : Platform) (settings : TransformSettings)
      (response : Option (List Node × List Edge)) (s : NetworkDataState)
      → Step s (apply_response platform settings response s)
  change :
      (platform : Platform) (settings : TransformSettings) (s : NetworkDataState)
      → Step s (settings_effect platform settings s)

pub data Reach : NetworkDataState → Type 0 where
  here : Reach initial_state
  next : {s t : NetworkDataState} → Reach s → Step s t → Reach t

-- Nothing is filtered and nothing added.
abbrev plain_settings : TransformSettings
plain_settings = record {
  graph_or_map = graph;
  show_bidirectional_only = false;
  show_mqtt_interface = false;
  force_bidirectional = false;
  exclude_multi_hop = false;
  node_activity_filter = all;
  link_activity_filter = all;
}

initial_state-IsValid : Platform → IsValid initial_state
unfolding transform_network_data shown_edges filter_nodes filter_edges filter_activity self_directed
    note_loops push_edges
initial_state-IsValid platform = record {
  platform = platform;
  settings = plain_settings;
  same_nodes = refl;
  same_links = refl;
  same_virtual = refl;
  quiet = refl;
}

-- Only the flag and the error change.
flags-IsValid :
    (s : NetworkDataState) (loading : Bool) (error : Option String)
    → (is_some error && loading) ≡ false
    → IsValid s
    → IsValid (record s { is_loading = loading; error = error })
flags-IsValid s loading error quiet v = record {
  platform = v.platform;
  settings = v.settings;
  same_nodes = v.same_nodes;
  same_links = v.same_links;
  same_virtual = v.same_virtual;
  quiet = quiet;
}

module _ (platform : Platform) (settings : TransformSettings) where
  apply_response-IsValid :
      (response : Option (List Node × List Edge)) (s : NetworkDataState)
      → IsValid s
      → IsValid (apply_response platform settings response s)
  unfolding apply_response set_transformed
  apply_response-IsValid none s v = flags-IsValid s false (some _) refl v
  apply_response-IsValid (some (nodes, edges)) s v = record {
    platform = platform;
    settings = settings;
    same_nodes = refl;
    same_links = refl;
    same_virtual = refl;
    quiet = ground arith;
  }

  transform_again-IsValid :
      (nodes : List Node) (s : NetworkDataState)
      → s.raw_nodes ≡ nodes
      → IsValid s
      → IsValid (transform_again platform settings nodes s)
  unfolding transform_again set_transformed
  transform_again-IsValid [] s e v = v
  transform_again-IsValid (node ∷ nodes) s e v =
      let result : List Node → TransformResult =
        λ ns. transform_network_data platform settings ns s.raw_edges in
      record {
        platform = platform;
        settings = settings;
        same_nodes = ap (λ ns. (result ns).nodes) (sym e);
        same_links = ap (λ ns. (result ns).links) (sym e);
        same_virtual = ap (λ ns. (result ns).virtual_edge_set) (sym e);
        quiet = v.quiet;
      }

  settings_effect-IsValid :
      (s : NetworkDataState) → IsValid s → IsValid (settings_effect platform settings s)
  unfolding settings_effect
  settings_effect-IsValid s v = transform_again-IsValid s.raw_nodes s refl v

Step-IsValid : {s t : NetworkDataState} → Step s t → IsValid s → IsValid t
unfolding begin_fetch
Step-IsValid (fetch s) v = flags-IsValid s true none refl v
Step-IsValid (respond platform settings response s) v =
    apply_response-IsValid platform settings response s v
Step-IsValid (change platform settings s) v = settings_effect-IsValid platform settings s v

-- After any sequence of fetches, answers, failures and changes of settings, the graph in the state is
-- transformNetworkData of the raw data in the state, at some time and with some settings, and an
-- error is never shown while loading.
pub shown_graph-IsValid : {s : NetworkDataState} → Platform → Reach s → IsValid s
shown_graph-IsValid platform here = initial_state-IsValid platform
shown_graph-IsValid platform (next r step) = Step-IsValid step (shown_graph-IsValid platform r)
