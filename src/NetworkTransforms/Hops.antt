-- ===== src/NetworkTransforms/Hops.antt =====
-- networkTransforms.ts: what becomes of edges with hops between their ends.
use stridetastic.Prelude.{
  ◌≡◌, refl, String, Bool, true, false, not, ◌&&◌, ◌||◌, Option, none, some, List, [], ◌∷◌, ◌++◌,
  ◌==◌, arith, map, All, All-append, Bool-cases, inl, inr, if◌then◌else◌, eqb, ltb, or_else,
}
use stridetastic.Types.{Node, Edge, ForceGraphNode, ForceGraphLink}
use stridetastic.Platform.{Platform}
use stridetastic.NetworkTransforms.{TransformSettings, shown_edges, transform_network_data}
use stridetastic.NetworkTransforms.Signal.{is_mqtt_link}
use stridetastic.NetworkTransforms.Filters.{
  is_loop, node_id_of, SelfDirected, filter_nodes, self_directed,
}
use stridetastic.NetworkTransforms.Build.{
  View, Graph, has_broker, to_graph_node, mqtt_broker_node, direct_link, push_known, push_edge,
  push_edges, mqtt_link, mqtt_pair, push_mqtt_links,
}

-- A link between two neighbours, not a part of a longer one and not a short cut for it.
abbrev pub IsPlainLink : ForceGraphLink → Type 0
IsPlainLink link = (link.is_multi_hop_segment ≡ none) × (link.is_direct_multi_hop ≡ none)

-- A node that is drawn.
abbrev pub IsShown : ForceGraphNode → Type 0
IsShown node = node.is_hidden ≡ some false

module _ (platform : Platform) where
  -- A link that stands for no hops, and a node that is shown.
  record Inv (g : Graph) : Type 0 where
    shown : All IsShown g.nodes
    plain : All IsPlainLink g.links

  push_edge-Inv :
      (view : View) (nodes : List Node) (edge : Edge) (g : Graph)
      → Inv g
      → Inv (push_edge platform view true nodes edge g)
  unfolding push_edge push_known
  push_edge-Inv view nodes edge g inv =
      let s = or_else (node_id_of nodes edge.source_node_id) "" in
      let t = or_else (node_id_of nodes edge.target_node_id) "" in
      elim (Bool-cases (s == "" || t == "")) [
        | inl gone ↦ rw gone inv
        | inr known ↦ rw known (elim (Bool-cases (is_mqtt_link edge && not (is_loop edge))) [
          | inl silent ↦ rw silent inv
          | inr heard ↦ rw heard (elim (Bool-cases (ltb 0 edge.last_hops)) [
            | inl far ↦ rw far inv
            | inr near ↦
                let none_between : eqb edge.last_hops 0 ≡ true = ground arith in
                rw (near, none_between)
                  (record {
                    shown = inv.shown;
                    plain =
                        All-append IsPlainLink g.links _ inv.plain
                          (unfold direct_link in ((refl, refl), tt));
                  })
          ])
        ])
      ]

  push_edges-Inv :
      (view : View) (nodes : List Node) (edges : List Edge) (g : Graph)
      → Inv g
      → Inv (push_edges platform view true nodes edges g)
  unfolding push_edges
  push_edges-Inv view nodes [] g inv = inv
  push_edges-Inv view nodes (edge ∷ edges) g inv =
      push_edges-Inv view nodes edges _ (push_edge-Inv view nodes edge g inv)

  to_graph_node-IsShown : (nodes : List Node) → All IsShown (map (to_graph_node platform) nodes)
  unfolding to_graph_node
  to_graph_node-IsShown [] = tt
  to_graph_node-IsShown (node ∷ nodes) = (refl, to_graph_node-IsShown nodes)

  mqtt_pair-IsPlainLink :
      (id : Option String) (seen : String) → All IsPlainLink (mqtt_pair platform id seen)
  unfolding mqtt_pair mqtt_link
  mqtt_pair-IsPlainLink none seen = tt
  mqtt_pair-IsPlainLink (some s) seen = elim (Bool-cases (s == "")) [
    | inl nothing ↦ rw nothing tt
    | inr named ↦ rw named ((refl, refl), ((refl, refl), tt))
  ]

  push_mqtt_links-IsPlainLink :
      (kept : List Node) (loops : SelfDirected) (links : List ForceGraphLink)
      → All IsPlainLink links
      → All IsPlainLink (push_mqtt_links platform kept loops links)
  unfolding push_mqtt_links
  push_mqtt_links-IsPlainLink kept [] links h = h
  push_mqtt_links-IsPlainLink kept ((id, seen) ∷ loops) links h =
      push_mqtt_links-IsPlainLink kept loops _
        (All-append IsPlainLink links _ h (mqtt_pair-IsPlainLink (node_id_of kept id) seen))

  -- The graph before the loop over the edges.
  abbrev first_graph : Bool → List Node → Graph
  first_graph broker kept =
      let shown = map (to_graph_node platform) kept in
      record {
        nodes = if broker then shown ++ mqtt_broker_node platform ∷ [] else shown;
        links = [];
        hidden_node_counter = 0;
      }

  first_graph-Inv : (broker : Bool) (kept : List Node) → Inv (first_graph broker kept)
  first_graph-Inv true kept = record {
    shown =
        All-append IsShown (map (to_graph_node platform) kept) _ (to_graph_node-IsShown kept)
          (unfold mqtt_broker_node in (refl, tt));
    plain = tt;
  }
  first_graph-Inv false kept = record { shown = to_graph_node-IsShown kept; plain = tt }

  result-IsPlain :
      (broker : Bool) (view : View) (kept : List Node) (edges : List Edge) (loops : SelfDirected)
      → All IsShown (push_edges platform view true kept edges (first_graph broker kept)).nodes
        × All IsPlainLink (
            if broker
            then push_mqtt_links platform kept loops
                (push_edges platform view true kept edges (first_graph broker kept)).links
            else (push_edges platform view true kept edges (first_graph broker kept)).links)
  result-IsPlain true view kept edges loops =
      let inv = push_edges-Inv view kept edges _ (first_graph-Inv true kept) in
      (inv.shown, push_mqtt_links-IsPlainLink kept loops _ inv.plain)
  result-IsPlain false view kept edges loops =
      let inv = push_edges-Inv view kept edges _ (first_graph-Inv false kept) in
      (inv.shown, inv.plain)

  -- With `excludeMultiHop` no node of the result is hidden, and no link stands for hops.
  pub exclude_multi_hop_lem :
      (settings : TransformSettings) (nodes : List Node) (edges : List Edge)
      → settings.exclude_multi_hop ≡ true
      → All IsShown (transform_network_data platform settings nodes edges).nodes
        × All IsPlainLink (transform_network_data platform settings nodes edges).links
  unfolding transform_network_data shown_edges
  exclude_multi_hop_lem settings nodes edges e =
      let kept = filter_nodes platform settings.node_activity_filter nodes in
      let loops = self_directed platform settings.link_activity_filter kept edges in
      rw e (
        result-IsPlain (has_broker settings.show_mqtt_interface loops) settings.graph_or_map kept
          (shown_edges platform settings kept edges) loops)
