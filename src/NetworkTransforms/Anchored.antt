-- ===== src/NetworkTransforms/Anchored.antt =====
-- networkTransforms.ts: every link that transformNetworkData returns joins two nodes that it returns.
use stridetastic.Prelude.{
  if_rule, ℕ, zero, suc, ◌+◌, ◌≡◌, refl, sym, subst, String, Bool, true, false, not, ◌&&◌, ◌||◌,
  Option, none, some, List, [], ◌∷◌, ◌++◌, ◌==◌, eq_iff, eq_refl, arith, map, any, All, All-append,
  All-map, Bool-cases, Option-cases, inl, inr, if◌then◌else◌, eqb, ltb, or_else,
}
use stridetastic.Prelude.Int.{ℤ}
use stridetastic.Types.{Node, Edge, ForceGraphNode, ForceGraphLink, endpoint_id}
use stridetastic.Platform.{Platform}
use stridetastic.NetworkTransforms.{TransformSettings, shown_edges, transform_network_data}
use stridetastic.NetworkTransforms.Signal.{is_mqtt_link}
use stridetastic.NetworkTransforms.Filters.{
  is_loop, node_id_of, SelfDirected, filter_nodes, self_directed,
}
use stridetastic.NetworkTransforms.Build.{
  View, Graph, is_map, has_broker, to_graph_node, mqtt_broker_node, hidden_ids, hidden_nodes,
  hidden_node, segment, direct_link, multi_hop_link, chain_links, push_multi_hop, push_known,
  push_edge, push_edges, mqtt_link, mqtt_pair, push_mqtt_links,
}

-- Is there a node with this identifier?
abbrev pub has_id : List ForceGraphNode → String → Bool
has_id nodes id = any (λ node. node.id == id) nodes

abbrev pub IsAnchored : List ForceGraphNode → ForceGraphLink → Type 0
IsAnchored nodes link =
    (has_id nodes (endpoint_id link.source) ≡ true)
    × (has_id nodes (endpoint_id link.target) ≡ true)

has_id-append :
    (xs ys : List ForceGraphNode) (s : String) → has_id (xs ++ ys) s ≡ (has_id xs s || has_id ys s)
has_id-append [] ys s = refl
has_id-append (x ∷ xs) ys s = ground (arith, has_id-append xs ys s)

IsAnchored-append :
    (xs ys : List ForceGraphNode) (link : ForceGraphLink)
    → IsAnchored xs link
    → IsAnchored (xs ++ ys) link
IsAnchored-append xs ys link (s, t) = (
  ground (arith, has_id-append xs ys (endpoint_id link.source)),
  ground (arith, has_id-append xs ys (endpoint_id link.target)),
)

module _ (platform : Platform) where
  node_id_of-has_id :
      (nodes : List Node) (id : ℤ) (s : String)
      → node_id_of nodes id ≡ some s
      → has_id (map (to_graph_node platform) nodes) s ≡ true
  unfolding node_id_of to_graph_node
  node_id_of-has_id [] id s h = cc
  node_id_of-has_id (node ∷ nodes) id s h =
      ground (arith, node_id_of-has_id nodes id s, eq_iff node.node_id s)

  hidden_ids-has_id :
      (edge : Edge) (counter count : ℕ)
      → All
          (λ s. has_id (hidden_nodes platform edge counter count) s ≡ true)
          (hidden_ids platform counter count)
  unfolding hidden_ids hidden_nodes hidden_node
  hidden_ids-has_id edge counter zero = tt
  hidden_ids-has_id edge counter (suc count) =
      (rw eq_refl, All-map (λ s h. ground arith) _ (hidden_ids-has_id edge (counter + 1) count))

  chain_links-IsAnchored :
      (edge : Edge) (nodes : List ForceGraphNode) (chain : List String)
      → All (λ s. has_id nodes s ≡ true) chain
      → All (IsAnchored nodes) (chain_links platform edge chain)
  unfolding chain_links segment
  chain_links-IsAnchored edge nodes [] h = tt
  chain_links-IsAnchored edge nodes (x ∷ []) h = tt
  chain_links-IsAnchored edge nodes (x ∷ y ∷ []) (p, (q, h)) = ((p, q), tt)
  chain_links-IsAnchored edge nodes (x ∷ y ∷ z ∷ rest) (p, (q, h)) =
      ((p, q), chain_links-IsAnchored edge nodes (y ∷ z ∷ rest) (q, h))

  -- The links join known nodes, and the nodes of `base` stay known.
  record Inv (base : List ForceGraphNode) (g : Graph) : Type 0 where
    anchored : All (IsAnchored g.nodes) g.links
    known : (s : String) → has_id base s ≡ true → has_id g.nodes s ≡ true

  module _ (base : List ForceGraphNode) (view : View) (exclude : Bool) where
    push_multi_hop-Inv :
        (edge : Edge) (source_id target_id : String) (g : Graph)
        → has_id base source_id ≡ true
        → has_id base target_id ≡ true
        → Inv base g
        → Inv base (push_multi_hop platform view edge source_id target_id g)
    unfolding push_multi_hop
    push_multi_hop-Inv edge source_id target_id g s t inv =
        let new = hidden_nodes platform edge g.hidden_node_counter edge.last_hops in
        let nodes = g.nodes ++ new in
        let s' : has_id nodes source_id ≡ true = grown new source_id (inv.known source_id s) in
        let t' : has_id nodes target_id ≡ true = grown new target_id (inv.known target_id t) in
        let hidden =
          All-map {Q = λ x. has_id nodes x ≡ true}
            (λ x h. ground (arith, has_id-append g.nodes new x)) _
            (hidden_ids-has_id edge g.hidden_node_counter edge.last_hops) in
        record {
          anchored =
              All-append (IsAnchored nodes) _ _
                (All-append (IsAnchored nodes) g.links _
                  (All-map (λ link h. IsAnchored-append g.nodes new link h) _ inv.anchored)
                  (if_rule (All (IsAnchored nodes)) (is_map view)
                    {x = multi_hop_link platform edge source_id target_id ∷ []} {y = []}
                    (unfold multi_hop_link direct_link in ((s', t'), tt)) tt))
                (chain_links-IsAnchored edge nodes _
                  (s', All-append (λ x. has_id nodes x ≡ true) _ _ hidden (t', tt)));
          known = λ x h. grown new x (inv.known x h);
        }
      where
        grown :
            (new : List ForceGraphNode) (x : String)
            → has_id g.nodes x ≡ true
            → has_id (g.nodes ++ new) x ≡ true
        grown new x h = ground (arith, has_id-append g.nodes new x)

    push_known-Inv :
        (edge : Edge) (source_id target_id : String) (g : Graph)
        → has_id base source_id ≡ true
        → has_id base target_id ≡ true
        → Inv base g
        → Inv base (push_known platform view exclude edge source_id target_id g)
    unfolding push_known
    push_known-Inv edge source_id target_id g s t inv =
        if_rule (Inv base) (source_id == "" || target_id == "") inv (
          if_rule (Inv base) (is_mqtt_link edge && not (is_loop edge)) inv (
            if_rule (Inv base) (exclude && ltb 0 edge.last_hops) inv (
              if_rule (Inv base) (eqb edge.last_hops 0) direct
                (push_multi_hop-Inv edge source_id target_id g s t inv))))
      where
        direct :
            Inv base
              (record g { links = g.links ++ direct_link platform edge source_id target_id ∷ [] })
        direct = record {
          anchored =
              All-append (IsAnchored g.nodes) g.links _ inv.anchored
                (unfold direct_link in ((inv.known source_id s, inv.known target_id t), tt));
          known = inv.known;
        }

    push_known-empty :
        (edge : Edge) (source_id target_id : String) (g : Graph)
        → (source_id == "" || target_id == "") ≡ true
        → push_known platform view exclude edge source_id target_id g ≡ g
    unfolding push_known
    push_known-empty edge source_id target_id g h = rw h

    module _ (nodes : List Node)
        (plain : (s : String)
          → has_id (map (to_graph_node platform) nodes) s ≡ true
          → has_id base s ≡ true) where
      push_edge-Inv :
          (edge : Edge) (g : Graph)
          → Inv base g
          → Inv base (push_edge platform view exclude nodes edge g)
      unfolding push_edge
      push_edge-Inv edge g inv = elim (Option-cases (node_id_of nodes edge.source_node_id)) [
        | inl no_source ↦ rw (no_source) (
            rw (push_known-empty edge "" (or_else (node_id_of nodes edge.target_node_id) "") g refl)
              inv)
        | inr (s, hs) ↦ elim (Option-cases (node_id_of nodes edge.target_node_id)) [
          | inl no_target ↦
              rw (hs, no_target) (rw (push_known-empty edge s "" g (ground arith)) inv)
          | inr (t, ht) ↦
              rw (hs, ht)
                (push_known-Inv edge s t g
                  (plain s (node_id_of-has_id nodes edge.source_node_id s hs))
                  (plain t (node_id_of-has_id nodes edge.target_node_id t ht)) inv)
        ]
      ]

      push_edges-Inv :
          (edges : List Edge) (g : Graph)
          → Inv base g
          → Inv base (push_edges platform view exclude nodes edges g)
      unfolding push_edges
      push_edges-Inv [] g inv = inv
      push_edges-Inv (edge ∷ edges) g inv = push_edges-Inv edges _ (push_edge-Inv edge g inv)

  mqtt_pair-IsAnchored :
      (nodes : List ForceGraphNode) (id : Option String) (seen : String)
      → has_id nodes "mqtt_broker" ≡ true
      → ((s : String) → id ≡ some s → has_id nodes s ≡ true)
      → All (IsAnchored nodes) (mqtt_pair platform id seen)
  unfolding mqtt_pair mqtt_link
  mqtt_pair-IsAnchored nodes none seen b h = tt
  mqtt_pair-IsAnchored nodes (some s) seen b h = elim (Bool-cases (s == "")) [
    | inl nothing ↦ rw nothing tt
    | inr named ↦ rw named ((h s refl, b), ((b, h s refl), tt))
  ]

  push_mqtt_links-IsAnchored :
      (nodes : List ForceGraphNode) (kept : List Node) (loops : SelfDirected)
      (links : List ForceGraphLink)
      → has_id nodes "mqtt_broker" ≡ true
      → ((s : String) → has_id (map (to_graph_node platform) kept) s ≡ true → has_id nodes s ≡ true)
      → All (IsAnchored nodes) links
      → All (IsAnchored nodes) (push_mqtt_links platform kept loops links)
  unfolding push_mqtt_links
  push_mqtt_links-IsAnchored nodes kept [] links b plain h = h
  push_mqtt_links-IsAnchored nodes kept ((id, seen) ∷ loops) links b plain h =
      push_mqtt_links-IsAnchored nodes kept loops _ b plain (
        All-append (IsAnchored nodes) links _ h (
          mqtt_pair-IsAnchored nodes (node_id_of kept id) seen b
            (λ s e. plain s (node_id_of-has_id kept id s e))))

  -- The graph before and after the loop over the edges.
  abbrev first_graph : Bool → List Node → Graph
  first_graph broker kept =
      let plain = map (to_graph_node platform) kept in
      record {
        nodes = if broker then plain ++ mqtt_broker_node platform ∷ [] else plain;
        links = [];
        hidden_node_counter = 0;
      }

  first_graph-Inv : (g : Graph) → g.links ≡ [] → Inv g.nodes g
  first_graph-Inv g e = record {
    anchored = subst (All (IsAnchored g.nodes)) (sym e) tt;
    known = λ s h. h;
  }

  result-IsAnchored :
      (broker : Bool) (view : View) (exclude : Bool) (kept : List Node) (edges : List Edge)
      (loops : SelfDirected)
      → All
          (IsAnchored (push_edges platform view exclude kept edges (first_graph broker kept)).nodes)
          (if broker
            then push_mqtt_links platform kept loops
                (push_edges platform view exclude kept edges (first_graph broker kept)).links
            else (push_edges platform view exclude kept edges (first_graph broker kept)).links)
  result-IsAnchored true view exclude kept edges loops =
      let plain = map (to_graph_node platform) kept in
      let base = plain ++ mqtt_broker_node platform ∷ [] in
      let listed = λ (s : String) (h : has_id plain s ≡ true).
        let grown : has_id base s ≡ true =
          rw (has_id-append plain (mqtt_broker_node platform ∷ []) s, h) refl in
        grown in
      let inv =
        push_edges-Inv base view exclude kept listed edges _
          (first_graph-Inv (first_graph true kept) refl) in
      push_mqtt_links-IsAnchored _ kept loops _ (inv.known "mqtt_broker" (broker_listed plain))
        (λ s h. inv.known s (listed s h)) inv.anchored
    where
      broker_listed :
          (nodes : List ForceGraphNode)
          → has_id (nodes ++ mqtt_broker_node platform ∷ []) "mqtt_broker" ≡ true
      broker_listed nodes =
          rw (has_id-append nodes (mqtt_broker_node platform ∷ []) "mqtt_broker")
            (unfold mqtt_broker_node in ground arith)
  result-IsAnchored false view exclude kept edges loops =
      let plain = map (to_graph_node platform) kept in
      let inv =
        push_edges-Inv plain view exclude kept (λ s h. h) edges _
          (first_graph-Inv (first_graph false kept) refl) in
      inv.anchored

  -- Every link of the result joins two nodes of the result.
  pub transform_network_data-IsAnchored :
      (settings : TransformSettings) (nodes : List Node) (edges : List Edge)
      → All
          (IsAnchored (transform_network_data platform settings nodes edges).nodes)
          (transform_network_data platform settings nodes edges).links
  unfolding transform_network_data
  transform_network_data-IsAnchored settings nodes edges =
      let kept = filter_nodes platform settings.node_activity_filter nodes in
      let loops = self_directed platform settings.link_activity_filter kept edges in
      result-IsAnchored (has_broker settings.show_mqtt_interface loops) settings.graph_or_map
        settings.exclude_multi_hop kept (shown_edges platform settings kept edges) loops
