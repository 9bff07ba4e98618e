-- ===== src/NetworkTransforms/Reverse.antt =====
-- networkTransforms.ts: the reverse edges of `forceBidirectional` carry no signal, and the loop over
-- the edges skips every edge without signal.
use stridetastic.Prelude.{
  All-test, All-map, ◌≡◌, refl, ap, ◌∙◌, Bool, true, false, List, [], ◌∷◌, ◌++◌, arith, All,
  All-keep_if, Bool-cases, inl, inr, if◌then◌else◌,
}
use stridetastic.Prelude.Int.{ℤ, eqb_ℤ, eqb_ℤ_iff}
use stridetastic.Types.{Node, Edge}
use stridetastic.ActivityFilters.{ActivityTimeRange}
use stridetastic.Platform.{Platform}
use stridetastic.NetworkTransforms.{TransformSettings, shown_edges, transform_network_data}
use stridetastic.NetworkTransforms.Signal.{is_mqtt_link}
use stridetastic.NetworkTransforms.Filters.{
  is_all, self_directed, filter_nodes, is_loop, filter_edges, filter_activity, filter_bidirectional,
  reverse_edge_of, new_reverse_edges, has_key, add_reverse_edges,
}
use stridetastic.NetworkTransforms.Build.{
  has_broker, push_mqtt_links, View, Graph, push_edges, push_edge, push_known,
}

abbrev NoLoop : Edge → Type 0
NoLoop edge = is_loop edge ≡ false

filter_edges-NoLoop :
    (nodes : List Node) (edges : List Edge) → All NoLoop (filter_edges nodes edges)
unfolding filter_edges
filter_edges-NoLoop nodes edges = All-map (λ edge h. ground arith) _ (All-test _ edges)

no_loop : (edge : Edge) → NoLoop edge → eqb_ℤ edge.target_node_id edge.source_node_id ≡ false
no_loop edge p = ground (
  arith,
  eqb_ℤ_iff edge.target_node_id edge.source_node_id,
  eqb_ℤ_iff edge.source_node_id edge.target_node_id,
)

-- A reverse edge counts as a link without signal, and is no loop.
new_reverse_edges-skipped :
    (keys : List (ℤ × ℤ)) (edges : List Edge)
    → All NoLoop edges
    → All (λ edge. (is_mqtt_link edge ≡ true) × NoLoop edge) (new_reverse_edges keys edges)
unfolding new_reverse_edges reverse_edge_of is_mqtt_link
new_reverse_edges-skipped keys [] h = tt
new_reverse_edges-skipped keys (edge ∷ edges) (p, h) =
    elim (Bool-cases (has_key edge.target_node_id edge.source_node_id keys)) [
      | inl old ↦ rw (old, new_reverse_edges) (new_reverse_edges-skipped keys edges h)
      | inr new ↦
          rw (new, new_reverse_edges) ((refl, no_loop edge p), new_reverse_edges-skipped _ edges h)
    ]

module _ (platform : Platform) (view : View) (exclude : Bool) (nodes : List Node) where
  push_edges-append :
      (xs ys : List Edge) (g : Graph)
      → push_edges platform view exclude nodes (xs ++ ys) g
        ≡ push_edges platform view exclude nodes ys (push_edges platform view exclude nodes xs g)
  unfolding push_edges
  push_edges-append [] ys g = refl
  push_edges-append (x ∷ xs) ys g = push_edges-append xs ys _

  push_edge-skipped :
      (edge : Edge) (g : Graph)
      → is_mqtt_link edge ≡ true
      → NoLoop edge
      → push_edge platform view exclude nodes edge g ≡ g
  unfolding push_edge push_known
  push_edge-skipped edge g m p = ground arith

  push_edges-skipped :
      (edges : List Edge) (g : Graph)
      → All (λ edge. (is_mqtt_link edge ≡ true) × NoLoop edge) edges
      → push_edges platform view exclude nodes edges g ≡ g
  unfolding push_edges
  push_edges-skipped [] g h = refl
  push_edges-skipped (edge ∷ edges) g ((m, p), h) =
      rw (push_edge-skipped edge g m p) (push_edges-skipped edges g h)

module _ (platform : Platform) where
  active-NoLoop :
      (range : ActivityTimeRange) (nodes : List Node) (edges : List Edge)
      → All NoLoop (filter_activity platform range (filter_edges nodes edges))
  unfolding filter_activity
  active-NoLoop range nodes edges = elim (Bool-cases (is_all range)) [
    | inl every ↦ rw every (filter_edges-NoLoop nodes edges)
    | inr some_range ↦ rw some_range (All-keep_if _ NoLoop _ (filter_edges-NoLoop nodes edges))
  ]

  both_edges-NoLoop :
      (settings : TransformSettings) (nodes : List Node) (edges : List Edge)
      → All NoLoop
          (shown_edges platform (record settings { force_bidirectional = false }) nodes edges)
  unfolding shown_edges filter_bidirectional
  both_edges-NoLoop settings nodes edges =
      let active = active-NoLoop settings.link_activity_filter nodes edges in
      elim (Bool-cases settings.show_bidirectional_only) [
        | inl both ↦ rw both (All-keep_if _ NoLoop _ active)
        | inr any_edge ↦ rw any_edge active
      ]

  shown_edges_lem :
      (settings : TransformSettings) (nodes : List Node) (edges : List Edge) (g : Graph)
      → push_edges platform settings.graph_or_map settings.exclude_multi_hop nodes
          (shown_edges platform (record settings { force_bidirectional = true }) nodes edges)
          g
        ≡ push_edges platform settings.graph_or_map settings.exclude_multi_hop nodes
            (shown_edges platform (record settings { force_bidirectional = false }) nodes edges)
            g
  unfolding shown_edges add_reverse_edges
  shown_edges_lem settings nodes edges g =
      let plain =
        shown_edges platform (record settings { force_bidirectional = false }) nodes edges in
      push_edges-append platform settings.graph_or_map settings.exclude_multi_hop nodes plain _ g
      ∙ push_edges-skipped platform settings.graph_or_map settings.exclude_multi_hop nodes _ _
          (new_reverse_edges-skipped _ plain (both_edges-NoLoop settings nodes edges))

  -- `forceBidirectional` changes nothing: no reverse edge that it adds becomes a link.
  pub force_bidirectional_no_effect :
      (settings : TransformSettings) (nodes : List Node) (edges : List Edge)
      → transform_network_data platform (record settings { force_bidirectional = true }) nodes edges
        ≡ transform_network_data platform
            (record settings { force_bidirectional = false })
            nodes
            edges
  unfolding transform_network_data
  force_bidirectional_no_effect settings nodes edges =
      let kept = filter_nodes platform settings.node_activity_filter nodes in
      let loops = self_directed platform settings.link_activity_filter kept edges in
      ap
        (λ (built : Graph). record {
          nodes = built.nodes;
          links =
              if has_broker settings.show_mqtt_interface loops
              then push_mqtt_links platform kept loops built.links
              else built.links;
          virtual_edge_set = [];
        })
        (shown_edges_lem settings kept edges _)
