-- ===== src/PathView/Laws.antt =====
-- usePathFinding.ts: what is shown for a selection.
use stridetastic.Prelude.{
  String, false, ◌||◌, ◌≡◌, ◌⊎◌, inl, inr, refl, some, List, [], ◌∷◌, ◌==◌, arith, any, contains,
  add, contains-add, All, Bool-cases,
}
use stridetastic.PathFinding.{PathFindingOptions}
use stridetastic.PathFinding.Paths.Sound.{IsFound, find_paths_between_nodes_sound}
use stridetastic.PathFinding.Reachable.{
  find_reachable_nodes, find_reachable_links, collect_nodes, collect_links,
}
use stridetastic.PathFinding.Reachable.Sound.{search_reachable_returns}
use stridetastic.NodeSelection.{is_unset}
use stridetastic.PathView.{
  PathViewInput, PathView, id_or_empty, paths_between_nodes, add_path, add_paths, path_node_set,
  no_single, reachable_nodes_from_selected, reachable_links_from_selected, use_path_finding,
}

contains-add_path :
    (id : String) (path node_set : List String)
    → contains id (add_path path node_set) ≡ (contains id node_set || contains id path)
unfolding add_path
contains-add_path id [] node_set = ground arith
contains-add_path id (x ∷ path) node_set =
    ground (arith, contains-add_path id path (add x node_set), contains-add x id node_set)

contains-add_paths :
    (id : String) (paths : List (List String)) (node_set : List String)
    → contains id (add_paths paths node_set) ≡ (contains id node_set || any (contains id) paths)
unfolding add_paths
contains-add_paths id [] node_set = ground arith
contains-add_paths id (path ∷ paths) node_set = ground (
  arith,
  contains-add_paths id paths (add_path path node_set),
  contains-add_path id path node_set,
)

contains-path_node_set :
    (id : String) (paths : List (List String))
    → contains id (path_node_set paths) ≡ any (contains id) paths
unfolding path_node_set
contains-path_node_set id paths = contains-add_paths id paths []

-- The options that the hook passes on.
abbrev pub view_options : PathViewInput → PathFindingOptions
view_options input = record {
  max_hops = input.max_hops;
  max_paths = input.max_paths;
  zero_hop_nodes = some input.zero_hop_nodes;
}

-- Nothing is shown as reachable, or no path is.
abbrev pub IsOneView : PathView → Type 0
IsOneView view =
    (view.paths_between_nodes ≡ [])
    ⊎ ((view.reachable_nodes_from_selected ≡ []) × (view.reachable_links_from_selected ≡ []))

module _ (input : PathViewInput) where
  both_modes :
      is_unset input.selected_node_id || is_unset input.second_selected_node_id ≡ false
      → no_single input ≡ false
      → ⊥
  both_modes two single = ground arith

  paths_returns :
      (paths : List (List String)) × (paths_between_nodes input ≡ some paths)
      × All
          (IsFound
            (id_or_empty input.selected_node_id)
            (id_or_empty input.second_selected_node_id)
            input.links
            (view_options input))
          paths
      × ((is_unset input.selected_node_id || is_unset input.second_selected_node_id ≡ false)
          ⊎ (paths ≡ []))
  unfolding paths_between_nodes
  paths_returns =
      elim (Bool-cases (
        is_unset input.selected_node_id
        || (is_unset input.second_selected_node_id
            || id_or_empty input.selected_node_id == id_or_empty input.second_selected_node_id))) [
              | inl off ↦ ([], rw off refl, tt, inr refl)
              | inr two ↦
                  let (paths, e, found, few) =
                    find_paths_between_nodes_sound (id_or_empty input.selected_node_id)
                      (id_or_empty input.second_selected_node_id) input.links
                      (view_options input) in
                  (paths, rw two e, found, inl (ground arith))
            ]

  nodes_returns :
      (found : List String) × (reachable_nodes_from_selected input ≡ some found)
      × ((no_single input ≡ false) ⊎ (found ≡ []))
  unfolding reachable_nodes_from_selected find_reachable_nodes
  nodes_returns = elim (Bool-cases (no_single input)) [
    | inl off ↦ ([], rw off refl, inr refl)
    | inr single ↦
        let (found, e) =
          search_reachable_returns collect_nodes (id_or_empty input.selected_node_id) input.links
            input.max_hops (some input.zero_hop_nodes) in
        (found, rw single e, inl single)
  ]

  links_returns :
      (found : List String) × (reachable_links_from_selected input ≡ some found)
      × ((no_single input ≡ false) ⊎ (found ≡ []))
  unfolding reachable_links_from_selected find_reachable_links
  links_returns = elim (Bool-cases (no_single input)) [
    | inl off ↦ ([], rw off refl, inr refl)
    | inr single ↦
        let (found, e) =
          search_reachable_returns (collect_links input.links) (id_or_empty input.selected_node_id)
            input.links input.max_hops (some input.zero_hop_nodes) in
        (found, rw single e, inl single)
  ]

  -- The hook returns a view. Each of its paths leads along links from the first selected node to the
  -- second, within the hops allowed; its set of path nodes holds exactly the nodes of these paths;
  -- and not both paths and reachable nodes or links are shown.
  pub use_path_finding_lem :
      (view : PathView) × (use_path_finding input ≡ some view)
      × All
          (IsFound
            (id_or_empty input.selected_node_id)
            (id_or_empty input.second_selected_node_id)
            input.links
            (view_options input))
          view.paths_between_nodes
      × ((id : String)
          → contains id view.path_node_set ≡ any (contains id) view.paths_between_nodes)
      × IsOneView view
  unfolding use_path_finding
  use_path_finding_lem =
      let (paths, e, found, two) = paths_returns in
      let (nodes, n, no_nodes) = nodes_returns in
      let (links, l, no_links) = links_returns in
      (
        record {
          paths_between_nodes = paths;
          path_node_set = path_node_set paths;
          reachable_nodes_from_selected = nodes;
          reachable_links_from_selected = links;
        },
        rw (e, n, l) refl,
        found,
        λ id. contains-path_node_set id paths,
        elim two [
          | inr empty ↦ inl empty
          | inl selected ↦ elim no_nodes [
            | inl single ↦ absurd (both_modes selected single)
            | inr no_node ↦ elim no_links [
              | inl single ↦ absurd (both_modes selected single)
              | inr no_link ↦ inr (no_node, no_link)
            ]
          ]
        ],
      )
