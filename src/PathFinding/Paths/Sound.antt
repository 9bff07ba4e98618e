-- ===== src/PathFinding/Paths/Sound.antt =====
-- pathFinding.ts, findPathsBetweenNodes: it returns, and what it returns are routes within the limits.

use stridetastic.Prelude.{
  refl, ◌≢◌, ◌||◌, ap, keep_if, ℕ, ◌≤◌, ◌<◌, ◌≡◌, subst, String, true, ◌&&◌, some, List, [], ◌∷◌,
  arith, eq_iff, ◌==◌, length, length-append, contains, All, All-append, Bool-cases, inl, inr, leb,
  ltb,
}
use stridetastic.Types.{ForceGraphLink}
use stridetastic.PathFinding.{
  valid_path, calculate_hops_internal, interior_hops, PathFindingOptions, build_adjacency_list,
  neighbors,
}
use stridetastic.PathFinding.Adjacency.{contains-build_adjacency_list}
use stridetastic.PathFinding.Search.{Item, Search, extend, start, search_budget, join}
use stridetastic.PathFinding.Search.Termination.{
  Shrinks, queue_rounds-append, path_rounds-pos, rounds-extend-lt, search_loop_ends,
  search_loop_rule, queue_rounds-start,
}
use stridetastic.PathFinding.Search.Route.{
  start-IsRoute, IsRoute, extend-IsRoute, All-extend, hops-snoc,
}
use stridetastic.PathFinding.Paths.{find_paths_between_nodes, visit_path, search_paths}

visit_path-Shrinks :
    (links : List ForceGraphLink) (target_id : String) (options : PathFindingOptions)
    → Shrinks links
        (λ (paths : List (List String)). leb options.max_paths (length paths))
        (visit_path target_id options (build_adjacency_list links))
unfolding visit_path
visit_path-Shrinks links target_id options item s = ground (
  arith,
  path_rounds-pos links item.path,
  rounds-extend-lt links (λ _. true) item,
  queue_rounds-append links s.queue
      (extend (λ _. true) item.path (neighbors (build_adjacency_list links) item.node_id)),
)

search_paths_returns :
    (source_id target_id : String) (links : List ForceGraphLink) (options : PathFindingOptions)
    → (paths : List (List String)) × (search_paths source_id target_id links options ≡ some paths)
unfolding search_paths
search_paths_returns source_id target_id links options =
    search_loop_ends links _ _ (visit_path-Shrinks links target_id options)
      (search_budget links source_id) (start source_id []) (queue_rounds-start links source_id [])

module _ (source_id target_id : String) (links : List ForceGraphLink)
    (options : PathFindingOptions) where
  hops : List String → ℕ
  hops path = calculate_hops_internal path options.zero_hop_nodes

  record IsQueued (item : Item) : Type 0 where
    route : IsRoute links source_id item
    short : calculate_hops_internal item.path options.zero_hop_nodes ≤ options.max_hops

  -- A path that the search may return.
  pub record IsFound (path : List String) : Type 0 where
    pub route : IsRoute links source_id (record { node_id = target_id; path = path })
    pub short : calculate_hops_internal path options.zero_hop_nodes ≤ options.max_hops

  record Inv (s : Search (List (List String))) : Type 0 where
    queued : All IsQueued s.queue
    found : All IsFound s.found
    few : length s.found ≤ options.max_paths

  IsQueued-extend :
      (item : Item)
      → IsQueued item
      → calculate_hops_internal item.path options.zero_hop_nodes < options.max_hops
      → All IsQueued
          (extend (λ _. true) item.path (neighbors (build_adjacency_list links) item.node_id))
  IsQueued-extend item q less =
      All-extend IsQueued (λ _. true) item.path _
        (λ n next off _. record {
          route =
              extend-IsRoute links source_id item n q.route
                (rw (← contains-build_adjacency_list links item.node_id n) next) off;
          short = omega (arith, hops-snoc options.zero_hop_nodes item.path n);
        })

  visit_path-Inv :
      (item : Item) (s : Search (List (List String)))
      → length s.found < options.max_paths
      → IsQueued item
      → Inv s
      → Inv (visit_path target_id options (build_adjacency_list links) item s)
  unfolding visit_path
  visit_path-Inv item s room q inv =
      elim (Bool-cases (item.node_id == target_id && ltb 1 (length item.path))) [
        | inl done ↦ rw done (record {
          queued = inv.queued;
          found = All-append IsFound s.found (item.path ∷ []) inv.found (arrived done, tt);
          few = omega (arith, length-append s.found (item.path ∷ []));
        })
        | inr on ↦
            rw on
              (elim (Bool-cases
                (leb options.max_hops (calculate_hops_internal item.path options.zero_hop_nodes))) [
                  | inl far ↦ rw far inv
                  | inr near ↦ rw near (elim (Bool-cases (contains (join item.path) s.visited)) [
                    | inl old ↦ rw old inv
                    | inr new ↦ rw new (record {
                      queued =
                          All-append IsQueued s.queue _ inv.queued
                            (IsQueued-extend item q (ground arith));
                      found = inv.found;
                      few = inv.few;
                    })
                  ])
                ])
      ]
    where
      arrived : (item.node_id == target_id && ltb 1 (length item.path)) ≡ true → IsFound item.path
      arrived done =
          let e : item.node_id ≡ target_id = ground (arith, eq_iff item.node_id target_id) in
          record { route = rw (← e) q.route; short = q.short }

  start-Inv : Inv (start source_id [])
  unfolding start
  start-Inv = record {
    queued = (
      record {
        route = start-IsRoute links source_id;
        short = unfold calculate_hops_internal interior_hops in omega arith;
      },
      tt,
    );
    found = tt;
    few = omega arith;
  }

  -- The invariant at the end of the `while` loop.
  pub search_paths_sound :
      (paths : List (List String))
      → search_paths source_id target_id links options ≡ some paths
      → All IsFound paths × (length paths ≤ options.max_paths)
  unfolding search_paths
  search_paths_sound paths h =
      let (t, inv, e, _) =
        search_loop_rule links _ _ Inv
          (λ item rest s shift more inv.
            let left = record s { queue = rest } in
            let both : IsQueued item × All IsQueued rest = subst (All IsQueued) shift inv.queued in
            visit_path-Inv item left (ground arith) both.0
              (record { queued = both.1; found = inv.found; few = inv.few }))
          (search_budget links source_id) (start source_id []) paths start-Inv h in
      (subst (All IsFound) e inv.found, rw e at inv.few)

keep_if-All :
    (links : List ForceGraphLink) (paths : List (List String))
    → All (λ path. valid_path links path ≡ true) paths
    → keep_if (valid_path links) paths ≡ paths
keep_if-All links [] h = refl
keep_if-All links (path ∷ paths) (p, h) =
    rw (p, keep_if) (ap (λ r. path ∷ r) (keep_if-All links paths h))

All-linked :
    (source_id target_id : String) (links : List ForceGraphLink) (options : PathFindingOptions)
    (paths : List (List String))
    → All (IsFound source_id target_id links options) paths
    → All (λ path. valid_path links path ≡ true) paths
All-linked source_id target_id links options [] h = tt
All-linked source_id target_id links options (path ∷ paths) (f, h) =
    (f.route.linked, All-linked source_id target_id links options paths h)

module _ (source_id target_id : String) (links : List ForceGraphLink)
    (options : PathFindingOptions) where
  -- Where the source and the target are not empty and differ, the final filter drops nothing: the
  -- result is that of the `while` loop.
  pub find_paths_between_nodes_lem :
      source_id ≢ ""
      → target_id ≢ ""
      → source_id ≢ target_id
      → find_paths_between_nodes source_id target_id links options
        ≡ search_paths source_id target_id links options
  unfolding find_paths_between_nodes
  find_paths_between_nodes_lem h k ne =
      let (paths, e) = search_paths_returns source_id target_id links options in
      let sound = search_paths_sound source_id target_id links options paths e in
      let all =
        keep_if-All links paths (All-linked source_id target_id links options paths sound.0) in
      ground (arith, eq_iff source_id "", eq_iff target_id "", eq_iff source_id target_id, e, all)

  -- The search returns, with at most `maxPaths` paths; each leads from the source to the target along
  -- links, repeats no node, and costs at most `maxHops` hops.
  pub find_paths_between_nodes_sound :
      (paths : List (List String)) × (find_paths_between_nodes source_id target_id links options
        ≡ some paths)
      × All (IsFound source_id target_id links options) paths
      × (length paths ≤ options.max_paths)
  unfolding find_paths_between_nodes
  find_paths_between_nodes_sound =
      elim (Bool-cases (source_id == "" || (target_id == "" || source_id == target_id))) [
        | inl trivial ↦ ([], rw trivial, tt, omega arith)
        | inr proper ↦
            let (paths, e) = search_paths_returns source_id target_id links options in
            let sound = search_paths_sound source_id target_id links options paths e in
            let all =
              keep_if-All links paths
                (All-linked source_id target_id links options paths sound.0) in
            (paths, rw (proper, e) (ap some all), sound.0, sound.1)
      ]
