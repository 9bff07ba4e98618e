-- ===== src/PathFinding/Paths/Complete.antt =====
-- pathFinding.ts, findPathsBetweenNodes: below its limit of paths it misses no route.
use mathlib.Core.List.Memᴰ
use mathlib.Core.Path.{subst₂}
use stridetastic.PathFinding.Paths.Sound.{find_paths_between_nodes_lem}
use stridetastic.Prelude.{
  List-cases, zero, ⊎_elim, ℕ, suc, ◌≤◌, ◌<◌, ◌≡◌, ◌≢◌, refl, sym, ap, subst, ◌∙◌, inl, inr, String,
  Bool, true, false, ◌&&◌, some, List, [], ◌∷◌, ◌++◌, arith, eq_iff, eq_refl, ◌==◌, length,
  length-append, contains, contains-append, contains-add, add, last?, snoc-cases, All, All-append,
  Memᴰ, Bool-cases, Option-cases, leb, ltb,
}
use stridetastic.Types.{ForceGraphLink}
use stridetastic.PathFinding.{
  link_exists, calculate_hops_internal, PathFindingOptions, build_adjacency_list, neighbors,
}
use stridetastic.PathFinding.Adjacency.{contains-build_adjacency_list}
use stridetastic.PathFinding.Search.{Item, Search, extend, start, search_loop, search_budget, join}
use stridetastic.PathFinding.Search.Termination.{search_loop_rule}
use stridetastic.PathFinding.Search.Route.{
  Item-snoc, Item-start, route-ne-nil, contains_of_last?, IsRoute, extend-IsRoute, start-IsRoute,
  All-extend, Memᴰ-extend, hops-snoc, IsRoute-init,
}
use stridetastic.PathFinding.Search.Plain.{Plain, join-route_injective}
use stridetastic.PathFinding.Paths.{visit_path, search_paths, find_paths_between_nodes}

module _ (target_id : String) (options : PathFindingOptions) where
  abbrev arrives : Item → Bool
  arrives item = item.node_id == target_id && ltb 1 (length item.path)

  abbrev hops : Item → ℕ
  hops item = calculate_hops_internal item.path options.zero_hop_nodes

  -- What became of a path, so far.
  data Handled (s : Search (List (List String))) (item : Item) : Type 0 where
    waiting : Memᴰ item s.queue → Handled s item
    returned : arrives item ≡ true → Memᴰ item.path s.found → Handled s item
    expanded : arrives item ≡ false → contains (join item.path) s.visited ≡ true → Handled s item
    cut : arrives item ≡ false → options.max_hops ≤ hops item → Handled s item

  module _ (links : List ForceGraphLink) where
    abbrev visit : Item → Search (List (List String)) → Search (List (List String))
    visit = visit_path target_id options (build_adjacency_list links)

    abbrev extensions : Item → List Item
    extensions item =
        extend (λ _. true) item.path (neighbors (build_adjacency_list links) item.node_id)

    -- The four ways through a round.
    data Round (item : Item) (s t : Search (List (List String))) : Type 0 where
      finds :
          arrives item ≡ true → t ≡ record s { found = s.found ++ item.path ∷ [] } → Round item s t
      stops : arrives item ≡ false → options.max_hops ≤ hops item → t ≡ s → Round item s t
      skips :
          arrives item ≡ false → contains (join item.path) s.visited ≡ true → t ≡ s → Round item s t
      expands :
          arrives item ≡ false
          → t ≡ record s {
            visited = add (join item.path) s.visited;
            queue = s.queue ++ extensions item;
          }
          → Round item s t

    visit-Round : (item : Item) (s : Search (List (List String))) → Round item s (visit item s)
    unfolding visit_path
    visit-Round item s = elim (Bool-cases (arrives item)) [
      | inl done ↦ finds done (rw done)
      | inr on ↦ elim (Bool-cases (leb options.max_hops (hops item))) [
        | inl far ↦ stops on (ground arith) (rw (on, far))
        | inr near ↦ elim (Bool-cases (contains (join item.path) s.visited)) [
          | inl old ↦ skips on old (rw (on, near, old))
          | inr new ↦ expands on (rw (on, near, new))
        ]
      ]
    ]

    module _ {item : Item} {s t : Search (List (List String))} where
      item-Handled : Round item s t → Handled t item
      item-Handled (finds done e) =
          returned done (rw e (Memᴰ.append_right s.found (Memᴰ.head refl)))
      item-Handled (stops on far e) = cut on far
      item-Handled (skips on old e) = expanded on (rw e old)
      item-Handled (expands on e) = expanded on (
          rw e (
            ground (
              arith,
              contains-add (join item.path) (join item.path) s.visited,
              eq_refl (join item.path),
            )))

      queue_grows : (x : Item) → Round item s t → Memᴰ x s.queue → Memᴰ x t.queue
      queue_grows x (finds done e) m = rw e m
      queue_grows x (stops on far e) m = rw e m
      queue_grows x (skips on old e) m = rw e m
      queue_grows x (expands on e) m = rw e (Memᴰ.append_left (extensions item) m)

      found_grows : (p : List String) → Round item s t → Memᴰ p s.found → Memᴰ p t.found
      found_grows p (finds done e) m = rw e (Memᴰ.append_left (item.path ∷ []) m)
      found_grows p (stops on far e) m = rw e m
      found_grows p (skips on old e) m = rw e m
      found_grows p (expands on e) m = rw e m

      visited_grows :
          (key : String)
          → Round item s t
          → contains key s.visited ≡ true
          → contains key t.visited ≡ true
      visited_grows key (finds done e) m = rw e m
      visited_grows key (stops on far e) m = rw e m
      visited_grows key (skips on old e) m = rw e m
      visited_grows key (expands on e) m =
          rw e (ground (arith, contains-add (join item.path) key s.visited))

    keeps_Handled :
        {item : Item} {rest : List Item} {s t : Search (List (List String))} (x : Item)
        → s.queue ≡ item ∷ rest
        → Round item (record s { queue = rest }) t
        → Handled s x
        → Handled t x
    keeps_Handled {t} x shift round (waiting m) =
        ⊎_elim (λ e. subst (Handled t) (sym e) (item-Handled round))
          (λ later. waiting (queue_grows x round later)) (Memᴰ.cases_cons (subst (Memᴰ x) shift m))
    keeps_Handled x shift round (returned done m) = returned done (found_grows x.path round m)
    keeps_Handled x shift round (expanded on m) = expanded on (visited_grows (join x.path) round m)
    keeps_Handled x shift round (cut on far) = cut on far

    abbrev child : Item → String → Item
    child item n = record { node_id = n; path = item.path ++ n ∷ [] }

    module _ (source_id : String) (plain : Plain links source_id) where
      record Inv (s : Search (List (List String))) : Type 0 where
        source : Handled s (record { node_id = source_id; path = source_id ∷ [] })
        routes : All (IsRoute links source_id) s.queue
        closed :
            (item : Item) (n : String)
            → IsRoute links source_id item
            → contains (join item.path) s.visited ≡ true
            → link_exists links item.node_id n ≡ true
            → contains n item.path ≡ false
            → Handled s (child item n)

      routes_kept :
          (item : Item) (s t : Search (List (List String)))
          → IsRoute links source_id item
          → All (IsRoute links source_id) s.queue
          → Round item s t
          → All (IsRoute links source_id) t.queue
      routes_kept item s t r all (finds done e) = rw e all
      routes_kept item s t r all (stops on far e) = rw e all
      routes_kept item s t r all (skips on seen e) = rw e all
      routes_kept item s t r all (expands on e) = rw e (
          All-append (IsRoute links source_id) s.queue _ all (
            All-extend (IsRoute links source_id) (λ _. true) item.path _
              (λ n next off _.
                extend-IsRoute links source_id item n r
                  (rw (← contains-build_adjacency_list links item.node_id n) next) off)))

      -- The children of a path that was expanded before the round.
      IsClosed-before :
          (item : Item) (rest : List Item) (s t : Search (List (List String)))
          → s.queue ≡ item ∷ rest
          → Inv s
          → Round item (record s { queue = rest }) t
          → (x : Item) (n : String) → IsRoute links source_id x
          → contains (join x.path) s.visited ≡ true
          → link_exists links x.node_id n ≡ true
          → contains n x.path ≡ false
          → Handled t (child x n)
      IsClosed-before item rest s t shift inv round x n q old step off =
          keeps_Handled (child x n) shift round (inv.closed x n q old step off)

      IsClosed-kept :
          (item : Item) (rest : List Item) (s t : Search (List (List String)))
          → s.queue ≡ item ∷ rest
          → IsRoute links source_id item
          → Inv s
          → Round item (record s { queue = rest }) t
          → (x : Item) (n : String) → IsRoute links source_id x
          → contains (join x.path) t.visited ≡ true
          → link_exists links x.node_id n ≡ true
          → contains n x.path ≡ false
          → Handled t (child x n)
      IsClosed-kept item rest s t shift r inv (finds done e) x n q old step off =
          IsClosed-before item rest s t shift inv (finds done e) x n q (rw e at old) step off
      IsClosed-kept item rest s t shift r inv (stops on far e) x n q old step off =
          IsClosed-before item rest s t shift inv (stops on far e) x n q (rw e at old) step off
      IsClosed-kept item rest s t shift r inv (skips on seen e) x n q old step off =
          IsClosed-before item rest s t shift inv (skips on seen e) x n q (rw e at old) step off
      IsClosed-kept item rest s t shift r inv (expands on e) x n q old step off =
          elim (Bool-cases (contains (join x.path) s.visited)) [
            | inl before ↦
                IsClosed-before item rest s t shift inv (expands on e) x n q before step off
            | inr new ↦
                let known : contains (join x.path) (add (join item.path) s.visited) ≡ true =
                  rw e at old in
                let key : join item.path ≡ join x.path = ground (
                  arith,
                  contains-add (join item.path) (join x.path) s.visited,
                  eq_iff (join item.path) (join x.path),
                ) in
                let same : item ≡ x = join-route_injective links source_id plain item x r q key in
                let queued : Memᴰ (child x n) (extensions x) =
                  Memᴰ-extend (λ _. true) x.path (neighbors (build_adjacency_list links) x.node_id)
                    n (rw (contains-build_adjacency_list links x.node_id n) step) off refl in
                waiting (
                  rw e (
                    Memᴰ.append_right rest
                      (subst (λ i. Memᴰ (child x n) (extensions i)) (sym same) queued)))
          ]

      visit-Inv :
          (item : Item) (rest : List Item) (s : Search (List (List String)))
          → s.queue ≡ item ∷ rest
          → Inv s
          → Inv (visit item (record s { queue = rest }))
      visit-Inv item rest s shift inv =
          let left = record s { queue = rest } in
          let round = visit-Round item left in
          let both : IsRoute links source_id item × All (IsRoute links source_id) rest =
            subst (All (IsRoute links source_id)) shift inv.routes in
          record {
            source = keeps_Handled _ shift round inv.source;
            routes = routes_kept item left (visit item left) both.0 both.1 round;
            closed = IsClosed-kept item rest s (visit item left) shift both.0 inv round;
          }

      start-Inv : Inv (start source_id [])
      unfolding start
      start-Inv = record {
        source = waiting (Memᴰ.head refl);
        routes = (start-IsRoute links source_id, tt);
        closed = λ item n r old step off. cc;
      }

      module _ (t : Search (List (List String))) (inv : Inv t) (empty : t.queue ≡ []) where
        -- With an empty queue, an open path within the budget was expanded.
        settled :
            (x : Item)
            → Handled t x
            → arrives x ≡ false
            → hops x < options.max_hops
            → contains (join x.path) t.visited ≡ true
        settled x (waiting m) on near = absurd (Memᴰ.not-nil (subst (Memᴰ x) empty m))
        settled x (returned done m) on near = cc
        settled x (expanded on' m) on near = m
        settled x (cut on' far) on near = absurd (omega arith)

        abbrev OffTarget : Item → Type 0
        OffTarget x = (contains target_id x.path ≡ false) × (hops x < options.max_hops)

        not_arrived :
            (x : Item)
            → IsRoute links source_id x
            → contains target_id x.path ≡ false
            → arrives x ≡ false
        not_arrived x r off =
            ground (arith, eq_iff x.node_id target_id, contains_of_last? x.path x.node_id r.last)

        -- One node more: the path before it was expanded, so this one was handled.
        child-Handled :
            (init : List String) (j n : String)
            → last? init ≡ some j
            → IsRoute links source_id (record { node_id = n; path = init ++ n ∷ [] })
            → contains (join init) t.visited ≡ true
            → Handled t (record { node_id = n; path = init ++ n ∷ [] })
        child-Handled init j n e r known =
            let (parent, step, off) = IsRoute-init links source_id n j init e r in
            inv.closed (record { node_id = j; path = init }) n parent known step off

        module _ (k : ℕ)
            (shorter : (x : Item)
              → length x.path ≤ k
              → IsRoute links source_id x
              → OffTarget x
              → contains (join x.path) t.visited ≡ true) where
          open_snoc :
              (init : List String) (n : String)
              → length init ≤ k
              → IsRoute links source_id (record { node_id = n; path = init ++ n ∷ [] })
              → OffTarget (record { node_id = n; path = init ++ n ∷ [] })
              → contains (join (init ++ n ∷ [])) t.visited ≡ true
          open_snoc init n h r (off, near) = elim (Option-cases (last? init)) [
            | inl none_left ↦
                let (nil, same) = Item-start links source_id n init r none_left in
                settled _
                  (subst₂
                    (λ (i : List String) (m : String).
                      Handled t (record { node_id = m; path = i ++ m ∷ [] }))
                    (sym nil) (sym same) inv.source)
                  (not_arrived _ r off) near
            | inr (j, e) ↦
                let parent : Item = record { node_id = j; path = init } in
                let up = IsRoute-init links source_id n j init e r in
                settled _
                  (child-Handled init j n e r (
                    shorter parent h up.0 (
                      ground (arith, contains-append target_id init (n ∷ []), off),
                      omega (arith, hops-snoc options.zero_hop_nodes init n),
                    )))
                  (not_arrived _ r off) near
          ]

        -- Every route that stays off the target and within the budget was expanded.
        open_expanded :
            (k : ℕ) (x : Item)
            → length x.path ≤ k
            → IsRoute links source_id x
            → OffTarget x
            → contains (join x.path) t.visited ≡ true
        open_expanded zero x h r off = elim (List-cases x.path) [
          | inl nil ↦ absurd (route-ne-nil links source_id x r nil)
          | inr (y, rest, e) ↦ absurd (omega (arith, ap length e))
        ]
        open_expanded (suc k) x h r off = elim (snoc-cases x.path) [
          | inl nil ↦ absurd (route-ne-nil links source_id x r nil)
          | inr (init, n, e) ↦
              let same = Item-snoc links source_id x init n r e in
              subst (λ y. contains (join y.path) t.visited ≡ true) (sym same)
                (open_snoc k (open_expanded k) init n
                  (omega (arith, ap length e, length-append init (n ∷ [])))
                  (subst (IsRoute links source_id) same r) (subst OffTarget same off))
        ]

        -- A route whose last node is the target was returned.
        route_returned :
            (init : List String) (j : String)
            → last? init ≡ some j
            → IsRoute links source_id
                (record { node_id = target_id; path = init ++ target_id ∷ [] })
            → calculate_hops_internal init options.zero_hop_nodes < options.max_hops
            → Memᴰ (init ++ target_id ∷ []) t.found
        route_returned init j e r near =
            let (parent, step, off) = IsRoute-init links source_id target_id j init e r in
            let known =
              open_expanded (length init) (record { node_id = j; path = init }) (omega arith) parent
                (off, near) in
            at_target init (long_enough init j e) (child-Handled init j target_id e r known)
          where
            long_enough :
                (xs : List String) (i : String)
                → last? xs ≡ some i
                → 1 < length (xs ++ target_id ∷ [])
            long_enough [] i h = cc
            long_enough (x ∷ xs) i h = omega (arith, length-append xs (target_id ∷ []))

            at_target :
                (xs : List String)
                → 1 < length (xs ++ target_id ∷ [])
                → Handled t (record { node_id = target_id; path = xs ++ target_id ∷ [] })
                → Memᴰ (xs ++ target_id ∷ []) t.found
            at_target xs h (waiting m) = absurd (Memᴰ.not-nil (subst (Memᴰ _) empty m))
            at_target xs h (returned done m) = m
            at_target xs h (expanded on m) = absurd (ground (arith, eq_refl target_id))
            at_target xs h (cut on far) = absurd (ground (arith, eq_refl target_id))

search_paths_loop :
    (source_id target_id : String) (links : List ForceGraphLink) (options : PathFindingOptions)
    (paths : List (List String))
    → search_paths source_id target_id links options ≡ some paths
    → search_loop
        (λ found. leb options.max_paths (length found))
        (visit_path target_id options (build_adjacency_list links))
        (search_budget links source_id)
        (start source_id [])
      ≡ some paths
unfolding search_paths
search_paths_loop source_id target_id links options paths h = h

module _ (source_id target_id : String) (links : List ForceGraphLink) (options : PathFindingOptions)
    (paths : List (List String)) where
  -- Where the source and the target are not empty and differ, no identifier holds a dash, and the
  -- search returns fewer paths than `maxPaths`, its result has every route from the source to the
  -- target whose nodes before the target cost less than `maxHops` hops.
  pub find_paths_between_nodes_complete :
      Plain links source_id
      → source_id ≢ ""
      → target_id ≢ ""
      → source_id ≢ target_id
      → find_paths_between_nodes source_id target_id links options ≡ some paths
      → length paths < options.max_paths
      → (init : List String)
      → IsRoute links source_id (record { node_id = target_id; path = init ++ target_id ∷ [] })
      → calculate_hops_internal init options.zero_hop_nodes < options.max_hops
      → Memᴰ (init ++ target_id ∷ []) paths
  find_paths_between_nodes_complete plain hs ht ne h room init r near =
      elim (Option-cases (last? init)) [
        | inl none_left ↦
            absurd (ne (sym (Item-start links source_id target_id init r none_left).1))
        | inr (j, e) ↦ subst (Memᴰ (init ++ target_id ∷ [])) ended.2 (
            route_returned target_id options links source_id plain ended.0 ended.1 ended.3 init j e
              r near)
      ]
    where
      ended :
          (t : Search (List (List String))) × Inv target_id options links source_id plain t
          × (t.found ≡ paths)
          × (t.queue ≡ [])
      ended =
          let (t, inv, e, stop) =
            search_loop_rule links _ (visit_path target_id options (build_adjacency_list links))
              (Inv target_id options links source_id plain)
              (λ item rest s shift more i.
                visit-Inv target_id options links source_id plain item rest s shift i)
              (search_budget links source_id) (start source_id []) paths
              (start-Inv target_id options links source_id plain)
              (search_paths_loop source_id target_id links options paths (
                sym (find_paths_between_nodes_lem source_id target_id links options hs ht ne)
                ∙ h)) in
          (t, inv, e, ⊎_elim (λ q. q) (λ full. absurd (ground (arith, ap length e))) stop)
