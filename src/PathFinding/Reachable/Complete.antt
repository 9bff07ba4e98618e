-- ===== src/PathFinding/Reachable/Complete.antt =====
-- pathFinding.ts: findReachableNodes and findReachableLinks miss no route within the budget.
use mathlib.Core.List.Memᴰ
use mathlib.Core.Path.{subst₂}
use stridetastic.Prelude.{
  ℕ, zero, suc, ◌≤◌, ◌≡◌, refl, sym, ap, subst, inl, inr, ⊎_elim, String, Bool, true, false, ◌||◌,
  Option, some, List, [], ◌∷◌, ◌++◌, arith, eq_iff, ◌==◌, length, length-append, contains,
  contains-add, add, All, Memᴰ, Bool-cases, Option-cases, List-cases, snoc-cases, last?,
}
use stridetastic.Types.{ForceGraphLink}
use stridetastic.PathFinding.{link_exists, calculate_hops_internal, build_adjacency_list, neighbors}
use stridetastic.PathFinding.Adjacency.{contains-build_adjacency_list}
use stridetastic.PathFinding.Search.{Item, Search, extend, start, search_budget, join}
use stridetastic.PathFinding.Search.Termination.{search_loop_rule}
use stridetastic.PathFinding.Search.Route.{
  IsRoute, start-IsRoute, Memᴰ-extend, hops-snoc, IsRoute-init, Item-start, Item-snoc, route-ne-nil,
}
use stridetastic.PathFinding.Search.Plain.{Plain, join-route_injective}
use stridetastic.PathFinding.Reachable.{search_reachable}
use stridetastic.PathFinding.Reachable.Rounds.{
  visit, visit-Round, Round, stops, skips, expands, routes_kept, keeps_Handled, Handled, waiting,
  expanded, cut,
}
use stridetastic.PathFinding.Reachable.Sound.{search_reachable_loop}

module _ (collect : List String → List String → List String) (source_id : String)
    (links : List ForceGraphLink) (max_hops : ℕ) (zero_hop : Option (List String))
    (plain : Plain links source_id) (holds : String → List String → Bool)
    (collect-holds : (k : String) (path found : List String)
      → contains k (collect path found) ≡ (contains k found || holds k path)) where
  abbrev Done : Search (List String) → Item → Type 0
  Done = Handled collect links max_hops zero_hop

  abbrev Step : Item → Search (List String) → Search (List String) → Type 0
  Step = Round collect links max_hops zero_hop

  -- The children of an expanded path are handled, and what it holds is collected.
  abbrev IsClosed : Search (List String) → Search (List String) → Type 0
  IsClosed s t =
      (x : Item)
      → IsRoute links source_id x
      → contains (join x.path) s.visited ≡ true
      → ((n : String)
          → link_exists links x.node_id n ≡ true
          → contains n x.path ≡ false
          → Done t (record { node_id = n; path = x.path ++ n ∷ [] }))
        × ((k : String) → holds k x.path ≡ true → contains k t.found ≡ true)

  record Inv (s : Search (List String)) : Type 0 where
    source : Done s (record { node_id = source_id; path = source_id ∷ [] })
    routes : All (IsRoute links source_id) s.queue
    closed : IsClosed s s

  found_grows :
      {item : Item} {s t : Search (List String)} (k : String)
      → Step item s t
      → contains k s.found ≡ true
      → contains k t.found ≡ true
  found_grows k (stops far e) m = rw e m
  found_grows k (skips old e) m = rw e m
  found_grows {item} {s} k (expands near e) m =
      rw e (ground (arith, collect-holds k item.path s.found))

  -- A path that was expanded before the round.
  IsClosed-before :
      (item : Item) (rest : List Item) (s t : Search (List String))
      → s.queue ≡ item ∷ rest
      → IsClosed s s
      → Step item (record s { queue = rest }) t
      → IsClosed s t
  IsClosed-before item rest s t shift closed step x r old = (
    λ n go off.
        keeps_Handled collect links max_hops zero_hop _ shift step ((closed x r old).0 n go off),
    λ k h. found_grows k step ((closed x r old).1 k h),
  )

  -- The path that the round expands.
  closed_now :
      (item : Item) (s t : Search (List String))
      → t ≡ record s {
        visited = add (join item.path) s.visited;
        found = collect item.path s.found;
        queue =
            s.queue
            ++ extend
                (link_exists links item.node_id)
                item.path
                (neighbors (build_adjacency_list links) item.node_id);
      }
      → ((n : String)
          → link_exists links item.node_id n ≡ true
          → contains n item.path ≡ false
          → Done t (record { node_id = n; path = item.path ++ n ∷ [] }))
        × ((k : String) → holds k item.path ≡ true → contains k t.found ≡ true)
  closed_now item s t e = (
    λ n go off. waiting (
        rw e (
          Memᴰ.append_right s.queue (
            Memᴰ-extend (link_exists links item.node_id) item.path
              (neighbors (build_adjacency_list links) item.node_id) n
              (rw (contains-build_adjacency_list links item.node_id n) go) off go))),
    λ k h. rw e (ground (arith, collect-holds k item.path s.found)),
  )

  IsClosed-kept :
      (item : Item) (rest : List Item) (s t : Search (List String))
      → s.queue ≡ item ∷ rest
      → IsRoute links source_id item
      → IsClosed s s
      → Step item (record s { queue = rest }) t
      → IsClosed t t
  IsClosed-kept item rest s t shift r closed (stops far e) x q old =
      IsClosed-before item rest s t shift closed (stops far e) x q (rw e at old)
  IsClosed-kept item rest s t shift r closed (skips seen e) x q old =
      IsClosed-before item rest s t shift closed (skips seen e) x q (rw e at old)
  IsClosed-kept item rest s t shift r closed (expands near e) x q old =
      elim (Bool-cases (contains (join x.path) s.visited)) [
        | inl before ↦ IsClosed-before item rest s t shift closed (expands near e) x q before
        | inr new ↦
            let known : contains (join x.path) (add (join item.path) s.visited) ≡ true =
              rw e at old in
            let key : join item.path ≡ join x.path = ground (
              arith,
              contains-add (join item.path) (join x.path) s.visited,
              eq_iff (join item.path) (join x.path),
            ) in
            let same : item ≡ x = join-route_injective links source_id plain item x r q key in
            subst
              (λ (y : Item).
                ((n : String)
                  → link_exists links y.node_id n ≡ true
                  → contains n y.path ≡ false
                  → Done t (record { node_id = n; path = y.path ++ n ∷ [] }))
                × ((k : String) → holds k y.path ≡ true → contains k t.found ≡ true))
              same (closed_now item (record s { queue = rest }) t e)
      ]

  visit-Inv :
      (item : Item) (rest : List Item) (s : Search (List String))
      → s.queue ≡ item ∷ rest
      → Inv s
      → Inv (visit collect links max_hops zero_hop item (record s { queue = rest }))
  visit-Inv item rest s shift inv =
      let left = record s { queue = rest } in
      let round = visit-Round collect links max_hops zero_hop item left in
      let both : IsRoute links source_id item × All (IsRoute links source_id) rest =
        subst (All (IsRoute links source_id)) shift inv.routes in
      record {
        source = keeps_Handled collect links max_hops zero_hop _ shift round inv.source;
        routes =
            routes_kept collect links max_hops zero_hop source_id item left _ both.0 both.1 round;
        closed = IsClosed-kept item rest s _ shift both.0 inv.closed round;
      }

  module _ (t : Search (List String)) (inv : Inv t) (empty : t.queue ≡ []) where
    -- With an empty queue, a path within the budget was expanded.
    settled :
        (x : Item)
        → Done t x
        → calculate_hops_internal x.path zero_hop ≤ max_hops
        → contains (join x.path) t.visited ≡ true
    settled x (waiting m) near = absurd (Memᴰ.not-nil (subst (Memᴰ x) empty m))
    settled x (expanded m) near = m
    settled x (cut far) near = absurd (omega arith)

    module _ (k : ℕ)
        (shorter : (x : Item)
          → length x.path ≤ k
          → IsRoute links source_id x
          → calculate_hops_internal x.path zero_hop ≤ max_hops
          → contains (join x.path) t.visited ≡ true) where
      snoc_expanded :
          (init : List String) (n : String)
          → length init ≤ k
          → IsRoute links source_id (record { node_id = n; path = init ++ n ∷ [] })
          → calculate_hops_internal (init ++ n ∷ []) zero_hop ≤ max_hops
          → contains (join (init ++ n ∷ [])) t.visited ≡ true
      snoc_expanded init n h r near = elim (Option-cases (last? init)) [
        | inl none_left ↦
            let (nil, same) = Item-start links source_id n init r none_left in
            settled _
              (subst₂
                (λ (i : List String) (m : String).
                  Done t (record { node_id = m; path = i ++ m ∷ [] }))
                (sym nil) (sym same) inv.source)
              near
        | inr (j, e) ↦
            let parent : Item = record { node_id = j; path = init } in
            let (up, go, off) = IsRoute-init links source_id n j init e r in
            let known = shorter parent h up (omega (arith, hops-snoc zero_hop init n)) in
            settled _ ((inv.closed parent up known).0 n go off) near
      ]

    -- Every route within the budget was expanded.
    route_expanded :
        (k : ℕ) (x : Item)
        → length x.path ≤ k
        → IsRoute links source_id x
        → calculate_hops_internal x.path zero_hop ≤ max_hops
        → contains (join x.path) t.visited ≡ true
    route_expanded zero x h r near = elim (List-cases x.path) [
      | inl nil ↦ absurd (route-ne-nil links source_id x r nil)
      | inr (y, rest, e) ↦ absurd (omega (arith, ap length e))
    ]
    route_expanded (suc k) x h r near = elim (snoc-cases x.path) [
      | inl nil ↦ absurd (route-ne-nil links source_id x r nil)
      | inr (init, n, e) ↦
          let same = Item-snoc links source_id x init n r e in
          subst (λ (y : Item). contains (join y.path) t.visited ≡ true) (sym same)
            (snoc_expanded k (route_expanded k) init n
              (omega (arith, ap length e, length-append init (n ∷ [])))
              (subst (IsRoute links source_id) same r)
              (subst (λ (p : List String). calculate_hops_internal p zero_hop ≤ max_hops) e near))
    ]

  start-Inv : Inv (start source_id [])
  unfolding start
  start-Inv = record {
    source = waiting (Memᴰ.head refl);
    routes = (start-IsRoute links source_id, tt);
    closed = λ x r old. cc;
  }

  -- What a route within the budget holds is collected.
  pub search_reachable_complete :
      (found : List String)
      → (source_id == "") ≡ false
      → search_reachable collect source_id links max_hops zero_hop ≡ some found
      → (x : Item) → IsRoute links source_id x
      → calculate_hops_internal x.path zero_hop ≤ max_hops
      → (k : String) → holds k x.path ≡ true
      → contains k found ≡ true
  search_reachable_complete found proper h x r near k on =
      let (t, inv, e, stop) =
        search_loop_rule links _ (visit collect links max_hops zero_hop) Inv
          (λ item rest s shift _ inv. visit-Inv item rest s shift inv)
          (search_budget links source_id) (start source_id []) found start-Inv
          (search_reachable_loop collect source_id links max_hops zero_hop found proper h) in
      let empty : t.queue ≡ [] = ⊎_elim (λ q. q) (λ never. absurd (cc)) stop in
      let known = route_expanded t inv empty (length x.path) x (omega arith) r near in
      rw (← e) ((inv.closed x r known).1 k on)
