-- ===== src/PathFinding/Reachable/Sound.antt =====
-- pathFinding.ts: what findReachableNodes and findReachableLinks collect lies on a route within the
-- budget, and the searches return.
use stridetastic.Prelude.{
  ℕ, ◌≤◌, ◌≡◌, subst, inl, inr, String, Bool, true, false, ◌||◌, Option, some, List, [], ◌∷◌, arith,
  ◌==◌, contains, All, Bool-cases,
}
use stridetastic.Types.{ForceGraphLink}
use stridetastic.PathFinding.{calculate_hops_internal}
use stridetastic.PathFinding.Search.{Item, Search, start, search_loop, search_budget}
use stridetastic.PathFinding.Search.Termination.{
  search_loop_ends, search_loop_rule, queue_rounds-start,
}
use stridetastic.PathFinding.Search.Route.{IsRoute, start-IsRoute}
use stridetastic.PathFinding.Reachable.{search_reachable}
use stridetastic.PathFinding.Reachable.Rounds.{
  visit, visit-Shrinks, visit-Round, Round, stops, skips, expands, routes_kept,
}

module _ (collect : List String → List String → List String) (source_id : String)
    (links : List ForceGraphLink) (max_hops : ℕ) (zero_hop : Option (List String)) where
  -- The search returns.
  pub search_reachable_returns :
      (found : List String) × (search_reachable collect source_id links max_hops zero_hop
        ≡ some found)
  unfolding search_reachable
  search_reachable_returns = elim (Bool-cases (source_id == "")) [
    | inl nothing ↦ ([], rw nothing)
    | inr proper ↦
        let (found, e) =
          search_loop_ends links (λ (_ : List String). false)
            (visit collect links max_hops zero_hop) (visit-Shrinks collect links max_hops zero_hop)
            (search_budget links source_id) (start source_id [])
            (queue_rounds-start links source_id []) in
        (found, rw proper e)
  ]

  pub search_reachable_loop :
      (found : List String)
      → (source_id == "") ≡ false
      → search_reachable collect source_id links max_hops zero_hop ≡ some found
      → search_loop
          (λ _. false)
          (visit collect links max_hops zero_hop)
          (search_budget links source_id)
          (start source_id [])
        ≡ some found
  unfolding search_reachable
  search_reachable_loop found h e = rw h at e

  module _ (holds : String → List String → Bool)
      (collect-holds : (k : String) (path found : List String)
        → contains k (collect path found) ≡ (contains k found || holds k path)) where
    -- `k` is collected from some route within the budget.
    abbrev pub OnRoute : String → Type 0
    OnRoute k =
        (item : Item) × IsRoute links source_id item
        × (calculate_hops_internal item.path zero_hop ≤ max_hops)
        × (holds k item.path ≡ true)

    record Inv (s : Search (List String)) : Type 0 where
      routes : All (IsRoute links source_id) s.queue
      sound : (k : String) → contains k s.found ≡ true → OnRoute k

    sound_kept :
        (item : Item) (s t : Search (List String))
        → IsRoute links source_id item
        → ((k : String) → contains k s.found ≡ true → OnRoute k)
        → Round collect links max_hops zero_hop item s t
        → (k : String) → contains k t.found ≡ true
        → OnRoute k
    sound_kept item s t r sound (stops far e) k h = sound k (rw e at h)
    sound_kept item s t r sound (skips old e) k h = sound k (rw e at h)
    sound_kept item s t r sound (expands near e) k h = elim (Bool-cases (contains k s.found)) [
      | inl before ↦ sound k before
      | inr new ↦
          let now : contains k (collect item.path s.found) ≡ true = rw e at h in
          (item, r, near, ground (arith, collect-holds k item.path s.found))
    ]

    visit-Inv :
        (item : Item) (rest : List Item) (s : Search (List String))
        → s.queue ≡ item ∷ rest
        → Inv s
        → Inv (visit collect links max_hops zero_hop item (record s { queue = rest }))
    visit-Inv item rest s shift inv =
        let left = record s { queue = rest } in
        let round = visit-Round collect links max_hops zero_hop item left in
        let both : IsRoute links source_id item × All (IsRoute links source_id) rest =
          subst (All (IsRoute links source_id)) shift inv.routes in
        record {
          routes =
              routes_kept collect links max_hops zero_hop source_id item left _ both.0 both.1 round;
          sound = sound_kept item left _ both.0 inv.sound round;
        }

    empty_found :
        (found : List String) (k : String) → some [] ≡ some found → contains k found ≡ true → ⊥
    empty_found found k e h = ground arith

    pub search_reachable_sound :
        (found : List String) (k : String)
        → search_reachable collect source_id links max_hops zero_hop ≡ some found
        → contains k found ≡ true
        → OnRoute k
    unfolding search_reachable
    search_reachable_sound found k e h = elim (Bool-cases (source_id == "")) [
      | inl nothing ↦ absurd (empty_found found k (rw (nothing, search_reachable) at e) h)
      | inr proper ↦
          let (t, inv, same, _) =
            search_loop_rule links _ (visit collect links max_hops zero_hop) Inv
              (λ item rest s shift _ inv. visit-Inv item rest s shift inv)
              (search_budget links source_id) (start source_id []) found
              (unfold start in
                record { routes = (start-IsRoute links source_id, tt); sound = λ j none_yet. cc })
              (search_reachable_loop found proper e) in
          inv.sound k (rw (← same) at h)
    ]
