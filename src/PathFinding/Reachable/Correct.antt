-- ===== src/PathFinding/Reachable/Correct.antt =====
-- pathFinding.ts, findReachableNodes and findReachableLinks: exactly what is within the hop budget.
use stridetastic.Prelude.{
  ℕ, ◌≤◌, ◌≡◌, ◌≢◌, ◌↔◌, String, Bool, true, false, ◌||◌, ◌&&◌, Option, some, List, [], ◌∷◌, arith,
  ◌==◌, eq_iff, contains, contains-add, add, Bool-cases, inl, inr,
}
use stridetastic.Types.{ForceGraphLink}
use stridetastic.PathFinding.{link_exists, calculate_hops_internal}
use stridetastic.PathFinding.Search.{Item}
use stridetastic.PathFinding.Search.Route.{IsRoute}
use stridetastic.PathFinding.Search.Plain.{Plain}
use stridetastic.PathFinding.Reachable.{
  link_key, collect_nodes, collect_links, find_reachable_nodes, find_reachable_links,
}
use stridetastic.PathFinding.Reachable.Sound.{search_reachable_returns, search_reachable_sound}
use stridetastic.PathFinding.Reachable.Complete.{search_reachable_complete}

contains-collect_nodes :
    (k : String) (path found : List String)
    → contains k (collect_nodes path found) ≡ (contains k found || contains k path)
unfolding collect_nodes
contains-collect_nodes k [] found = ground arith
contains-collect_nodes k (id ∷ rest) found =
    ground (arith, contains-collect_nodes k rest (add id found), contains-add id k found)

-- Does the path take a link whose key is `k`?
abbrev pub takes : List ForceGraphLink → String → List String → Bool
takes links k [] = false
takes links k (id ∷ []) = false
takes links k (id ∷ next ∷ rest) =
    (link_exists links id next && link_key id next == k) || takes links k (next ∷ rest)

contains-collect_links :
    (links : List ForceGraphLink) (k : String) (path found : List String)
    → contains k (collect_links links path found) ≡ (contains k found || takes links k path)
unfolding collect_links
contains-collect_links links k [] found = ground arith
contains-collect_links links k (id ∷ []) found = ground arith
contains-collect_links links k (id ∷ next ∷ rest) found =
    elim (Bool-cases (link_exists links id next)) [
      | inl go ↦ rw (go) (
          ground (
            arith,
            contains-collect_links links k (next ∷ rest) (add (link_key id next) found),
            contains-add (link_key id next) k found,
          ))
      | inr missing ↦ rw (missing) (contains-collect_links links k (next ∷ rest) found)
    ]

module _ (source_id : String) (links : List ForceGraphLink) (max_hops : ℕ)
    (zero_hop : Option (List String)) where
  -- A route from the source of at most `maxHops` hops for which `on` holds.
  abbrev pub Within : (List String → Bool) → Type 0
  Within on =
      (item : Item) × IsRoute links source_id item
      × (calculate_hops_internal item.path zero_hop ≤ max_hops)
      × (on item.path ≡ true)

  -- Where the source is not empty and no identifier holds a dash, findReachableNodes returns, and a
  -- node is in its result exactly when it lies on a route of at most `maxHops` hops.
  pub find_reachable_nodes_correct :
      Plain links source_id
      → source_id ≢ ""
      → (found : List String) × (find_reachable_nodes source_id links max_hops zero_hop
          ≡ some found)
        × ((id : String) → (contains id found ≡ true) ↔ Within (contains id))
  unfolding find_reachable_nodes
  find_reachable_nodes_correct plain ne =
      let (found, e) = search_reachable_returns collect_nodes source_id links max_hops zero_hop in
      let proper : (source_id == "") ≡ false = ground (arith, eq_iff source_id "") in
      (
        found,
        e,
        λ id. (
          search_reachable_sound collect_nodes source_id links max_hops zero_hop contains
              contains-collect_nodes found id e,
          λ w.
              search_reachable_complete collect_nodes source_id links max_hops zero_hop plain
                contains contains-collect_nodes found proper e w.0 w.1 w.2 id w.3,
        ),
      )

  -- Where the source is not empty and no identifier holds a dash, findReachableLinks returns, and a
  -- key is in its result exactly when a route of at most `maxHops` hops takes a link with that key.
  pub find_reachable_links_correct :
      Plain links source_id
      → source_id ≢ ""
      → (found : List String) × (find_reachable_links source_id links max_hops zero_hop
          ≡ some found)
        × ((key : String) → (contains key found ≡ true) ↔ Within (takes links key))
  unfolding find_reachable_links
  find_reachable_links_correct plain ne =
      let collect = collect_links links in
      let (found, e) = search_reachable_returns collect source_id links max_hops zero_hop in
      let proper : (source_id == "") ≡ false = ground (arith, eq_iff source_id "") in
      (
        found,
        e,
        λ key. (
          search_reachable_sound collect source_id links max_hops zero_hop (takes links)
              (contains-collect_links links) found key e,
          λ w.
              search_reachable_complete collect source_id links max_hops zero_hop plain
                (takes links) (contains-collect_links links) found proper e w.0 w.1 w.2 key w.3,
        ),
      )
