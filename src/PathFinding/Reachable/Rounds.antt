-- ===== src/PathFinding/Reachable/Rounds.antt =====
-- pathFinding.ts: the rounds of findReachableNodes and findReachableLinks, for any `collect` that adds
-- to the result what `holds` of the path.
use mathlib.Core.List.Memᴰ
use stridetastic.Prelude.{
  ℕ, ◌≤◌, ◌<◌, ◌≡◌, sym, subst, inl, inr, ⊎_elim, String, true, false, Option, List, [], ◌∷◌, ◌++◌,
  arith, eq_refl, contains, contains-add, add, All, All-append, Memᴰ, Bool-cases, ltb,
}
use stridetastic.Types.{ForceGraphLink}
use stridetastic.PathFinding.{link_exists, calculate_hops_internal, build_adjacency_list, neighbors}
use stridetastic.PathFinding.Search.{Item, Search, extend, join}
use stridetastic.PathFinding.Search.Termination.{
  Shrinks, queue_rounds-append, path_rounds-pos, rounds-extend-lt,
}
use stridetastic.PathFinding.Search.Route.{IsRoute, extend-IsRoute, All-extend}
use stridetastic.PathFinding.Reachable.{visit_reachable}

module _ (collect : List String → List String → List String) (links : List ForceGraphLink)
    (max_hops : ℕ) (zero_hop : Option (List String)) where
  abbrev pub visit : Item → Search (List String) → Search (List String)
  visit = visit_reachable collect links max_hops zero_hop (build_adjacency_list links)

  abbrev pub hops : Item → ℕ
  hops item = calculate_hops_internal item.path zero_hop

  abbrev extensions : Item → List Item
  extensions item =
      extend (link_exists links item.node_id) item.path
        (neighbors (build_adjacency_list links) item.node_id)

  pub visit-Shrinks : Shrinks links (λ (_ : List String). false) visit
  unfolding visit_reachable
  visit-Shrinks item s = ground (
    arith,
    path_rounds-pos links item.path,
    rounds-extend-lt links (link_exists links item.node_id) item,
    queue_rounds-append links s.queue (extensions item),
  )

  -- The three ways through a round.
  pub data Round (item : Item) (s t : Search (List String)) : Type 0 where
    stops : max_hops < hops item → t ≡ s → Round item s t
    skips : contains (join item.path) s.visited ≡ true → t ≡ s → Round item s t
    expands :
        hops item ≤ max_hops
        → t ≡ record s {
          visited = add (join item.path) s.visited;
          found = collect item.path s.found;
          queue = s.queue ++ extensions item;
        }
        → Round item s t

  pub visit-Round : (item : Item) (s : Search (List String)) → Round item s (visit item s)
  unfolding visit_reachable
  visit-Round item s = elim (Bool-cases (ltb max_hops (hops item))) [
    | inl far ↦ stops (ground arith) (rw far)
    | inr near ↦ elim (Bool-cases (contains (join item.path) s.visited)) [
      | inl old ↦ skips old (rw (near, old))
      | inr new ↦ expands (ground arith) (rw (near, new))
    ]
  ]

  -- What became of a path, so far.
  pub data Handled (s : Search (List String)) (item : Item) : Type 0 where
    waiting : Memᴰ item s.queue → Handled s item
    expanded : contains (join item.path) s.visited ≡ true → Handled s item
    cut : max_hops < hops item → Handled s item

  module _ {item : Item} {s t : Search (List String)} where
    item-Handled : Round item s t → Handled t item
    item-Handled (stops far e) = cut far
    item-Handled (skips old e) = expanded (rw e old)
    item-Handled (expands near e) = expanded (
        rw e (
          ground (
            arith,
            contains-add (join item.path) (join item.path) s.visited,
            eq_refl (join item.path),
          )))

    queue_grows : (x : Item) → Round item s t → Memᴰ x s.queue → Memᴰ x t.queue
    queue_grows x (stops far e) m = rw e m
    queue_grows x (skips old e) m = rw e m
    queue_grows x (expands near e) m = rw e (Memᴰ.append_left (extensions item) m)

    visited_grows :
        (key : String)
        → Round item s t
        → contains key s.visited ≡ true
        → contains key t.visited ≡ true
    visited_grows key (stops far e) m = rw e m
    visited_grows key (skips old e) m = rw e m
    visited_grows key (expands near e) m =
        rw e (ground (arith, contains-add (join item.path) key s.visited))

  pub keeps_Handled :
      {item : Item} {rest : List Item} {s t : Search (List String)} (x : Item)
      → s.queue ≡ item ∷ rest
      → Round item (record s { queue = rest }) t
      → Handled s x
      → Handled t x
  keeps_Handled {t} x shift round (waiting m) =
      ⊎_elim (λ e. subst (Handled t) (sym e) (item-Handled round))
        (λ later. waiting (queue_grows x round later)) (Memᴰ.cases_cons (subst (Memᴰ x) shift m))
  keeps_Handled x shift round (expanded m) = expanded (visited_grows (join x.path) round m)
  keeps_Handled x shift round (cut far) = cut far

  abbrev pub child : Item → String → Item
  child item n = record { node_id = n; path = item.path ++ n ∷ [] }

  pub routes_kept :
      (source_id : String) (item : Item) (s t : Search (List String))
      → IsRoute links source_id item
      → All (IsRoute links source_id) s.queue
      → Round item s t
      → All (IsRoute links source_id) t.queue
  routes_kept source_id item s t r all (stops far e) = rw e all
  routes_kept source_id item s t r all (skips old e) = rw e all
  routes_kept source_id item s t r all (expands near e) = rw e (
      All-append (IsRoute links source_id) s.queue _ all (
        All-extend (IsRoute links source_id) (link_exists links item.node_id) item.path _
          (λ n next off step. extend-IsRoute links source_id item n r step off)))
