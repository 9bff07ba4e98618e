-- ===== src/PathFinding/Adjacency.antt =====
-- pathFinding.ts, buildAdjacencyList: which neighbours a node has.
use stridetastic.Prelude.{
  ◌+◌, ◌*◌, ◌≤◌, ◌≡◌, refl, String, Bool, ◌&&◌, ◌||◌, List, [], ◌∷◌, arith, ◌==◌, eq_iff, eq_refl,
  length, contains, contains-add, length-add-le, is_some,
}
use stridetastic.Types.{ForceGraphLink, endpoint_id}
use stridetastic.PathFinding.{
  link_exists, AdjacencyList, get, neighbors, ensure, add_neighbor, add_link, add_links,
  build_adjacency_list,
}

has : AdjacencyList → String → Bool
has adjacency id = is_some (get id adjacency)

get-ensure :
    (id : String) (adjacency : AdjacencyList) (j : String)
    → neighbors (ensure id adjacency) j ≡ neighbors adjacency j
unfolding get ensure
get-ensure id [] j = ground (arith, eq_iff id j)
get-ensure id ((key, ids) ∷ more) j =
    ground (arith, eq_iff key id, eq_iff key j, eq_iff id j, get-ensure id more j)

has-ensure :
    (id : String) (adjacency : AdjacencyList) (j : String)
    → has (ensure id adjacency) j ≡ (has adjacency j || id == j)
unfolding get ensure has
has-ensure id [] j = ground (arith, eq_iff id j)
has-ensure id ((key, ids) ∷ more) j =
    ground (arith, eq_iff key id, eq_iff key j, eq_iff id j, has-ensure id more j)

has-add_neighbor :
    (id n : String) (adjacency : AdjacencyList) (j : String)
    → has (add_neighbor id n adjacency) j ≡ has adjacency j
unfolding get add_neighbor has
has-add_neighbor id n [] j = refl
has-add_neighbor id n ((key, ids) ∷ more) j =
    ground (arith, eq_iff key id, eq_iff key j, eq_iff id j, has-add_neighbor id n more j)

contains-add_neighbor :
    (id n : String) (adjacency : AdjacencyList) (j m : String)
    → contains m (neighbors (add_neighbor id n adjacency) j)
      ≡ (contains m (neighbors adjacency j) || (has adjacency id && (id == j && n == m)))
unfolding get add_neighbor has
contains-add_neighbor id n [] j m = refl
contains-add_neighbor id n ((key, ids) ∷ more) j m = ground (
  arith,
  eq_iff key id,
  eq_iff key j,
  eq_iff id j,
  contains-add n m ids,
  contains-add_neighbor id n more j m,
)

length-add_neighbor :
    (id n : String) (adjacency : AdjacencyList) (j : String)
    → length (neighbors (add_neighbor id n adjacency) j) ≤ length (neighbors adjacency j) + 1
unfolding get add_neighbor
length-add_neighbor id n [] j = ground arith
length-add_neighbor id n ((key, ids) ∷ more) j = ground (
  arith,
  eq_iff key id,
  eq_iff key j,
  eq_iff id j,
  length-add-le n ids,
  length-add_neighbor id n more j,
)

module _ (links : List ForceGraphLink) where
  contains-add_link :
      (adjacency : AdjacencyList) (link : ForceGraphLink) (j m : String)
      → contains m (neighbors (add_link links adjacency link) j) ≡ (
          contains m (neighbors adjacency j)
          || ((endpoint_id link.source == j && endpoint_id link.target == m)
              || (link_exists links j m
                  && (endpoint_id link.target == j && endpoint_id link.source == m))))
  unfolding add_link
  contains-add_link adjacency link j m =
      let s = endpoint_id link.source in
      let t = endpoint_id link.target in
      let keyed = ensure t (ensure s adjacency) in
      let forward = add_neighbor s t keyed in
      ground (
        arith,
        eq_iff s j,
        eq_iff t m,
        eq_iff t j,
        eq_iff s m,
        eq_refl s,
        eq_refl t,
        eq_iff s t,
        eq_iff t s,
        contains-add_neighbor t s forward j m,
        contains-add_neighbor s t keyed j m,
        has-add_neighbor s t keyed t,
        has-ensure t (ensure s adjacency) t,
        has-ensure t (ensure s adjacency) s,
        has-ensure s adjacency s,
        get-ensure t (ensure s adjacency) j,
        get-ensure s adjacency j,
      )

  contains-add_links :
      (adjacency : AdjacencyList) (rest : List ForceGraphLink) (j m : String)
      → contains m (neighbors (add_links links adjacency rest) j) ≡ (
          contains m (neighbors adjacency j)
          || (link_exists rest j m || (link_exists links j m && link_exists rest m j)))
  unfolding add_links link_exists
  contains-add_links adjacency [] j m = ground arith
  contains-add_links adjacency (link ∷ rest) j m =
      let s = endpoint_id link.source in
      let t = endpoint_id link.target in
      ground (
        arith,
        contains-add_links (add_link links adjacency link) rest j m,
        contains-add_link adjacency link j m,
      )

  length-add_link :
      (adjacency : AdjacencyList) (link : ForceGraphLink) (j : String)
      → length (neighbors (add_link links adjacency link) j) ≤ length (neighbors adjacency j) + 2
  unfolding add_link
  length-add_link adjacency link j =
      let s = endpoint_id link.source in
      let t = endpoint_id link.target in
      let keyed = ensure t (ensure s adjacency) in
      let forward = add_neighbor s t keyed in
      ground (
        arith,
        length-add_neighbor t s forward j,
        length-add_neighbor s t keyed j,
        get-ensure t (ensure s adjacency) j,
        get-ensure s adjacency j,
      )

  length-add_links :
      (adjacency : AdjacencyList) (rest : List ForceGraphLink) (j : String)
      → length (neighbors (add_links links adjacency rest) j)
        ≤ length (neighbors adjacency j) + 2 * length rest
  unfolding add_links
  length-add_links adjacency [] j = omega arith
  length-add_links adjacency (link ∷ rest) j = omega (
    arith,
    length-add_links (add_link links adjacency link) rest j,
    length-add_link adjacency link j,
  )

  -- The neighbours of a node in the adjacency list are exactly the nodes to which a link leads
  -- from it: the direction of every link is kept, and a reverse edge is added only for a reverse link.
  pub contains-build_adjacency_list :
      (j m : String) → contains m (neighbors (build_adjacency_list links) j) ≡ link_exists links j m
  unfolding build_adjacency_list get
  contains-build_adjacency_list j m = ground (arith, contains-add_links [] links j m)

  -- A node has at most two neighbours for each link.
  pub length-neighbors :
      (j : String) → length (neighbors (build_adjacency_list links) j) ≤ 2 * length links
  unfolding build_adjacency_list get
  length-neighbors j = omega (arith, length-add_links [] links j)
