-- ===== src/PathFinding/Search/Route.antt =====
-- pathFinding.ts: what a path is. A route from a source is a path without repeated nodes whose steps
-- are links; the searches build routes at their end.

use mathlib.Core.Option.{some-injective}
use mathlib.Core.Bool.{and-eq-true_iff}
use stridetastic.Prelude.{
  sym, ap, ◌∙◌, ◌+◌, ◌≤◌, ◌≡◌, refl, String, Bool, true, false, not, ◌&&◌, Option, none, some, List,
  [], ◌∷◌, ◌++◌, arith, eq_iff, eq_refl, ◌==◌, contains, contains-append, last?, last?-snoc, All,
  Memᴰ, Bool-cases, inl, inr,
}
use stridetastic.Types.{ForceGraphLink}
use stridetastic.PathFinding.{link_exists, valid_path, interior_hops, calculate_hops_internal}
use stridetastic.PathFinding.Search.{Item, extend}

abbrev pub first? : List String → Option String
first? [] = none
first? (id ∷ rest) = some id

-- No node stands twice.
abbrev pub IsSimple : List String → Type 0
IsSimple [] = Unit
IsSimple (id ∷ rest) = (contains id rest ≡ false) × IsSimple rest

-- A path from `source_id` to the item's node along links, without repeated nodes.
pub record IsRoute (links : List ForceGraphLink) (source_id : String) (item : Item) : Type 0 where
  pub first : first? item.path ≡ some source_id
  pub last : last? item.path ≡ some item.node_id
  pub linked : valid_path links item.path ≡ true
  pub simple : IsSimple item.path

first?-snoc :
    (path : List String) (n : String) {id : String}
    → first? path ≡ some id
    → first? (path ++ n ∷ []) ≡ some id
first?-snoc [] n h = cc
first?-snoc (x ∷ path) n h = h

IsSimple-snoc :
    (path : List String) (n : String)
    → IsSimple path
    → contains n path ≡ false
    → IsSimple (path ++ n ∷ [])
IsSimple-snoc [] n h k = (refl, tt)
IsSimple-snoc (x ∷ path) n (out, h) k = (
  ground (arith, contains-append x path (n ∷ []), eq_iff n x, eq_iff x n),
  IsSimple-snoc path n h (ground arith),
)

pub valid_path-snoc :
    (links : List ForceGraphLink) (path : List String) (j n : String)
    → last? path ≡ some j
    → valid_path links (path ++ n ∷ []) ≡ (valid_path links path && link_exists links j n)
unfolding valid_path
valid_path-snoc links [] j n h = cc
valid_path-snoc links (x ∷ []) j n h = ground arith
valid_path-snoc links (x ∷ y ∷ path) j n h = ground (arith, valid_path-snoc links (y ∷ path) j n h)

interior_hops-snoc :
    (zero_hop : Option (List String)) (path : List String) (n : String)
    → (interior_hops zero_hop path ≤ interior_hops zero_hop (path ++ n ∷ []))
      × (interior_hops zero_hop (path ++ n ∷ []) ≤ interior_hops zero_hop path + 1)
unfolding interior_hops
interior_hops-snoc zero_hop [] n = omega arith
interior_hops-snoc zero_hop (x ∷ []) n = ground arith
interior_hops-snoc zero_hop (x ∷ y ∷ path) n =
    omega (arith, interior_hops-snoc zero_hop (y ∷ path) n)

-- One more node costs at most one hop, and never lowers the count.
pub hops-snoc :
    (zero_hop : Option (List String)) (path : List String) (n : String)
    → (calculate_hops_internal path zero_hop ≤ calculate_hops_internal (path ++ n ∷ []) zero_hop)
      × (calculate_hops_internal (path ++ n ∷ []) zero_hop
          ≤ calculate_hops_internal path zero_hop + 1)
unfolding calculate_hops_internal interior_hops
hops-snoc zero_hop [] n = omega arith
hops-snoc zero_hop (x ∷ path) n = interior_hops-snoc zero_hop path n

pub extend-IsRoute :
    (links : List ForceGraphLink) (source_id : String) (item : Item) (n : String)
    → IsRoute links source_id item
    → link_exists links item.node_id n ≡ true
    → contains n item.path ≡ false
    → IsRoute links source_id (record { node_id = n; path = item.path ++ n ∷ [] })
extend-IsRoute links source_id item n r step off = record {
  first = first?-snoc item.path n r.first;
  last = last?-snoc item.path n;
  linked = rw (valid_path-snoc links item.path item.node_id n r.last, r.linked, step) refl;
  simple = IsSimple-snoc item.path n r.simple off;
}

pub start-IsRoute :
    (links : List ForceGraphLink) (source_id : String)
    → IsRoute links source_id (record { node_id = source_id; path = source_id ∷ [] })
unfolding valid_path
start-IsRoute links source_id = record {
  first = refl;
  last = refl;
  linked = refl;
  simple = (refl, tt);
}

-- What holds of every allowed neighbour off the path holds of all that is queued.
pub All-extend :
    (P : Item → Type 0) (allowed : String → Bool) (path ns : List String)
    → ((n : String)
        → contains n ns ≡ true
        → contains n path ≡ false
        → allowed n ≡ true
        → P (record { node_id = n; path = path ++ n ∷ [] }))
    → All P (extend allowed path ns)
unfolding extend
All-extend P allowed path [] h = tt
All-extend P allowed path (n ∷ ns) h =
    let later = All-extend P allowed path ns (λ m e. h m (ground (arith, e))) in
    elim (Bool-cases (contains n path)) [
      | inl on ↦ rw on later
      | inr off ↦ elim (Bool-cases (allowed n)) [
        | inl pass ↦ rw (off, pass) (h n (rw eq_refl) off pass, later)
        | inr skip ↦ rw (off, skip) later
      ]
    ]

-- Conversely each allowed neighbour off the path is queued.
pub Memᴰ-extend :
    (allowed : String → Bool) (path ns : List String) (n : String)
    → contains n ns ≡ true
    → contains n path ≡ false
    → allowed n ≡ true
    → Memᴰ (record { node_id = n; path = path ++ n ∷ [] }) (extend allowed path ns)
unfolding extend
Memᴰ-extend allowed path [] n h off pass = cc
Memᴰ-extend allowed path (m ∷ ns) n h off pass = elim (Bool-cases (m == n)) [
  | inl same ↦ let e = (eq_iff m n).0 same in rw (e, off, pass) (Memᴰ.head refl)
  | inr other ↦
      let later = Memᴰ-extend allowed path ns n (ground arith) off pass in
      elim (Bool-cases (not (contains m path) && allowed m)) [
        | inl queued ↦ rw queued (Memᴰ.tail later)
        | inr skip ↦ rw skip later
      ]
]

-- Two routes with the same path end at the same node.
pub Item-path-injective :
    (links : List ForceGraphLink) (source_id : String) (a b : Item)
    → IsRoute links source_id a
    → IsRoute links source_id b
    → a.path ≡ b.path
    → a ≡ b
Item-path-injective links source_id a b r q e =
    let same : a.node_id ≡ b.node_id = some-injective _ _ (sym r.last ∙ ap last? e ∙ q.last) in
    λ i. record { node_id = same i; path = e i }

IsSimple-init :
    (init : List String) (n : String)
    → IsSimple (init ++ n ∷ [])
    → IsSimple init × (contains n init ≡ false)
IsSimple-init [] n h = (tt, refl)
IsSimple-init (x ∷ init) n (off, h) =
    let (simple, out) = IsSimple-init init n h in
    let apart = sym (contains-append x init (n ∷ [])) ∙ off in
    ((ground arith, simple), ground (arith, eq_iff x n, eq_iff n x))

first?-init :
    (init : List String) (n j : String)
    → last? init ≡ some j
    → first? (init ++ n ∷ []) ≡ first? init
first?-init [] n j e = cc
first?-init (x ∷ init) n j e = refl

-- A route without its last node is a route, and a link leads on.
pub IsRoute-init :
    (links : List ForceGraphLink) (source_id n : String) (j : String) (init : List String)
    → last? init ≡ some j
    → IsRoute links source_id (record { node_id = n; path = init ++ n ∷ [] })
    → IsRoute links source_id (record { node_id = j; path = init })
      × (link_exists links j n ≡ true)
      × (contains n init ≡ false)
IsRoute-init links source_id n j init e r =
    let (simple, off) = IsSimple-init init n r.simple in
    let both = sym (valid_path-snoc links init j n e) ∙ r.linked in
    let (linked, step) = (and-eq-true_iff _ _).0 both in
    (
      record {
        first = sym (first?-init init n j e) ∙ r.first;
        last = e;
        linked = linked;
        simple = simple;
      },
      step,
      off,
    )

pub contains_of_last? :
    (path : List String) (j : String) → last? path ≡ some j → contains j path ≡ true
contains_of_last? [] j e = cc
contains_of_last? (x ∷ []) j e = ground (arith, eq_iff x j, some-injective x j e)
contains_of_last? (x ∷ y ∷ path) j e = ground (arith, contains_of_last? (y ∷ path) j e)

last?-cons : (x : String) (rest : List String) → last? (x ∷ rest) ≡ none → ⊥
last?-cons x [] e = cc
last?-cons x (y ∷ rest) e = last?-cons y rest e

-- A route's item, written with its last node behind the rest of the path.
pub Item-snoc :
    (links : List ForceGraphLink) (source_id : String) (x : Item) (init : List String) (n : String)
    → IsRoute links source_id x
    → x.path ≡ init ++ n ∷ []
    → x ≡ record { node_id = n; path = init ++ n ∷ [] }
Item-snoc links source_id x init n r e =
    let same : x.node_id ≡ n = some-injective _ _ (sym r.last ∙ ap last? e ∙ last?-snoc init n) in
    λ i. record { node_id = same i; path = e i }

-- A route has a node.
pub route-ne-nil :
    (links : List ForceGraphLink) (source_id : String) (x : Item)
    → IsRoute links source_id x
    → x.path ≡ []
    → ⊥
route-ne-nil links source_id x r e =
    let none_first : none ≡ some source_id = sym (ap first? e) ∙ r.first in cc

-- A route of one node is the start.
pub Item-start :
    (links : List ForceGraphLink) (source_id n : String) (init : List String)
    → IsRoute links source_id (record { node_id = n; path = init ++ n ∷ [] })
    → last? init ≡ none
    → (init ≡ []) × (n ≡ source_id)
Item-start links source_id n [] r e = (refl, some-injective _ _ r.first)
Item-start links source_id n (x ∷ init) r e = absurd (last?-cons x init e)
