-- ===== src/PathFinding/Search.antt =====
-- pathFinding.ts: what the three worklist loops share. An item of the queue is a node with the path
-- that leads to it; `visited` holds the joined paths; `found` is what the loop collects.
pub mod Termination
pub mod Keys
pub mod Plain
pub mod Route
use Prim.Native.String.{◌++◌ as str_append}
use stridetastic.Prelude.{
  ℕ, zero, suc, ◌+◌, ◌*◌, String, Bool, not, ◌&&◌, Option, none, some, List, [], ◌∷◌, ◌++◌, map,
  if◌then◌else◌, length, contains,
}
use stridetastic.Types.{ForceGraphLink, endpoint_id}

pub record Item : Type 0 where
  pub node_id : String
  pub path : List String

pub record Search (A : Type 0) : Type 0 where
  pub queue : List Item
  pub visited : List String
  pub found : A

-- `path.join('-')`
unfoldable pub join : List String → String
join [] = ""
join (id ∷ []) = id
join (id ∷ next ∷ rest) = str_append id (str_append "-" (join (next ∷ rest)))

-- The loop over the neighbours: those off the path that pass the test `allowed` are queued.
unfoldable pub extend : (String → Bool) → List String → List String → List Item
extend allowed path [] = []
extend allowed path (neighbor ∷ rest) =
    let later = extend allowed path rest in
    if not (contains neighbor path) && allowed neighbor
    then record { node_id = neighbor; path = path ++ neighbor ∷ [] } ∷ later
    else later

-- `while (queue.length > 0 && !stop) { item = queue.shift(); … }` on fuel; `none` is the fuel run
-- out, which `search_budget` excludes.
unfoldable pub search_loop :
    {A : Type 0} → (A → Bool) → (Item → Search A → Search A) → ℕ → Search A → Option A
search_loop stop visit zero s = elim s.queue [
  | [] ↦ some s.found
  | _ ∷ _ ↦ if stop s.found then some s.found else none
]
search_loop stop visit (suc fuel) s = elim s.queue [
  | [] ↦ some s.found
  | item ∷ rest ↦
      let more = search_loop stop visit fuel (visit item (record s { queue = rest })) in
      if stop s.found then some s.found else more
]

unfoldable pub start : {A : Type 0} → String → A → Search A
start source_id nothing = record {
  queue = record { node_id = source_id; path = source_id ∷ [] } ∷ [];
  visited = [];
  found = nothing;
}

-- The targets of the links that a path has not met yet.
unfoldable pub unseen : List String → List String → ℕ
unseen [] path = 0
unseen (id ∷ ids) path = (if contains id path then 0 else 1) + unseen ids path

-- The number of rounds that an item can cause, where `k` nodes are unseen and a node has at most
-- `most` neighbours.
unfoldable pub rounds : ℕ → ℕ → ℕ
rounds most zero = 1
rounds most (suc k) = 1 + most * rounds most k

abbrev pub target_ids : List ForceGraphLink → List String
target_ids links = map (λ link. endpoint_id link.target) links

unfoldable pub path_rounds : List ForceGraphLink → List String → ℕ
path_rounds links path = rounds (2 * length links) (unseen (target_ids links) path)

-- Fuel for a search from `source_id`.
unfoldable pub search_budget : List ForceGraphLink → String → ℕ
search_budget links source_id = path_rounds links (source_id ∷ [])
