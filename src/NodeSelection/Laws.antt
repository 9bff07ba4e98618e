-- ===== src/NodeSelection/Laws.antt =====
-- useNodeSelection.ts: what holds of the selection after any sequence of clicks and commands.
use stridetastic.Prelude.{
  ◌∙◌, if_rule, eq_refl, ◌≡◌, refl, String, Bool, false, Option, none, some, is_some, arith, ◌==◌,
  eq_iff, Bool-cases, inl, inr,
}
use stridetastic.Types.{Node, ForceGraphNode}
use stridetastic.NodeSelection.{
  NodeSelectionState, cleared, is_unset, equals_id, flag, select_node, apply_fetched,
  handle_node_click, set_fetched, select_node_by_id, clear_selection, swap_nodes,
}

-- Are both identifiers set, and equal?
abbrev pub same_ids : Option String → Option String → Bool
same_ids none b = false
same_ids (some a) none = false
same_ids (some a) (some b) = a == b

same_ids_comm : (a b : Option String) → same_ids a b ≡ same_ids b a
same_ids_comm none none = refl
same_ids_comm none (some b) = refl
same_ids_comm (some a) none = refl
same_ids_comm (some a) (some b) = ground (arith, eq_iff a b, eq_iff b a)

same_ids-some :
    (a : Option String) (id : String) → equals_id a id ≡ false → same_ids a (some id) ≡ false
same_ids-some none id h = refl
same_ids-some (some a) id h = h

-- Node and identifier are set together, and the two selected nodes differ.
pub record IsValid (s : NodeSelectionState) : Type 0 where
  pub first_pair : is_some s.selected_node ≡ is_some s.selected_node_id
  pub second_pair : is_some s.second_selected_node ≡ is_some s.second_selected_node_id
  pub apart : same_ids s.selected_node_id s.second_selected_node_id ≡ false

no_second : (a : Option String) → same_ids a none ≡ false
no_second none = refl
no_second (some a) = refl

cleared-IsValid : IsValid cleared
cleared-IsValid = record { first_pair = refl; second_pair = refl; apart = refl }

select_node-IsValid :
    (node : Node) (id : String) (s : NodeSelectionState)
    → IsValid s
    → IsValid (select_node node id s)
unfolding select_node
select_node-IsValid node id s v = elim (Bool-cases (is_unset s.selected_node_id)) [
  | inl unset ↦ rw unset (record { first_pair = refl; second_pair = refl; apart = refl })
  | inr first ↦ elim (Bool-cases (equals_id s.selected_node_id id)) [
    | inl same ↦ rw (first, same) cleared-IsValid
    | inr other ↦
        let added : IsValid
            (record s { second_selected_node = some node; second_selected_node_id = some id }) =
          record {
            first_pair = v.first_pair;
            second_pair = refl;
            apart = same_ids-some _ id other;
          } in
        let dropped : IsValid
            (record s { second_selected_node = none; second_selected_node_id = none }) =
          record { first_pair = v.first_pair; second_pair = refl; apart = no_second _ } in
        rw (first, other)
          (if_rule IsValid (is_unset s.second_selected_node_id) added
            (if_rule IsValid (equals_id s.second_selected_node_id id) dropped added))
  ]
]

apply_fetched-IsValid :
    (id : String) (found : Option Node) (s : NodeSelectionState)
    → IsValid s
    → IsValid (apply_fetched id found s)
unfolding apply_fetched
apply_fetched-IsValid id none s v = v
apply_fetched-IsValid id (some node) s v = select_node-IsValid node id s v

set_fetched-IsValid :
    (now_text : String) (fetch : String → Option Node) (found : Option Node)
    (s : NodeSelectionState)
    → IsValid s
    → IsValid (set_fetched now_text fetch found s).0
unfolding set_fetched
set_fetched-IsValid now_text fetch none s v = v
set_fetched-IsValid now_text fetch (some node) s v = record {
  first_pair = refl;
  second_pair = refl;
  apart = refl;
}

select_node_by_id-IsValid :
    (now_text : String) (fetch : String → Option Node) (id : Option String) (s : NodeSelectionState)
    → IsValid s
    → IsValid (select_node_by_id now_text fetch id s).0
unfolding select_node_by_id
select_node_by_id-IsValid now_text fetch none s v = v
select_node_by_id-IsValid now_text fetch (some id) s v = elim (Bool-cases (id == "")) [
  | inl empty ↦ rw empty v
  | inr named ↦ rw named (set_fetched-IsValid now_text fetch (fetch id) s v)
]

-- One action of the user, with what the clock and the API answer at that time.
pub data Step : NodeSelectionState → NodeSelectionState → Type 0 where
  click :
      (now_text : String) (fetch : String → Option Node) (node : ForceGraphNode)
      (s : NodeSelectionState)
      → Step s (handle_node_click now_text fetch node s)
  choose :
      (now_text : String) (fetch : String → Option Node) (id : Option String)
      (s : NodeSelectionState)
      → Step s (select_node_by_id now_text fetch id s).0
  clear : (s : NodeSelectionState) → Step s (clear_selection s)
  swap : (s : NodeSelectionState) → Step s (swap_nodes s)

pub data Reach : NodeSelectionState → Type 0 where
  here : Reach cleared
  next : {s t : NodeSelectionState} → Reach s → Step s t → Reach t

Step-IsValid : {s t : NodeSelectionState} → Step s t → IsValid s → IsValid t
unfolding handle_node_click clear_selection swap_nodes
Step-IsValid (click now_text fetch node s) v =
    if_rule IsValid (flag node.is_hidden) v (apply_fetched-IsValid node.id _ s v)
Step-IsValid (choose now_text fetch id s) v = select_node_by_id-IsValid now_text fetch id s v
Step-IsValid (clear s) v = cleared-IsValid
Step-IsValid (swap s) v = record {
  first_pair = v.second_pair;
  second_pair = v.first_pair;
  apart = same_ids_comm s.second_selected_node_id s.selected_node_id ∙ v.apart;
}

-- After any sequence of clicks, selections by identifier, clearings and swaps, a node is set exactly
-- where its identifier is, and the two selected nodes differ.
pub Reach-IsValid : {s : NodeSelectionState} → Reach s → IsValid s
Reach-IsValid here = cleared-IsValid
Reach-IsValid (next r step) = Step-IsValid step (Reach-IsValid r)

-- With a first node selected, a second click on a node with a non-empty identifier other than the
-- two selected ones undoes what the first click on it did, and leaves no second node.
pub select_node_twice :
    (node : Node) (id : String) (s : NodeSelectionState)
    → is_unset s.selected_node_id ≡ false
    → equals_id s.selected_node_id id ≡ false
    → (id == "") ≡ false
    → equals_id s.second_selected_node_id id ≡ false
    → select_node node id (select_node node id s)
      ≡ record s { second_selected_node = none; second_selected_node_id = none }
unfolding select_node
select_node_twice node id s first other named fresh =
    rw (first, other, fresh)
      (elim (Bool-cases (is_unset s.second_selected_node_id)) [
        | inl unset ↦ rw (unset, first, other, named, eq_refl id) refl
        | inr set ↦ rw (set, first, other, named, eq_refl id) refl
      ])
