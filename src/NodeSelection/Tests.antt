-- ===== src/NodeSelection/Tests.antt =====
-- Instances of the theorems on the selection.
use stridetastic.Prelude.{some}
use stridetastic.NodeSelection.{
  NodeSelectionState, cleared, mqtt_node, swap_nodes, select_node_by_id,
}
use stridetastic.NodeSelection.Laws.{IsValid, Reach-IsValid, choose, swap, here, next}

abbrev one_selected : NodeSelectionState
one_selected = record cleared { selected_node = some (mqtt_node ""); selected_node_id = some "a" }

-- A node is selected by its identifier, and then the two places are swapped.
Reach-IsValid_example :
    IsValid (swap_nodes (select_node_by_id "" (λ id. some (mqtt_node "")) (some "a") cleared).0)
Reach-IsValid_example =
    Reach-IsValid
      (next (next here (choose "" (λ id. some (mqtt_node "")) (some "a") cleared)) (swap _))
