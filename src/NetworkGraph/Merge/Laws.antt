-- ===== src/NetworkGraph/Merge/Laws.antt =====
-- NetworkGraph.tsx: what is drawn after an update.
use stridetastic.Prelude.{
  String, Bool, true, false, ◌||◌, ◌≡◌, refl, sym, ap, ◌∙◌, Option, none, some, is_some, List, [],
  ◌∷◌, ◌==◌, any, Bool-cases, Option-cases, inl, inr,
}
use stridetastic.Types.{ForceGraphNode, ForceGraphLink}
use stridetastic.NetworkGraph.Update.{find_last, update_in_place}
use stridetastic.NetworkGraph.Update.Laws.{find_last-update_in_place, merged}
use stridetastic.NetworkGraph.Merge.{GraphData, has_id, link_key, Assign, update_graph}

module _ {ℓ} {A : Type ℓ} (key_of : A → String) where
  find_last-any :
      (k : String) (xs : List A) → any (λ x. key_of x == k) xs ≡ is_some (find_last key_of k xs)
  unfolding find_last
  find_last-any k [] = refl
  find_last-any k (x ∷ xs) = rw (find_last-any k xs) (elim (Option-cases (find_last key_of k xs)) [
    | inl missing ↦
        rw missing (elim (Bool-cases (key_of x == k)) [ inl h ↦ rw h refl | inr h ↦ rw h refl ])
    | inr (y, found) ↦ rw found (or_true (key_of x == k))
  ])
    where
      or_true : (b : Bool) → (b || true) ≡ true
      or_true true = refl
      or_true false = refl

  is_some-merged :
      (assign : A → A → A) (key_of-assign : (old new : A) → key_of (assign old new) ≡ key_of new)
      (old new : Option A)
      → is_some (merged key_of assign key_of-assign old new) ≡ is_some new
  is_some-merged assign law old none = refl
  is_some-merged assign law none (some new) = refl
  is_some-merged assign law (some old) (some new) = refl

  update_in_place-any :
      (assign : A → A → A) (key_of-assign : (old new : A) → key_of (assign old new) ≡ key_of new)
      (current new : List A) (k : String)
      → any (λ x. key_of x == k) (update_in_place key_of assign current new)
        ≡ any (λ x. key_of x == k) new
  update_in_place-any assign law current new k =
      find_last-any k (update_in_place key_of assign current new)
      ∙ ap is_some (find_last-update_in_place key_of assign law current new k)
      ∙ is_some-merged assign law (find_last key_of k current) (find_last key_of k new)
      ∙ sym (find_last-any k new)

-- Whatever was drawn, after an update to the merged graph the drawn nodes have the identifiers of its
-- nodes and no others, and the drawn links the keys of its links and no others. Assigning a node or a
-- link takes its key over.
pub update_graph-any :
    (assign : Assign)
    → ((old new : ForceGraphNode) → (assign.to_node old new).id ≡ new.id)
    → ((old new : ForceGraphLink) → link_key (assign.to_link old new) ≡ link_key new)
    → (current new : GraphData) (k : String)
    → (has_id (update_graph assign current new).nodes k ≡ has_id new.nodes k)
      × (any (λ link. link_key link == k) (update_graph assign current new).links
          ≡ any (λ link. link_key link == k) new.links)
unfolding update_graph
update_graph-any assign on_nodes on_links current new k = (
  update_in_place-any (λ node. node.id) assign.to_node on_nodes current.nodes new.nodes k,
  update_in_place-any link_key assign.to_link on_links current.links new.links k,
)
