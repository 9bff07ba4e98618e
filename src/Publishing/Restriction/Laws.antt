-- ===== src/Publishing/Restriction/Laws.antt =====
-- PublishingActions.tsx: what the effects of the restriction leave in a form.
use stridetastic.Prelude.{
  String, Bool, true, ◌&&◌, ◌≡◌, inl, inr, refl, List, ◌==◌, if◌then◌else◌, Bool-cases,
}
use stridetastic.Types.{Node}
use stridetastic.Publishing.Jobs.{PeriodicForm}
use stridetastic.Publishing.Periodic.Submit.{
  is_virtual_restriction_active, has_node_id, source_candidates,
}
use stridetastic.Publishing.Services.{ReactiveForm}
use stridetastic.Publishing.Actions.{OneShotState}
use stridetastic.Publishing.Restriction.{
  within, restrict_periodic, restrict_one_shot, restrict_reactive,
}

-- Nothing chosen, or a node of the list.
abbrev pub is_blank_or_in : List Node → String → Bool
is_blank_or_in selectable id = if id == "" then true else has_node_id selectable id

abbrev pub accepts : List Node → String → String → Bool
accepts candidates source gateway =
    is_blank_or_in candidates source && is_blank_or_in candidates gateway

within-is_blank_or_in :
    (selectable : List Node) (id : String) → is_blank_or_in selectable (within selectable id) ≡ true
unfolding within
within-is_blank_or_in selectable id = elim (Bool-cases (id == "")) [
  | inl blank ↦ rw (blank, blank) refl
  | inr chosen ↦ elim (Bool-cases (has_node_id selectable id)) [
    | inl found ↦ rw (chosen, found, chosen, found) refl
    | inr missing ↦ rw (chosen, missing) refl
  ]
]

within-accepts :
    (selectable : List Node) (source gateway : String)
    → accepts selectable (within selectable source) (within selectable gateway) ≡ true
within-accepts selectable source gateway =
    rw (within-is_blank_or_in selectable source, within-is_blank_or_in selectable gateway) refl

-- While the restriction is on, each of the three effects leaves a form whose source and gateway are
-- blank or stand among the nodes that the handlers accept as sources.
pub restrict-accepts :
    (nodes selectable : List Node) (periodic : PeriodicForm) (reactive : ReactiveForm)
    (s : OneShotState)
    → is_virtual_restriction_active nodes selectable ≡ true
    → let candidates = source_candidates nodes selectable in
      let p = restrict_periodic nodes selectable periodic in
      let r = restrict_reactive nodes selectable reactive in
      let o = restrict_one_shot nodes selectable s in
      (accepts candidates p.from_node p.gateway_node ≡ true)
      × ((accepts candidates r.from_node r.gateway_node ≡ true)
          × (accepts candidates o.source_node o.gateway_node ≡ true))
unfolding source_candidates restrict_periodic restrict_reactive restrict_one_shot
restrict-accepts nodes selectable periodic reactive s active = rw active (
  within-accepts selectable periodic.from_node periodic.gateway_node,
  (
    within-accepts selectable reactive.from_node reactive.gateway_node,
    within-accepts selectable s.source_node s.gateway_node,
  ),
)
