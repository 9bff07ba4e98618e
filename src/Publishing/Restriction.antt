-- ===== src/Publishing/Restriction.antt =====
-- PublishingActions.tsx: the effects that keep the forms within the nodes that may publish.
pub mod Laws
use stridetastic.Prelude.{Option, none, some, String, Bool, true, false, List, ◌==◌, if◌then◌else◌}
use stridetastic.Types.{Node}
use stridetastic.Publishing.Jobs.{PeriodicForm}
use stridetastic.Publishing.Periodic.Submit.{is_virtual_restriction_active, has_node_id}
use stridetastic.Publishing.Services.{ReactiveForm}
use stridetastic.Publishing.Actions.{OneShotState}

-- `next && !allowedIds.has(next) ? '' : next`
unfoldable pub within : List Node → String → String
within selectable id = if id == "" then id else (if has_node_id selectable id then id else "")

-- Each effect returns the form as it is when the restriction is off; a form in which nothing has
-- changed is the form itself.
unfoldable pub restrict_periodic : List Node → List Node → PeriodicForm → PeriodicForm
restrict_periodic nodes selectable prev =
    if is_virtual_restriction_active nodes selectable
    then (record prev {
      from_node = within selectable prev.from_node;
      gateway_node = within selectable prev.gateway_node;
    })
    else prev

unfoldable pub restrict_one_shot : List Node → List Node → OneShotState → OneShotState
restrict_one_shot nodes selectable s =
    if is_virtual_restriction_active nodes selectable
    then (record s {
      source_node = within selectable s.source_node;
      gateway_node = within selectable s.gateway_node;
    })
    else s

unfoldable pub restrict_reactive : List Node → List Node → ReactiveForm → ReactiveForm
restrict_reactive nodes selectable prev =
    if is_virtual_restriction_active nodes selectable
    then (record prev {
      from_node = within selectable prev.from_node;
      gateway_node = within selectable prev.gateway_node;
    })
    else prev
