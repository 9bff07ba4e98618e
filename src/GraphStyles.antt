-- ===== src/GraphStyles.antt =====
-- web_stridetastic/src/lib/graphStyles.ts: how nodes and links are drawn under a selection.
pub mod Label
pub mod Laws
pub mod Reachable
mod Tests
use Prim.Native.String.{◌++◌ as str_append}
use text.Mathlib.Text.{starts_with}
use stridetastic.Prelude.{
  ℕ, ◌*◌, String, Bool, true, false, not, ◌&&◌, ◌||◌, Option, none, some, List, [], ◌∷◌, ◌==◌,
  if◌then◌else◌, any, contains, ltb, eqb,
}
use stridetastic.Prelude.Int.{pos, Decimal, int, eqb_ℤ}
use stridetastic.Types.{Node, Edge, ForceGraphNode, ForceGraphLink, endpoint_id}
use stridetastic.Platform.{Platform}
use stridetastic.NodeSelection.{is_unset, equals_id, flag}
use stridetastic.NetworkTransforms.Build.{text_or}

pub record GraphStyleOptions : Type 0 where
  pub selected_node_id : Option String
  pub second_selected_node_id : Option String
  pub reachable_nodes : List String
  pub reachable_links : List String
  pub path_nodes : List String
  pub virtual_edge_set : List String
  pub raw_nodes : List Node
  pub raw_edges : List Edge

-- lib/brandColors.ts
abbrev pub brand_primary : String
brand_primary = "#67ea94"

abbrev pub brand_primary_dark : String
brand_primary_dark = "#2a9a58"

-- `links.some(…)`: a link from `source_id` to `target_id`.
unfoldable pub has_link : List ForceGraphLink → String → String → Bool
has_link links source_id target_id =
    any (λ link. endpoint_id link.source == source_id && endpoint_id link.target == target_id) links

unfoldable pub is_bidirectional_connection : String → String → List ForceGraphLink → Bool
is_bidirectional_connection source_id target_id links =
    has_link links source_id target_id && has_link links target_id source_id

-- One tenth, or none.
unfoldable pub get_link_curvature : ForceGraphLink → List ForceGraphLink → Decimal
get_link_curvature link links =
    if is_bidirectional_connection (endpoint_id link.source) (endpoint_id link.target) links
    then record { num = pos 1; over = 9 }
    else int (pos 0)

-- The loop over one path: does it take a step from `source_id` to `target_id`?
unfoldable pub takes_step : String → String → List String → Bool
takes_step source_id target_id [] = false
takes_step source_id target_id (id ∷ []) = false
takes_step source_id target_id (id ∷ next ∷ rest) =
    (source_id == id && target_id == next) || takes_step source_id target_id (next ∷ rest)

unfoldable pub is_link_in_path : ForceGraphLink → List (List String) → Bool
is_link_in_path link paths =
    any (takes_step (endpoint_id link.source) (endpoint_id link.target)) paths

-- The colour of a node that is not highlighted.
unfoldable pub dim_node_color : ForceGraphNode → String
dim_node_color node =
    if flag node.is_mqtt_broker
    then "#d1d5db"
    else if flag node.is_hidden
    then "#e5e7eb"
    else "#d1d5db"

unfoldable pub get_node_color : ForceGraphNode → GraphStyleOptions → String
get_node_color node options =
    let first = not (is_unset options.selected_node_id) in
    let second = not (is_unset options.second_selected_node_id) in
    if first && second
    then (if equals_id options.selected_node_id node.id
        then brand_primary_dark
        else if equals_id options.second_selected_node_id node.id
        then "#10b981"
        else if contains node.id options.path_nodes
        then text_or node.color brand_primary
        else dim_node_color node)
    else if first && not second
    then (if equals_id options.selected_node_id node.id
        then brand_primary
        else if contains node.id options.reachable_nodes
        then text_or node.color brand_primary
        else dim_node_color node)
    else if flag node.is_mqtt_broker
    then "#8b5cf6"
    else text_or node.color brand_primary

-- `${linkSourceId}-${linkTargetId}`
unfoldable pub style_key : ForceGraphLink → String
style_key link = str_append (endpoint_id link.source) (str_append "-" (endpoint_id link.target))

-- A link that is not highlighted gets a translucent colour.
unfoldable pub dim_link_color : String → String
dim_link_color color =
    if starts_with color "#" then str_append color "40" else "rgba(153, 153, 153, 0.25)"

unfoldable pub get_link_color : ForceGraphLink → GraphStyleOptions → List (List String) → String
get_link_color link options paths =
    let first = not (is_unset options.selected_node_id) in
    let second = not (is_unset options.second_selected_node_id) in
    let color = text_or link.color "#999999" in
    if first && second
    then (if is_link_in_path link paths then color else dim_link_color color)
    else if first && not second
    then (if contains (style_key link) options.reachable_links then color else dim_link_color color)
    else color

-- `link.width || 2`
abbrev pub base_width : ForceGraphLink → ℕ
base_width link = elim link.width [ none ↦ 2 | some w ↦ if eqb w 0 then 2 else w ]

-- One and a half times the width, and half of it.
abbrev pub thick : ForceGraphLink → Decimal
thick link = record { num = pos (3 * base_width link); over = 1 }

abbrev pub thin : ForceGraphLink → Decimal
thin link =
    if flag link.is_mqtt_broker_link
    then int (pos 1)
    else record { num = pos (base_width link); over = 1 }

unfoldable pub get_link_width : ForceGraphLink → GraphStyleOptions → List (List String) → Decimal
get_link_width link options paths =
    let first = not (is_unset options.selected_node_id) in
    let second = not (is_unset options.second_selected_node_id) in
    if flag link.is_multi_hop_segment && not (flag link.is_last_hop)
    then int (pos 1)
    else if first && second
    then (if is_link_in_path link paths then thick link else thin link)
    else if first && not second
    then (if contains (style_key link) options.reachable_links then thick link else thin link)
    else int (pos (base_width link))
