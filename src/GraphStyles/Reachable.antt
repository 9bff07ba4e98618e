-- ===== src/GraphStyles/Reachable.antt =====
-- graphStyles.ts with pathFinding.ts: the links that are highlighted with one node selected.
use mathlib.Core.Bool.{true≢false}
use stridetastic.Prelude.{
  ℕ, String, true, false, ◌≡◌, ◌≢◌, ◌⊎◌, ◌↔◌, refl, sym, ◌∙◌, subst, Option, none, some, List,
  eq_iff, arith, contains, Bool-cases, inl, inr, if◌then◌else◌,
}
use stridetastic.Types.{ForceGraphLink, endpoint_id}
use stridetastic.NodeSelection.{is_unset}
use stridetastic.NetworkTransforms.Build.{text_or}
use stridetastic.PathFinding.Search.Plain.{Plain}
use stridetastic.PathFinding.Reachable.{find_reachable_links, link_key}
use stridetastic.PathFinding.Reachable.Correct.{Within, takes, find_reachable_links_correct}
use stridetastic.GraphStyles.{GraphStyleOptions, style_key, dim_link_color, get_link_color}

-- With one node selected, the keys of the reachable links decide.
get_link_color_single :
    (link : ForceGraphLink) (options : GraphStyleOptions) (paths : List (List String))
    → is_unset options.selected_node_id ≡ false
    → options.second_selected_node_id ≡ none
    → get_link_color link options paths ≡ (
        if contains (style_key link) options.reachable_links
        then text_or link.color "#999999"
        else dim_link_color (text_or link.color "#999999"))
unfolding get_link_color
get_link_color_single link options paths first second = rw (first, second) refl

module _ (source_id : String) (links : List ForceGraphLink) (max_hops : ℕ)
    (zero_hop : Option (List String)) (plain : Plain links source_id) (ne : source_id ≢ "") where
  -- A route of at most `maxHops` hops from the selected node takes a link with the key of the ends.
  abbrev pub IsOnRoute : ForceGraphLink → Type 0
  IsOnRoute link =
      Within source_id links max_hops zero_hop
        (takes links (link_key (endpoint_id link.source) (endpoint_id link.target)))

  contains-style_key :
      (link : ForceGraphLink) (found : List String)
      → find_reachable_links source_id links max_hops zero_hop ≡ some found
      → (contains (style_key link) found ≡ true) ↔ IsOnRoute link
  unfolding style_key link_key
  contains-style_key link found h =
      let (other, e, exact) =
        find_reachable_links_correct source_id links max_hops zero_hop plain ne in
      let same : other ≡ found = cc in
      subst (λ f. (contains (style_key link) f ≡ true) ↔ IsOnRoute link) same
        (exact (link_key (endpoint_id link.source) (endpoint_id link.target)))

  -- With one node selected, whose identifier is not empty, no dash in an identifier on the links, and the
  -- reachable links that findReachableLinks finds from it, a link keeps its colour if a route of at most
  -- `maxHops` hops from the node takes a link with the key of its ends, and is dimmed if none does.
  pub get_link_color-find_reachable_links :
      (link : ForceGraphLink) (options : GraphStyleOptions) (paths : List (List String))
      → options.selected_node_id ≡ some source_id
      → options.second_selected_node_id ≡ none
      → find_reachable_links source_id links max_hops zero_hop ≡ some options.reachable_links
      → let own = text_or link.color "#999999" in
        (IsOnRoute link × (get_link_color link options paths ≡ own))
        ⊎ ((IsOnRoute link → ⊥) × (get_link_color link options paths ≡ dim_link_color own))
  get_link_color-find_reachable_links link options paths first second h =
      let set : is_unset options.selected_node_id ≡ false = ground (arith, eq_iff source_id "") in
      let drawn = get_link_color_single link options paths set second in
      let exact = contains-style_key link options.reachable_links h in
      elim (Bool-cases (contains (style_key link) options.reachable_links)) [
        | inl on ↦ inl (exact.0 on, drawn ∙ rw on refl)
        | inr off ↦ inr (λ route. true≢false (sym (exact.1 route) ∙ off), drawn ∙ rw off refl)
      ]
