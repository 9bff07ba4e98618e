-- ===== src/GraphStyles/Laws.antt =====
-- graphStyles.ts: which links are highlighted.
use mathlib.Core.Bool.{false≢true}
use stridetastic.Prelude.{
  ◌⊎◌, any-Memᴰ, subst, any_witness, String, Bool, true, false, not, ◌&&◌, ◌||◌, ◌≡◌, ◌↔◌, refl, ap,
  sym, List, [], ◌∷◌, ◌++◌, ◌==◌, eq_iff, eq_refl, arith, Memᴰ, contains, Bool-cases, inl, inr,
  if◌then◌else◌,
}
use stridetastic.Prelude.Int.{pos, int}
use stridetastic.Types.{ForceGraphNode, ForceGraphLink, endpoint_id}
use stridetastic.NodeSelection.{is_unset, equals_id, flag}
use stridetastic.NetworkTransforms.Build.{text_or}
use stridetastic.GraphStyles.{
  Decimal, brand_primary, get_node_color, dim_node_color, GraphStyleOptions,
  is_bidirectional_connection, has_link, get_link_curvature, takes_step, is_link_in_path, style_key,
  get_link_width, thick, thin,
}

-- A link of the list goes from the one to the other.
abbrev pub Connects : List ForceGraphLink → String → String → Type 0
Connects links source_id target_id =
    (other : ForceGraphLink) × Memᴰ other links
    × (endpoint_id other.source ≡ source_id)
    × (endpoint_id other.target ≡ target_id)

has_link_iff :
    (links : List ForceGraphLink) (source_id target_id : String)
    → (has_link links source_id target_id ≡ true) ↔ Connects links source_id target_id
unfolding has_link
has_link_iff links source_id target_id =
    let test : ForceGraphLink → Bool =
      λ link. endpoint_id link.source == source_id && endpoint_id link.target == target_id in
    (
      λ h.
          let (other, m, pass) = any_witness test links h in
          (
            other,
            m,
            ground (arith, eq_iff (endpoint_id other.source) source_id),
            ground (arith, eq_iff (endpoint_id other.target) target_id),
          ),
      λ (other, m, from, to). any-Memᴰ test links m (
          ground (
            arith,
            eq_iff (endpoint_id other.source) source_id,
            eq_iff (endpoint_id other.target) target_id,
          )),
    )

abbrev tenth : Decimal
tenth = record { num = pos 1; over = 9 }

curvature_cases :
    {P Q : Type 0} (p q : Bool)
    → (p ≡ true) ↔ P
    → (q ≡ true) ↔ Q
    → (((if p && q then tenth else int (pos 0)) ≡ tenth) × (P × Q))
      ⊎ (((if p && q then tenth else int (pos 0)) ≡ int (pos 0)) × ¬ (P × Q))
curvature_cases true true hp hq = inl (refl, (hp.0 refl, hq.0 refl))
curvature_cases true false hp hq = inr (refl, λ both. false≢true (hq.1 both.1))
curvature_cases false q hp hq = inr (refl, λ both. false≢true (hp.1 both.0))

-- A link is curved by a tenth if the list has a link from its source to its target and one back, and is
-- straight if it has not both.
pub get_link_curvature_cases :
    (link : ForceGraphLink) (links : List ForceGraphLink)
    → let there = Connects links (endpoint_id link.source) (endpoint_id link.target) in
      let back = Connects links (endpoint_id link.target) (endpoint_id link.source) in
      ((get_link_curvature link links ≡ record { num = pos 1; over = 9 }) × (there × back))
      ⊎ ((get_link_curvature link links ≡ int (pos 0)) × ¬ (there × back))
unfolding get_link_curvature is_bidirectional_connection
get_link_curvature_cases link links =
    curvature_cases _ _ (has_link_iff links (endpoint_id link.source) (endpoint_id link.target))
      (has_link_iff links (endpoint_id link.target) (endpoint_id link.source))

takes_step-append :
    (s t : String) (before after : List String) → takes_step s t (before ++ s ∷ t ∷ after) ≡ true
unfolding takes_step
takes_step-append s t [] after = rw (eq_refl s, eq_refl t) refl
takes_step-append s t (x ∷ []) after = ground (arith, takes_step-append s t [] after)
takes_step-append s t (x ∷ y ∷ before) after =
    ground (arith, takes_step-append s t (y ∷ before) after)

-- Where the step stands in the path.
abbrev StepAt : String → String → List String → Type 0
StepAt s t path = (before : List String) × (after : List String) × (before ++ s ∷ t ∷ after ≡ path)

takes_step-StepAt :
    (s t : String) (path : List String) → takes_step s t path ≡ true → StepAt s t path
unfolding takes_step
takes_step-StepAt s t [] h = cc
takes_step-StepAt s t (x ∷ []) h = cc
takes_step-StepAt s t (x ∷ y ∷ rest) h = elim (Bool-cases (s == x && t == y)) [
  | inl both ↦
      let se : s ≡ x = ground (arith, eq_iff s x) in
      let te : t ≡ y = ground (arith, eq_iff t y) in ([], rest, λ i. se i ∷ te i ∷ rest)
  | inr off ↦
      let (before, after, e) = takes_step-StepAt s t (y ∷ rest) (ground arith) in
      (x ∷ before, after, ap (λ p. x ∷ p) e)
]

-- A link is in the paths exactly if one of the paths goes from its source directly to its target.
pub is_link_in_path_iff :
    (link : ForceGraphLink) (paths : List (List String))
    → (is_link_in_path link paths ≡ true) ↔ (
        (before : List String) × (after : List String) × Memᴰ
          (before ++ endpoint_id link.source ∷ endpoint_id link.target ∷ after)
          paths)
unfolding is_link_in_path
is_link_in_path_iff link paths =
    let step = takes_step (endpoint_id link.source) (endpoint_id link.target) in
    (
      λ h.
          let (path, m, pass) = any_witness step paths h in
          let (before, after, e) = takes_step-StepAt _ _ path pass in
          (before, after, subst (λ p. Memᴰ p paths) (sym e) m),
      λ w. any-Memᴰ step paths w.2 (takes_step-append _ _ w.0 w.1),
    )

-- Is a link highlighted: everything without a selection, the reachable links with one node selected,
-- the links of the paths with two.
abbrev pub is_highlighted : ForceGraphLink → GraphStyleOptions → List (List String) → Bool
is_highlighted link options paths =
    is_unset options.selected_node_id
    || (if is_unset options.second_selected_node_id
        then contains (style_key link) options.reachable_links
        else is_link_in_path link paths)

-- With a node selected, a highlighted link is drawn thick and any other thin, but for the inner
-- segments of a chain, which have width 1.
pub get_link_width_lem :
    (link : ForceGraphLink) (options : GraphStyleOptions) (paths : List (List String))
    → is_unset options.selected_node_id ≡ false
    → flag link.is_multi_hop_segment && not (flag link.is_last_hop) ≡ false
    → get_link_width link options paths
      ≡ (if is_highlighted link options paths then thick link else thin link)
unfolding get_link_width
get_link_width_lem link options paths h k = ground arith

-- The nodes that are highlighted: of the paths with two nodes selected, else the reachable ones.
abbrev pub shown_nodes : GraphStyleOptions → List String
shown_nodes options =
    if is_unset options.second_selected_node_id then options.reachable_nodes else options.path_nodes

-- With a node selected, a node other than the selected ones keeps its colour if it is among the nodes
-- to highlight, and is dimmed if not.
pub get_node_color_lem :
    (node : ForceGraphNode) (options : GraphStyleOptions)
    → is_unset options.selected_node_id ≡ false
    → equals_id options.selected_node_id node.id ≡ false
    → equals_id options.second_selected_node_id node.id ≡ false
    → get_node_color node options ≡ (
        if contains node.id (shown_nodes options)
        then text_or node.color brand_primary
        else dim_node_color node)
unfolding get_node_color
get_node_color_lem node options h k l =
    elim (Bool-cases (is_unset options.second_selected_node_id)) [
      | inl single ↦ rw (h, single, k) refl
      | inr two ↦ rw (h, two, k, l) refl
    ]
