-- ===== src/NetworkGraph/Interfaces/Laws.antt =====
-- NetworkGraph.tsx, fetchInterfacesAndBuild: the selection and the links of the interfaces.
use mathlib.Core.Option.{some-injective, none-ne-some}
use stridetastic.Prelude.{
  ℕ, String, Bool, true, false, not, ◌&&◌, ◌≡◌, ◌⊎◌, inl, inr, refl, sym, ◌∙◌, some, List, [], ◌∷◌,
  ◌==◌, any, keep_if, or_else, eqb, eqb_iff, length, Memᴰ, All, All-append, All-test, Bool-cases,
  Option-cases, any-Memᴰ,
}
use stridetastic.Platform.{Platform}
use stridetastic.Types.{Node, Edge, ForceGraphNode, ForceGraphLink, text}
use stridetastic.ActivityFilters.{ActivityTimeRange}
use stridetastic.NetworkGraph.Update.{Entries}
use stridetastic.NetworkGraph.Interfaces.{
  or_all, bound_node, Interface, includes, selectable_ids, next_selected_ids, is_selection_changed,
  shown_interfaces, find, truthy_node_id, text_at, interface_node_id, interface_link, mqtt_links_to,
  mqtt_links, serial_links, self_links, build_interfaces,
}

keep_if_whole {ℓ} :
    {A : Type ℓ} (test : A → Bool) (xs : List A)
    → All (λ x. test x ≡ true) xs
    → keep_if test xs ≡ xs
keep_if_whole test [] h = refl
keep_if_whole test (x ∷ xs) (p, h) = rw (p, keep_if, keep_if_whole test xs h) refl

All-tabulate {ℓ κ} :
    {A : Type ℓ} (P : A → Type κ) (xs : List A) → ((x : A) → Memᴰ x xs → P x) → All P xs
All-tabulate P [] f = tt
All-tabulate P (x ∷ xs) f = (f x (Memᴰ.head refl), All-tabulate P xs (λ y m. f y (Memᴰ.tail m)))

includes_self : (ids : List ℕ) → All (λ id. includes ids id ≡ true) ids
includes_self ids =
    All-tabulate (λ id. includes ids id ≡ true) ids
      (λ id m. any-Memᴰ (λ other. eqb other id) ids m ((eqb_iff id id).1 refl))

any-none {ℓ} :
    {A : Type ℓ} (test : A → Bool) (xs : List A)
    → All (λ x. test x ≡ true) xs
    → any (λ x. not (test x)) xs ≡ false
any-none test [] h = refl
any-none test (x ∷ xs) (p, h) = rw p (any-none test xs h)

is_selection_changed_self : (ids : List ℕ) → is_selection_changed ids ids ≡ false
unfolding is_selection_changed
is_selection_changed_self ids =
    rw ((eqb_iff (length ids) (length ids)).1 refl)
      (any-none (includes ids) ids (includes_self ids))

kept_whole :
    (interfaces : List Interface) (ids : List ℕ)
    → All (λ id. includes (selectable_ids interfaces) id ≡ true) ids
    → next_selected_ids interfaces ids ≡ or_all ids (selectable_ids interfaces)
unfolding next_selected_ids
kept_whole interfaces ids h =
    rw (next_selected_ids, keep_if_whole (includes (selectable_ids interfaces)) ids h) refl

next_selected_ids-kept :
    (interfaces : List Interface) (ids : List ℕ)
    → All (λ id. includes (selectable_ids interfaces) id ≡ true) ids
    → let next = or_all ids (selectable_ids interfaces) in next_selected_ids interfaces next ≡ next
next_selected_ids-kept interfaces [] h =
    kept_whole interfaces (selectable_ids interfaces) (includes_self (selectable_ids interfaces))
    ∙ itself (selectable_ids interfaces)
  where
    itself : (ids : List ℕ) → or_all ids ids ≡ ids
    itself [] = refl
    itself (id ∷ more) = refl
next_selected_ids-kept interfaces (id ∷ more) h = kept_whole interfaces (id ∷ more) h

-- The effect that reads the interfaces runs again on the selection that it makes; that run leaves the
-- selection as it is.
pub next_selected_ids_settles :
    (interfaces : List Interface) (selected : List ℕ)
    → let next = next_selected_ids interfaces selected in
      (next_selected_ids interfaces next ≡ next)
      × (is_selection_changed (next_selected_ids interfaces next) next ≡ false)
unfolding next_selected_ids is_selection_changed
next_selected_ids_settles interfaces selected =
    rw
      (next_selected_ids-kept interfaces (keep_if (includes (selectable_ids interfaces)) selected)
        (All-test (includes (selectable_ids interfaces)) selected))
      (refl, is_selection_changed_self (next_selected_ids interfaces selected))

module _ (platform : Platform) where
  -- A link between a shown interface and a node, in either direction.
  abbrev pub Joins : List Interface → List Node → ForceGraphLink → Type 0
  Joins shown nodes link =
      (iface : Interface) × (node : Node) × Memᴰ iface shown
      × Memᴰ node nodes
      × (((link.source ≡ text (interface_node_id platform iface.id))
            × (link.target ≡ text node.node_id))
          ⊎ ((link.source ≡ text node.node_id)
              × (link.target ≡ text (interface_node_id platform iface.id))))

  find-Memᴰ :
      {A : Type 0} (test : A → Bool) (xs : List A) (x : A) → find test xs ≡ some x → Memᴰ x xs
  find-Memᴰ test [] x h = cc
  find-Memᴰ test (y ∷ xs) x h = elim (Bool-cases (test y)) [
    | inl pass ↦ Memᴰ.head (sym (some-injective y x (rw pass at h)))
    | inr fail ↦ Memᴰ.tail (find-Memᴰ test xs x (rw fail at h))
  ]

  bound_node-Memᴰ :
      (nodes : List Node) (iface : Interface) (node : Node)
      → bound_node nodes iface ≡ some node
      → Memᴰ node nodes
  unfolding bound_node
  bound_node-Memᴰ nodes iface node h = elim (Bool-cases (iface.interface_type == "SERIAL")) [
    | inl serial ↦ elim (Option-cases (truthy_node_id iface.serial_node_id)) [
      | inl missing ↦ absurd (none-ne-some node (rw (serial, missing) at h))
      | inr (id, found) ↦ find-Memᴰ _ nodes node (rw (serial, found) at h)
    ]
    | inr other ↦ absurd (none-ne-some node (rw other at h))
  ]

  mqtt_links_to-Joins :
      (shown : List Interface) (nodes : List Node) (node : Node) (last_seen : String)
      (names : List String)
      → Memᴰ node nodes
      → All (Joins shown nodes) (mqtt_links_to platform shown node.node_id last_seen names)
  unfolding mqtt_links_to interface_link
  mqtt_links_to-Joins shown nodes node last_seen [] m = tt
  mqtt_links_to-Joins shown nodes node last_seen (name ∷ names) m =
      let test : Interface → Bool = λ iface. iface.name == name && iface.interface_type == "MQTT" in
      elim (Option-cases (find test shown)) [
        | inl missing ↦
            rw (mqtt_links_to, missing) (mqtt_links_to-Joins shown nodes node last_seen names m)
        | inr (iface, found) ↦
            let there = find-Memᴰ test shown iface found in
            rw (mqtt_links_to, found)
              (
                (iface, node, there, m, inr (refl, refl)),
                (
                  (iface, node, there, m, inl (refl, refl)),
                  mqtt_links_to-Joins shown nodes node last_seen names m,
                ),
              )
      ]

  mqtt_links-Joins :
      (shown : List Interface) (seen : Entries String) (all some_nodes : List Node)
      → ((node : Node) → Memᴰ node some_nodes → Memᴰ node all)
      → All (Joins shown all) (mqtt_links platform shown seen some_nodes)
  unfolding mqtt_links
  mqtt_links-Joins shown seen all [] inside = tt
  mqtt_links-Joins shown seen all (node ∷ nodes) inside =
      let rest = mqtt_links-Joins shown seen all nodes (λ n m. inside n (Memᴰ.tail m)) in
      elim (Bool-cases (text_at node.node_id seen == "")) [
        | inl blank ↦ rw blank rest
        | inr there ↦ rw there (
            All-append (Joins shown all)
              (mqtt_links_to platform shown node.node_id (text_at node.node_id seen)
                (or_else node.interfaces []))
              (mqtt_links platform shown seen nodes)
              (mqtt_links_to-Joins shown all node _ _ (inside node (Memᴰ.head refl))) rest)
      ]

  serial_links-Joins :
      (nodes : List Node) (shown ifaces : List Interface)
      → ((iface : Interface) → Memᴰ iface ifaces → Memᴰ iface shown)
      → All (Joins shown nodes) (serial_links platform nodes ifaces)
  unfolding serial_links interface_link
  serial_links-Joins nodes shown [] inside = tt
  serial_links-Joins nodes shown (iface ∷ more) inside =
      let rest = serial_links-Joins nodes shown more (λ i m. inside i (Memᴰ.tail m)) in
      elim (Option-cases (bound_node nodes iface)) [
        | inl missing ↦ rw (serial_links, missing) rest
        | inr (node, found) ↦
            let here = inside iface (Memᴰ.head refl) in
            let there = bound_node-Memᴰ nodes iface node found in
            rw (serial_links, found)
              (
                (iface, node, here, there, inl (refl, refl)),
                ((iface, node, here, there, inr (refl, refl)), rest),
              )
      ]

  -- Every link that the interfaces add joins an interface of the selection to a node that the server
  -- sent, in one of the two directions.
  pub build_interfaces-Joins :
      (range : ActivityTimeRange) (graph_nodes : List ForceGraphNode) (nodes : List Node)
      (edges : List Edge) (selected : List ℕ) (interfaces : List Interface)
      → All
          (Joins (shown_interfaces interfaces (next_selected_ids interfaces selected)) nodes)
          (build_interfaces platform range graph_nodes nodes edges selected interfaces).links
  unfolding build_interfaces
  build_interfaces-Joins range graph_nodes nodes edges selected interfaces =
      let shown = shown_interfaces interfaces (next_selected_ids interfaces selected) in
      All-append (Joins shown nodes)
        (mqtt_links platform shown (self_links platform range graph_nodes nodes edges []) nodes)
        (serial_links platform nodes shown) (mqtt_links-Joins shown _ nodes nodes (λ n m. m))
        (serial_links-Joins nodes shown shown (λ n m. m))
