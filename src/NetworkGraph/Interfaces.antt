-- ===== src/NetworkGraph/Interfaces.antt =====
-- NetworkGraph.tsx, fetchInterfacesAndBuild: which interfaces are shown, their nodes, and their links to
-- the nodes of the network.
pub mod Laws
use Prim.Native.String.{◌++◌ as str_append}
use stridetastic.Prelude.{
  ℕ, ◌+◌, String, Bool, true, false, not, ◌&&◌, ◌||◌, Option, none, some, List, [], ◌∷◌, ◌++◌, ◌==◌,
  if◌then◌else◌, any, keep_if, map, or_else, eqb, length,
}
use stridetastic.Prelude.Int.{ℤ, pos, negsuc, int, eqb_ℤ}
use stridetastic.Platform.{Platform}
use stridetastic.Types.{Node, Edge, ForceGraphNode, ForceGraphLink, text}
use stridetastic.ActivityFilters.{ActivityTimeRange, is_within_time_range}
use stridetastic.NetworkTransforms.Filters.{is_loop, should_set}
use stridetastic.NetworkTransforms.Signal.{get_link_activity_color}
use stridetastic.NetworkTransforms.Build.{bare_node, text_or}
use stridetastic.NetworkGraph.Update.{Entries, get_entry, set_entry}
use stridetastic.NetworkGraph.Merge.{GraphData}

-- The identifiers are numbers, by the type; the name and the type of an interface are texts.
pub record Interface : Type 0 where
  pub id : ℕ
  pub name : String
  pub interface_type : String
  pub status : Option String
  pub is_enabled : Option Bool
  pub mqtt_topic : Option String
  pub mqtt_base_topic : Option String
  pub last_connected : Option String
  pub last_error : Option String
  pub serial_node_id : Option ℤ

abbrev pub includes : List ℕ → ℕ → Bool
includes ids id = any (λ other. eqb other id) ids

abbrev pub selectable_ids : List Interface → List ℕ
selectable_ids interfaces = map (λ iface. iface.id) interfaces

abbrev pub or_all : List ℕ → List ℕ → List ℕ
or_all [] all = all
or_all (id ∷ ids) all = id ∷ ids

-- What is left of the selection, or all when nothing is left.
unfoldable pub next_selected_ids : List Interface → List ℕ → List ℕ
next_selected_ids interfaces selected =
    or_all (keep_if (includes (selectable_ids interfaces)) selected) (selectable_ids interfaces)

unfoldable pub is_selection_changed : List ℕ → List ℕ → Bool
is_selection_changed next selected =
    not (eqb (length next) (length selected)) || any (λ id. not (includes selected id)) next

abbrev pub shown_interfaces : List Interface → List ℕ → List Interface
shown_interfaces interfaces ids = keep_if (λ iface. includes ids iface.id) interfaces

-- `n.node_id` of the nodes of the graph
abbrev pub has_graph_node : List ForceGraphNode → String → Bool
has_graph_node nodes id = any (λ node. node.node_id == id) nodes

abbrev pub find {ℓ} : {A : Type ℓ} → (A → Bool) → List A → Option A
find test [] = none
find test (x ∷ xs) = if test x then some x else find test xs

-- The first of the nodes with the identifier.
abbrev pub node_of : List Node → ℤ → Option Node
node_of nodes id = find (λ node. eqb_ℤ node.id id) nodes

-- `id && !isNaN(id)`: no identifier, or 0, is none.
abbrev pub truthy_node_id : Option ℤ → Option ℤ
truthy_node_id none = none
truthy_node_id (some id) = if eqb_ℤ id (pos 0) then none else some id

-- The node that a serial interface is bound to.
unfoldable pub bound_node : List Node → Interface → Option Node
bound_node nodes iface =
    if iface.interface_type == "SERIAL"
    then (elim (truthy_node_id iface.serial_node_id) [ none ↦ none | some id ↦ node_of nodes id ])
    else none

-- `get(id)` as a text, of which none and the empty one are alike for its readers.
abbrev pub text_at : String → Entries String → String
text_at id entries = or_else (get_entry id entries) ""

module _ (platform : Platform) where
  -- `iface_${id}`
  unfoldable pub interface_node_id : ℕ → String
  interface_node_id id = str_append "iface_" (platform.decimal id)

  unfoldable pub interface_node : Interface → ForceGraphNode
  interface_node iface =
      record (bare_node platform (interface_node_id iface.id) iface.name (negsuc (999 + iface.id))
        (text_or iface.last_connected platform.now_text)) {
          color = some "#3fc373";
          size = some 14;
          is_hidden = some false;
          is_interface_node = some true;
        }

  -- `selfDirectedNodeLastSeen`
  unfoldable pub note_self_link :
      ActivityTimeRange → List ForceGraphNode → List Node → Entries String → Edge → Entries String
  note_self_link range graph_nodes nodes seen edge =
      if is_loop edge && is_within_time_range platform edge.last_seen range
      then (elim (node_of nodes edge.source_node_id) [
        | none ↦ seen
        | some node ↦
            if has_graph_node graph_nodes node.node_id
              && should_set platform (get_entry node.node_id seen) edge.last_seen
            then set_entry node.node_id edge.last_seen seen
            else seen
      ])
      else seen

  unfoldable pub self_links :
      ActivityTimeRange
      → List ForceGraphNode
      → List Node
      → List Edge
      → Entries String
      → Entries String
  self_links range graph_nodes nodes [] seen = seen
  self_links range graph_nodes nodes (edge ∷ edges) seen =
      self_links range graph_nodes nodes edges (note_self_link range graph_nodes nodes seen edge)

  -- A link of an interface, in one direction.
  unfoldable pub interface_link : String → String → String → ForceGraphLink
  interface_link source_id target_id last_seen = record {
    source = text source_id;
    target = text target_id;
    rssi = int (pos 0);
    snr = int (pos 0);
    hops = 1;
    last_seen = last_seen;
    color = some (get_link_activity_color platform last_seen);
    width = some 2;
    value = some (int (pos 1));
    is_mqtt = none;
    distance = none;
    is_multi_hop_segment = none;
    original_hops = none;
    is_last_hop = none;
    is_mqtt_broker_link = none;
    is_direct_multi_hop = none;
  }

  abbrev pub both_ways : String → String → String → List ForceGraphLink
  both_ways a b last_seen = interface_link a b last_seen ∷ interface_link b a last_seen ∷ []

  -- The links of a node to the interfaces that it names.
  unfoldable pub mqtt_links_to :
      List Interface → String → String → List String → List ForceGraphLink
  mqtt_links_to shown node_id last_seen [] = []
  mqtt_links_to shown node_id last_seen (name ∷ names) =
      let rest = mqtt_links_to shown node_id last_seen names in
      elim (find (λ iface. iface.name == name && iface.interface_type == "MQTT") shown) [
        | none ↦ rest
        | some iface ↦ both_ways node_id (interface_node_id iface.id) last_seen ++ rest
      ]

  unfoldable pub mqtt_links : List Interface → Entries String → List Node → List ForceGraphLink
  mqtt_links shown seen [] = []
  mqtt_links shown seen (node ∷ nodes) =
      let rest = mqtt_links shown seen nodes in
      let last_seen = text_at node.node_id seen in
      if last_seen == ""
      then rest
      else mqtt_links_to shown node.node_id last_seen (or_else node.interfaces []) ++ rest

  -- The links of the serial interfaces to the nodes that they are bound to.
  unfoldable pub serial_links : List Node → List Interface → List ForceGraphLink
  serial_links nodes [] = []
  serial_links nodes (iface ∷ more) =
      let rest = serial_links nodes more in
      elim (bound_node nodes iface) [
        | none ↦ rest
        | some node ↦
            both_ways (interface_node_id iface.id) node.node_id
              (text_or iface.last_connected (text_or (some node.last_seen) platform.now_text))
            ++ rest
      ]

  -- The nodes and links that an answer with these interfaces builds.
  unfoldable pub build_interfaces :
      ActivityTimeRange
      → List ForceGraphNode
      → List Node
      → List Edge
      → List ℕ
      → List Interface
      → GraphData
  build_interfaces range graph_nodes nodes edges selected interfaces =
      let shown = shown_interfaces interfaces (next_selected_ids interfaces selected) in
      record {
        nodes = map interface_node shown;
        links =
            mqtt_links shown (self_links range graph_nodes nodes edges []) nodes
            ++ serial_links nodes shown;
      }
