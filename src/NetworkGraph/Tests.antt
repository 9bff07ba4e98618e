-- ===== src/NetworkGraph/Tests.antt =====
-- NetworkGraph.tsx: instances of the theorems on concrete graphs and interfaces.
use stridetastic.Prelude.{ℕ, String, true, false, ◌≡◌, refl, none, some, List, [], ◌∷◌, All}
use stridetastic.Prelude.Int.{pos}
use stridetastic.Platform.{Platform}
use stridetastic.Types.{Node, Edge}
use stridetastic.NodeSelection.{mqtt_node}
use stridetastic.ActivityFilters.{all}
use stridetastic.NetworkTransforms.Build.{to_graph_node}
use stridetastic.NetworkGraph.Update.{find_last, update_in_place}
use stridetastic.NetworkGraph.Update.Laws.{merged, find_last-update_in_place}
use stridetastic.NetworkGraph.Interfaces.{
  Interface, next_selected_ids, is_selection_changed, shown_interfaces, build_interfaces,
}
use stridetastic.NetworkGraph.Interfaces.Laws.{
  Joins, next_selected_ids_settles, build_interfaces-Joins,
}

-- Objects with a name and a value
abbrev Item : Type 0
Item = String × ℕ

abbrev name_of : Item → String
name_of (name, value) = name

abbrev assign : Item → Item → Item
assign old new = new

abbrev drawn : List Item
drawn = ("a", 1) ∷ ("b", 2) ∷ []

abbrev new : List Item
new = ("b", 3) ∷ ("c", 4) ∷ []

find_last-update_in_place_example :
    find_last name_of "b" (update_in_place name_of assign drawn new)
    ≡ merged name_of assign
        (λ old x. refl)
        (find_last name_of "b" drawn)
        (find_last name_of "b" new)
find_last-update_in_place_example =
    find_last-update_in_place name_of assign (λ old x. refl) drawn new "b"

abbrev clock : Platform
clock = record {
  now = pos 0;
  now_text = "1970-01-01T00:00:00.000Z";
  time_of = λ date. some (pos 0);
  decimal = λ n. "0";
  integer_text = λ z. "0";
  number_text = λ d. "0";
}

abbrev interface : ℕ → String → String → Interface
interface id name kind = record {
  id = id;
  name = name;
  interface_type = kind;
  status = none;
  is_enabled = some true;
  mqtt_topic = none;
  mqtt_base_topic = none;
  last_connected = none;
  last_error = none;
  serial_node_id = some (pos 7);
}

abbrev interfaces : List Interface
interfaces = interface 1 "broker" "MQTT" ∷ interface 2 "port" "SERIAL" ∷ []

next_selected_ids_settles_example :
    let next = next_selected_ids interfaces (2 ∷ 9 ∷ []) in
    (next_selected_ids interfaces next ≡ next)
    × (is_selection_changed (next_selected_ids interfaces next) next ≡ false)
next_selected_ids_settles_example = next_selected_ids_settles interfaces (2 ∷ 9 ∷ [])

abbrev nodes : List Node
nodes = record (mqtt_node "") { id = pos 7; node_id = "!a"; interfaces = some ("broker" ∷ []) } ∷ []

abbrev edges : List Edge
edges =
    record {
      source_node_id = pos 7;
      target_node_id = pos 7;
      first_seen = "x";
      last_seen = "x";
      last_packet_id = 0;
      last_rx_rssi = record { num = pos 0; over = 0 };
      last_rx_snr = record { num = pos 0; over = 0 };
      last_hops = 0;
      edge_type = "MQTT";
      interfaces_names = [];
    }
    ∷ []

build_interfaces-Joins_example :
    All
      (Joins clock (shown_interfaces interfaces (next_selected_ids interfaces [])) nodes)
      (build_interfaces clock all
        (to_graph_node clock (mqtt_node "") ∷ [])
        nodes
        edges
        []
        interfaces).links
build_interfaces-Joins_example =
    build_interfaces-Joins clock all (to_graph_node clock (mqtt_node "") ∷ []) nodes edges []
      interfaces
