-- ===== src/PathView/Tests.antt =====
-- An instance of the theorem on what is shown for a selection.
use stridetastic.Prelude.{String, ◌≡◌, some, none, List, [], ◌∷◌, All, any, contains}
use stridetastic.Prelude.Int.{int, pos}
use stridetastic.Types.{ForceGraphLink, text, object}
use stridetastic.PathFinding.Paths.Sound.{IsFound}
use stridetastic.PathView.{PathViewInput, PathView, use_path_finding}
use stridetastic.PathView.Laws.{view_options, IsOneView, use_path_finding_lem}

abbrev link : String → String → ForceGraphLink
link s t = record {
  source = text s;
  target = object t;
  rssi = int (pos 0);
  snr = int (pos 0);
  hops = 0;
  last_seen = "";
  color = none;
  width = none;
  value = none;
  is_mqtt = none;
  distance = none;
  is_multi_hop_segment = none;
  original_hops = none;
  is_last_hop = none;
  is_mqtt_broker_link = none;
  is_direct_multi_hop = none;
}

-- a → b → c, a → c, c → a
abbrev sample : List ForceGraphLink
sample = link "a" "b" ∷ link "b" "c" ∷ link "a" "c" ∷ link "c" "a" ∷ []

abbrev input : PathViewInput
input = record {
  selected_node_id = some "a";
  second_selected_node_id = some "c";
  links = sample;
  max_hops = 3;
  zero_hop_nodes = "b" ∷ [];
  max_paths = 100;
}

use_path_finding_lem_example :
    (view : PathView) × (use_path_finding input ≡ some view)
    × All (IsFound "a" "c" sample (view_options input)) view.paths_between_nodes
    × ((id : String) → contains id view.path_node_set ≡ any (contains id) view.paths_between_nodes)
    × IsOneView view
use_path_finding_lem_example = use_path_finding_lem input
