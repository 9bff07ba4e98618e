-- ===== src/VirtualNodes/Form.antt =====
-- VirtualNodesPanel.tsx: the form of a virtual node and the payload made of it.
use stridetastic.Prelude.{String, Bool, false, ◌==◌, if◌then◌else◌, or_else, trim}
use stridetastic.Types.{Node}

pub record NodeForm : Type 0 where
  pub short_name : String
  pub long_name : String
  pub role : String
  pub hw_model : String
  pub is_licensed : Bool
  pub is_unmessagable : Bool
  pub node_id : String
  pub regenerate_keys : Bool

unfoldable pub create_empty_form : String → String → NodeForm
create_empty_form role hw_model = record {
  short_name = "";
  long_name = "";
  role = role;
  hw_model = hw_model;
  is_licensed = false;
  is_unmessagable = false;
  node_id = "";
  regenerate_keys = false;
}

unfoldable pub build_form_from_node : Node → String → String → NodeForm
build_form_from_node node role hw_model = record {
  short_name = or_else node.short_name "";
  long_name = or_else node.long_name "";
  role = or_else node.role role;
  hw_model = or_else node.hw_model hw_model;
  is_licensed = node.is_licensed;
  is_unmessagable = or_else node.is_unmessagable false;
  node_id = node.node_id;
  regenerate_keys = false;
}

-- A field of a payload: left out, null, or a text.
pub data Field : Type 0 where
  absent null : Field
  value : String → Field

pub record VirtualNodePayload : Type 0 where
  pub short_name : Field
  pub long_name : Field
  pub role : Field
  pub hw_model : Field
  pub is_licensed : Bool
  pub is_unmessagable : Bool
  pub node_id : Field

abbrev pub nullable_string_field : Bool → String → Field
nullable_string_field is_update s =
    if s == "" then (if is_update then null else absent) else value s

abbrev pub identity_field : String → Field
identity_field s = if s == "" then absent else value s

unfoldable pub build_virtual_node_payload : Bool → NodeForm → VirtualNodePayload
build_virtual_node_payload is_update form = record {
  short_name = nullable_string_field is_update (trim form.short_name);
  long_name = nullable_string_field is_update (trim form.long_name);
  role = nullable_string_field is_update (trim form.role);
  hw_model = nullable_string_field is_update (trim form.hw_model);
  is_licensed = form.is_licensed;
  is_unmessagable = form.is_unmessagable;
  node_id = identity_field (trim form.node_id);
}
