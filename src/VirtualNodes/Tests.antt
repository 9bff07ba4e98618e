-- ===== src/VirtualNodes/Tests.antt =====
-- VirtualNodesPanel.tsx: instances of the theorems on a concrete form.
use stridetastic.Prelude.{true, false, ◌≡◌, refl, none, some, []}
use stridetastic.VirtualNodes.Identifier.{typed_node_id, normalized, without_prefix}
use stridetastic.VirtualNodes.Form.{create_empty_form}
use stridetastic.VirtualNodes.Submit.{
  Answer, Failure, answered, failed, VirtualNodeSecrets, SaveRequest, PanelState, handle_submit,
}
use stridetastic.VirtualNodes.Submit.Laws.{IsSubmitted, handle_submit-IsSubmitted}

abbrev panel : PanelState
panel = record {
  nodes = [];
  is_loading = false;
  error = none;
  global_message = none;
  form_open = true;
  form_state = record (create_empty_form "CLIENT" "UNSET") { short_name = "me" };
  form_error = none;
  is_saving = false;
  editing_node = none;
  default_role = "CLIENT";
  default_hardware_model = "UNSET";
  pending_secrets = none;
  rotating_id = none;
  rotate_confirm_node = none;
  deleting_id = none;
}

abbrev refusal : Failure
refusal = record { response_message = some "Taken"; error_message = none }

abbrev refuse : SaveRequest → Answer VirtualNodeSecrets
refuse request = failed refusal

handle_submit-IsSubmitted_example :
    IsSubmitted (failed refusal) (answered []) panel (handle_submit refuse (answered []) panel)
handle_submit-IsSubmitted_example = handle_submit-IsSubmitted refuse (answered []) panel

-- A mark inside is kept.
inner_mark : typed_node_id "Ab!z1" ≡ "!ab!1"
unfolding typed_node_id without_prefix normalized
inner_mark = refl
