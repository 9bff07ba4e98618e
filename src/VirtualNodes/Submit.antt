-- ===== src/VirtualNodes/Submit.antt =====
-- VirtualNodesPanel.tsx: the requests of the panel. The answers of the
-- server are arguments; the list of hardware models and the prefilled values are not modelled.
pub mod Laws
use Prim.Native.String.{◌++◌ as str_append}
use text.Mathlib.Text.{starts_with}
use stridetastic.Prelude.{
  String, Bool, true, false, not, ◌&&◌, ◌||◌, Option, none, some, is_some, List, [], ◌∷◌, ◌==◌,
  if◌then◌else◌, or_else, trim,
}
use stridetastic.Types.{Node}
use stridetastic.NetworkTransforms.Build.{text_or}
use stridetastic.VirtualNodes.Identifier.{typed_node_id}
use stridetastic.VirtualNodes.Form.{
  NodeForm, create_empty_form, build_form_from_node, VirtualNodePayload, build_virtual_node_payload,
}

-- A failed request: the message in the data of its response, and that of the error.
pub record Failure : Type 0 where
  pub response_message : Option String
  pub error_message : Option String

-- How a request ends: answered, failed, or never, as when the session cannot be refreshed
-- (Session/Refresh).
pub data Answer (A : Type 0) : Type 0 where
  answered : A → Answer A
  failed : Failure → Answer A
  unsettled : Answer A

abbrev pub is_settled : {A : Type 0} → Answer A → Bool
is_settled (answered x) = true
is_settled (failed failure) = true
is_settled unsettled = false

unfoldable pub resolve_error_message : Failure → String
resolve_error_message failure =
    text_or failure.response_message (or_else failure.error_message "An unexpected error occurred")

pub record VirtualNodeSecrets : Type 0 where
  pub node : Node
  pub public_key : Option String
  pub private_key : Option String

unfoldable pub has_secrets : VirtualNodeSecrets → Bool
has_secrets secrets =
    not (or_else secrets.private_key "" == "") || not (or_else secrets.public_key "" == "")

pub record PanelState : Type 0 where
  pub nodes : List Node
  pub is_loading : Bool
  pub error : Option String
  pub global_message : Option String
  pub form_open : Bool
  pub form_state : NodeForm
  pub form_error : Option String
  pub is_saving : Bool
  pub editing_node : Option Node
  pub default_role : String
  pub default_hardware_model : String
  pub pending_secrets : Option VirtualNodeSecrets
  pub rotating_id : Option String
  pub rotate_confirm_node : Option Node
  pub deleting_id : Option String

-- fetchNodes: what the await does not come back to is not done.
unfoldable pub fetch_nodes : Answer (List Node) → PanelState → PanelState
fetch_nodes (answered nodes) s = record s { nodes = nodes; error = none; is_loading = false }
fetch_nodes (failed failure) s = record s {
  error = some (resolve_error_message failure);
  is_loading = false;
}
fetch_nodes unsettled s = record s { error = none; is_loading = true }

unfoldable pub reset_form : PanelState → PanelState
reset_form s = record s {
  form_state = create_empty_form s.default_role s.default_hardware_model;
  form_error = none;
  editing_node = none;
}

unfoldable pub handle_close_form : PanelState → PanelState
handle_close_form s = reset_form (record s { form_open = false })

unfoldable pub handle_open_create : PanelState → PanelState
handle_open_create s = record (reset_form s) { form_open = true }

unfoldable pub handle_edit : Node → PanelState → PanelState
handle_edit node s = record s {
  form_state = build_form_from_node node s.default_role s.default_hardware_model;
  editing_node = some node;
  form_error = none;
  form_open = true;
}

-- handleTextChange for the identifier
unfoldable pub type_node_id : String → PanelState → PanelState
type_node_id text s = record s { form_state = record s.form_state { node_id = typed_node_id text } }

-- What the panel asks of the server: a new node, or an update of one, with new keys or not.
pub data SaveRequest : Type 0 where
  create : VirtualNodePayload → SaveRequest
  update : String → VirtualNodePayload → Bool → SaveRequest

unfoldable pub save_request : PanelState → SaveRequest
save_request s = elim s.editing_node [
  | none ↦ create (build_virtual_node_payload false s.form_state)
  | some node ↦
      update node.node_id (build_virtual_node_payload true s.form_state)
        s.form_state.regenerate_keys
]

abbrev pub show_secrets :
    Bool → VirtualNodeSecrets → Option VirtualNodeSecrets → Option VirtualNodeSecrets
show_secrets requested secrets before =
    if has_secrets secrets && requested then some secrets else before

-- The failure of a submit; a message about the number of the node is that of the error.
unfoldable pub submit_error : Failure → String
submit_error failure = elim failure.error_message [
  | none ↦ resolve_error_message failure
  | some message ↦
      if starts_with message "Node number" then message else resolve_error_message failure
]

-- The end of a request that the panel follows with one for the list: what comes after `fetchNodes()`
-- waits for it.
unfoldable pub after_fetch :
    Answer (List Node) → (PanelState → PanelState) → PanelState → PanelState
after_fetch fetched rest s =
    let refreshed = fetch_nodes fetched s in
    if is_settled fetched then rest refreshed else refreshed

-- handleSubmit, from the answer on; `editing` and `requested` are what the form was at the submit.
unfoldable pub after_submit :
    Bool → Bool → Answer (List Node) → Answer VirtualNodeSecrets → PanelState → PanelState
after_submit editing requested fetched (answered secrets) s =
    after_fetch fetched
      (λ refreshed. record refreshed {
        pending_secrets = show_secrets requested secrets refreshed.pending_secrets;
        global_message = some (
            if editing
            then "Virtual node updated successfully"
            else "Virtual node created successfully");
        is_saving = false;
      })
      (handle_close_form s)
after_submit editing requested fetched (failed failure) s = record s {
  form_error = some (submit_error failure);
  is_saving = false;
}
after_submit editing requested fetched unsettled s = s

-- handleSubmit: the request is sent, and once it is answered that for the list.
unfoldable pub handle_submit :
    (SaveRequest → Answer VirtualNodeSecrets) → Answer (List Node) → PanelState → PanelState
handle_submit answer fetched s =
    after_submit (is_some s.editing_node) (is_some s.editing_node && s.form_state.regenerate_keys)
      fetched (answer (save_request s))
      (record s { form_error = none; error = none; global_message = none; is_saving = true })

-- performRotateKeys, from the answer on
unfoldable pub after_rotate_keys :
    Answer (List Node) → Node → Answer VirtualNodeSecrets → PanelState → PanelState
after_rotate_keys fetched node (answered secrets) s =
    after_fetch fetched
      (λ refreshed. record refreshed {
        global_message =
            some (str_append "New key pair generated for " (text_or node.short_name node.node_id));
        rotating_id = none;
      })
      (record s { pending_secrets = show_secrets true secrets s.pending_secrets })
after_rotate_keys fetched node (failed failure) s = record s {
  error = some (resolve_error_message failure);
  rotating_id = none;
}
after_rotate_keys fetched node unsettled s = s

-- performRotateKeys
unfoldable pub perform_rotate_keys :
    (String → Answer VirtualNodeSecrets) → Answer (List Node) → Node → PanelState → PanelState
perform_rotate_keys answer fetched node s =
    after_rotate_keys fetched node (answer node.node_id)
      (record s { rotating_id = some node.node_id; error = none; global_message = none })

unfoldable pub handle_confirm_rotate :
    (String → Answer VirtualNodeSecrets) → Answer (List Node) → Node → PanelState → PanelState
handle_confirm_rotate answer fetched node s =
    perform_rotate_keys answer fetched node (record s { rotate_confirm_node = none })

-- handleDelete, from the answer on
unfoldable pub after_delete : Answer (List Node) → Answer Unit → PanelState → PanelState
after_delete fetched (answered done) s =
    after_fetch fetched
      (λ refreshed. record refreshed {
        global_message = some "Virtual node deleted";
        deleting_id = none;
      })
      s
after_delete fetched (failed failure) s = record s {
  error = some (resolve_error_message failure);
  deleting_id = none;
}
after_delete fetched unsettled s = s

-- handleDelete; `confirmed` is the answer to the question before it.
unfoldable pub handle_delete :
    (String → Answer Unit) → Answer (List Node) → Bool → Node → PanelState → PanelState
handle_delete answer fetched confirmed node s =
    if confirmed
    then after_delete fetched (answer node.node_id)
        (record s { deleting_id = some node.node_id; error = none; global_message = none })
    else s
