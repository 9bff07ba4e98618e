-- ===== src/VirtualNodes/Submit/Laws.antt =====
-- VirtualNodesPanel.tsx, handleSubmit: what is left of every submit.
use stridetastic.Prelude.{
  String, Bool, true, false, ◌&&◌, ◌≡◌, refl, ap, ◌∙◌, Option, none, some, is_some, List,
  if◌then◌else◌,
}
use stridetastic.Types.{Node}
use stridetastic.VirtualNodes.Form.{create_empty_form}
use stridetastic.VirtualNodes.Submit.{
  Answer, answered, failed, unsettled, after_fetch, resolve_error_message, submit_error,
  VirtualNodeSecrets, SaveRequest, save_request, PanelState, fetch_nodes, reset_form,
  handle_close_form, after_submit, handle_submit, has_secrets, show_secrets,
}

-- The form is closed and blank.
abbrev pub IsClosed : PanelState → PanelState → Type 0
IsClosed before after =
    (after.form_open ≡ false)
    × ((after.form_state ≡ create_empty_form before.default_role before.default_hardware_model)
        × ((after.editing_node ≡ none) × (after.form_error ≡ none)))

-- The form is as it was, and so are the nodes and the keys.
abbrev pub IsKept : PanelState → PanelState → Type 0
IsKept before after =
    (after.form_open ≡ before.form_open)
    × ((after.form_state ≡ before.form_state)
        × ((after.editing_node ≡ before.editing_node)
            × ((after.nodes ≡ before.nodes) × (after.pending_secrets ≡ before.pending_secrets))))

abbrev pub success_message : PanelState → String
success_message before =
    if is_some before.editing_node
    then "Virtual node updated successfully"
    else "Virtual node created successfully"

-- What the answer to a submit, and then that to the request for the list, leave of the panel.
abbrev pub IsSubmitted :
    Answer VirtualNodeSecrets → Answer (List Node) → PanelState → PanelState → Type 0
IsSubmitted (answered secrets) (answered nodes) before after =
    IsClosed before after
    × ((after.global_message ≡ some (success_message before))
        × ((after.nodes ≡ nodes) × ((after.error ≡ none) × (after.is_saving ≡ false))))
IsSubmitted (answered secrets) (failed failure) before after =
    IsClosed before after
    × ((after.global_message ≡ some (success_message before))
        × ((after.nodes ≡ before.nodes)
            × ((after.error ≡ some (resolve_error_message failure)) × (after.is_saving ≡ false))))
IsSubmitted (answered secrets) unsettled before after =
    IsClosed before after
    × ((after.global_message ≡ none)
        × ((after.nodes ≡ before.nodes)
            × ((after.pending_secrets ≡ before.pending_secrets) × (after.is_saving ≡ true))))
IsSubmitted (failed failure) fetched before after =
    IsKept before after
    × ((after.global_message ≡ none)
        × ((after.form_error ≡ some (submit_error failure)) × (after.is_saving ≡ false)))
IsSubmitted unsettled fetched before after =
    IsKept before after
    × ((after.global_message ≡ none) × ((after.form_error ≡ none) × (after.is_saving ≡ true)))

after_submit-IsSubmitted :
    (requested : Bool) (fetched : Answer (List Node)) (reply : Answer VirtualNodeSecrets)
    (before : PanelState)
    → let s = record before {
      form_error = none;
      error = none;
      global_message = none;
      is_saving = true;
    } in
      IsSubmitted reply fetched before
        (after_submit (is_some before.editing_node) requested fetched reply s)
unfolding after_submit after_fetch fetch_nodes handle_close_form reset_form
after_submit-IsSubmitted requested (answered nodes) (answered secrets) before =
    ((refl, (refl, (refl, refl))), (refl, (refl, (refl, refl))))
after_submit-IsSubmitted requested (failed failure) (answered secrets) before =
    ((refl, (refl, (refl, refl))), (refl, (refl, (refl, refl))))
after_submit-IsSubmitted requested unsettled (answered secrets) before =
    ((refl, (refl, (refl, refl))), (refl, (refl, (refl, refl))))
after_submit-IsSubmitted requested fetched (failed failure) before =
    ((refl, (refl, (refl, (refl, refl)))), (refl, (refl, refl)))
after_submit-IsSubmitted requested fetched unsettled before =
    ((refl, (refl, (refl, (refl, refl)))), (refl, (refl, refl)))

-- What a submit leaves follows from the answer to what the form asks for. When it succeeds, the form is
-- closed and blank; the success is told and the saving is over once the request for the list, which comes
-- after it, is answered or fails: with the nodes of the answer, or with those of before and its error. When
-- it fails, the form, the nodes and the keys are as they were, the form tells why, and the saving is over.
-- While either request is unsettled, nothing is told and the panel is still saving.
pub handle_submit-IsSubmitted :
    (answer : SaveRequest → Answer VirtualNodeSecrets) (fetched : Answer (List Node))
    (s : PanelState)
    → IsSubmitted (answer (save_request s)) fetched s (handle_submit answer fetched s)
unfolding handle_submit
handle_submit-IsSubmitted answer fetched s =
    after_submit-IsSubmitted _ fetched (answer (save_request s)) s

unrequested :
    (secrets : VirtualNodeSecrets) (before : Option VirtualNodeSecrets)
    → show_secrets false secrets before ≡ before
unrequested secrets before = neither (has_secrets secrets)
  where
    neither : (b : Bool) → (if b && false then some secrets else before) ≡ before
    neither true = refl
    neither false = refl

after_submit-unrequested :
    (editing requested : Bool) (fetched : Answer (List Node)) (reply : Answer VirtualNodeSecrets)
    (s : PanelState)
    → requested ≡ false
    → (after_submit editing requested fetched reply s).pending_secrets ≡ s.pending_secrets
unfolding after_submit after_fetch fetch_nodes handle_close_form reset_form
after_submit-unrequested editing requested (answered nodes) (answered secrets) s h =
    ap (λ b. show_secrets b secrets s.pending_secrets) h ∙ unrequested secrets s.pending_secrets
after_submit-unrequested editing requested (failed failure) (answered secrets) s h =
    ap (λ b. show_secrets b secrets s.pending_secrets) h ∙ unrequested secrets s.pending_secrets
after_submit-unrequested editing requested unsettled (answered secrets) s h = refl
after_submit-unrequested editing requested fetched (failed failure) s h = refl
after_submit-unrequested editing requested fetched unsettled s h = refl

-- The keys in the answer to the creation of a node are not shown.
pub handle_submit-create :
    (answer : SaveRequest → Answer VirtualNodeSecrets) (fetched : Answer (List Node))
    (s : PanelState)
    → s.editing_node ≡ none
    → (handle_submit answer fetched s).pending_secrets ≡ s.pending_secrets
unfolding handle_submit
handle_submit-create answer fetched s creating =
    after_submit-unrequested _ _ fetched (answer (save_request s)) _
      (ap (λ node. is_some node && s.form_state.regenerate_keys) creating)
