-- ===== src/Publishing/Tests.antt =====
-- PublishingActions.tsx: instances of the theorems on concrete forms and states.
use stridetastic.Prelude.{ℕ, String, true, false, ◌≡◌, ◌⊎◌, refl, Option, none, some, List, [], ◌∷◌}
use stridetastic.Types.{Node}
use stridetastic.NodeSelection.{mqtt_node}
use stridetastic.Publishing.Json.{Number, nan}
use stridetastic.Publishing.Periodic.{base_payload, edit_form}
use stridetastic.Publishing.Jobs.{
  PeriodicForm, PeriodicPayload, PublisherPeriodicJob, initial_periodic_form, number_of,
}
use stridetastic.Publishing.Periodic.Roundtrip.{job_of, base_payload-edit_form}
use stridetastic.Publishing.Periodic.Pki.{
  FormState, FormUpdate, set_pki, set_name, set_channel_name, handle_edit_periodic_job,
}
use stridetastic.Publishing.Periodic.Pki.Laws.{update_all, set_pki_restores, set_pki_stale}
use stridetastic.Publishing.Periodic.Submit.{
  Reply, resolved, rejected, PeriodicState, source_candidates, is_virtual_restriction_active,
  handle_periodic_submit,
}
use stridetastic.Publishing.Periodic.Submit.Laws.{IsComplete, handle_periodic_submit-IsComplete}
use stridetastic.Publishing.OneShot.{start_decision, effective_channel_name, effective_channel_key}
use stridetastic.Publishing.Actions.{
  Publish, OneShotState, publish_text_message, send, text_message, TelemetryCategory,
}
use stridetastic.Publishing.OneShot.Laws.{generic_of, with_channel, start_decision_hides_channel}
use stridetastic.Publishing.Services.{initial_reactive_form}
use stridetastic.Publishing.Keepalive.{KeepaliveForm, keepalive_update, all_nodes, reachability}
use stridetastic.Publishing.Services.Laws.{IsRounded, keepalive_update-IsRounded}
use stridetastic.Publishing.Restriction.{restrict_periodic, restrict_reactive, restrict_one_shot}
use stridetastic.Publishing.Restriction.Laws.{accepts, restrict-accepts}

abbrev to_number : String → Number
to_number s = nan

abbrev node : String → Node
node node_id = record (mqtt_node "") { node_id = node_id }

abbrev nodes : List Node
nodes = node "!a" ∷ node "!b" ∷ []

abbrev selectable : List Node
selectable = node "!a" ∷ []

abbrev weather : PeriodicForm
weather = record initial_periodic_form {
  name = " Weather ";
  from_node = "!a";
  to_node = "!b";
  channel_name = "LongFast";
  payload_options = record initial_periodic_form.payload_options { message_text = "Rain" };
}

base_payload-edit_form_example :
    base_payload to_number (edit_form to_number (job_of 4 (base_payload to_number weather)))
    ≡ base_payload to_number weather
base_payload-edit_form_example = base_payload-edit_form to_number 4 weather refl

abbrev form_state : FormState
form_state = record { form = weather; prev_channel_name = none; prev_channel_key = none }

abbrev periodic_state : PeriodicState
periodic_state = record {
  form_state = form_state;
  jobs = [];
  loading = false;
  saving = false;
  deleting_id = none;
  toggling_id = none;
  toast = none;
}

abbrev save : Option ℕ → PeriodicPayload → Reply PublisherPeriodicJob
save id payload = resolved (job_of 4 payload)

abbrev refuse_save : Option ℕ → PeriodicPayload → Reply PublisherPeriodicJob
refuse_save id payload = rejected none

handle_periodic_submit-IsComplete_example :
    IsComplete (source_candidates nodes selectable) nodes (base_payload to_number weather)
    ⊎ (handle_periodic_submit to_number save (resolved []) nodes selectable periodic_state
        ≡ handle_periodic_submit to_number refuse_save
            (rejected none)
            nodes
            selectable
            periodic_state)
handle_periodic_submit-IsComplete_example =
    handle_periodic_submit-IsComplete to_number nodes selectable periodic_state save refuse_save
      (resolved []) (rejected none)

abbrev updates : List FormUpdate
updates = set_name "Rain" ∷ set_channel_name "Other" ∷ []

set_pki_restores_example :
    ((set_pki false (update_all updates (set_pki true form_state))).form.channel_name ≡ "LongFast")
    × ((set_pki false (update_all updates (set_pki true form_state))).form.channel_key ≡ "")
    × ((set_pki false (update_all updates (set_pki true form_state))).prev_channel_name ≡ none)
set_pki_restores_example = set_pki_restores updates form_state refl refl (refl, (refl, tt))

abbrev other_job : PublisherPeriodicJob
other_job = job_of 5 (base_payload to_number (record weather { channel_name = "Private" }))

set_pki_stale_example :
    ((set_pki false
        (handle_edit_periodic_job to_number other_job (set_pki true form_state))).form.channel_name
      ≡ "LongFast")
    × ((set_pki false
          (handle_edit_periodic_job to_number other_job (set_pki true form_state))).form.channel_key
        ≡ "")
set_pki_stale_example = set_pki_stale to_number other_job form_state refl refl

abbrev keepalive : KeepaliveForm
keepalive = record {
  enabled = true;
  payload_type = reachability;
  from_node = "!a";
  gateway_node = "";
  channel_name = "LongFast";
  channel_key = "";
  hop_limit = number_of 3;
  hop_start = number_of 3;
  interface_id = none;
  offline_after_minutes = number_of 0;
  check_interval_seconds = number_of 5;
  scope = all_nodes;
  selected_node_ids = [];
}

keepalive_update-IsRounded_example :
    IsRounded 60 60 (number_of 0) (keepalive_update keepalive).offline_after_seconds
    × IsRounded 30 1 (number_of 5) (keepalive_update keepalive).check_interval_seconds
keepalive_update-IsRounded_example = keepalive_update-IsRounded keepalive

abbrev one_shot : OneShotState
one_shot = record {
  selected_action = some text_message;
  is_configuring = true;
  toast = none;
  query = [];
  target_node = "!b";
  source_node = "!c";
  channel_name = "LongFast";
  gateway_node = "!a";
  channel_key = "";
  hop_limit = number_of 3;
  hop_start = number_of 3;
  want_ack = true;
  want_response = false;
  message_text = "Hello";
  pki_encrypted = true;
  prev_channel_name = none;
  prev_channel_key = none;
  short_name = "";
  long_name = "";
  hw_model = none;
  public_key = "";
  lat = none;
  lon = none;
  alt = none;
  telemetry_category = TelemetryCategory.device;
  telemetry_values = [];
  selected_interface_id = none;
  selected_channel = none;
}

abbrev greeting : Publish
greeting = publish_text_message (record {
  generic = record {
    from_node = "!c";
    to_node = "!b";
    channel_name = "PKI";
    gateway_node = some "!a";
    channel_key = "";
    hop_limit = number_of 3;
    hop_start = number_of 3;
    want_ack = true;
    interface_id = none;
  };
  message_text = "Hello";
  pki_encrypted = true;
})

sent : start_decision text_message one_shot ≡ send greeting
unfolding start_decision effective_channel_name effective_channel_key
sent = refl

start_decision_hides_channel_example :
    (start_decision text_message (with_channel "Private" "c2VjcmV0" one_shot) ≡ send greeting)
    × (((generic_of greeting).channel_name ≡ "PKI") × ((generic_of greeting).channel_key ≡ ""))
start_decision_hides_channel_example =
    start_decision_hides_channel text_message one_shot "Private" "c2VjcmV0" greeting refl sent

active : is_virtual_restriction_active nodes selectable ≡ true
unfolding is_virtual_restriction_active
active = refl

restrict-accepts_example :
    let candidates = source_candidates nodes selectable in
    let p = restrict_periodic nodes selectable weather in
    let r = restrict_reactive nodes selectable initial_reactive_form in
    let o = restrict_one_shot nodes selectable one_shot in
    (accepts candidates p.from_node p.gateway_node ≡ true)
    × ((accepts candidates r.from_node r.gateway_node ≡ true)
        × (accepts candidates o.source_node o.gateway_node ≡ true))
restrict-accepts_example =
    restrict-accepts nodes selectable weather initial_reactive_form one_shot active
