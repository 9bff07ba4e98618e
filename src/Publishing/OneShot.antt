-- ===== src/Publishing/OneShot.antt =====
-- PublishingActions.tsx: the one-shot actions. What `handleStartAction` sends, and the PKI switch.
pub mod Laws
use stridetastic.Prelude.{
  ℕ, String, Bool, true, false, not, ◌&&◌, Option, none, some, List, [], ◌∷◌, ◌++◌, ◌==◌,
  if◌then◌else◌, or_else, keep_if,
}
use stridetastic.Types.{Channel}
use stridetastic.NetworkTransforms.Build.{text_or}
use stridetastic.Publishing.Json.{Number, nan, dec}
use stridetastic.Publishing.Jobs.{number_of}
use stridetastic.Publishing.Periodic.Submit.{Reply, resolved, rejected, Toast, success, error}
use stridetastic.Publishing.Params.{clear_action_params}
use stridetastic.Publishing.Actions.{
  Action, TelemetryCategory, OneShotState, GenericPayload, TextPayload, NodeInfoPayload,
  PositionPayload, TelemetryPayload, Publish, Decision, text_message, nodeinfo, position,
  telemetry_publish, reachability_test, traceroute, reactive_publish, periodic_publish,
  keepalive_service, device, environment, publish_text_message, publish_node_info, publish_position,
  publish_telemetry, publish_reachability, publish_traceroute, refuse, send, send_nothing,
}

abbrev pub is_blank_input : Option Number → Bool
is_blank_input none = true
is_blank_input (some n) = false

-- `Number('')` is 0
abbrev pub number_or_zero : Option Number → Number
number_or_zero n = or_else n (number_of 0)

-- `effectiveChannelName`
unfoldable pub effective_channel_name : OneShotState → String
effective_channel_name s = if s.pki_encrypted then "PKI" else s.channel_name

-- `effectiveChannelKey`
unfoldable pub effective_channel_key : OneShotState → String
effective_channel_key s = if s.pki_encrypted then "" else s.channel_key

-- `text || undefined`
abbrev pub or_undefined : String → Option String
or_undefined text = if text == "" then none else some text

-- The finite values that are filled in.
unfoldable pub telemetry_fields : List (String × Option Number) → List (String × Number)
telemetry_fields [] = []
telemetry_fields ((key, none) ∷ rest) = telemetry_fields rest
telemetry_fields ((key, some nan) ∷ rest) = telemetry_fields rest
telemetry_fields ((key, some (dec d)) ∷ rest) = (key, dec d) ∷ telemetry_fields rest

unfoldable pub telemetry_decision : OneShotState → List (String × Number) → Decision
telemetry_decision s [] = refuse "Please provide at least one telemetry field value to publish"
telemetry_decision s (value ∷ values) = send (
    publish_telemetry (record {
      generic = record {
        from_node = s.source_node;
        to_node = s.target_node;
        channel_name = effective_channel_name s;
        gateway_node = or_undefined s.gateway_node;
        channel_key = effective_channel_key s;
        hop_limit = s.hop_limit;
        hop_start = s.hop_start;
        want_ack = s.want_ack;
        interface_id = s.selected_interface_id;
      };
      want_response = s.want_response;
      telemetry_type = s.telemetry_category;
      telemetry_options = value ∷ values;
      pki_encrypted = s.pki_encrypted;
    }))

unfoldable pub start_decision : Action → OneShotState → Decision
start_decision text_message s = send (
    publish_text_message (record {
      generic = record {
        from_node = s.source_node;
        to_node = s.target_node;
        channel_name = effective_channel_name s;
        gateway_node = or_undefined s.gateway_node;
        channel_key = effective_channel_key s;
        hop_limit = s.hop_limit;
        hop_start = s.hop_start;
        want_ack = s.want_ack;
        interface_id = s.selected_interface_id;
      };
      message_text = s.message_text;
      pki_encrypted = s.pki_encrypted;
    }))
start_decision nodeinfo s =
    if (if is_blank_input s.hw_model
      then true
      else if s.short_name == ""
      then true
      else s.long_name == "")
    then refuse "Please fill short name, long name and hardware model"
    else send (
        publish_node_info (record {
          generic = record {
            from_node = s.source_node;
            to_node = s.target_node;
            channel_name = effective_channel_name s;
            gateway_node = or_undefined s.gateway_node;
            channel_key = effective_channel_key s;
            hop_limit = s.hop_limit;
            hop_start = s.hop_start;
            want_ack = s.want_ack;
            interface_id = s.selected_interface_id;
          };
          short_name = s.short_name;
          long_name = s.long_name;
          hw_model = number_or_zero s.hw_model;
          public_key = s.public_key;
        }))
start_decision position s =
    if (if is_blank_input s.lat then true else is_blank_input s.lon)
    then refuse "Please provide latitude and longitude"
    else send (
        publish_position (record {
          generic = record {
            from_node = s.source_node;
            to_node = s.target_node;
            channel_name = effective_channel_name s;
            gateway_node = or_undefined s.gateway_node;
            channel_key = effective_channel_key s;
            hop_limit = s.hop_limit;
            hop_start = s.hop_start;
            want_ack = s.want_ack;
            interface_id = s.selected_interface_id;
          };
          lat = number_or_zero s.lat;
          lon = number_or_zero s.lon;
          alt = number_or_zero s.alt;
          want_response = s.want_response;
          pki_encrypted = s.pki_encrypted;
        }))
start_decision telemetry_publish s = telemetry_decision s (telemetry_fields s.telemetry_values)
start_decision reachability_test s = send (
    publish_reachability (record {
      from_node = s.source_node;
      to_node = s.target_node;
      channel_name = effective_channel_name s;
      gateway_node = or_undefined s.gateway_node;
      channel_key = effective_channel_key s;
      hop_limit = s.hop_limit;
      hop_start = s.hop_start;
      want_ack = true;
      interface_id = s.selected_interface_id;
    }))
start_decision traceroute s = send (
    publish_traceroute (record {
      from_node = s.source_node;
      to_node = s.target_node;
      channel_name = effective_channel_name s;
      gateway_node = or_undefined s.gateway_node;
      channel_key = effective_channel_key s;
      hop_limit = s.hop_limit;
      hop_start = s.hop_start;
      want_ack = s.want_ack;
      interface_id = s.selected_interface_id;
    }))
start_decision reactive_publish s = send_nothing
start_decision periodic_publish s = send_nothing
start_decision keepalive_service s = send_nothing

unfoldable pub finish_action : Reply (Unit {0}) → OneShotState → OneShotState
finish_action (resolved done) s = record s {
  toast = some (record { message = "Action sent successfully"; kind = success });
  query = clear_action_params s.query;
  is_configuring = false;
  selected_action = none;
}
finish_action (rejected message) s = record s {
  toast = some (record { message = text_or message "Failed to start action"; kind = error });
}

unfoldable pub run_decision : (Publish → Reply (Unit {0})) → Decision → OneShotState → OneShotState
run_decision answer (refuse message) s = record s {
  toast = some (record { message = message; kind = error });
}
run_decision answer (send request) s = finish_action (answer request) s
run_decision answer send_nothing s = finish_action (resolved tt) s

unfoldable pub start_action :
    (Publish → Reply (Unit {0})) → Option Action → OneShotState → OneShotState
start_action answer none s = s
start_action answer (some action) s = run_decision answer (start_decision action s) s

unfoldable pub handle_start_action : (Publish → Reply (Unit {0})) → OneShotState → OneShotState
handle_start_action answer s = start_action answer s.selected_action s

abbrev pub is_reachability : Action → Bool
is_reachability reachability_test = true
is_reachability _ = false

unfoldable pub handle_action_click : Action → OneShotState → OneShotState
handle_action_click action s = record s {
  selected_action = some action;
  is_configuring = true;
  want_ack = if is_reachability action then true else s.want_ack;
}

abbrev pub is_remembered : Option String → Bool
is_remembered none = false
is_remembered (some name) = true

-- The `onChange` of the PKI switch.
unfoldable pub change_pki : Bool → OneShotState → OneShotState
change_pki true s = record s {
  pki_encrypted = true;
  prev_channel_name = some (or_else s.prev_channel_name s.channel_name);
  prev_channel_key = some (or_else s.prev_channel_key s.channel_key);
  channel_name = "PKI";
  selected_channel = none;
  channel_key = "";
}
change_pki false s = record s {
  pki_encrypted = false;
  channel_name = or_else s.prev_channel_name s.channel_name;
  selected_channel = if is_remembered s.prev_channel_name then none else s.selected_channel;
  prev_channel_name = none;
  channel_key = or_else s.prev_channel_key s.channel_key;
  prev_channel_key = none;
}
