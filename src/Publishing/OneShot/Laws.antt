-- ===== src/Publishing/OneShot/Laws.antt =====
-- PublishingActions.tsx, handleStartAction: what every request of a one-shot action carries.
use stridetastic.Prelude.{
  String, true, ◌||◌, ◌≡◌, refl, sym, ap, ◌∙◌, none, some, List, [], ◌∷◌, ◌==◌, if◌then◌else◌,
  Bool-cases, inl, inr,
}
use stridetastic.Publishing.Json.{Number}
use stridetastic.Publishing.OneShot.{
  is_blank_input, effective_channel_name, effective_channel_key, telemetry_fields,
  telemetry_decision, start_decision, is_reachability,
}
use stridetastic.Publishing.Actions.{
  Action, text_message, nodeinfo, position, telemetry_publish, reachability_test, traceroute,
  reactive_publish, periodic_publish, keepalive_service, OneShotState, GenericPayload, Publish,
  publish_text_message, publish_node_info, publish_position, publish_telemetry,
  publish_reachability, publish_traceroute, Decision, refuse, send, send_nothing,
}

abbrev pub generic_of : Publish → GenericPayload
generic_of (publish_text_message p) = p.generic
generic_of (publish_node_info p) = p.generic
generic_of (publish_position p) = p.generic
generic_of (publish_telemetry p) = p.generic
generic_of (publish_reachability p) = p
generic_of (publish_traceroute p) = p

-- The request of a decision.
abbrev generic_sent : GenericPayload → Decision → GenericPayload
generic_sent fallback (refuse message) = fallback
generic_sent fallback (send request) = generic_of request
generic_sent fallback send_nothing = fallback

-- What every request of the action carries.
abbrev pub expected : Action → OneShotState → GenericPayload
expected action s = record {
  from_node = s.source_node;
  to_node = s.target_node;
  channel_name = if s.pki_encrypted then "PKI" else s.channel_name;
  gateway_node = if s.gateway_node == "" then none else some s.gateway_node;
  channel_key = if s.pki_encrypted then "" else s.channel_key;
  hop_limit = s.hop_limit;
  hop_start = s.hop_start;
  want_ack = is_reachability action || s.want_ack;
  interface_id = s.selected_interface_id;
}

generic_sent-telemetry_decision :
    (s : OneShotState) (values : List (String × Number))
    → generic_sent (expected telemetry_publish s) (telemetry_decision s values)
      ≡ expected telemetry_publish s
unfolding telemetry_decision effective_channel_name effective_channel_key
generic_sent-telemetry_decision s [] = refl
generic_sent-telemetry_decision s (value ∷ values) = refl

generic_sent-start_decision :
    (action : Action) (s : OneShotState)
    → generic_sent (expected action s) (start_decision action s) ≡ expected action s
unfolding start_decision telemetry_decision effective_channel_name effective_channel_key
generic_sent-start_decision text_message s = refl
generic_sent-start_decision nodeinfo s =
    elim (Bool-cases (
      if is_blank_input s.hw_model
      then true
      else if s.short_name == ""
      then true
      else s.long_name == "")) [ inl blank ↦ rw blank refl | inr filled ↦ rw filled refl ]
generic_sent-start_decision position s =
    elim (Bool-cases (if is_blank_input s.lat then true else is_blank_input s.lon)) [
      | inl blank ↦ rw blank refl
      | inr filled ↦ rw filled refl
    ]
generic_sent-start_decision telemetry_publish s =
    generic_sent-telemetry_decision s (telemetry_fields s.telemetry_values)
generic_sent-start_decision reachability_test s = refl
generic_sent-start_decision traceroute s = refl
generic_sent-start_decision reactive_publish s = refl
generic_sent-start_decision periodic_publish s = refl
generic_sent-start_decision keepalive_service s = refl

-- Whatever the action, its request goes from the source to the target over the chosen channel (with PKI
-- over the channel PKI without a key), gateway and interface; a reachability test always asks for an
-- acknowledgement, any other action if the user does.
pub start_decision_sends :
    (action : Action) (s : OneShotState) (request : Publish)
    → start_decision action s ≡ send request
    → generic_of request ≡ expected action s
start_decision_sends action s request e =
    ap (generic_sent (expected action s)) (sym e) ∙ generic_sent-start_decision action s

-- The form with another channel chosen.
abbrev pub with_channel : String → String → OneShotState → OneShotState
with_channel name key s = record s { channel_name = name; channel_key = key }

telemetry_decision-with_channel :
    (name key : String) (s : OneShotState) (values : List (String × Number))
    → s.pki_encrypted ≡ true
    → telemetry_decision (with_channel name key s) values ≡ telemetry_decision s values
unfolding telemetry_decision effective_channel_name effective_channel_key
telemetry_decision-with_channel name key s [] pki = refl
telemetry_decision-with_channel name key s (value ∷ values) pki = rw pki refl

start_decision-with_channel :
    (action : Action) (name key : String) (s : OneShotState)
    → s.pki_encrypted ≡ true
    → start_decision action (with_channel name key s) ≡ start_decision action s
unfolding start_decision effective_channel_name effective_channel_key
start_decision-with_channel text_message name key s pki = rw pki refl
start_decision-with_channel nodeinfo name key s pki = rw pki refl
start_decision-with_channel position name key s pki = rw pki refl
start_decision-with_channel telemetry_publish name key s pki =
    telemetry_decision-with_channel name key s (telemetry_fields s.telemetry_values) pki
start_decision-with_channel reachability_test name key s pki = rw pki refl
start_decision-with_channel traceroute name key s pki = rw pki refl
start_decision-with_channel reactive_publish name key s pki = refl
start_decision-with_channel periodic_publish name key s pki = refl
start_decision-with_channel keepalive_service name key s pki = refl

-- With PKI on, whatever request an action sends, it sends the same for every channel and key that the form
-- holds; the request names the channel PKI and carries no key.
pub start_decision_hides_channel :
    (action : Action) (s : OneShotState) (name key : String) (request : Publish)
    → s.pki_encrypted ≡ true
    → start_decision action s ≡ send request
    → (start_decision action (with_channel name key s) ≡ send request)
      × (((generic_of request).channel_name ≡ "PKI") × ((generic_of request).channel_key ≡ ""))
start_decision_hides_channel action s name key request pki e =
    let sends = start_decision_sends action s request e in
    (
      start_decision-with_channel action name key s pki ∙ e,
      (
        ap (λ g. g.channel_name) sends ∙ ap (λ b. if b then "PKI" else s.channel_name) pki,
        ap (λ g. g.channel_key) sends ∙ ap (λ b. if b then "" else s.channel_key) pki,
      ),
    )
