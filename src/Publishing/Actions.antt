-- ===== src/Publishing/Actions.antt =====
-- PublishingActions.tsx: the one-shot actions, the state of their form, and the requests they send.
use stridetastic.Prelude.{ℕ, String, Bool, Option, List}
use stridetastic.Types.{Channel}
use stridetastic.Publishing.Json.{Number}
use stridetastic.Publishing.Periodic.Submit.{Toast}

pub data Action : Type 0 where
  text_message nodeinfo position telemetry_publish reachability_test traceroute : Action
  reactive_publish periodic_publish keepalive_service : Action

pub data TelemetryCategory : Type 0 where
  device environment : TelemetryCategory

-- In a number input none is the empty text. The query is that of the page's URL.
pub record OneShotState : Type 0 where
  pub selected_action : Option Action
  pub is_configuring : Bool
  pub toast : Option Toast
  pub query : List (String × String)
  pub target_node : String
  pub source_node : String
  pub channel_name : String
  pub gateway_node : String
  pub channel_key : String
  pub hop_limit : Number
  pub hop_start : Number
  pub want_ack : Bool
  pub want_response : Bool
  pub message_text : String
  pub pki_encrypted : Bool
  pub prev_channel_name : Option String
  pub prev_channel_key : Option String
  pub short_name : String
  pub long_name : String
  pub hw_model : Option Number
  pub public_key : String
  pub lat : Option Number
  pub lon : Option Number
  pub alt : Option Number
  pub telemetry_category : TelemetryCategory
  pub telemetry_values : List (String × Option Number)
  pub selected_interface_id : Option ℕ
  pub selected_channel : Option Channel

-- PublishGenericPayload and the interface
pub record GenericPayload : Type 0 where
  pub from_node : String
  pub to_node : String
  pub channel_name : String
  pub gateway_node : Option String
  pub channel_key : String
  pub hop_limit : Number
  pub hop_start : Number
  pub want_ack : Bool
  pub interface_id : Option ℕ

pub record TextPayload : Type 0 where
  pub generic : GenericPayload
  pub message_text : String
  pub pki_encrypted : Bool

pub record NodeInfoPayload : Type 0 where
  pub generic : GenericPayload
  pub short_name : String
  pub long_name : String
  pub hw_model : Number
  pub public_key : String

pub record PositionPayload : Type 0 where
  pub generic : GenericPayload
  pub lat : Number
  pub lon : Number
  pub alt : Number
  pub want_response : Bool
  pub pki_encrypted : Bool

pub record TelemetryPayload : Type 0 where
  pub generic : GenericPayload
  pub want_response : Bool
  pub telemetry_type : TelemetryCategory
  pub telemetry_options : List (String × Number)
  pub pki_encrypted : Bool

-- The request of an action.
pub data Publish : Type 0 where
  publish_text_message : TextPayload → Publish
  publish_node_info : NodeInfoPayload → Publish
  publish_position : PositionPayload → Publish
  publish_telemetry : TelemetryPayload → Publish
  publish_reachability : GenericPayload → Publish
  publish_traceroute : GenericPayload → Publish

-- What `handleStartAction` decides: a message, a request, or success without a request.
pub data Decision : Type 0 where
  refuse : String → Decision
  send : Publish → Decision
  send_nothing : Decision
