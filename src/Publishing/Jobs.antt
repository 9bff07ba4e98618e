-- ===== src/Publishing/Jobs.antt =====
-- PublishingActions.tsx: the form of the periodic jobs, the jobs of the API and the payload that makes one.
use stridetastic.Prelude.{ℕ, String, Bool, true, false, Option, none}
use stridetastic.Prelude.Int.{pos, int}
use stridetastic.Publishing.Json.{Number, dec, Json, text_value, Fields}

pub data PeriodicPayloadType : Type 0 where
  text position nodeinfo traceroute telemetry : PeriodicPayloadType

-- The ten values of a telemetry payload: a number, the empty text of an empty input, or whatever a
-- stored job holds.
pub record TelemetryForm : Type 0 where
  pub battery_level : Json
  pub voltage : Json
  pub uptime_seconds : Json
  pub channel_utilization : Json
  pub air_util_tx : Json
  pub temperature : Json
  pub relative_humidity : Json
  pub barometric_pressure : Json
  pub gas_resistance : Json
  pub iaq : Json

-- In a number input none is the empty text.
pub record PeriodicPayloadOptionsForm : Type 0 where
  pub message_text : String
  pub short_name : String
  pub long_name : String
  pub hw_model : Option Number
  pub public_key : String
  pub lat : Option Number
  pub lon : Option Number
  pub alt : Option Number
  pub telemetry_type : Json
  pub values : TelemetryForm
  pub want_response : Bool

pub record PeriodicForm : Type 0 where
  pub id : Option ℕ
  pub name : String
  pub description : String
  pub enabled : Bool
  pub payload_type : PeriodicPayloadType
  pub from_node : String
  pub to_node : String
  pub channel_name : String
  pub gateway_node : String
  pub channel_key : String
  pub hop_limit : Number
  pub hop_start : Number
  pub want_ack : Bool
  pub pki_encrypted : Bool
  pub period_seconds : Number
  pub interface_id : Option ℕ
  pub payload_options : PeriodicPayloadOptionsForm

pub record PublisherPeriodicJob : Type 0 where
  pub id : ℕ
  pub name : String
  pub description : Option String
  pub enabled : Bool
  pub payload_type : PeriodicPayloadType
  pub from_node : String
  pub to_node : String
  pub channel_name : String
  pub gateway_node : Option String
  pub channel_key : Option String
  pub hop_limit : Number
  pub hop_start : Number
  pub want_ack : Bool
  pub pki_encrypted : Bool
  pub period_seconds : Number
  pub interface_id : Option ℕ
  pub payload_options : Fields

pub record PeriodicPayload : Type 0 where
  pub name : String
  pub description : Option String
  pub enabled : Bool
  pub payload_type : PeriodicPayloadType
  pub from_node : String
  pub to_node : String
  pub channel_name : String
  pub gateway_node : Option String
  pub channel_key : Option String
  pub hop_limit : Number
  pub hop_start : Number
  pub want_ack : Bool
  pub pki_encrypted : Bool
  pub period_seconds : Number
  pub interface_id : Option ℕ
  pub payload_options : Fields

abbrev pub number_of : ℕ → Number
number_of n = dec (int (pos n))

abbrev pub empty_values : TelemetryForm
empty_values = record {
  battery_level = text_value "";
  voltage = text_value "";
  uptime_seconds = text_value "";
  channel_utilization = text_value "";
  air_util_tx = text_value "";
  temperature = text_value "";
  relative_humidity = text_value "";
  barometric_pressure = text_value "";
  gas_resistance = text_value "";
  iaq = text_value "";
}

-- INITIAL_PERIODIC_FORM
abbrev pub initial_periodic_form : PeriodicForm
initial_periodic_form = record {
  id = none;
  name = "";
  description = "";
  enabled = true;
  payload_type = text;
  from_node = "";
  to_node = "";
  channel_name = "";
  gateway_node = "";
  channel_key = "";
  hop_limit = number_of 3;
  hop_start = number_of 3;
  want_ack = false;
  pki_encrypted = false;
  period_seconds = number_of 300;
  interface_id = none;
  payload_options = record {
    message_text = "";
    short_name = "";
    long_name = "";
    hw_model = none;
    public_key = "";
    lat = none;
    lon = none;
    alt = none;
    telemetry_type = text_value "device";
    values = empty_values;
    want_response = false;
  };
}
