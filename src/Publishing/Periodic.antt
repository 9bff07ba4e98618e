-- ===== src/Publishing/Periodic.antt =====
-- PublishingActions.tsx: the form of a periodic job, the payload that it makes and the form that a job
-- opens. `Submit` has the handlers that call the API.
pub mod Roundtrip
pub mod Pki
pub mod Submit
use stridetastic.Prelude.{
  ℕ, String, Bool, true, false, ◌||◌, Option, none, some, List, [], ◌∷◌, ◌==◌, if◌then◌else◌,
  or_else, trim,
}
use stridetastic.Prelude.Int.{pos, int, leb_dec}
use stridetastic.Publishing.Json.{
  Number, nan, dec, Json, null, flag_value, number, text_value, object, Fields, no_fields, field,
  property, truthy, truthy_property, text_property, object_property, or_blank, number_property,
}
use stridetastic.Publishing.Jobs.{
  PeriodicPayloadType, TelemetryForm, PeriodicPayloadOptionsForm, PeriodicForm,
  PublisherPeriodicJob, PeriodicPayload, number_of, empty_values, initial_periodic_form, text,
  position, nodeinfo, traceroute, telemetry,
}

-- `raw === '' ? null : …`, and null where the number is not finite
abbrev pub coordinate : Option Number → Json
coordinate none = null
coordinate (some nan) = null
coordinate (some (dec d)) = number (dec d)

-- `raw === '' ? 0 : Number(raw)`, and 0 where that is not finite
abbrev pub altitude_of : Option Number → Json
altitude_of none = number (number_of 0)
altitude_of (some nan) = number (number_of 0)
altitude_of (some (dec d)) = number (dec d)

-- `raw === '' ? null : Number(raw)`
abbrev pub nullable_number : Option Number → Json
nullable_number none = null
nullable_number (some n) = number n

-- `options.telemetry_type || 'device'`
abbrev pub or_device : Json → Json
or_device value = if truthy value then value else text_value "device"

-- `text.trim() || null`, and the same with `undefined`
abbrev pub trimmed_or_none : String → Option String
trimmed_or_none s = if trim s == "" then none else some (trim s)

-- `Math.max(30, period)`
abbrev pub at_least_30 : Number → Number
at_least_30 nan = nan
at_least_30 (dec d) = if leb_dec (int (pos 30)) d then dec d else number_of 30

-- `fieldNames`, with the values of the form
abbrev pub named_values : TelemetryForm → List (String × Json)
named_values values =
    ("battery_level", values.battery_level)
    ∷ ("voltage", values.voltage)
    ∷ ("uptime_seconds", values.uptime_seconds)
    ∷ ("channel_utilization", values.channel_utilization)
    ∷ ("air_util_tx", values.air_util_tx)
    ∷ ("temperature", values.temperature)
    ∷ ("relative_humidity", values.relative_humidity)
    ∷ ("barometric_pressure", values.barometric_pressure)
    ∷ ("gas_resistance", values.gas_resistance)
    ∷ ("iaq", values.iaq)
    ∷ []

-- `telemetry_options[key] ?? ''`, and '' without such an object
unfoldable pub stored_value : String → Option Fields → Json
stored_value key none = text_value ""
stored_value key (some props) = or_blank (property key props)

unfoldable pub edit_values : Option Fields → TelemetryForm
edit_values props = record {
  battery_level = stored_value "battery_level" props;
  voltage = stored_value "voltage" props;
  uptime_seconds = stored_value "uptime_seconds" props;
  channel_utilization = stored_value "channel_utilization" props;
  air_util_tx = stored_value "air_util_tx" props;
  temperature = stored_value "temperature" props;
  relative_humidity = stored_value "relative_humidity" props;
  barometric_pressure = stored_value "barometric_pressure" props;
  gas_resistance = stored_value "gas_resistance" props;
  iaq = stored_value "iaq" props;
}

-- `extractedWantResponse`
unfoldable pub extract_want_response : Option Json → Option Fields → Bool
extract_want_response (some value) props = truthy value
extract_want_response none none = false
extract_want_response none (some props) = truthy_property (property "want_response" props)

-- The payload types whose jobs may be PKI encrypted.
abbrev pub allows_pki : PeriodicPayloadType → Bool
allows_pki text = true
allows_pki position = true
allows_pki telemetry = true
allows_pki nodeinfo = false
allows_pki traceroute = false

module _ (to_number : String → Number) where
  -- The loop over `fieldNames`: null and the empty text are left out, a text becomes a number.
  unfoldable pub set_value : String → Json → Fields → Fields
  set_value key null raw = raw
  set_value key (text_value s) raw = if s == "" then raw else field key (number (to_number s)) raw
  set_value key (flag_value b) raw = field key (flag_value b) raw
  set_value key (number n) raw = field key (number n) raw
  set_value key (object props) raw = field key (object props) raw

  unfoldable pub collect_values : List (String × Json) → Fields
  collect_values [] = no_fields
  collect_values ((key, value) ∷ rest) = set_value key value (collect_values rest)

  unfoldable pub build_payload_options : PeriodicPayloadType → PeriodicPayloadOptionsForm → Fields
  build_payload_options text options =
      field "message_text" (text_value (trim options.message_text)) no_fields
  build_payload_options position options = field "lat" (coordinate options.lat) (
      field "lon" (coordinate options.lon) (
        field "alt" (altitude_of options.alt)
          (field "want_response" (flag_value options.want_response) no_fields)))
  build_payload_options nodeinfo options =
      field "short_name" (text_value (trim options.short_name)) (
        field "long_name" (text_value (trim options.long_name)) (
          field "hw_model" (nullable_number options.hw_model)
            (field "public_key" (text_value (trim options.public_key)) no_fields)))
  build_payload_options telemetry options =
      field "telemetry_type" (or_device options.telemetry_type) (
        field "telemetry_options" (object (collect_values (named_values options.values)))
          (field "want_response" (flag_value options.want_response) no_fields))
  build_payload_options traceroute options = no_fields

  unfoldable pub edit_options : Fields → PeriodicPayloadOptionsForm
  edit_options opts =
      let stored = object_property (property "telemetry_options" opts) in
      record {
        message_text = text_property (property "message_text" opts);
        short_name = text_property (property "short_name" opts);
        long_name = text_property (property "long_name" opts);
        hw_model = number_property to_number (property "hw_model" opts);
        public_key = text_property (property "public_key" opts);
        lat = number_property to_number (property "lat" opts);
        lon = number_property to_number (property "lon" opts);
        alt = number_property to_number (property "alt" opts);
        telemetry_type = or_device (or_else (property "telemetry_type" opts) null);
        values = edit_values stored;
        want_response = extract_want_response (property "want_response" opts) stored;
      }

  -- The form that `handleEditPeriodicJob` sets.
  unfoldable pub edit_form : PublisherPeriodicJob → PeriodicForm
  edit_form job = record {
    id = some job.id;
    name = job.name;
    description = or_else job.description "";
    enabled = job.enabled;
    payload_type = job.payload_type;
    from_node = job.from_node;
    to_node = job.to_node;
    channel_name = job.channel_name;
    gateway_node = or_else job.gateway_node "";
    channel_key = or_else job.channel_key "";
    hop_limit = job.hop_limit;
    hop_start = job.hop_start;
    want_ack = job.want_ack;
    pki_encrypted = if allows_pki job.payload_type then job.pki_encrypted else false;
    period_seconds = job.period_seconds;
    interface_id = job.interface_id;
    payload_options = edit_options job.payload_options;
  }

  -- `basePayload`
  unfoldable pub base_payload : PeriodicForm → PeriodicPayload
  base_payload form = record {
    name = trim form.name;
    description = trimmed_or_none form.description;
    enabled = form.enabled;
    payload_type = form.payload_type;
    from_node = form.from_node;
    to_node = form.to_node;
    channel_name = if form.pki_encrypted then "PKI" else form.channel_name;
    gateway_node = trimmed_or_none form.gateway_node;
    channel_key = if form.pki_encrypted then some "" else trimmed_or_none form.channel_key;
    hop_limit = form.hop_limit;
    hop_start = form.hop_start;
    want_ack = form.want_ack;
    pki_encrypted = form.pki_encrypted;
    period_seconds = at_least_30 form.period_seconds;
    interface_id = form.interface_id;
    payload_options = build_payload_options form.payload_type form.payload_options;
  }
