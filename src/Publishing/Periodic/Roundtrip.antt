-- ===== src/Publishing/Periodic/Roundtrip.antt =====
-- PublishingActions.tsx: a job that stores a payload opens the form that makes this payload again.
use stridetastic.Prelude.{
  trim-empty, or_else, ℕ, String, Bool, true, false, not, ◌&&◌, ◌≡◌, refl, ap, ◌∙◌, Option, none,
  some, List, [], ◌∷◌, ◌==◌, if◌then◌else◌, arith, Bool-cases, inl, inr, trim, trim_idem,
}
use stridetastic.Prelude.Int.{pos, int, leb_dec}
use stridetastic.Publishing.Json.{
  Number, nan, dec, Json, null, flag_value, number, text_value, object, Fields, property, truthy,
  or_blank, number_property,
}
use stridetastic.Publishing.Periodic.{
  coordinate, altitude_of, nullable_number, or_device, trimmed_or_none, at_least_30, named_values,
  set_value, collect_values, build_payload_options, stored_value, edit_values,
  extract_want_response, edit_options, allows_pki, edit_form, base_payload,
}
use stridetastic.Publishing.Jobs.{
  PeriodicPayloadType, text, position, nodeinfo, traceroute, telemetry, TelemetryForm,
  PeriodicPayloadOptionsForm, PeriodicForm, PublisherPeriodicJob, PeriodicPayload,
}

-- The job of a back end that stores a payload as it is sent.
abbrev pub job_of : ℕ → PeriodicPayload → PublisherPeriodicJob
job_of id payload = record {
  id = id;
  name = payload.name;
  description = payload.description;
  enabled = payload.enabled;
  payload_type = payload.payload_type;
  from_node = payload.from_node;
  to_node = payload.to_node;
  channel_name = payload.channel_name;
  gateway_node = payload.gateway_node;
  channel_key = payload.channel_key;
  hop_limit = payload.hop_limit;
  hop_start = payload.hop_start;
  want_ack = payload.want_ack;
  pki_encrypted = payload.pki_encrypted;
  period_seconds = payload.period_seconds;
  interface_id = payload.interface_id;
  payload_options = payload.payload_options;
}

module _ (to_number : String → Number) where
  -- What is sent for a value of the form.
  sent : Json → Option Json
  sent null = none
  sent (text_value s) = if s == "" then none else some (number (to_number s))
  sent (flag_value b) = some (flag_value b)
  sent (number n) = some (number n)
  sent (object props) = some (object props)

  -- The first value that is sent under a key.
  abbrev first_of : Option Json → Option Json → Option Json
  first_of none later = later
  first_of (some value) later = some value

  first_of-none : (o : Option Json) → first_of o none ≡ o
  first_of-none none = refl
  first_of-none (some value) = refl

  abbrev sent_under : String → List (String × Json) → Option Json
  sent_under key [] = none
  sent_under key ((name, value) ∷ rest) =
      if name == key then first_of (sent value) (sent_under key rest) else sent_under key rest

  property-set_value :
      (key name : String) (value : Json) (raw : Fields)
      → property key (set_value to_number name value raw)
        ≡ (if name == key then first_of (sent value) (property key raw) else property key raw)
  unfolding property set_value sent
  property-set_value key name null raw = ground arith
  property-set_value key name (text_value s) raw = ground arith
  property-set_value key name (flag_value b) raw = refl
  property-set_value key name (number n) raw = refl
  property-set_value key name (object props) raw = refl

  property-collect_values :
      (key : String) (values : List (String × Json))
      → property key (collect_values to_number values) ≡ sent_under key values
  unfolding property collect_values
  property-collect_values key [] = refl
  property-collect_values key ((name, value) ∷ rest) =
      property-set_value key name value (collect_values to_number rest)
      ∙ ap (λ o. if name == key then first_of (sent value) o else o)
          (property-collect_values key rest)

  -- A value that is read back is sent again.
  set_value-or_blank :
      (key : String) (value : Json) (raw : Fields)
      → set_value to_number key (or_blank (sent value)) raw ≡ set_value to_number key value raw
  unfolding set_value sent
  set_value-or_blank key null raw = refl
  set_value-or_blank key (text_value s) raw = elim (Bool-cases (s == "")) [
    | inl empty ↦ rw empty refl
    | inr filled ↦ rw filled refl
  ]
  set_value-or_blank key (flag_value b) raw = refl
  set_value-or_blank key (number n) raw = refl
  set_value-or_blank key (object props) raw = refl

  same_value :
      (key : String) (value : Json) (stored : Fields) (xs ys : List (String × Json))
      → property key stored ≡ sent value
      → collect_values to_number xs ≡ collect_values to_number ys
      → collect_values to_number ((key, stored_value key (some stored)) ∷ xs)
        ≡ collect_values to_number ((key, value) ∷ ys)
  unfolding collect_values stored_value
  same_value key value stored xs ys found rest =
      rw (found, rest) (set_value-or_blank key value (collect_values to_number ys))

  -- The values that a stored telemetry payload opens are the values that were sent.
  collect_values-edit_values :
      (values : TelemetryForm)
      → collect_values to_number
          (named_values (edit_values (some (collect_values to_number (named_values values)))))
        ≡ collect_values to_number (named_values values)
  unfolding edit_values
  collect_values-edit_values values =
      let stored = collect_values to_number (named_values values) in
      let found : (key : String) → property key stored ≡ sent_under key (named_values values) =
        λ key. property-collect_values key (named_values values) in
      same_value "battery_level" _ stored _ _ (found "battery_level" ∙ first_of-none _) (
        same_value "voltage" _ stored _ _ (found "voltage" ∙ first_of-none _) (
          same_value "uptime_seconds" _ stored _ _ (found "uptime_seconds" ∙ first_of-none _) (
            same_value "channel_utilization" _ stored _ _
              (found "channel_utilization" ∙ first_of-none _)
              (same_value "air_util_tx" _ stored _ _ (found "air_util_tx" ∙ first_of-none _) (
                same_value "temperature" _ stored _ _ (found "temperature" ∙ first_of-none _) (
                  same_value "relative_humidity" _ stored _ _
                    (found "relative_humidity" ∙ first_of-none _)
                    (same_value "barometric_pressure" _ stored _ _
                      (found "barometric_pressure" ∙ first_of-none _)
                      (same_value "gas_resistance" _ stored _ _
                        (found "gas_resistance" ∙ first_of-none _)
                        (same_value "iaq" _ stored [] [] (found "iaq" ∙ first_of-none _)
                          refl)))))))))

  or_device_idem : (value : Json) → or_device (or_device value) ≡ or_device value
  or_device_idem value = elim (Bool-cases (truthy value)) [
    | inl yes_value ↦ rw yes_value (rw yes_value refl)
    | inr no_value ↦ rw no_value refl
  ]

  coordinate-number_property :
      (n : Option Number)
      → coordinate (number_property to_number (some (coordinate n))) ≡ coordinate n
  coordinate-number_property none = refl
  coordinate-number_property (some nan) = refl
  coordinate-number_property (some (dec d)) = refl

  altitude_of-number_property :
      (n : Option Number)
      → altitude_of (number_property to_number (some (altitude_of n))) ≡ altitude_of n
  altitude_of-number_property none = refl
  altitude_of-number_property (some nan) = refl
  altitude_of-number_property (some (dec d)) = refl

  nullable-number_property :
      (n : Option Number)
      → nullable_number (number_property to_number (some (nullable_number n))) ≡ nullable_number n
  nullable-number_property none = refl
  nullable-number_property (some n) = refl

  -- The options of a payload open a form that makes the same options.
  pub build_payload_options-edit_options :
      (kind : PeriodicPayloadType) (options : PeriodicPayloadOptionsForm)
      → build_payload_options to_number kind
          (edit_options to_number (build_payload_options to_number kind options))
        ≡ build_payload_options to_number kind options
  unfolding build_payload_options edit_options property extract_want_response
  build_payload_options-edit_options text options = rw (trim_idem options.message_text) refl
  build_payload_options-edit_options position options =
      rw
        (
          coordinate-number_property options.lat,
          coordinate-number_property options.lon,
          altitude_of-number_property options.alt,
        )
        refl
  build_payload_options-edit_options nodeinfo options =
      rw
        (
          trim_idem options.short_name,
          trim_idem options.long_name,
          trim_idem options.public_key,
          nullable-number_property options.hw_model,
        )
        refl
  build_payload_options-edit_options telemetry options =
      rw
        (
          or_device_idem (or_device options.telemetry_type),
          or_device_idem options.telemetry_type,
          collect_values-edit_values options.values,
        )
        refl
  build_payload_options-edit_options traceroute options = refl

  at_least_30_idem : (n : Number) → at_least_30 (at_least_30 n) ≡ at_least_30 n
  at_least_30_idem nan = refl
  at_least_30_idem (dec d) = elim (Bool-cases (leb_dec (int (pos 30)) d)) [
    | inl enough ↦ rw enough (rw enough refl)
    | inr short ↦ rw short refl
  ]

  -- A trimmed text survives being stored as null.
  trimmed_or_none-stored :
      (s : String) → trimmed_or_none (or_else (trimmed_or_none s) "") ≡ trimmed_or_none s
  trimmed_or_none-stored s = elim (Bool-cases (trim s == "")) [
    | inl empty ↦ rw empty (rw trim-empty refl)
    | inr filled ↦ rw filled (rw (trim_idem s, filled) refl)
  ]

  if_same : (b : Bool) → (if b then false else false) ≡ false
  if_same true = refl
  if_same false = refl

  -- Where the form asks for PKI encryption only with a payload type that allows it: the job that stores
  -- the form's payload opens a form that makes the same payload.
  pub base_payload-edit_form :
      (id : ℕ) (form : PeriodicForm)
      → (form.pki_encrypted && not (allows_pki form.payload_type)) ≡ false
      → base_payload to_number (edit_form to_number (job_of id (base_payload to_number form)))
        ≡ base_payload to_number form
  unfolding base_payload edit_form
  base_payload-edit_form id form h = elim (Bool-cases form.pki_encrypted) [
    | inl pki ↦
        let allowed : allows_pki form.payload_type ≡ true = ground arith in
        rw
          (
            pki,
            allowed,
            trim_idem form.name,
            trimmed_or_none-stored form.description,
            trimmed_or_none-stored form.gateway_node,
            at_least_30_idem form.period_seconds,
            build_payload_options-edit_options form.payload_type form.payload_options,
          )
          refl
    | inr plain ↦
        rw
          (
            plain,
            if_same (allows_pki form.payload_type),
            trim_idem form.name,
            trimmed_or_none-stored form.description,
            trimmed_or_none-stored form.gateway_node,
            trimmed_or_none-stored form.channel_key,
            at_least_30_idem form.period_seconds,
            build_payload_options-edit_options form.payload_type form.payload_options,
          )
          refl
  ]
