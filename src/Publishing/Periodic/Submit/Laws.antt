-- ===== src/Publishing/Periodic/Submit/Laws.antt =====
-- PublishingActions.tsx, handlePeriodicSubmit: what is sent, and what is told.
use stridetastic.Prelude.{
  if_false, ℕ, String, Bool, true, false, not, ◌&&◌, ◌≡◌, ◌⊎◌, refl, Option, none, some, is_some,
  List, ◌==◌, if◌then◌else◌, arith, Option-cases, inl, inr, trim, trim_idem,
}
use stridetastic.Types.{Node}
use stridetastic.Publishing.Json.{Number, dec, nan, Json, Fields, property, number}
use stridetastic.Publishing.Periodic.{
  build_payload_options, base_payload, coordinate, nullable_number,
}
use stridetastic.Publishing.Jobs.{
  PeriodicPayloadType, text, position, nodeinfo, traceroute, telemetry, PeriodicForm,
  PeriodicPayloadOptionsForm, PublisherPeriodicJob, PeriodicPayload,
}
use stridetastic.Publishing.Periodic.Submit.{
  Reply, resolved, rejected, PeriodicState, show_toast, source_candidates, has_node_id, is_nullish,
  is_blank, require, options_refusal, fetch_periodic_jobs, submit_refusal, after_save,
  submit_checked, handle_periodic_submit,
}

abbrev pub is_number : Option Json → Bool
is_number (some (number n)) = true
is_number _ = false

-- What the options of a payload have to hold.
abbrev pub has_required : PeriodicPayloadType → Fields → Bool
has_required text opts = not (is_blank (property "message_text" opts))
has_required position opts = is_number (property "lat" opts) && is_number (property "lon" opts)
has_required nodeinfo opts =
    not (is_blank (property "short_name" opts))
    && (not (is_blank (property "long_name" opts))
        && (is_number (property "hw_model" opts) && not (is_blank (property "public_key" opts))))
has_required traceroute opts = true
has_required telemetry opts = true

-- A payload with a name, known nodes, a channel and the options of its type.
pub record IsComplete (candidates nodes : List Node) (payload : PeriodicPayload) : Type 0 where
  pub named : (payload.name == "") ≡ false
  pub source : has_node_id candidates payload.from_node ≡ true
  pub target : has_node_id nodes payload.to_node ≡ true
  pub required : has_required payload.payload_type payload.payload_options ≡ true

require-none :
    (passes : Bool) (message : String) (rest : Option String)
    → require passes message rest ≡ none
    → (passes ≡ true) × (rest ≡ none)
require-none true message rest h = (refl, h)
require-none false message rest h = cc

not-nullish-coordinate :
    (n : Option Number) → not (is_nullish (some (coordinate n))) ≡ is_number (some (coordinate n))
not-nullish-coordinate none = refl
not-nullish-coordinate (some nan) = refl
not-nullish-coordinate (some (dec d)) = refl

not-nullish-number :
    (n : Option Number)
    → not (is_nullish (some (nullable_number n))) ≡ is_number (some (nullable_number n))
not-nullish-number none = refl
not-nullish-number (some n) = refl

module _ (to_number : String → Number) where
  options_refusal-none :
      (kind : PeriodicPayloadType) (options : PeriodicPayloadOptionsForm)
      → options_refusal kind (build_payload_options to_number kind options) ≡ none
      → has_required kind (build_payload_options to_number kind options) ≡ true
  unfolding options_refusal build_payload_options property
  options_refusal-none text options h =
      rw (trim_idem options.message_text) at
        (require-none (not (trim (trim options.message_text) == "")) _ none h).0
  options_refusal-none position options h =
      rw (not-nullish-coordinate options.lat, not-nullish-coordinate options.lon) at
        (require-none
          (not (is_nullish (some (coordinate options.lat)))
            && not (is_nullish (some (coordinate options.lon))))
          _ none h).0
  options_refusal-none nodeinfo options h =
      rw (not-nullish-number options.hw_model) at
        (require-none
          (not (trim options.short_name == "")
            && (not (trim options.long_name == "")
                && (not (is_nullish (some (nullable_number options.hw_model)))
                    && not (trim options.public_key == ""))))
          _ none h).0
  options_refusal-none traceroute options h = refl
  options_refusal-none telemetry options h = refl

  submit_refusal-none :
      (nodes selectable : List Node) (form : PeriodicForm)
      → submit_refusal to_number nodes selectable form ≡ none
      → IsComplete (source_candidates nodes selectable) nodes (base_payload to_number form)
  unfolding submit_refusal base_payload
  submit_refusal-none nodes selectable form h =
      let candidates = source_candidates nodes selectable in
      let named = require-none (not (trim form.name == "")) _ _ h in
      let ends =
        require-none
          (not (form.from_node == "")
            && (not (form.to_node == "") && not (form.channel_name == "")))
          _ _ named.1 in
      let source = require-none (has_node_id candidates form.from_node) _ _ ends.1 in
      let target = require-none (has_node_id nodes form.to_node) _ _ source.1 in
      let gateway =
        require-none
          (if form.gateway_node == "" then true else has_node_id candidates form.gateway_node) _ _
          target.1 in
      record {
        named = ground (arith, named.0);
        source = source.0;
        target = target.0;
        required = options_refusal-none form.payload_type form.payload_options gateway.1;
      }

  -- Either the form's payload is complete (it has a name, a source among the candidates, a known target
  -- and the options of its type), or submitting sends nothing: the result is the same for any two
  -- answers of the API.
  pub handle_periodic_submit-IsComplete :
      (nodes selectable : List Node) (s : PeriodicState)
      (save other_save : Option ℕ → PeriodicPayload → Reply PublisherPeriodicJob)
      (listed other_listed : Reply (List PublisherPeriodicJob))
      → IsComplete
          (source_candidates nodes selectable)
          nodes
          (base_payload to_number s.form_state.form)
        ⊎ (handle_periodic_submit to_number save listed nodes selectable s
            ≡ handle_periodic_submit to_number other_save other_listed nodes selectable s)
  unfolding handle_periodic_submit submit_checked
  handle_periodic_submit-IsComplete nodes selectable s save other_save listed other_listed =
      elim (Option-cases (submit_refusal to_number nodes selectable s.form_state.form)) [
        | inl checked ↦ inl (submit_refusal-none nodes selectable s.form_state.form checked)
        | inr (message, e) ↦ inr (rw e refl)
      ]

  fetch_periodic_jobs-told :
      (listed : Reply (List PublisherPeriodicJob)) (s : PeriodicState)
      → is_some s.toast ≡ true
      → is_some (fetch_periodic_jobs listed s).toast ≡ true
  unfolding fetch_periodic_jobs show_toast
  fetch_periodic_jobs-told (resolved jobs) s h = h
  fetch_periodic_jobs-told (rejected message) s h = refl

  after_save-told :
      (id : Option ℕ) (listed : Reply (List PublisherPeriodicJob))
      (reply : Reply PublisherPeriodicJob) (s : PeriodicState)
      → ((after_save to_number id listed reply s).saving ≡ false)
        × (is_some (after_save to_number id listed reply s).toast ≡ true)
  unfolding after_save show_toast
  after_save-told id listed (resolved job) s = (refl, fetch_periodic_jobs-told listed _ refl)
  after_save-told id listed (rejected message) s = (refl, refl)

  -- Submitted while nothing is being saved, the form ends with nothing being saved and with a message,
  -- whatever the API answers.
  pub handle_periodic_submit_told :
      (nodes selectable : List Node) (s : PeriodicState)
      (save : Option ℕ → PeriodicPayload → Reply PublisherPeriodicJob)
      (listed : Reply (List PublisherPeriodicJob))
      → s.saving ≡ false
      → ((handle_periodic_submit to_number save listed nodes selectable s).saving ≡ false)
        × (is_some (handle_periodic_submit to_number save listed nodes selectable s).toast ≡ true)
  unfolding handle_periodic_submit submit_checked show_toast
  handle_periodic_submit_told nodes selectable s save listed idle =
      rw (if_false s.saving s _ idle)
        (told (submit_refusal to_number nodes selectable s.form_state.form))
    where
      told :
          (refusal : Option String)
          → ((submit_checked to_number save listed refusal s).saving ≡ false)
            × (is_some (submit_checked to_number save listed refusal s).toast ≡ true)
      told none = after_save-told _ listed _ _
      told (some message) = (idle, refl)
