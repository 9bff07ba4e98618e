-- ===== src/Publishing/Periodic/Submit.antt =====
-- PublishingActions.tsx: the handlers of the periodic jobs. What the API answers is an argument; none
-- of the handlers but `handle_periodic_submit` checks anything first.
pub mod Laws
use stridetastic.Prelude.{
  ℕ, String, Bool, true, false, not, ◌&&◌, Option, none, some, List, [], ◌∷◌, ◌==◌, if◌then◌else◌,
  any, length, ltb, eqb, or_else, trim,
}
use stridetastic.Types.{Node}
use stridetastic.NetworkTransforms.Build.{text_or}
use stridetastic.Publishing.Json.{Number, Json, null, Fields, property, text_property, text_value}
use stridetastic.Publishing.Periodic.{build_payload_options, base_payload}
use stridetastic.Publishing.Jobs.{
  PeriodicPayloadType, text, position, nodeinfo, traceroute, telemetry, PeriodicForm,
  PublisherPeriodicJob, PeriodicPayload,
}
use stridetastic.Publishing.Periodic.Pki.{
  FormState, update_periodic_form, set_enabled, reset_periodic_form, handle_edit_periodic_job,
}

-- A rejected request carries the message of the response, if there is one.
pub data Reply (A : Type 0) : Type 0 where
  resolved : A → Reply A
  rejected : Option String → Reply A

pub data ToastType : Type 0 where
  success error : ToastType

pub record Toast : Type 0 where
  pub message : String
  pub kind : ToastType

pub record PeriodicState : Type 0 where
  pub form_state : FormState
  pub jobs : List PublisherPeriodicJob
  pub loading : Bool
  pub saving : Bool
  pub deleting_id : Option ℕ
  pub toggling_id : Option ℕ
  pub toast : Option Toast

unfoldable pub show_toast : String → ToastType → PeriodicState → PeriodicState
show_toast message kind s = record s { toast = some (record { message = message; kind = kind }) }

-- `selectableNodes.length > 0 && selectableNodes.length < nodes.length`
unfoldable pub is_virtual_restriction_active : List Node → List Node → Bool
is_virtual_restriction_active nodes selectable =
    ltb 0 (length selectable) && ltb (length selectable) (length nodes)

-- `list.some((node) => node.node_id === id)`
unfoldable pub has_node_id : List Node → String → Bool
has_node_id list id = any (λ node. node.node_id == id) list

unfoldable pub source_candidates : List Node → List Node → List Node
source_candidates nodes selectable =
    if is_virtual_restriction_active nodes selectable then selectable else nodes

-- `value == null`
abbrev pub is_nullish : Option Json → Bool
is_nullish none = true
is_nullish (some null) = true
is_nullish (some value) = false

-- `!value`, for a value that is a text
abbrev pub is_blank : Option Json → Bool
is_blank value = text_property value == ""

-- One guard of the handler: its message, unless it passes.
abbrev pub require : Bool → String → Option String → Option String
require passes message rest = if passes then rest else some message

-- The guards on the options of the payload.
unfoldable pub options_refusal : PeriodicPayloadType → Fields → Option String
options_refusal text opts =
    require (not (trim (text_property (property "message_text" opts)) == ""))
      "Message text is required for text payloads." none
options_refusal position opts =
    require (not (is_nullish (property "lat" opts)) && not (is_nullish (property "lon" opts)))
      "Latitude and longitude are required for position payloads." none
options_refusal nodeinfo opts =
    require
      (not (is_blank (property "short_name" opts))
        && (not (is_blank (property "long_name" opts))
            && (not (is_nullish (property "hw_model" opts))
                && not (is_blank (property "public_key" opts)))))
      "Node info payload requires short name, long name, hardware model, and public key." none
options_refusal traceroute opts = none
options_refusal telemetry opts = none

-- The list of jobs is fetched again; it stays where the request is rejected.
unfoldable pub fetch_periodic_jobs :
    Reply (List PublisherPeriodicJob) → PeriodicState → PeriodicState
fetch_periodic_jobs (resolved jobs) s = record s { jobs = jobs; loading = false }
fetch_periodic_jobs (rejected message) s =
    show_toast (text_or message "Failed to load periodic jobs") error (record s { loading = false })

-- `if (periodicForm.id)`: the identifier 0 is none.
abbrev pub truthy_id : Option ℕ → Option ℕ
truthy_id none = none
truthy_id (some id) = if eqb id 0 then none else some id

abbrev pub saved_message : Option ℕ → String
saved_message none = "Periodic job created"
saved_message (some id) = "Periodic job updated"

module _ (to_number : String → Number) where
  -- The first guard that fails, in the order of the handler.
  unfoldable pub submit_refusal : List Node → List Node → PeriodicForm → Option String
  submit_refusal nodes selectable form =
      let candidates = source_candidates nodes selectable in
      let opts = build_payload_options to_number form.payload_type form.payload_options in
      require (not (trim form.name == "")) "Please provide a job name." (
        require
          (not (form.from_node == "")
            && (not (form.to_node == "") && not (form.channel_name == "")))
          "Source node, target node, and channel are required."
          (require (has_node_id candidates form.from_node)
            "Please choose a valid source node from the list."
            (require (has_node_id nodes form.to_node)
              "Please choose a valid target node from the list."
              (require
                (if form.gateway_node == "" then true else has_node_id candidates form.gateway_node)
                "Select a valid gateway node or leave blank to auto select."
                (options_refusal form.payload_type opts)))))

  -- After the request that saves the job: the form opens the saved job.
  unfoldable pub after_save :
      Option ℕ
      → Reply (List PublisherPeriodicJob)
      → Reply PublisherPeriodicJob
      → PeriodicState
      → PeriodicState
  after_save id listed (resolved job) s =
      let shown = show_toast (saved_message id) success s in
      let opened = record shown {
        form_state = handle_edit_periodic_job to_number job s.form_state;
      } in
      record (fetch_periodic_jobs listed opened) { saving = false }
  after_save id listed (rejected message) s =
      record (show_toast (text_or message "Failed to save periodic job") error s) { saving = false }

  module _ (save : Option ℕ → PeriodicPayload → Reply PublisherPeriodicJob)
      (listed : Reply (List PublisherPeriodicJob)) where
    unfoldable pub submit_checked : Option String → PeriodicState → PeriodicState
    submit_checked (some message) s = show_toast message error s
    submit_checked none s =
        let id = truthy_id s.form_state.form.id in
        after_save id listed (save id (base_payload to_number s.form_state.form))
          (record s { saving = true })

    unfoldable pub handle_periodic_submit : List Node → List Node → PeriodicState → PeriodicState
    handle_periodic_submit nodes selectable s =
        if s.saving then s else submit_checked (submit_refusal nodes selectable s.form_state.form) s

module _ (listed : Reply (List PublisherPeriodicJob)) where
  -- `periodicForm.id === id`
  abbrev pub is_open : ℕ → PeriodicState → Bool
  is_open id s = elim s.form_state.form.id [ none ↦ false | some open_id ↦ eqb open_id id ]

  unfoldable pub after_delete : ℕ → Reply (Unit {0}) → PeriodicState → PeriodicState
  after_delete id (resolved done) s =
      let shown = show_toast "Periodic job deleted" success s in
      let closed = record shown {
        form_state = if is_open id s then reset_periodic_form s.form_state else s.form_state;
      } in
      record (fetch_periodic_jobs listed closed) { deleting_id = none }
  after_delete id (rejected message) s =
      record (show_toast (text_or message "Failed to delete periodic job") error s) {
        deleting_id = none;
      }

  unfoldable pub handle_periodic_delete : ℕ → Reply (Unit {0}) → PeriodicState → PeriodicState
  handle_periodic_delete id deleted s = after_delete id deleted (record s { deleting_id = some id })

  unfoldable pub after_toggle :
      PublisherPeriodicJob → Reply (Unit {0}) → PeriodicState → PeriodicState
  after_toggle job (resolved done) s =
      let shown =
        show_toast (if not job.enabled then "Job enabled" else "Job disabled") success s in
      let toggled = record shown {
        form_state =
            if is_open job.id s
            then update_periodic_form (set_enabled (not job.enabled)) s.form_state
            else s.form_state;
      } in
      record (fetch_periodic_jobs listed toggled) { toggling_id = none }
  after_toggle job (rejected message) s =
      record (show_toast (text_or message "Failed to update job state") error s) {
        toggling_id = none;
      }

  unfoldable pub handle_periodic_toggle :
      PublisherPeriodicJob → Reply (Unit {0}) → PeriodicState → PeriodicState
  handle_periodic_toggle job toggled s =
      after_toggle job toggled (record s { toggling_id = some job.id })
