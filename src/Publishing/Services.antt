-- ===== src/Publishing/Services.antt =====
-- PublishingActions.tsx: the form of the reactive publication, and what it shares with the keepalive service.
pub mod Laws
use stridetastic.Prelude.{
  ℕ, ◌+◌, ◌*◌, ◌/◌, suc, String, Bool, true, false, not, ◌&&◌, Option, none, some, List, [], ◌∷◌,
  ◌++◌, ◌==◌, if◌then◌else◌, any, keep_if, contains, leb, eqb, or_else,
}
use stridetastic.Prelude.Int.{ℤ, pos, negsuc, Decimal, int, leb_dec}
use stridetastic.Types.{Node}
use stridetastic.NetworkTransforms.Build.{text_or}
use stridetastic.Publishing.Json.{Number, nan, dec}
use stridetastic.Publishing.Jobs.{PeriodicForm, number_of}
use stridetastic.Publishing.Periodic.Submit.{
  Reply, resolved, rejected, Toast, success, error, is_virtual_restriction_active, has_node_id,
}
use stridetastic.Publishing.Actions.{OneShotState}

-- `value || null`
abbrev pub or_null : String → Option String
or_null s = if s == "" then none else some s

pub record ReactiveForm : Type 0 where
  pub enabled : Bool
  pub from_node : String
  pub gateway_node : String
  pub channel_key : String
  pub hop_limit : Number
  pub hop_start : Number
  pub want_ack : Bool
  pub listen_interface_ids : List ℕ
  pub max_tries : Number
  pub trigger_ports : List String

abbrev pub initial_trigger_ports : List String
initial_trigger_ports = "NODEINFO_APP" ∷ "POSITION_APP" ∷ []

abbrev pub initial_reactive_form : ReactiveForm
initial_reactive_form = record {
  enabled = false;
  from_node = "";
  gateway_node = "";
  channel_key = "";
  hop_limit = number_of 3;
  hop_start = number_of 3;
  want_ack = false;
  listen_interface_ids = [];
  max_tries = number_of 0;
  trigger_ports = initial_trigger_ports;
}

-- What the server tells of the service, of which the form reads these fields; the list of interfaces is
-- always there, by its type.
pub record PublisherReactiveStatus : Type 0 where
  pub enabled : Bool
  pub from_node : Option String
  pub gateway_node : Option String
  pub channel_key : Option String
  pub hop_limit : Option Number
  pub hop_start : Option Number
  pub want_ack : Option Bool
  pub max_tries : Number
  pub trigger_ports : Option (List String)
  pub listen_interface_ids : List ℕ

pub record ReactiveUpdate : Type 0 where
  pub enabled : Bool
  pub from_node : Option String
  pub gateway_node : Option String
  pub channel_key : Option String
  pub hop_limit : Option Decimal
  pub hop_start : Option Decimal
  pub want_ack : Bool
  pub max_tries : Number
  pub trigger_ports : List String
  pub listen_interface_ids : List ℕ

-- `Number.isFinite(n) ? n : null`
abbrev pub finite : Number → Option Decimal
finite nan = none
finite (dec d) = some d

-- `Math.max(0, n)`
abbrev pub at_least_0 : Number → Number
at_least_0 nan = nan
at_least_0 (dec d) = if leb_dec (int (pos 0)) d then dec d else number_of 0

unfoldable pub reactive_update : ReactiveForm → ReactiveUpdate
reactive_update form = record {
  enabled = form.enabled;
  from_node = or_null form.from_node;
  gateway_node = or_null form.gateway_node;
  channel_key = or_null form.channel_key;
  hop_limit = finite form.hop_limit;
  hop_start = finite form.hop_start;
  want_ack = form.want_ack;
  max_tries = at_least_0 form.max_tries;
  trigger_ports = form.trigger_ports;
  listen_interface_ids = form.listen_interface_ids;
}

-- The ports of the service, or the initial ones if it has none.
abbrev pub ports_or_initial : Option (List String) → List String
ports_or_initial none = initial_trigger_ports
ports_or_initial (some []) = initial_trigger_ports
ports_or_initial (some (port ∷ ports)) = port ∷ ports

unfoldable pub reactive_form_of : PublisherReactiveStatus → ReactiveForm
reactive_form_of status = record {
  enabled = status.enabled;
  from_node = or_else status.from_node "";
  gateway_node = or_else status.gateway_node "";
  channel_key = or_else status.channel_key "";
  hop_limit = or_else status.hop_limit (number_of 3);
  hop_start = or_else status.hop_start (number_of 3);
  want_ack = or_else status.want_ack false;
  listen_interface_ids = status.listen_interface_ids;
  max_tries = status.max_tries;
  trigger_ports = ports_or_initial status.trigger_ports;
}

-- A form, the last status of its service, and the flag of its saving.
pub record ServiceState (F S : Type 0) : Type 0 where
  pub form : F
  pub status : Option S
  pub saving : Bool
  pub toast : Option Toast

-- A save of either service: the answer's status is stored and opened in the form.
unfoldable pub after_save_config :
    {F S : Type 0} → (S → F) → String → String → Reply S → ServiceState F S → ServiceState F S
after_save_config form_of done failed (resolved status) s = record {
  form = form_of status;
  status = some status;
  saving = false;
  toast = some (record { message = done; kind = success });
}
after_save_config form_of done failed (rejected message) s = record s {
  saving = false;
  toast = some (record { message = text_or message failed; kind = error });
}

unfoldable pub handle_save_reactive_config :
    (ReactiveUpdate → Reply PublisherReactiveStatus)
    → ServiceState ReactiveForm PublisherReactiveStatus
    → ServiceState ReactiveForm PublisherReactiveStatus
handle_save_reactive_config answer s =
    after_save_config reactive_form_of "Reactive publication settings updated"
      "Failed to update reactive publication settings" (answer (reactive_update s.form))
      (record s { saving = true })

-- `includes ? filter : [...values, value]`
unfoldable pub toggle_text : String → List String → List String
toggle_text value values =
    if contains value values
    then keep_if (λ other. not (other == value)) values
    else values ++ value ∷ []

abbrev pub contains_id : ℕ → List ℕ → Bool
contains_id id ids = any (λ other. eqb other id) ids

unfoldable pub toggle_id : ℕ → List ℕ → List ℕ
toggle_id id ids =
    if contains_id id ids then keep_if (λ other. not (eqb other id)) ids else ids ++ id ∷ []

unfoldable pub toggle_reactive_trigger_port : String → ReactiveForm → ReactiveForm
toggle_reactive_trigger_port port prev = record prev {
  trigger_ports = toggle_text port prev.trigger_ports;
}

unfoldable pub toggle_reactive_interface : ℕ → ReactiveForm → ReactiveForm
toggle_reactive_interface id prev = record prev {
  listen_interface_ids = toggle_id id prev.listen_interface_ids;
}

unfoldable pub clear_reactive_interfaces : ReactiveForm → ReactiveForm
clear_reactive_interfaces prev = record prev { listen_interface_ids = [] }
