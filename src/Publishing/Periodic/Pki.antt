-- ===== src/Publishing/Periodic/Pki.antt =====
-- PublishingActions.tsx, updatePeriodicForm: the updates of the form, and the channel that the PKI
-- switch remembers.
use stridetastic.Prelude.{ℕ, String, Bool, true, false, Option, none, some, or_else}
use stridetastic.Publishing.Json.{Number}
use stridetastic.Publishing.Periodic.{edit_form}
use stridetastic.Publishing.Jobs.{
  PeriodicPayloadType, PeriodicForm, PublisherPeriodicJob, initial_periodic_form,
}
pub mod Laws

-- The form with the two refs beside it.
pub record FormState : Type 0 where
  pub form : PeriodicForm
  pub prev_channel_name : Option String
  pub prev_channel_key : Option String

-- A key of the form with its new value.
pub data FormUpdate : Type 0 where
  set_name set_description set_from_node set_to_node set_channel_name set_gateway_node
        set_channel_key :
      String → FormUpdate
  set_enabled set_want_ack set_pki_encrypted : Bool → FormUpdate
  set_payload_type : PeriodicPayloadType → FormUpdate
  set_hop_limit set_hop_start set_period_seconds : Number → FormUpdate
  set_interface_id : Option ℕ → FormUpdate

-- `ref ?? value`, and what `if (ref == null) ref = value` leaves in the ref
abbrev pub or_value : Option String → String → String
or_value o value = or_else o value

-- Switched on, the channel is remembered, if none is, and replaced; switched off, it is restored.
unfoldable pub set_pki : Bool → FormState → FormState
set_pki true s = record {
  form = record s.form { pki_encrypted = true; channel_name = "PKI"; channel_key = "" };
  prev_channel_name = some (or_value s.prev_channel_name s.form.channel_name);
  prev_channel_key = some (or_value s.prev_channel_key s.form.channel_key);
}
set_pki false s = record {
  form = record s.form {
    pki_encrypted = false;
    channel_name = or_value s.prev_channel_name s.form.channel_name;
    channel_key = or_value s.prev_channel_key s.form.channel_key;
  };
  prev_channel_name = none;
  prev_channel_key = none;
}

unfoldable pub update_periodic_form : FormUpdate → FormState → FormState
update_periodic_form (set_name v) s = record s { form = record s.form { name = v } }
update_periodic_form (set_description v) s = record s { form = record s.form { description = v } }
update_periodic_form (set_from_node v) s = record s { form = record s.form { from_node = v } }
update_periodic_form (set_to_node v) s = record s { form = record s.form { to_node = v } }
update_periodic_form (set_channel_name v) s = record s { form = record s.form { channel_name = v } }
update_periodic_form (set_gateway_node v) s = record s { form = record s.form { gateway_node = v } }
update_periodic_form (set_channel_key v) s = record s { form = record s.form { channel_key = v } }
update_periodic_form (set_enabled v) s = record s { form = record s.form { enabled = v } }
update_periodic_form (set_want_ack v) s = record s { form = record s.form { want_ack = v } }
update_periodic_form (set_pki_encrypted v) s = set_pki v s
update_periodic_form (set_payload_type v) s = record s { form = record s.form { payload_type = v } }
update_periodic_form (set_hop_limit v) s = record s { form = record s.form { hop_limit = v } }
update_periodic_form (set_hop_start v) s = record s { form = record s.form { hop_start = v } }
update_periodic_form (set_period_seconds v) s = record s {
  form = record s.form { period_seconds = v };
}
update_periodic_form (set_interface_id v) s = record s { form = record s.form { interface_id = v } }

-- Neither `resetPeriodicForm` nor `handleEditPeriodicJob` touches the refs.
unfoldable pub reset_periodic_form : FormState → FormState
reset_periodic_form s = record s { form = initial_periodic_form }

module _ (to_number : String → Number) where
  unfoldable pub handle_edit_periodic_job : PublisherPeriodicJob → FormState → FormState
  handle_edit_periodic_job job s = record s { form = edit_form to_number job }
