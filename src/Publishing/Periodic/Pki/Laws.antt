-- ===== src/Publishing/Periodic/Pki/Laws.antt =====
-- updatePeriodicForm: what the PKI switch does to the channel.
use stridetastic.Prelude.{String, Bool, true, false, ◌≡◌, refl, none, some, List, [], ◌∷◌, All}
use stridetastic.Publishing.Json.{Number}
use stridetastic.Publishing.Jobs.{PublisherPeriodicJob}
use stridetastic.Publishing.Periodic.Pki.{
  FormState, FormUpdate, set_name, set_description, set_from_node, set_to_node, set_channel_name,
  set_gateway_node, set_channel_key, set_enabled, set_want_ack, set_pki_encrypted, set_payload_type,
  set_hop_limit, set_hop_start, set_period_seconds, set_interface_id, set_pki, update_periodic_form,
  handle_edit_periodic_job,
}

unfoldable pub update_all : List FormUpdate → FormState → FormState
update_all [] s = s
update_all (update ∷ updates) s = update_all updates (update_periodic_form update s)

-- An update that leaves the switch alone.
abbrev pub keeps_pki : FormUpdate → Bool
keeps_pki (set_pki_encrypted v) = false
keeps_pki _ = true

-- What the switch remembers.
abbrev Remembers : String → String → FormState → Type 0
Remembers name key s = (s.prev_channel_name ≡ some name) × (s.prev_channel_key ≡ some key)

update-Remembers :
    (name key : String) (update : FormUpdate) (s : FormState)
    → keeps_pki update ≡ true
    → Remembers name key s
    → Remembers name key (update_periodic_form update s)
unfolding update_periodic_form
update-Remembers name key (set_name v) s h r = r
update-Remembers name key (set_description v) s h r = r
update-Remembers name key (set_from_node v) s h r = r
update-Remembers name key (set_to_node v) s h r = r
update-Remembers name key (set_channel_name v) s h r = r
update-Remembers name key (set_gateway_node v) s h r = r
update-Remembers name key (set_channel_key v) s h r = r
update-Remembers name key (set_enabled v) s h r = r
update-Remembers name key (set_want_ack v) s h r = r
update-Remembers name key (set_pki_encrypted v) s h r = cc
update-Remembers name key (set_payload_type v) s h r = r
update-Remembers name key (set_hop_limit v) s h r = r
update-Remembers name key (set_hop_start v) s h r = r
update-Remembers name key (set_period_seconds v) s h r = r
update-Remembers name key (set_interface_id v) s h r = r

update_all-Remembers :
    (name key : String) (updates : List FormUpdate) (s : FormState)
    → All (λ update. keeps_pki update ≡ true) updates
    → Remembers name key s
    → Remembers name key (update_all updates s)
unfolding update_all
update_all-Remembers name key [] s h r = r
update_all-Remembers name key (update ∷ updates) s (h, hs) r =
    update_all-Remembers name key updates (update_periodic_form update s) hs
      (update-Remembers name key update s h r)

restored :
    (name key : String) (s : FormState)
    → Remembers name key s
    → ((set_pki false s).form.channel_name ≡ name) × ((set_pki false s).form.channel_key ≡ key)
unfolding set_pki
restored name key s (n, k) = (rw n refl, rw k refl)

-- Where no channel is remembered: switching PKI on, making any updates that leave the switch alone, and
-- switching it off restores the channel's name and key from before, and remembers none.
pub set_pki_restores :
    (updates : List FormUpdate) (s : FormState)
    → s.prev_channel_name ≡ none
    → s.prev_channel_key ≡ none
    → All (λ update. keeps_pki update ≡ true) updates
    → ((set_pki false (update_all updates (set_pki true s))).form.channel_name
        ≡ s.form.channel_name)
      × ((set_pki false (update_all updates (set_pki true s))).form.channel_key
          ≡ s.form.channel_key)
      × ((set_pki false (update_all updates (set_pki true s))).prev_channel_name ≡ none)
set_pki_restores updates s n k h =
    let on : Remembers s.form.channel_name s.form.channel_key (set_pki true s) =
      unfold set_pki in (rw n refl, rw k refl) in
    let (name, key) =
      restored _ _ (update_all updates (set_pki true s))
        (update_all-Remembers _ _ updates _ h on) in
    (name, key, unfold set_pki in refl)

-- Where no channel is remembered: if another job is opened while PKI is switched on, switching PKI off
-- gives that job the channel name and key of the form from before.
pub set_pki_stale :
    (to_number : String → Number) (job : PublisherPeriodicJob) (s : FormState)
    → s.prev_channel_name ≡ none
    → s.prev_channel_key ≡ none
    → ((set_pki false (handle_edit_periodic_job to_number job (set_pki true s))).form.channel_name
        ≡ s.form.channel_name)
      × ((set_pki false (handle_edit_periodic_job to_number job (set_pki true s))).form.channel_key
          ≡ s.form.channel_key)
unfolding set_pki handle_edit_periodic_job
set_pki_stale to_number job s n k = (rw n refl, rw k refl)
