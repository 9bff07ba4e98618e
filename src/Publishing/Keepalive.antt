-- ===== src/Publishing/Keepalive.antt =====
-- PublishingActions.tsx: the form of the keepalive service.
use stridetastic.Prelude.{
  ℕ, ◌+◌, ◌*◌, ◌/◌, suc, String, Bool, true, Option, List, if◌then◌else◌, leb, eqb, or_else,
}
use stridetastic.Prelude.Int.{ℤ, pos, negsuc}
use stridetastic.Publishing.Services.{or_null, ServiceState, after_save_config, toggle_id}
use stridetastic.Publishing.Json.{Number, nan, dec}
use stridetastic.Publishing.Jobs.{number_of}
use stridetastic.Publishing.Periodic.Submit.{Reply}

pub data KeepaliveType : Type 0 where
  reachability traceroute : KeepaliveType

pub data KeepaliveScope : Type 0 where
  all_nodes selected virtual_only : KeepaliveScope

pub record KeepaliveForm : Type 0 where
  pub enabled : Bool
  pub payload_type : KeepaliveType
  pub from_node : String
  pub gateway_node : String
  pub channel_name : String
  pub channel_key : String
  pub hop_limit : Number
  pub hop_start : Number
  pub interface_id : Option ℕ
  pub offline_after_minutes : Number
  pub check_interval_seconds : Number
  pub scope : KeepaliveScope
  pub selected_node_ids : List ℕ

-- What the form reads of the service's status; the type and the scope are always there.
pub record KeepaliveStatus : Type 0 where
  pub enabled : Bool
  pub payload_type : KeepaliveType
  pub from_node : Option String
  pub gateway_node : Option String
  pub channel_name : Option String
  pub channel_key : Option String
  pub hop_limit : Number
  pub hop_start : Number
  pub interface_id : Option ℕ
  pub offline_after_seconds : ℕ
  pub check_interval_seconds : ℕ
  pub scope : KeepaliveScope
  pub selected_node_ids : List ℕ

pub record KeepaliveUpdate : Type 0 where
  pub enabled : Bool
  pub payload_type : KeepaliveType
  pub from_node : Option String
  pub gateway_node : Option String
  pub channel_name : Option String
  pub channel_key : Option String
  pub hop_limit : Number
  pub hop_start : Number
  pub interface_id : Option ℕ
  pub offline_after_seconds : Number
  pub check_interval_seconds : Number
  pub scope : KeepaliveScope
  pub selected_node_ids : List ℕ

abbrev pub max_ℕ : ℕ → ℕ → ℕ
max_ℕ a b = if leb a b then b else a

-- `Math.max(least, Math.round(num / (k + 1) * factor))`; what is below 0 rounds to 0 at most.
abbrev pub rounded_ratio : ℕ → ℕ → ℤ → ℕ → ℕ
rounded_ratio least factor (pos n) k = max_ℕ least ((2 * (n * factor) + suc k) / (2 * suc k))
rounded_ratio least factor (negsuc n) k = least

-- The same for any number; NaN stays NaN.
unfoldable pub rounded : ℕ → ℕ → Number → Number
rounded least factor nan = nan
rounded least factor (dec d) = number_of (rounded_ratio least factor d.num d.over)

unfoldable pub keepalive_update : KeepaliveForm → KeepaliveUpdate
keepalive_update form = record {
  enabled = form.enabled;
  payload_type = form.payload_type;
  from_node = or_null form.from_node;
  gateway_node = or_null form.gateway_node;
  channel_name = or_null form.channel_name;
  channel_key = or_null form.channel_key;
  hop_limit = form.hop_limit;
  hop_start = form.hop_start;
  interface_id = form.interface_id;
  offline_after_seconds = rounded 60 60 form.offline_after_minutes;
  check_interval_seconds = rounded 30 1 form.check_interval_seconds;
  scope = form.scope;
  selected_node_ids = form.selected_node_ids;
}

-- `Math.max(1, Math.round((seconds || 3600) / 60))`
unfoldable pub minutes_of : ℕ → ℕ
minutes_of seconds = max_ℕ 1 ((2 * (if eqb seconds 0 then 3600 else seconds) + 60) / 120)

unfoldable pub keepalive_form_of : KeepaliveStatus → KeepaliveForm
keepalive_form_of status = record {
  enabled = status.enabled;
  payload_type = status.payload_type;
  from_node = or_else status.from_node "";
  gateway_node = or_else status.gateway_node "";
  channel_name = or_else status.channel_name "";
  channel_key = or_else status.channel_key "";
  hop_limit = status.hop_limit;
  hop_start = status.hop_start;
  interface_id = status.interface_id;
  offline_after_minutes = number_of (minutes_of status.offline_after_seconds);
  check_interval_seconds = number_of status.check_interval_seconds;
  scope = status.scope;
  selected_node_ids = status.selected_node_ids;
}

unfoldable pub handle_save_keepalive_config :
    (KeepaliveUpdate → Reply KeepaliveStatus)
    → ServiceState KeepaliveForm KeepaliveStatus
    → ServiceState KeepaliveForm KeepaliveStatus
handle_save_keepalive_config answer s =
    after_save_config keepalive_form_of "Keepalive settings updated"
      "Failed to update keepalive settings" (answer (keepalive_update s.form))
      (record s { saving = true })

unfoldable pub toggle_keepalive_node : ℕ → KeepaliveForm → KeepaliveForm
toggle_keepalive_node id prev = record prev {
  selected_node_ids = toggle_id id prev.selected_node_ids;
}
