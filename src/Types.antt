-- ===== src/Types.antt =====
-- web_stridetastic/src/types/index.ts: the records of the API and of the force graph. An optional
-- field, and one that may be `null`, is an `Option`; a timestamp is the text that the API sends.
use stridetastic.Prelude.{ℕ, String, Bool, Option, List}
use stridetastic.Prelude.Int.{ℤ, Decimal}

pub record LoginCredentials : Type 0 where
  pub username : String
  pub password : String

pub record TokenResponse : Type 0 where
  pub access : String
  pub refresh : String

pub record User : Type 0 where
  pub id : ℕ
  pub username : String
  pub email : Option String

pub record Node : Type 0 where
  pub id : ℤ
  pub node_num : ℤ
  pub node_id : String
  pub mac_address : String
  pub short_name : Option String
  pub long_name : Option String
  pub hw_model : Option String
  pub is_licensed : Bool
  pub role : Option String
  pub public_key : Option String
  pub is_low_entropy_public_key : Bool
  pub has_private_key : Bool
  pub private_key_fingerprint : Option String
  pub is_unmessagable : Option Bool
  pub is_virtual : Bool
  pub latitude : Option Decimal
  pub longitude : Option Decimal
  pub altitude : Option Decimal
  pub position_accuracy : Option Decimal
  pub location_source : Option String
  pub battery_level : Option Decimal
  pub voltage : Option Decimal
  pub channel_utilization : Option Decimal
  pub air_util_tx : Option Decimal
  pub uptime_seconds : Option Decimal
  pub temperature : Option Decimal
  pub relative_humidity : Option Decimal
  pub barometric_pressure : Option Decimal
  pub gas_resistance : Option Decimal
  pub iaq : Option Decimal
  pub latency_reachable : Option Bool
  pub latency_ms : Option Decimal
  pub first_seen : String
  pub last_seen : String
  pub private_key_updated_at : Option String
  pub interfaces : Option (List String)

pub record Edge : Type 0 where
  pub source_node_id : ℤ
  pub target_node_id : ℤ
  pub first_seen : String
  pub last_seen : String
  pub last_packet_id : ℕ
  pub last_rx_rssi : Decimal
  pub last_rx_snr : Decimal
  pub last_hops : ℕ
  pub edge_type : String
  pub interfaces_names : List String

-- The coordinates that the force simulation writes are its own, and are left out.
pub record ForceGraphNode : Type 0 where
  pub id : String
  pub name : String
  pub node_num : ℤ
  pub node_id : String
  pub battery_level : Option Decimal
  pub hw_model : Option String
  pub role : Option String
  pub last_seen : String
  pub latitude : Option Decimal
  pub longitude : Option Decimal
  pub altitude : Option Decimal
  pub position_accuracy : Option Decimal
  pub location_source : Option String
  pub short_name : Option String
  pub long_name : Option String
  pub color : Option String
  pub size : Option ℕ
  pub is_hidden : Option Bool
  pub is_mqtt_broker : Option Bool
  pub is_interface_node : Option Bool
  pub mac_address : Option String
  pub is_licensed : Option Bool
  pub public_key : Option String
  pub is_unmessagable : Option Bool
  pub voltage : Option Decimal
  pub channel_utilization : Option Decimal
  pub air_util_tx : Option Decimal
  pub uptime_seconds : Option Decimal
  pub temperature : Option Decimal
  pub relative_humidity : Option Decimal
  pub barometric_pressure : Option Decimal
  pub gas_resistance : Option Decimal
  pub iaq : Option Decimal
  pub latency_reachable : Option Bool
  pub latency_ms : Option Decimal
  pub first_seen : Option String
  pub is_virtual : Option Bool

pub record Channel : Type 0 where
  pub channel_id : String
  pub channel_num : ℕ
  pub total_messages : ℕ
  pub first_seen : String
  pub last_seen : String
  pub members_count : ℕ
  pub members : List Node
  pub interface_ids : Option (List ℕ)

-- What `link.source` and `link.target` hold: the identifier, or the node object by which the force
-- simulation replaces it. Of the object only its `id` is read.
pub data Endpoint : Type 0 where
  text : String → Endpoint
  object : String → Endpoint

pub record ForceGraphLink : Type 0 where
  pub source : Endpoint
  pub target : Endpoint
  pub rssi : Decimal
  pub snr : Decimal
  pub hops : ℕ
  pub last_seen : String
  pub color : Option String
  pub width : Option ℕ
  pub value : Option Decimal
  pub is_mqtt : Option Bool
  pub distance : Option Decimal
  pub is_multi_hop_segment : Option Bool
  pub original_hops : Option ℕ
  pub is_last_hop : Option Bool
  pub is_mqtt_broker_link : Option Bool
  pub is_direct_multi_hop : Option Bool

-- `typeof link.source === 'string' ? link.source : link.source.id`
abbrev pub endpoint_id : Endpoint → String
endpoint_id (text s) = s
endpoint_id (object s) = s
