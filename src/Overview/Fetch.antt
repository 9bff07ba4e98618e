-- ===== src/Overview/Fetch.antt =====
-- Overview.tsx: the fetch of the overview and the cards that it fills.
pub mod Laws
use stridetastic.Prelude.{
  ℕ, String, Bool, true, false, not, ◌&&◌, ◌||◌, Option, none, some, List, [], ◌∷◌, ◌++◌, ◌==◌,
  if◌then◌else◌, any, or_else,
}
use stridetastic.Types.{Node, Channel}
use stridetastic.Publishing.Periodic.Submit.{Reply, resolved, rejected}
use stridetastic.NetworkGraph.Interfaces.{Interface, find}
use stridetastic.Overview.Trends.{OverviewMetrics, MetricKey, MetricTrend, stable, compute_trends}

pub data Mode : Type 0 where
  initial refresh : Mode

abbrev pub is_initial : Mode → Bool
is_initial initial = true
is_initial refresh = false

pub record PortActivityEntry : Type 0 where
  pub port : String
  pub display_name : String
  pub total_packets : ℕ
  pub last_seen : Option String

-- What the five requests answer; the history is only drawn.
pub record Fetched : Type 0 where
  pub current : OverviewMetrics
  pub nodes : List Node
  pub channels : List Channel
  pub interfaces : List Interface
  pub port_activity : List PortActivityEntry

-- `metrics` is `metricsRef`: the metrics of the last fetch, of which the overview shows the same.
pub record OverviewState : Type 0 where
  pub metrics : Option OverviewMetrics
  pub overview_metrics : OverviewMetrics
  pub metric_trends : MetricKey → MetricTrend
  pub nodes : List Node
  pub channels : List Channel
  pub interfaces : List Interface
  pub port_activity : List PortActivityEntry
  pub selected_port_entry : Option PortActivityEntry
  pub is_port_modal_open : Bool
  pub error : Option String
  pub is_loading : Bool
  pub is_refreshing : Bool
  pub is_fetching : Bool

unfoldable pub default_overview_metrics : OverviewMetrics
default_overview_metrics = record {
  total_nodes = 0;
  active_nodes = 0;
  reachable_nodes = 0;
  active_connections = 0;
  channels = 0;
  avg_battery = none;
  avg_rssi = none;
  avg_snr = none;
}

unfoldable pub initial_overview : OverviewState
initial_overview = record {
  metrics = none;
  overview_metrics = default_overview_metrics;
  metric_trends = λ key. stable;
  nodes = [];
  channels = [];
  interfaces = [];
  port_activity = [];
  selected_port_entry = none;
  is_port_modal_open = false;
  error = none;
  is_loading = true;
  is_refreshing = false;
  is_fetching = false;
}

-- fetchData, up to its requests; nothing is asked while a fetch is under way.
unfoldable pub start_fetch : Mode → OverviewState → OverviewState
start_fetch mode s = if s.is_fetching then s else (record s {
  is_fetching = true;
  is_loading = if is_initial mode then true else s.is_loading;
  is_refreshing = if is_initial mode then s.is_refreshing else true;
  error = none;
})

-- `updated || current`
abbrev pub updated_entry :
    List PortActivityEntry → Option PortActivityEntry → Option PortActivityEntry
updated_entry entries none = none
updated_entry entries (some current) =
    some (or_else (find (λ entry. entry.port == current.port) entries) current)

-- The `try` and `catch` of fetchData, from the answer on
unfoldable pub take_fetched : Reply Fetched → OverviewState → OverviewState
take_fetched (resolved fetched) s = record s {
  metrics = some fetched.current;
  overview_metrics = fetched.current;
  metric_trends = compute_trends s.metrics fetched.current;
  nodes = fetched.nodes;
  channels = fetched.channels;
  interfaces = fetched.interfaces;
  port_activity = fetched.port_activity;
  selected_port_entry = updated_entry fetched.port_activity s.selected_port_entry;
}
take_fetched (rejected message) s = record s { error = some "Failed to load overview data" }

-- Its `finally`
unfoldable pub end_fetch : Mode → OverviewState → OverviewState
end_fetch mode s = record s {
  is_loading = if is_initial mode then false else s.is_loading;
  is_refreshing = if is_initial mode then s.is_refreshing else false;
  is_fetching = false;
}

unfoldable pub handle_port_entry_click : PortActivityEntry → OverviewState → OverviewState
handle_port_entry_click entry s =
    if elim s.selected_port_entry [ none ↦ false | some current ↦ current.port == entry.port ]
      && s.is_port_modal_open
    then (record s { is_port_modal_open = false; selected_port_entry = none })
    else (record s { selected_port_entry = some entry; is_port_modal_open = true })

-- The first channel of each key, where `seen` are the keys so far; `key_of` is the key in a template
-- string.
unfoldable pub dedupe_channels : (Channel → String) → List String → List Channel → List Channel
dedupe_channels key_of seen [] = []
dedupe_channels key_of seen (channel ∷ more) =
    let rest = dedupe_channels key_of seen more in
    let later = dedupe_channels key_of (key_of channel ∷ seen) more in
    if any (λ key. key == key_of channel) seen then rest else channel ∷ later
