-- ===== src/Overview/Tests.antt =====
-- Overview.tsx: instances of the theorems on concrete fetches.
use stridetastic.Prelude.{◌≡◌, ◌↔◌, none, some, []}
use stridetastic.Prelude.Int.{pos, int}
use stridetastic.Publishing.Periodic.Submit.{resolved}
use stridetastic.Overview.Trends.{OverviewMetrics, metric, compute_trends, avg_rssi, up, down}
use stridetastic.Overview.Trends.Laws.{Exceeds, compute_trends_iff}
use stridetastic.Overview.Fetch.{
  OverviewState, Fetched, initial, refresh, initial_overview, start_fetch, take_fetched, end_fetch,
}
use stridetastic.Overview.Fetch.Laws.{
  Reach, opened, started, answered, asked, IsSteady, Reach-IsSteady,
}

abbrev before : OverviewMetrics
before = record {
  total_nodes = 5;
  active_nodes = 3;
  reachable_nodes = 2;
  active_connections = 4;
  channels = 1;
  avg_battery = none;
  avg_rssi = some (int (pos 9));
  avg_snr = none;
}

abbrev after : OverviewMetrics
after = record before { avg_rssi = some (int (pos 7)) }

compute_trends_iff_example :
    ((compute_trends (some before) after avg_rssi ≡ up)
      ↔ Exceeds (metric after avg_rssi) (metric before avg_rssi))
    × ((compute_trends (some before) after avg_rssi ≡ down)
        ↔ Exceeds (metric before avg_rssi) (metric after avg_rssi))
compute_trends_iff_example = compute_trends_iff (some before) after avg_rssi

abbrev fetched : Fetched
fetched = record {
  current = before;
  nodes = [];
  channels = [];
  interfaces = [];
  port_activity = [];
}

-- The overview after its first fetch
abbrev filled : OverviewState
filled = end_fetch initial (take_fetched (resolved fetched) (start_fetch initial initial_overview))

Reach-filled : Reach filled none
unfolding initial_overview
Reach-filled = answered initial (resolved fetched) (started initial opened)

Reach-IsSteady_example : IsSteady (start_fetch refresh filled) (asked refresh filled none)
Reach-IsSteady_example = Reach-IsSteady (started refresh Reach-filled)
