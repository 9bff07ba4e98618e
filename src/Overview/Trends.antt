-- ===== src/Overview/Trends.antt =====
-- Overview.tsx: the metrics and their trends.
pub mod Laws
use stridetastic.Prelude.{
  ℕ, ◌+◌, ◌*◌, suc, Bool, true, false, ◌&&◌, Option, none, some, if◌then◌else◌, leb, ltb,
}
use stridetastic.Prelude.Int.{ℤ, pos, int, Decimal, pos_part, neg_part}

pub data MetricTrend : Type 0 where
  up down stable : MetricTrend

pub data MetricKey : Type 0 where
  total_nodes active_nodes reachable_nodes active_connections channels avg_battery avg_rssi
        avg_snr :
      MetricKey

pub record OverviewMetrics : Type 0 where
  pub total_nodes : ℕ
  pub active_nodes : ℕ
  pub reachable_nodes : ℕ
  pub active_connections : ℕ
  pub channels : ℕ
  pub avg_battery : Option Decimal
  pub avg_rssi : Option Decimal
  pub avg_snr : Option Decimal

-- `metrics[key]`
abbrev pub metric : OverviewMetrics → MetricKey → Option Decimal
metric m MetricKey.total_nodes = some (int (pos m.total_nodes))
metric m MetricKey.active_nodes = some (int (pos m.active_nodes))
metric m MetricKey.reachable_nodes = some (int (pos m.reachable_nodes))
metric m MetricKey.active_connections = some (int (pos m.active_connections))
metric m MetricKey.channels = some (int (pos m.channels))
metric m MetricKey.avg_battery = m.avg_battery
metric m MetricKey.avg_rssi = m.avg_rssi
metric m MetricKey.avg_snr = m.avg_snr

-- The trend from `p / d` to `q / d`: 0.1 or less apart, or else which one is more.
abbrev pub trend_between : ℕ → ℕ → ℕ → MetricTrend
trend_between p q d =
    if leb (10 * p) (10 * q + d) && leb (10 * q) (10 * p + d)
    then stable
    else (if ltb p q then up else down)

-- Both numbers over one denominator, and what is negative of either on the other's side
unfoldable pub derive_trend : Option Decimal → Option Decimal → MetricTrend
derive_trend none next = stable
derive_trend (some previous) none = stable
derive_trend (some previous) (some next) =
    trend_between (pos_part previous.num * suc next.over + neg_part next.num * suc previous.over)
      (pos_part next.num * suc previous.over + neg_part previous.num * suc next.over)
      (suc previous.over * suc next.over)

-- `computeTrends`: the record of the trends, by its keys
unfoldable pub compute_trends : Option OverviewMetrics → OverviewMetrics → MetricKey → MetricTrend
compute_trends none next key = derive_trend none (metric next key)
compute_trends (some previous) next key = derive_trend (metric previous key) (metric next key)
