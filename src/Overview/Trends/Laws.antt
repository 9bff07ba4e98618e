-- ===== src/Overview/Trends/Laws.antt =====
-- Overview.tsx: which trend two fetched metrics show.
use native.Mathlib.Nat.{mul_comm}
use stridetastic.Prelude.{ℕ, ◌+◌, ◌*◌, suc, ◌<◌, ◌≡◌, ◌↔◌, Option, none, some, arith}
use stridetastic.Prelude.Int.{Decimal, int, pos, pos_part, neg_part}
use stridetastic.Overview.Trends.{
  up, down, MetricKey, OverviewMetrics, metric, trend_between, derive_trend, compute_trends,
}

trend_between-up : (p q d : ℕ) → (trend_between p q d ≡ up) ↔ (10 * p + d < 10 * q)
trend_between-up p q d = ground arith

trend_between-down : (p q d : ℕ) → (trend_between p q d ≡ down) ↔ (10 * q + d < 10 * p)
trend_between-down p q d = ground arith

-- Both are known, and the one is more than the other by more than a tenth: `b - a > 1 / 10`, over the
-- denominator of both.
abbrev pub Exceeds : Option Decimal → Option Decimal → Type 0
Exceeds (some b) (some a) =
    10 * (pos_part a.num * suc b.over + neg_part b.num * suc a.over) + suc a.over * suc b.over
    < 10 * (pos_part b.num * suc a.over + neg_part a.num * suc b.over)
Exceeds (some b) none = ⊥
Exceeds none a = ⊥

-- The trend of two values, by the difference.
derive_trend_iff :
    (a b : Option Decimal)
    → ((derive_trend a b ≡ up) ↔ Exceeds b a) × ((derive_trend a b ≡ down) ↔ Exceeds a b)
unfolding derive_trend
derive_trend_iff none none = ground arith
derive_trend_iff none (some b) = ground arith
derive_trend_iff (some a) none = ground arith
derive_trend_iff (some a) (some b) =
    let p = pos_part a.num * suc b.over + neg_part b.num * suc a.over in
    let q = pos_part b.num * suc a.over + neg_part a.num * suc b.over in
    let d = suc a.over * suc b.over in
    (trend_between-up p q d, rw (mul_comm (suc b.over) (suc a.over)) (trend_between-down p q d))

-- Of two counts the later one exceeds the earlier one exactly if it is more.
Exceeds-int : (a b : ℕ) → Exceeds (some (int (pos b))) (some (int (pos a))) ↔ (a < b)
Exceeds-int a b = (λ h. omega arith, λ h. omega arith)

-- The value of a metric at the fetch before, if there was one.
abbrev pub metric_before : Option OverviewMetrics → MetricKey → Option Decimal
metric_before none key = none
metric_before (some previous) key = metric previous key

-- The trend of a metric is up exactly if it is more by over a tenth than at the fetch before, and down
-- exactly if it is less by over a tenth; at the first fetch and where either value is missing it is neither.
pub compute_trends_iff :
    (previous : Option OverviewMetrics) (next : OverviewMetrics) (key : MetricKey)
    → ((compute_trends previous next key ≡ up)
        ↔ Exceeds (metric next key) (metric_before previous key))
      × ((compute_trends previous next key ≡ down)
          ↔ Exceeds (metric_before previous key) (metric next key))
unfolding compute_trends
compute_trends_iff none next key = derive_trend_iff none (metric next key)
compute_trends_iff (some previous) next key =
    derive_trend_iff (metric previous key) (metric next key)
