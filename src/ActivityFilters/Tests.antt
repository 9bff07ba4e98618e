-- ===== src/ActivityFilters/Tests.antt =====
-- Runs of the activity filters, and instances of their theorems.
use stridetastic.Prelude.{refl, ◌≡◌, true, false, none, some, arith, if◌then◌else◌, ◌==◌}
use stridetastic.Prelude.Int.{pos, ◌-ℤ◌}
use stridetastic.Platform.{Platform}
use stridetastic.ActivityFilters.{five_min, one_hour, day, is_within_time_range, get_minutes_ago}
use stridetastic.ActivityFilters.Laws.{is_within_time_range_mono}

-- Two hours after the epoch, the time of every text but the empty one.
abbrev clock : Platform
clock = record {
  now = pos 7200000;
  now_text = "1970-01-01T02:00:00.000Z";
  time_of = λ date. if date == "" then none else some (pos 3600000);
  decimal = λ n. "0";
  integer_text = λ z. "0";
  number_text = λ d. "0";
}

-- An hour ago is within an hour, and not within five minutes; no time is within no range.
within_an_hour :
    (is_within_time_range clock "x" one_hour ≡ true)
    × (is_within_time_range clock "x" five_min ≡ false)
    × (is_within_time_range clock "" day ≡ false)
unfolding is_within_time_range get_minutes_ago ◌-ℤ◌
within_an_hour = (refl, refl, refl)

an_hour_ago : is_within_time_range clock "x" one_hour ≡ true
an_hour_ago = within_an_hour.0

is_within_time_range_mono_example : is_within_time_range clock "x" day ≡ true
is_within_time_range_mono_example =
    is_within_time_range_mono clock "x" one_hour day (omega arith) an_hour_ago
