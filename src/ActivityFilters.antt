-- ===== src/ActivityFilters.antt =====
-- web_stridetastic/src/lib/activityFilters.ts.
pub mod Laws
mod Tests
use mathlib.Core.Option
use stridetastic.Prelude.{ℕ, String, Bool, true, false, Option, none, some, List, [], ◌∷◌}
use stridetastic.Prelude.Int.{pos, ◌-ℤ◌, Decimal, int, leb_dec}
use stridetastic.Platform.{Platform}

-- 'all', '5min', '1hour', '2hours', '24hours', '7days'
pub data ActivityTimeRange : Type 0 where
  all five_min one_hour two_hours day week : ActivityTimeRange

pub record LabelledRange : Type 0 where
  pub value : ActivityTimeRange
  pub label : String

-- A comparison with NaN is false.
abbrev pub at_most : Option Decimal → ℕ → Bool
at_most none bound = false
at_most (some minutes) bound = leb_dec minutes (int (pos bound))

module _ (platform : Platform) where
  -- The difference in milliseconds over 60000; none is NaN.
  unfoldable pub get_minutes_ago : String → Option Decimal
  get_minutes_ago date_string =
      Option.map (λ t. record { num = platform.now -ℤ t; over = 59999 })
        (platform.time_of date_string)

  unfoldable pub is_within_time_range : String → ActivityTimeRange → Bool
  is_within_time_range date_string all = true
  is_within_time_range date_string five_min = at_most (get_minutes_ago date_string) 5
  is_within_time_range date_string one_hour = at_most (get_minutes_ago date_string) 60
  is_within_time_range date_string two_hours = at_most (get_minutes_ago date_string) 120
  is_within_time_range date_string day = at_most (get_minutes_ago date_string) 1440
  is_within_time_range date_string week = at_most (get_minutes_ago date_string) 10080

unfoldable pub get_time_range_label : ActivityTimeRange → String
get_time_range_label all = "All Time"
get_time_range_label five_min = "Last 5 minutes"
get_time_range_label one_hour = "Last hour"
get_time_range_label two_hours = "Last 2 hours"
get_time_range_label day = "Last 24 hours"
get_time_range_label week = "Last 7 days"

unfoldable pub get_activity_time_ranges : List LabelledRange
get_activity_time_ranges =
    record { value = all; label = "All Time" }
    ∷ record { value = five_min; label = "Last 5 minutes" }
    ∷ record { value = one_hour; label = "Last hour" }
    ∷ record { value = two_hours; label = "Last 2 hours" }
    ∷ record { value = day; label = "Last 24 hours" }
    ∷ record { value = week; label = "Last 7 days" }
    ∷ []
