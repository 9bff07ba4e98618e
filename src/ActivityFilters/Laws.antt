-- ===== src/ActivityFilters/Laws.antt =====
-- activityFilters.ts: the ranges are nested, and the list of ranges is complete.
use stridetastic.Prelude.{
  ◌⊎◌, inl, inr, ⊎_elim, ℕ, ◌≤◌, ◌≡◌, refl, String, true, Option, none, some, Memᴰ, arith,
}
use stridetastic.Prelude.Int.{Decimal}
use stridetastic.Platform.{Platform}
use stridetastic.ActivityFilters.{
  ActivityTimeRange, all, five_min, one_hour, two_hours, day, week, at_most, get_minutes_ago,
  is_within_time_range, get_time_range_label, get_activity_time_ranges,
}

-- The reach of a range, in order.
abbrev pub reach : ActivityTimeRange → ℕ
reach five_min = 5
reach one_hour = 60
reach two_hours = 120
reach day = 1440
reach week = 10080
reach all = 10081

at_most_mono : (m : Option Decimal) (a b : ℕ) → a ≤ b → at_most m a ≡ true → at_most m b ≡ true
at_most_mono none a b h k = k
at_most_mono (some m) a b h k = grind arith

module _ (platform : Platform) (date : String) where
  within_at_most :
      (r : ActivityTimeRange)
      → is_within_time_range platform date r ≡ true
      → (reach r ≡ 10081) ⊎ (at_most (get_minutes_ago platform date) (reach r) ≡ true)
  unfolding is_within_time_range
  within_at_most all h = inl refl
  within_at_most five_min h = inr h
  within_at_most one_hour h = inr h
  within_at_most two_hours h = inr h
  within_at_most day h = inr h
  within_at_most week h = inr h

  at_most_within :
      (r : ActivityTimeRange)
      → (10081 ≤ reach r) ⊎ (at_most (get_minutes_ago platform date) (reach r) ≡ true)
      → is_within_time_range platform date r ≡ true
  unfolding is_within_time_range
  at_most_within all h = refl
  at_most_within five_min h = ⊎_elim (λ wide. absurd (omega arith)) (λ near. near) h
  at_most_within one_hour h = ⊎_elim (λ wide. absurd (omega arith)) (λ near. near) h
  at_most_within two_hours h = ⊎_elim (λ wide. absurd (omega arith)) (λ near. near) h
  at_most_within day h = ⊎_elim (λ wide. absurd (omega arith)) (λ near. near) h
  at_most_within week h = ⊎_elim (λ wide. absurd (omega arith)) (λ near. near) h

  -- What lies within a range lies within every wider one; 'all' is the widest.
  pub is_within_time_range_mono :
      (r r' : ActivityTimeRange)
      → reach r ≤ reach r'
      → is_within_time_range platform date r ≡ true
      → is_within_time_range platform date r' ≡ true
  is_within_time_range_mono r r' h k = at_most_within r' (
      ⊎_elim (λ wide. inl (omega arith))
        (λ near. inr (at_most_mono (get_minutes_ago platform date) (reach r) (reach r') h near))
        (within_at_most r k))

-- Every range stands in the list of ranges, with its label.
pub get_activity_time_ranges_complete :
    (r : ActivityTimeRange)
    → Memᴰ (record { value = r; label = get_time_range_label r }) get_activity_time_ranges
unfolding get_activity_time_ranges get_time_range_label
get_activity_time_ranges_complete all = Memᴰ.head refl
get_activity_time_ranges_complete five_min = Memᴰ.tail (Memᴰ.head refl)
get_activity_time_ranges_complete one_hour = Memᴰ.tail (Memᴰ.tail (Memᴰ.head refl))
get_activity_time_ranges_complete two_hours = Memᴰ.tail (Memᴰ.tail (Memᴰ.tail (Memᴰ.head refl)))
get_activity_time_ranges_complete day =
    Memᴰ.tail (Memᴰ.tail (Memᴰ.tail (Memᴰ.tail (Memᴰ.head refl))))
get_activity_time_ranges_complete week =
    Memᴰ.tail (Memᴰ.tail (Memᴰ.tail (Memᴰ.tail (Memᴰ.tail (Memᴰ.head refl)))))
