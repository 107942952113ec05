-- ===== src/Availability/Validator.antt =====
-- src/validators/availability.validator.ts: what `updateAvailabilitySchema` admits, once numbers are
-- coerced and defaults filled in.

use hr_booking_server.Base.{
  ℕ, ◌*◌, Bool, true, false, ◌&&◌, ◌||◌, not, Option, none, some, String, List, [], ◌∷◌, ltb, leb,
  ◌==◌, if◌then◌else◌, any, length,
}
use hr_booking_server.Constants.{is_slot_duration}
use hr_booking_server.DateTime.{TimeText, time_to_minutes, matches_time_pattern}
use hr_booking_server.Models.{WorkingInterval, WorkingDay, BlockedDate}
use hr_booking_server.Availability.{UpdateAvailabilityInput}

abbrev intervals_per_day_max : ℕ
intervals_per_day_max = 4

abbrev blocked_dates_max : ℕ
blocked_dates_max = 90

abbrev buffer_minutes_max : ℕ
buffer_minutes_max = 60

abbrev min_notice_minutes_max : ℕ
min_notice_minutes_max = 14 * 24 * 60

abbrev max_advance_days_min : ℕ
max_advance_days_min = 1

abbrev max_advance_days_max : ℕ
max_advance_days_max = 180

abbrev block_reason_max : ℕ
block_reason_max = 120

-- `dateKeySchema`, `timezoneSchema` and the length of a text, which rest on `Date.parse`, on luxon and
-- on the texts of the platform.
pub record Formats : Type 0 where
  pub is_date_key : String → Bool
  pub is_timezone : String → Bool
  pub text_length : String → ℕ

abbrev less_option : Option ℕ → Option ℕ → Bool
less_option (some a) (some b) = ltb a b
less_option (some a) none = false
less_option none b = false

-- `timeToMinutes(a) < timeToMinutes(b)`, which NaN fails.
abbrev pub is_earlier : TimeText → TimeText → Bool
is_earlier a b = less_option (time_to_minutes a) (time_to_minutes b)

unfoldable pub interval_schema : WorkingInterval → Bool
interval_schema i =
    matches_time_pattern i.start && matches_time_pattern i.end && is_earlier i.start i.end

-- The stable sort by start.
unfoldable pub insert_interval : WorkingInterval → List WorkingInterval → List WorkingInterval
insert_interval i [] = i ∷ []
insert_interval i (j ∷ js) =
    let rest = insert_interval i js in if is_earlier j.start i.start then j ∷ rest else i ∷ j ∷ js

unfoldable pub sort_intervals : List WorkingInterval → List WorkingInterval
unfolding insert_interval
sort_intervals [] = []
sort_intervals (i ∷ is) = insert_interval i (sort_intervals is)

-- Some interval starts before the one before it ends.
unfoldable pub has_clash : List WorkingInterval → Bool
has_clash [] = false
has_clash (i ∷ []) = false
has_clash (i ∷ j ∷ is) = is_earlier j.start i.end || has_clash (j ∷ is)

unfoldable pub has_overlapping_intervals : List WorkingInterval → Bool
unfolding sort_intervals has_clash
has_overlapping_intervals intervals = has_clash (sort_intervals intervals)

unfoldable pub every {ℓ} : {A : Type ℓ} → (A → Bool) → List A → Bool
every p [] = true
every p (x ∷ xs) = p x && every p xs

unfoldable pub working_day_schema : WorkingDay → Bool
unfolding every interval_schema has_overlapping_intervals
working_day_schema day =
    leb day.weekday 6
    && every interval_schema day.intervals
    && leb (length day.intervals) intervals_per_day_max
    && not (has_overlapping_intervals day.intervals)

abbrev has_time : Option TimeText → Bool
has_time none = false
has_time (some t) = true

abbrev is_time : Option TimeText → Bool
is_time none = true
is_time (some t) = matches_time_pattern t

abbrev is_range : Option TimeText → Option TimeText → Bool
is_range (some start) (some end) = is_earlier start end
is_range none none = true
is_range (some start) none = false
is_range none (some end) = false

module _ (formats : Formats) where
  abbrev is_reason : Option String → Bool
  is_reason none = true
  is_reason (some reason) = leb (formats.text_length reason) block_reason_max

  unfoldable pub blocked_date_schema : BlockedDate → Bool
  blocked_date_schema block =
      formats.is_date_key block.date
      && is_time block.start_time
      && is_time block.end_time
      && is_reason block.reason
      && is_range block.start_time block.end_time

  -- `new Set(weekdays).size === days.length`.
  unfoldable pub has_each_weekday_once : List WorkingDay → Bool
  has_each_weekday_once [] = true
  has_each_weekday_once (day ∷ days) =
      not (any (λ d. d.weekday == day.weekday) days) && has_each_weekday_once days

  unfoldable pub update_availability_schema : UpdateAvailabilityInput → Bool
  unfolding every working_day_schema blocked_date_schema has_each_weekday_once
  update_availability_schema input =
      formats.is_timezone input.timezone
      && is_slot_duration input.slot_duration_minutes
      && leb input.buffer_minutes buffer_minutes_max
      && leb input.min_notice_minutes min_notice_minutes_max
      && leb max_advance_days_min input.max_advance_days
      && leb input.max_advance_days max_advance_days_max
      && every working_day_schema input.weekly_hours
      && leb (length input.weekly_hours) 7
      && has_each_weekday_once input.weekly_hours
      && every blocked_date_schema input.blocked_dates
      && leb (length input.blocked_dates) blocked_dates_max
