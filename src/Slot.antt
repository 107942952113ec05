-- ===== src/Slot.antt =====
-- src/services/slot.service.ts: the slots that a consultant offers.
pub mod Offsets
pub mod Loop
pub mod Fill
pub mod Sort
pub mod Offer
pub mod Generate
pub mod Public
use hr_booking_server.Base.{
  ℕ, zero, suc, ◌+◌, ◌-◌, ◌*◌, ◌≤◌, String, Bool, true, false, ◌&&◌, ◌||◌, Option, none, some, List,
  [], ◌∷◌, ◌++◌, ltb, leb, ◌==◌, if◌then◌else◌, same_text, any, keep, map,
}
use hr_booking_server.DateTime.{
  Luxon, TimeText, time_to_minutes, add_minutes, add_days, overlaps, weekday_of_date_key,
  wall_time_to_utc, date_keys_between, minutes_in_day,
}
use hr_booking_server.Errors.{Result, ok, err, bad_request, ◌>>=◌, ◌>>◌}
use hr_booking_server.Constants.{slot_range_days_max, is_active_status}
use hr_booking_server.Models.{WorkingInterval, WorkingDay, BlockedDate, Availability, Booking}
use hr_booking_server.Store.{Db}

pub record SlotConfig : Type 0 where
  pub timezone : String
  pub slot_duration_minutes : ℕ
  pub buffer_minutes : ℕ
  pub min_notice_minutes : ℕ
  pub max_advance_days : ℕ
  pub weekly_hours : List WorkingDay
  pub blocked_dates : List BlockedDate

pub record Slot : Type 0 where
  pub start_at : ℕ
  pub end_at : ℕ

abbrev pub BusyInterval : Type 0
BusyInterval = Slot

pub record GenerateSlotsOptions : Type 0 where
  pub range_start : ℕ
  pub range_end : ℕ
  pub now : ℕ
  pub busy : List BusyInterval

unfoldable pub max_date : ℕ → ℕ → ℕ
max_date a b = if ltb b a then a else b

unfoldable pub min_date : ℕ → ℕ → ℕ
min_date a b = if ltb a b then a else b

-- `intervalsByWeekday.get(w)`: a later day of the list replaces an earlier one.
abbrev first_or {ℓ} : {A : Type ℓ} → Option A → Option A → Option A
first_or (some a) o = some a
first_or none o = o

unfoldable pub intervals_of : ℕ → List WorkingDay → Option (List WorkingInterval)
intervals_of w [] = none
intervals_of w (day ∷ days) =
    first_or (intervals_of w days) (if day.weekday == w then some day.intervals else none)

-- `blocksByDate.get(dateKey) ?? []`.
unfoldable pub blocks_of : String → List BlockedDate → List BlockedDate
blocks_of date_key blocks = keep (λ b. same_text b.date date_key) blocks

-- A time that is absent or empty is falsy.
abbrev is_missing : Option TimeText → Bool
is_missing none = true
is_missing (some []) = true
is_missing (some (c ∷ cs)) = false

unfoldable pub blocks_whole_day : BlockedDate → Bool
blocks_whole_day b = is_missing b.start_time || is_missing b.end_time

abbrev minutes_of_time : Option TimeText → Option ℕ
minutes_of_time none = none
minutes_of_time (some t) = time_to_minutes t

-- Comparisons with NaN are false.
abbrev lt_number : Option ℕ → Option ℕ → Bool
lt_number (some a) (some b) = ltb a b
lt_number _ _ = false

unfoldable pub is_blocked : List BlockedDate → ℕ → ℕ → Bool
unfolding blocks_whole_day
is_blocked blocks start_minutes end_minutes =
    any
      (λ b.
        blocks_whole_day b
        || (lt_number (some start_minutes) (minutes_of_time b.end_time)
            && lt_number (minutes_of_time b.start_time) (some end_minutes)))
      blocks

-- `seen` and `slots` of `generateSlots`.
pub record Progress : Type 0 where
  pub seen : List ℕ
  pub slots : List Slot

-- What the loops read: the configuration, the options and the window.
pub record Search : Type 0 where
  pub config : SlotConfig
  pub busy : List BusyInterval
  pub earliest : ℕ
  pub latest : ℕ

module _ (lux : Luxon) (search_for : Search) where
  open search_for use {config, busy, earliest, latest}

  -- From `if (startAt < earliest …)` to the end of the innermost body.
  unfoldable pub add_slot : ℕ → Progress → Progress
  add_slot start_at p =
      let end_at = add_minutes start_at config.slot_duration_minutes in
      if ltb start_at earliest || leb latest start_at
      then p
      else if any (λ t. t == start_at) p.seen
      then p
      else if any (λ b. overlaps start_at end_at b.start_at b.end_at) busy
      then p
      else record {
        seen = start_at ∷ p.seen;
        slots = p.slots ++ record { start_at = start_at; end_at = end_at } ∷ [];
      }

  abbrev pub add_resolved : Option ℕ → Progress → Progress
  add_resolved none p = p
  add_resolved (some start_at) p = add_slot start_at p

  -- The innermost body.
  unfoldable pub try_offset : String → List BlockedDate → ℕ → Progress → Progress
  try_offset date_key blocks offset p =
      if is_blocked blocks offset (offset + config.slot_duration_minutes)
      then p
      else add_resolved (wall_time_to_utc lux date_key offset config.timezone) p

  -- `for (offset = intervalStart; offset + duration <= intervalEnd; offset += step)`, on fuel.
  unfoldable pub scan_offsets : String → List BlockedDate → ℕ → ℕ → ℕ → Progress → Progress
  scan_offsets date_key blocks zero offset interval_end p = p
  scan_offsets date_key blocks (suc fuel) offset interval_end p =
      let rest =
        scan_offsets date_key blocks fuel
          (offset + (config.slot_duration_minutes + config.buffer_minutes)) interval_end
          (try_offset date_key blocks offset p) in
      if leb (offset + config.slot_duration_minutes) interval_end then rest else p

  abbrev pub scan_times : String → List BlockedDate → Option ℕ → Option ℕ → Progress → Progress
  scan_times date_key blocks (some start) (some end) p =
      scan_offsets date_key blocks (suc end) start end p
  scan_times date_key blocks _ _ p = p

  unfoldable pub scan_intervals :
      String → List BlockedDate → List WorkingInterval → Progress → Progress
  scan_intervals date_key blocks [] p = p
  scan_intervals date_key blocks (interval ∷ intervals) p =
      scan_intervals date_key blocks intervals (
        scan_times date_key blocks (time_to_minutes interval.start) (time_to_minutes interval.end)
          p)

  -- The body of the loop over the days.
  unfoldable pub scan_hours :
      String → List BlockedDate → Option (List WorkingInterval) → Progress → Progress
  scan_hours date_key blocks none p = p
  scan_hours date_key blocks (some intervals) p =
      if any blocks_whole_day blocks then p else scan_intervals date_key blocks intervals p

  unfoldable pub scan_days : List String → Progress → Progress
  scan_days [] p = p
  scan_days (date_key ∷ date_keys) p = scan_days date_keys (
      scan_hours date_key (blocks_of date_key config.blocked_dates)
        (intervals_of (weekday_of_date_key lux date_key config.timezone) config.weekly_hours) p)

-- `slots.sort((a, b) => a.startAt - b.startAt)`, which keeps the order of equal starts.
insert_slot : Slot → List Slot → List Slot
insert_slot s [] = s ∷ []
insert_slot s (t ∷ ts) =
    let rest = insert_slot s ts in if leb s.start_at t.start_at then s ∷ t ∷ ts else t ∷ rest

unfoldable pub sort_slots : List Slot → List Slot
unfolding insert_slot
sort_slots [] = []
sort_slots (s ∷ ss) = insert_slot s (sort_slots ss)

unfoldable pub window : SlotConfig → GenerateSlotsOptions → Search
unfolding max_date min_date add_minutes add_days
window config options = record {
  config = config;
  busy = options.busy;
  earliest = max_date options.range_start (add_minutes options.now config.min_notice_minutes);
  latest = min_date options.range_end (add_days options.now config.max_advance_days);
}

unfoldable pub to_slot_config : Availability → SlotConfig
to_slot_config a = record {
  timezone = a.timezone;
  slot_duration_minutes = a.slot_duration_minutes;
  buffer_minutes = a.buffer_minutes;
  min_notice_minutes = a.min_notice_minutes;
  max_advance_days = a.max_advance_days;
  weekly_hours = a.weekly_hours;
  blocked_dates = a.blocked_dates;
}

-- `days > SLOT_RANGE_DAYS_MAX`, where `days` is a quotient of milliseconds.
unfoldable pub assert_range : ℕ → ℕ → Result (Unit {0})
assert_range from to =
    if leb to from
    then err (bad_request "The end of the range must be after its start.")
    else if ltb (slot_range_days_max * (minutes_in_day * 60_000)) (to - from)
    then err (bad_request "Slot ranges are limited to 31 days.")
    else ok tt

-- The bookings of the consultant that are active and meet the range.
unfoldable pub busy_bookings : ℕ → ℕ → ℕ → List Booking → List Booking
busy_bookings hr_user_id from to bookings =
    keep
      (λ b.
        b.hr_user_id == hr_user_id
        && is_active_status b.status
        && ltb from b.end_at
        && ltb b.start_at to)
      bookings

module _ (lux : Luxon) where
  unfoldable pub generate_slots : SlotConfig → GenerateSlotsOptions → List Slot
  generate_slots config options =
      let w = window config options in
      if leb w.latest w.earliest
      then []
      else sort_slots
          (scan_days lux w (date_keys_between lux w.earliest w.latest config.timezone)
            (record { seen = []; slots = [] })).slots

  unfoldable pub is_offered_slot : Availability → ℕ → ℕ → Bool
  unfolding to_slot_config add_minutes
  is_offered_slot availability start_at now =
      any (λ slot. slot.start_at == start_at)
        (generate_slots (to_slot_config availability) (record {
          range_start = start_at;
          range_end = add_minutes start_at 1;
          now = now;
          busy = [];
        }))

  unfoldable pub get_available_slots : Availability → ℕ → ℕ → ℕ → Db → Result (List Slot)
  unfolding assert_range busy_bookings to_slot_config
  get_available_slots availability from to now db = do
    assert_range from to
    ok (
        generate_slots (to_slot_config availability) (record {
          range_start = from;
          range_end = to;
          now = now;
          busy =
              map (λ b. record { start_at = b.start_at; end_at = b.end_at })
                (busy_bookings availability.hr_user_id from to db.bookings);
        }))
