-- ===== src/Scenarios/Calendar.antt =====
-- The schedule of the concrete state: dates, times and slots.
use hr_booking_server.Base.{
  ℕ, ◌+◌, ◌*◌, ◌/◌, ◌<◌, ◌≡◌, refl, ◌↔◌, true, false, some, [], ◌∷◌, Memᴰ, arith, ltb, same_text,
  same_text_iff, any, keep, ◌%◌, Bool-cases, inl, inr,
}
use hr_booking_server.DateTime
use hr_booking_server.Slot
use hr_booking_server.DateTime.{
  Luxon, wall_time_to_utc, minutes_to_time, time_to_minutes, date_keys_between, date_keys_from,
  matches_time_pattern, overlaps,
}
use hr_booking_server.DateTime.Days.{Advances, HasMidnights, date_keys_between_fuel}
use hr_booking_server.DateTime.TimeText.{
  matches_time_pattern-round_trip, time_to_minutes-minutes_to_time,
}
use hr_booking_server.Slot.{
  Slot, generate_slots, is_offered_slot, get_available_slots, to_slot_config,
}
use hr_booking_server.Slot.Generate.{IsOffered, generate_slots_iff}
use hr_booking_server.Slot.Public.{
  instant_options, own_slot, is_offered_slot_iff, KeepsDate, get_available_slots-free,
}
use hr_booking_server.Errors.{ok}
use hr_booking_server.Scenarios.Data.{utc, schedule, booked_db, nine, nine_ms, ten_ms, nine_booking}

utc-Advances : Advances utc "UTC"
unfolding utc
utc-Advances t = omega arith

pub utc-HasMidnights : HasMidnights utc "UTC"
unfolding utc
utc-HasMidnights = record {
  advances = λ t. omega arith;
  start_le = λ t. omega arith;
  start_mono = λ s t h. omega arith;
  start_start = λ t. omega arith;
  next_start = λ s h. omega arith;
  within = λ s u h k l. omega arith;
  key_of_day = λ t. ground arith;
}

pub utc-KeepsDate : KeepsDate utc "UTC"
unfolding wall_time_to_utc utc
utc-KeepsDate day minutes t below e =
    let d = utc.to_format "UTC" day in
    let whole : minutes % 1440 ≡ minutes = omega arith in
    let days : minutes / 1440 ≡ 0 = omega arith in
    let time = time_to_minutes-minutes_to_time minutes below in
    elim (Bool-cases (same_text d "1970-01-01")) [
      | inl k ↦
          let same = (same_text_iff d "1970-01-01").0 k in
          let value : some (minutes * 60_000 + 0 * 86_400_000) ≡ some t =
            rw (k, whole, days, time) at e in
          let early : ltb t 86_400_000 ≡ true = ground (arith, value) in rw (early, same)
      | inr k ↦ absurd (ground (arith, k, e))
    ]

-- One day and no booking: 10:00 is offered.
ten_slot : Slot
ten_slot = own_slot schedule ten_ms

round_trip_example :
    (k : ℕ) × (time_to_minutes nine ≡ some k) × (k < 1440) × (minutes_to_time k ≡ nine)
unfolding matches_time_pattern
round_trip_example = matches_time_pattern-round_trip nine refl

date_keys_between_fuel_example :
    date_keys_between utc nine_ms ten_ms "UTC"
    ≡ date_keys_from utc 3 "UTC" (utc.start_of_day "UTC" nine_ms) (utc.start_of_day "UTC" ten_ms)
unfolding utc
date_keys_between_fuel_example =
    date_keys_between_fuel utc "UTC" utc-Advances nine_ms ten_ms 3 (omega arith)

generate_slots_iff_example :
    Memᴰ ten_slot (generate_slots utc (to_slot_config schedule) (instant_options 0 ten_ms))
    ↔ IsOffered utc (to_slot_config schedule) (instant_options 0 ten_ms) ten_slot
unfolding to_slot_config
generate_slots_iff_example =
    generate_slots_iff utc (to_slot_config schedule) (instant_options 0 ten_ms) (omega arith)
      ten_slot

is_offered_slot_iff_example :
    (is_offered_slot utc schedule ten_ms 0 ≡ true)
    ↔ IsOffered utc (to_slot_config schedule) (instant_options 0 ten_ms) (own_slot schedule ten_ms)
is_offered_slot_iff_example = is_offered_slot_iff utc schedule 0 (omega arith) ten_ms

-- 09:00 is booked, so 10:00 alone is shown for the first day.
shown_slots :
    get_available_slots utc schedule 0 80_000_000 0 booked_db ≡ ok (own_slot schedule ten_ms ∷ [])
unfolding get_available_slots generate_slots Slot.window Slot.sort_slots Slot.scan_days
    date_keys_between utc Slot.scan_hours Slot.intervals_of DateTime.weekday_of_date_key any
    Slot.blocks_of keep Slot.scan_intervals Slot.scan_offsets Slot.try_offset Slot.is_blocked
    DateTime.add_days DateTime.add_minutes date_keys_from minutes_to_time overlaps time_to_minutes
    wall_time_to_utc Slot.add_slot Slot.assert_range Slot.blocks_whole_day Slot.busy_bookings
    Slot.max_date Slot.min_date to_slot_config
shown_slots = refl

get_available_slots-free_example : overlaps ten_ms 39_600_000 nine_ms ten_ms ≡ false
get_available_slots-free_example =
    get_available_slots-free utc schedule 0 80_000_000 0 booked_db (omega arith) shown_slots
      (Memᴰ.head refl) nine_booking (Memᴰ.head refl) refl refl (omega arith)
