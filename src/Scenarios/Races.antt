-- ===== src/Scenarios/Races.antt =====
-- Two calls that both insert a booking for 09:00, as single writes and as whole calls.
use mathlib.Core.List.Memᴰ
use hr_booking_server.Base.{◌≡◌, refl, true, ◌∷◌, [], find_first, any, keep, arith}
use hr_booking_server.Errors.{ok}
use hr_booking_server.Models.{Availability}
use hr_booking_server.Booking.Checks.{CreateBookingInput}
use hr_booking_server.Constants.{published}
use hr_booking_server.DateTime
use hr_booking_server.DateTime.{TimeText, overlaps}
use hr_booking_server.Slot
use hr_booking_server.Availability
use hr_booking_server.Store.{Db}
use hr_booking_server.Booking.Checks.{
  Plan, prorate, check_create, find_published, assert_client_is_free, assert_consultant_is_free,
  find_overlapping_booking,
}
use hr_booking_server.Booking.Service.{new_booking, build_slot_key}
use hr_booking_server.Booking.Contention.{one_by_one, contend, IsAnswered}
use hr_booking_server.Booking.Contention.Stays.{contend-stays}
use hr_booking_server.Scenarios.Bookings.{
  start-IsConsistent, start-HasDurations, nine_plan, nine_checked,
}
use hr_booking_server.Booking.Race.{
  Write, write, Interleaving, start_of, then_write, HasOwnKeys, Interleaving-HasOwnKeys,
}
use hr_booking_server.Scenarios.Data.{
  start_db, schedule, profile_with, client, admin, nine_input, nine_booking, ten_ms, utc, eleven,
}

plan : Plan
plan = record { profile = profile_with published; availability = schedule; end_at = ten_ms }

both : Db
both =
    write (Write.insert admin nine_input plan)
      (write (Write.insert client nine_input plan) start_db)

both_reached : Interleaving start_db both
unfolding both
both_reached =
    then_write (Write.insert admin nine_input plan)
      (then_write (Write.insert client nine_input plan) start_of)

Interleaving-HasOwnKeys_example : HasOwnKeys both.bookings
Interleaving-HasOwnKeys_example =
    Interleaving-HasOwnKeys start_db both
      (record {
        keyed = λ b m. absurd (Memᴰ.not-nil m);
        apart = λ b c m l d. absurd (Memᴰ.not-nil m);
      })
      both_reached

abbrev half_past_nine : TimeText
half_past_nine = 48 ∷ 57 ∷ 58 ∷ 51 ∷ 48 ∷ []

-- The schedule in which the day begins half an hour later.
abbrev later : Availability
later = record schedule {
  weekly_hours =
      record { weekday = 4; intervals = record { start = half_past_nine; end = eleven } ∷ [] } ∷ [];
}

abbrev half_input : CreateBookingInput
half_input = record nine_input { start_at = 34_200_000 }

abbrev half_plan : Plan
half_plan = record nine_plan { availability = later; end_at = 37_800_000 }

later_checked :
    check_create utc 0 admin half_input (record start_db { availabilities = later ∷ [] })
    ≡ ok half_plan
unfolding check_create find_published Availability.get_availability_for_hr
    Availability.find_availability find_first Slot.is_offered_slot Slot.generate_slots Slot.window
    Slot.sort_slots Slot.scan_days DateTime.date_keys_between utc Slot.scan_hours Slot.intervals_of
    DateTime.weekday_of_date_key any Slot.blocks_of keep Slot.scan_intervals Slot.scan_offsets
    Slot.try_offset Slot.is_blocked DateTime.add_days DateTime.add_minutes DateTime.date_keys_from
    DateTime.minutes_to_time overlaps DateTime.time_to_minutes DateTime.wall_time_to_utc
    Slot.add_slot Slot.blocks_whole_day Slot.max_date Slot.min_date Slot.to_slot_config
    assert_client_is_free assert_consultant_is_free find_overlapping_booking
later_checked = refl

-- The second call has drawn its id first, but inserts after the sweep of the first: both stay.
contend-stays_example :
    IsAnswered true nine_booking
      (contend nine_booking (new_booking admin half_input half_plan 99) one_by_one start_db).first
    × IsAnswered true
        (new_booking admin half_input half_plan 99)
        (contend nine_booking
          (new_booking admin half_input half_plan 99)
          one_by_one
          start_db).second
    × ((contend nine_booking
          (new_booking admin half_input half_plan 99)
          one_by_one
          start_db).bookings
        ≡ nine_booking ∷ new_booking admin half_input half_plan 99 ∷ [])
unfolding overlaps prorate build_slot_key
contend-stays_example =
    contend-stays utc 0 start_db start-IsConsistent start-HasDurations (later ∷ [])
      start-HasDurations client admin nine_input half_input nine_plan half_plan 100 99 nine_checked
      later_checked refl refl (λ c m. absurd (Memᴰ.not-nil m)) (omega arith) one_by_one
