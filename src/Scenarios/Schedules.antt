-- ===== src/Scenarios/Schedules.antt =====
-- A schedule that is admitted, and the diary of the concrete state.
use mathlib.Core.List.Memᴰ
use hr_booking_server.Base.{
  ◌≡◌, refl, ◌↔◌, true, false, [], ◌∷◌, ◌++◌, arith, any, keep, find_first,
}
use hr_booking_server.DateTime
use hr_booking_server.Slot
use hr_booking_server.Slot.{Slot, get_available_slots}
use hr_booking_server.Errors.{ok}
use hr_booking_server.Diary.Shown.{shown_slot-booked}
use hr_booking_server.DateTime.{time_to_minutes, matches_time_pattern}
use hr_booking_server.Models.{WorkingInterval, Booking}
use hr_booking_server.Constants.{published}
use hr_booking_server.Store.{Db, returns}
use hr_booking_server.Availability.{
  UpdateAvailabilityInput, get_availability_for_hr, find_availability,
}
use hr_booking_server.Availability.Validator.{
  Formats, has_overlapping_intervals, update_availability_schema, working_day_schema, every,
  interval_schema, sort_intervals, insert_interval, has_clash, has_each_weekday_once,
}
use hr_booking_server.Availability.Disjoint.{IsDisjoint, has_overlapping_intervals_iff}
use hr_booking_server.Availability.Admitted.{IsAdmitted, update_availability_schema-IsAdmitted}
use hr_booking_server.Booking.Service.{create_booking}
use hr_booking_server.Booking.Create.{check_create-IsChecked}
use hr_booking_server.History
use hr_booking_server.History.{run}
use hr_booking_server.Diary.{DiaryStep, ask_reserve, diary}
use hr_booking_server.Diary.Runs.{asked, run-DiaryStep, create_booking-reserves}
use hr_booking_server.Scenarios.Data.{
  utc, nine_ms, ten_ms, nine, eleven, mornings, start_db, client, nine_input, profile_with,
}
use hr_booking_server.Scenarios.Calendar.{utc-HasMidnights, utc-KeepsDate}
use hr_booking_server.Scenarios.Bookings.{
  start-IsConsistent, start-HasDurations, nine_plan, nine_checked,
}

abbrev morning : WorkingInterval
morning = record { start = nine; end = eleven }

has_overlapping_intervals_iff_example :
    (has_overlapping_intervals (morning ∷ []) ≡ false) ↔ IsDisjoint (morning ∷ [])
unfolding time_to_minutes
has_overlapping_intervals_iff_example =
    has_overlapping_intervals_iff (morning ∷ []) ((540, 660, (refl, refl, omega arith)), tt)

abbrev lenient : Formats
lenient = record { is_date_key = λ d. true; is_timezone = λ z. true; text_length = λ t. 0 }

abbrev input : UpdateAvailabilityInput
input = record {
  timezone = "UTC";
  slot_duration_minutes = 60;
  buffer_minutes = 0;
  min_notice_minutes = 0;
  max_advance_days = 60;
  weekly_hours = mornings;
  blocked_dates = [];
}

update_availability_schema-IsAdmitted_example : IsAdmitted lenient input
unfolding update_availability_schema every working_day_schema interval_schema
    has_overlapping_intervals sort_intervals insert_interval has_clash has_each_weekday_once any
    matches_time_pattern time_to_minutes
update_availability_schema-IsAdmitted_example =
    update_availability_schema-IsAdmitted lenient input refl

run-DiaryStep_example :
    DiaryStep
      (ask_reserve 1 nine_ms)
      (diary start_db.bookings)
      (diary (run utc (History.create 0 client nine_input) start_db).bookings)
run-DiaryStep_example =
    run-DiaryStep utc (History.create 0 client nine_input) start_db
      (record { consistent = start-IsConsistent; durations = start-HasDurations })

create_booking-reserves_example :
    (b : Booking) × (after : Db) × (create_booking utc 0 client nine_input start_db
      ≡ returns b after)
    × (diary after.bookings
        ≡ diary start_db.bookings ++ asked client nine_input (profile_with published) start_db ∷ [])
unfolding diary keep get_availability_for_hr find_availability find_first
create_booking-reserves_example =
    create_booking-reserves utc 0 client nine_input start_db (profile_with published)
      start-IsConsistent start-HasDurations
      (check_create-IsChecked utc 0 client nine_input start_db nine_plan nine_checked).published
      refl (omega arith)
      (check_create-IsChecked utc 0 client nine_input start_db nine_plan nine_checked).offered tt

abbrev nine_slot : Slot
nine_slot = record { start_at = nine_ms; end_at = ten_ms }

abbrev ten_slot : Slot
ten_slot = record { start_at = ten_ms; end_at = 39_600_000 }

morning_shown :
    get_available_slots utc (get_availability_for_hr 2 start_db) 0 80_000_000 0 start_db
    ≡ ok (nine_slot ∷ ten_slot ∷ [])
unfolding get_available_slots get_availability_for_hr find_availability find_first Slot.assert_range
    Slot.busy_bookings Slot.generate_slots Slot.window Slot.sort_slots Slot.scan_days
    DateTime.date_keys_between utc Slot.scan_hours Slot.intervals_of DateTime.weekday_of_date_key
    any Slot.blocks_of keep Slot.scan_intervals Slot.scan_offsets Slot.try_offset Slot.is_blocked
    DateTime.add_days DateTime.add_minutes DateTime.date_keys_from DateTime.minutes_to_time
    DateTime.overlaps DateTime.time_to_minutes DateTime.wall_time_to_utc Slot.add_slot
    Slot.blocks_whole_day Slot.max_date Slot.min_date Slot.to_slot_config
morning_shown = refl

shown_slot-booked_example :
    (b : Booking) × (after : Db) × (create_booking utc 0 client nine_input start_db
      ≡ returns b after)
    × (diary after.bookings
        ≡ diary start_db.bookings ++ asked client nine_input (profile_with published) start_db ∷ [])
unfolding get_availability_for_hr find_availability find_first matches_time_pattern
shown_slot-booked_example =
    shown_slot-booked utc 0 80_000_000 0 client nine_input start_db (profile_with published)
      start-IsConsistent start-HasDurations
      (check_create-IsChecked utc 0 client nine_input start_db nine_plan nine_checked).published
      refl (omega arith) utc-HasMidnights utc-KeepsDate (((refl, refl), tt), tt)
      {slots = nine_slot ∷ ten_slot ∷ []} morning_shown {s = nine_slot} (Memᴰ.head refl)
      (omega arith) refl (λ b m. absurd (Memᴰ.not-nil m))
