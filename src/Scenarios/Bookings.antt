-- ===== src/Scenarios/Bookings.antt =====
-- Bookings of the concrete state.
use mathlib.Core.List.Memᴰ
use hr_booking_server.Base.{
  some, ◌≡◌, ap, refl, ◌↔◌, inl, inr, false, none, [], ◌∷◌, Memᴰ, arith, any, keep, find_first,
}
use hr_booking_server.DateTime
use hr_booking_server.Slot
use hr_booking_server.Availability
use hr_booking_server.DateTime.{overlaps}
use hr_booking_server.Constants.{CancelledBy, published}
use hr_booking_server.Errors.{ok}
use hr_booking_server.Models.{Booking}
use hr_booking_server.Store.{Db, returns, final}
use hr_booking_server.Booking.Checks.{
  Plan, CreateBookingInput, RescheduleBookingInput, check_create, check_cancel, check_reschedule,
  find_published, find_booking, assert_participant, assert_client_is_free,
  assert_consultant_is_free, find_overlapping_booking,
}
use hr_booking_server.Booking.Service.{
  create_booking, cancel_booking, reschedule_booking, new_booking,
}
use hr_booking_server.Booking.Frame.{emitted, created_effects}
use hr_booking_server.Booking.Invariant.{IsConsistent, IsSound}
use hr_booking_server.Booking.Create
use hr_booking_server.Booking.Create.{
  HasDurations, create_booking-returns, create_booking-IsConsistent,
}
use hr_booking_server.Booking.Cancel
use hr_booking_server.Booking.Cancel.{IsCancellable, check_cancel_iff, cancel_booking-IsConsistent}
use hr_booking_server.Booking.Reschedule
use hr_booking_server.Booking.Reschedule.{
  reschedule_booking-returns, reschedule_booking-IsConsistent,
}
use hr_booking_server.History
use hr_booking_server.History.{Reaches, run, no_double_booking, Reaches-IsSound}
use hr_booking_server.Reminder.{run_reminder, run_reminder-cancelled}
use hr_booking_server.Scenarios.Data.{
  utc, schedule, start_db, booked_db, nine_input, nine_booking, nine_ms, ten_ms, client,
  profile_with,
}

pub start-IsConsistent : IsConsistent 100 []
start-IsConsistent = record {
  sound = λ b m. absurd (Memᴰ.not-nil m);
  distinct = tt;
  compatible = λ b c m l d. absurd (Memᴰ.not-nil m);
}

pub start-HasDurations : HasDurations start_db
start-HasDurations = (omega arith, tt)

booked-IsSound : IsSound 101 nine_booking
booked-IsSound = record {
  fresh = omega arith;
  keyed = inl (refl, refl);
  spans = omega arith;
  few_moves = omega arith;
}

pub booked-IsConsistent : IsConsistent 101 (nine_booking ∷ [])
booked-IsConsistent = record {
  sound = λ b m. rw (Memᴰ.eq_of_singleton m) booked-IsSound;
  distinct = (tt, tt);
  compatible = λ b c m l d. absurd (d (rw (Memᴰ.eq_of_singleton m, Memᴰ.eq_of_singleton l)));
}

abbrev pub nine_plan : Plan
nine_plan = record { profile = profile_with published; availability = schedule; end_at = ten_ms }

pub nine_checked : check_create utc 0 client nine_input start_db ≡ ok nine_plan
unfolding check_create find_published Availability.get_availability_for_hr
    Availability.find_availability find_first Slot.is_offered_slot Slot.generate_slots Slot.window
    Slot.sort_slots Slot.scan_days DateTime.date_keys_between utc Slot.scan_hours Slot.intervals_of
    DateTime.weekday_of_date_key any Slot.blocks_of keep Slot.scan_intervals Slot.scan_offsets
    Slot.try_offset Slot.is_blocked DateTime.add_days DateTime.add_minutes DateTime.date_keys_from
    DateTime.minutes_to_time overlaps DateTime.time_to_minutes DateTime.wall_time_to_utc
    Slot.add_slot Slot.blocks_whole_day Slot.max_date Slot.min_date Slot.to_slot_config
    assert_client_is_free assert_consultant_is_free find_overlapping_booking
nine_checked = refl

create_booking-returns_example :
    create_booking utc 0 client nine_input start_db
    ≡ returns (new_booking client nine_input nine_plan 100) (
        emitted
          (Create.stored utc 0 client nine_input start_db start-IsConsistent start-HasDurations
            nine_plan nine_checked)
          (created_effects 0 (new_booking client nine_input nine_plan 100) (
            Create.stored utc 0 client nine_input start_db start-IsConsistent start-HasDurations
              nine_plan nine_checked)))
create_booking-returns_example =
    create_booking-returns utc 0 client nine_input start_db start-IsConsistent start-HasDurations
      nine_plan nine_checked

create_booking-IsConsistent_example :
    IsConsistent
      (final (create_booking utc 0 client nine_input start_db)).next_id
      (final (create_booking utc 0 client nine_input start_db)).bookings
create_booking-IsConsistent_example =
    create_booking-IsConsistent utc 0 client nine_input start_db start-IsConsistent
      start-HasDurations

check_cancel_iff_example :
    (check_cancel 0 client 100 booked_db ≡ ok (nine_booking, CancelledBy.user))
    ↔ IsCancellable 0 client 100 booked_db nine_booking CancelledBy.user
check_cancel_iff_example = check_cancel_iff 0 client 100 booked_db nine_booking CancelledBy.user

nine-IsCancellable : IsCancellable 0 client 100 booked_db nine_booking CancelledBy.user
unfolding find_booking find_first assert_participant
nine-IsCancellable = record {
  found = refl;
  participant = refl;
  active = refl;
  not_started = omega arith;
  in_time = inr (omega arith);
}

cancel_booking-IsConsistent_example :
    IsConsistent
      (final (cancel_booking 0 client 100 none booked_db)).next_id
      (final (cancel_booking 0 client 100 none booked_db)).bookings
cancel_booking-IsConsistent_example =
    cancel_booking-IsConsistent 0 client 100 none booked_db booked-IsConsistent

abbrev ten_input : RescheduleBookingInput
ten_input = record { start_at = ten_ms; timezone = none }

ten_checked :
    check_reschedule utc 0 client 100 ten_input booked_db
    ≡ ok (nine_booking, CancelledBy.user, schedule)
unfolding check_reschedule find_booking assert_participant Availability.get_availability_for_hr
    Availability.find_availability find_first Slot.is_offered_slot Slot.generate_slots Slot.window
    Slot.sort_slots Slot.scan_days DateTime.date_keys_between utc Slot.scan_hours Slot.intervals_of
    DateTime.weekday_of_date_key any Slot.blocks_of keep Slot.scan_intervals Slot.scan_offsets
    Slot.try_offset Slot.is_blocked DateTime.add_days DateTime.add_minutes DateTime.date_keys_from
    DateTime.minutes_to_time overlaps DateTime.time_to_minutes DateTime.wall_time_to_utc
    Slot.add_slot Slot.blocks_whole_day Slot.max_date Slot.min_date Slot.to_slot_config
    assert_client_is_free assert_consultant_is_free find_overlapping_booking
ten_checked = refl

reschedule_booking-returns_example :
    reschedule_booking utc 0 client 100 ten_input booked_db
    ≡ returns
        (record nine_booking {
          start_at = ten_ms;
          end_at = 39_600_000;
          slot_key = some (record { hr_user_id = 2; start_at = ten_ms });
          previous_start_at = some nine_ms;
          reschedule_count = 1;
        })
        (Reschedule.done utc 0 client 100 ten_input booked_db booked-IsConsistent start-HasDurations
          nine_booking CancelledBy.user schedule ten_checked)
unfolding DateTime.add_minutes
reschedule_booking-returns_example =
    reschedule_booking-returns utc 0 client 100 ten_input booked_db booked-IsConsistent
      start-HasDurations nine_booking CancelledBy.user schedule ten_checked

reschedule_booking-IsConsistent_example :
    IsConsistent
      (final (reschedule_booking utc 0 client 100 ten_input booked_db)).next_id
      (final (reschedule_booking utc 0 client 100 ten_input booked_db)).bookings
reschedule_booking-IsConsistent_example =
    reschedule_booking-IsConsistent utc 0 client 100 ten_input booked_db booked-IsConsistent
      start-HasDurations

abbrev nine_state : Db
nine_state =
    emitted
      (Create.stored utc 0 client nine_input start_db start-IsConsistent start-HasDurations
        nine_plan nine_checked)
      (created_effects 0 (new_booking client nine_input nine_plan 100) (
        Create.stored utc 0 client nine_input start_db start-IsConsistent start-HasDurations
          nine_plan nine_checked))

nine_run : final (create_booking utc 0 client nine_input start_db) ≡ nine_state
nine_run = ap final (
    create_booking-returns utc 0 client nine_input start_db start-IsConsistent start-HasDurations
      nine_plan nine_checked)

nine-IsConsistent : IsConsistent nine_state.next_id nine_state.bookings
nine-IsConsistent = rw nine_run at (
    create_booking-IsConsistent utc 0 client nine_input start_db start-IsConsistent
      start-HasDurations)

abbrev ten_create : CreateBookingInput
ten_create = record nine_input { start_at = ten_ms }

abbrev ten_plan : Plan
ten_plan = record nine_plan { end_at = 39_600_000 }

abbrev ten_booking : Booking
ten_booking = new_booking client ten_create ten_plan 101

second_checked : check_create utc 0 client ten_create nine_state ≡ ok ten_plan
unfolding check_create find_published Availability.get_availability_for_hr
    Availability.find_availability find_first Slot.is_offered_slot Slot.generate_slots Slot.window
    Slot.sort_slots Slot.scan_days DateTime.date_keys_between utc Slot.scan_hours Slot.intervals_of
    DateTime.weekday_of_date_key any Slot.blocks_of keep Slot.scan_intervals Slot.scan_offsets
    Slot.try_offset Slot.is_blocked DateTime.add_days DateTime.add_minutes DateTime.date_keys_from
    DateTime.minutes_to_time overlaps DateTime.time_to_minutes DateTime.wall_time_to_utc
    Slot.add_slot Slot.blocks_whole_day Slot.max_date Slot.min_date Slot.to_slot_config
    assert_client_is_free assert_consultant_is_free find_overlapping_booking
second_checked = refl

two_state : Db
two_state = final (create_booking utc 0 client ten_create nine_state)

two_reached : Reaches utc start_db two_state
unfolding two_state
two_reached =
    Reaches.then_call (History.create 0 client ten_create)
      (rw (← nine_run) (Reaches.then_call (History.create 0 client nine_input) Reaches.here tt)) tt

two_stored :
    Memᴰ (new_booking client nine_input nine_plan 100) two_state.bookings
    × Memᴰ ten_booking two_state.bookings
unfolding two_state
two_stored =
    rw
      (create_booking-returns utc 0 client ten_create nine_state nine-IsConsistent
        start-HasDurations ten_plan second_checked)
      (Memᴰ.head refl, Memᴰ.tail (Memᴰ.head refl))

Reaches-IsSound_example : IsSound two_state.next_id ten_booking
Reaches-IsSound_example =
    Reaches-IsSound utc start_db two_state refl start-HasDurations two_reached ten_booking
      two_stored.1

no_double_booking_example : overlaps nine_ms ten_ms ten_ms 39_600_000 ≡ false
no_double_booking_example =
    no_double_booking utc start_db two_state refl start-HasDurations two_reached
      (new_booking client nine_input nine_plan 100) ten_booking two_stored.0 two_stored.1
      (omega arith) refl refl (inl refl)

run_reminder-cancelled_example :
    run_reminder 5 100 (final (cancel_booking 0 client 100 none booked_db))
    ≡ returns tt (final (cancel_booking 0 client 100 none booked_db))
run_reminder-cancelled_example =
    run_reminder-cancelled 0 5 client 100 none booked_db nine_booking CancelledBy.user
      nine-IsCancellable
