-- ===== src/Booking/Reschedule.antt =====
-- `rescheduleBooking` of src/services/booking.service.ts.
use hr_booking_server.Base.{
  ℕ, suc, ◌<◌, ◌≡◌, refl, ◌≢◌, inl, true, ◌&&◌, none, some, Memᴰ, arith, ◌==◌, find_first,
  find_first-some, find_first-change, find_first-and, change,
}
use hr_booking_server.DateTime.{Luxon, add_minutes}
use hr_booking_server.Constants.{CancelledBy, reschedule_max}
use hr_booking_server.Errors.{app, AppError, Result, ok, err}
use hr_booking_server.Models.{Booking, Availability}
use hr_booking_server.Store.{Db, returns, throws, final}
use hr_booking_server.Slot.{is_offered_slot}
use hr_booking_server.Availability.{get_availability_for_hr}
use hr_booking_server.Booking.Checks.{
  Actor, RescheduleBookingInput, check_reschedule, find_booking, assert_participant, is_active,
  find_overlapping_booking, of_client, of_consultant, assert_client_is_free,
  assert_consultant_is_free,
}
use hr_booking_server.Booking.Service.{
  moved_booking, or_value, move_booking, reschedule_booking, get_booking_for_actor, build_slot_key,
}
use hr_booking_server.Booking.Invariant.{IsCompatible, IsSound, IsConsistent, IsConsistent-change}
use hr_booking_server.Booking.Free.{find_overlapping_booking-IsCompatible, IsCompatible-is_key_held}
use hr_booking_server.Booking.Create.{HasDurations, get_availability_for_hr-duration}
use hr_booking_server.Booking.Frame.{
  emitted, rescheduled_effects, dispatch_booking_rescheduled-emitted,
}

module _ (lux : Luxon) (now : ℕ) (actor : Actor) (booking_id : ℕ) (input : RescheduleBookingInput)
    (db : Db) where
  -- What a move has been checked for.
  pub record IsMovable (booking : Booking) (role : CancelledBy) (availability : Availability)
      : Type 0 where
    pub found : find_booking booking_id db ≡ some booking
    pub participant : assert_participant actor booking ≡ ok role
    pub active : is_active booking ≡ true
    pub not_started : now < booking.start_at
    pub moves_left : booking.reschedule_count < reschedule_max
    pub other_time : input.start_at ≢ booking.start_at
    pub schedule : availability ≡ get_availability_for_hr booking.hr_user_id db
    pub offered : is_offered_slot lux availability input.start_at now ≡ true
    pub client_free :
        find_overlapping_booking
          (of_client booking.user_id)
          input.start_at
          (add_minutes input.start_at availability.slot_duration_minutes)
          (some booking.id)
          db
        ≡ none
    pub consultant_free :
        find_overlapping_booking
          (of_consultant booking.hr_user_id)
          input.start_at
          (add_minutes input.start_at availability.slot_duration_minutes)
          (some booking.id)
          db
        ≡ none

  pub check_reschedule-IsMovable :
      (booking : Booking) (role : CancelledBy) (availability : Availability)
      → check_reschedule lux now actor booking_id input db ≡ ok (booking, role, availability)
      → IsMovable booking role availability
  unfolding check_reschedule assert_client_is_free assert_consultant_is_free
  check_reschedule-IsMovable booking role availability e = ground arith

  pub check_reschedule-refused :
      (e : AppError)
      → check_reschedule lux now actor booking_id input db ≡ err e
      → reschedule_booking lux now actor booking_id input db ≡ throws (app e) db
  unfolding reschedule_booking
  check_reschedule-refused e h = rw h

  module _ (consistent : IsConsistent db.next_id db.bookings) (durations : HasDurations db)
      (booking : Booking) (role : CancelledBy) (availability : Availability)
      (checked : check_reschedule lux now actor booking_id input db
        ≡ ok (booking, role, availability)) where
    -- The booking as it was, but at the new time, under the key of that time, and moved once more.
    abbrev pub moved : Booking
    moved = record booking {
      start_at = input.start_at;
      end_at = add_minutes input.start_at availability.slot_duration_minutes;
      duration_minutes = availability.slot_duration_minutes;
      hr_timezone = availability.timezone;
      user_timezone = or_value input.timezone booking.user_timezone;
      slot_key = some (record { hr_user_id = booking.hr_user_id; start_at = input.start_at });
      previous_start_at = some booking.start_at;
      reschedule_count = suc booking.reschedule_count;
    }

    abbrev pub stored : Db
    stored = record db { bookings = change (λ c. c.id == booking.id) (λ _. moved) db.bookings }

    abbrev pub done : Db
    done = emitted stored (rescheduled_effects now moved booking.start_at stored)

    facts : IsMovable booking role availability
    facts = check_reschedule-IsMovable booking role availability checked

    same_id : booking.id ≡ booking_id
    unfolding find_booking
    same_id = ground (arith, find_first-some _ _ _ facts.found)

    pub spans : moved.start_at < moved.end_at
    unfolding add_minutes
    spans =
        let long : 0 < availability.slot_duration_minutes =
          rw facts.schedule (get_availability_for_hr-duration booking.hr_user_id db durations) in
        omega arith

    pub compatible : (c : Booking) → Memᴰ c db.bookings → c.id ≢ booking.id → IsCompatible moved c
    compatible c m d =
        find_overlapping_booking-IsCompatible db moved (some booking.id) facts.client_free
          facts.consultant_free c m (λ e. d (ground arith))

    found_active : find_first (λ b. b.id == booking.id && is_active b) db.bookings ≡ some booking
    unfolding find_booking
    found_active =
        find_first-and (λ (b : Booking). b.id == booking.id) is_active db.bookings
          (rw (← same_id) at facts.found) facts.active

    move_booking-stored :
        move_booking booking.id (moved_booking input availability) db ≡ returns (some moved) stored
    unfolding move_booking build_slot_key
    move_booking-stored = rw (
      found_active,
      IsCompatible-is_key_held db.next_id db.bookings moved consistent facts.active spans
          compatible,
    )

    find_moved : find_booking booking.id done ≡ some moved
    unfolding find_booking
    find_moved =
        find_first-change (λ (b : Booking). b.id == booking.id) moved db.bookings (ground arith)
          (rw (← same_id) at facts.found)

    get_moved : get_booking_for_actor actor booking.id done ≡ returns moved done
    unfolding get_booking_for_actor assert_participant
    get_moved = rw (find_moved, facts.participant)

    -- From a consistent state with slot durations that are not zero, a booking that passes the checks is
    -- moved: it starts at the time asked for, lasts one slot of the schedule, has the schedule's zone, the
    -- key of the consultant and the new start, and its former start, and counts one move more; neither the unique index nor the status in the update's query
    -- turns the move away, the meeting's update, the new reminder and two emails are handed on, and the
    -- call returns the moved booking.
    pub reschedule_booking-returns :
        reschedule_booking lux now actor booking_id input db ≡ returns moved done
    unfolding reschedule_booking
    reschedule_booking-returns = rw (
      checked,
      move_booking-stored,
      dispatch_booking_rescheduled-emitted now moved booking.start_at,
      get_moved,
    )

    moved-IsSound : IsSound db.next_id moved
    unfolding find_booking build_slot_key
    moved-IsSound =
        let old = consistent.sound booking (find_first-some _ _ _ facts.found).0 in
        record {
          fresh = old.fresh;
          keyed = inl (facts.active, refl);
          spans = spans;
          few_moves = facts.moves_left;
        }

    stored-IsConsistent : IsConsistent db.next_id stored.bookings
    stored-IsConsistent =
        IsConsistent-change (λ c. c.id == booking.id) (λ _. moved) (λ b e. ground arith) db.next_id
          db.bookings consistent (λ b m e. moved-IsSound)
          (λ b c m l p q d. compatible c l (ground arith)) (λ b c m l p q d. absurd (ground arith))

-- With slot durations that are not zero, `rescheduleBooking`, whether it returns or throws, keeps the bookings consistent; in particular a
-- booking is moved at most three times.
pub reschedule_booking-IsConsistent :
    (lux : Luxon) (now : ℕ) (actor : Actor) (booking_id : ℕ) (input : RescheduleBookingInput)
    (db : Db)
    → IsConsistent db.next_id db.bookings
    → HasDurations db
    → IsConsistent
        (final (reschedule_booking lux now actor booking_id input db)).next_id
        (final (reschedule_booking lux now actor booking_id input db)).bookings
reschedule_booking-IsConsistent lux now actor booking_id input db h d =
    split (check_reschedule lux now actor booking_id input db) refl
  where
    split :
        (r : Result (Booking × CancelledBy × Availability))
        → check_reschedule lux now actor booking_id input db ≡ r
        → IsConsistent
            (final (reschedule_booking lux now actor booking_id input db)).next_id
            (final (reschedule_booking lux now actor booking_id input db)).bookings
    split (ok (booking, role, availability)) e =
        rw
          (reschedule_booking-returns lux now actor booking_id input db h d booking role
            availability e)
          (stored-IsConsistent lux now actor booking_id input db h d booking role availability e)
    split (err x) e = rw (check_reschedule-refused lux now actor booking_id input db x e) h

pub reschedule_booking-availabilities :
    (lux : Luxon) (now : ℕ) (actor : Actor) (booking_id : ℕ) (input : RescheduleBookingInput)
    (db : Db)
    → IsConsistent db.next_id db.bookings
    → HasDurations db
    → (final (reschedule_booking lux now actor booking_id input db)).availabilities
      ≡ db.availabilities
reschedule_booking-availabilities lux now actor booking_id input db h d =
    split (check_reschedule lux now actor booking_id input db) refl
  where
    split :
        (r : Result (Booking × CancelledBy × Availability))
        → check_reschedule lux now actor booking_id input db ≡ r
        → (final (reschedule_booking lux now actor booking_id input db)).availabilities
          ≡ db.availabilities
    split (ok (booking, role, availability)) e = rw (
        reschedule_booking-returns lux now actor booking_id input db h d booking role availability
          e)
    split (err x) e = rw (check_reschedule-refused lux now actor booking_id input db x e)
