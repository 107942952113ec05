-- ===== src/Booking/Contention/Stays.antt =====
-- Which of two concurrent calls of `createBooking` keeps its booking.

use hr_booking_server.Base.{
  ℕ, ◌≡◌, refl, ◌≢◌, true, none, List, ◌++◌, Memᴰ, arith, All-mem, All-of_mem, find_first-none,
}
use hr_booking_server.DateTime.{Luxon, overlaps}
use hr_booking_server.Errors.{ok}
use hr_booking_server.Models.{Availability, Booking}
use hr_booking_server.Store.{Db}
use hr_booking_server.Booking.Checks.{
  Actor, CreateBookingInput, Plan, check_create, find_overlapping_booking,
}
use hr_booking_server.Booking.Service.{new_booking}
use hr_booking_server.Booking.Invariant.{IsConsistent}
use hr_booking_server.Booking.Free.{find_overlapping_booking-IsCompatible, IsCompatible-is_key_held}
use hr_booking_server.Booking.Create.{HasDurations, check_create-IsChecked, spans}
use hr_booking_server.Booking.Contention.{
  Schedule, contend, IsAnswered, if_kept, first_stays, second_stays,
}
use hr_booking_server.Booking.Contention.Sweeps.{IsFree, contend-Answered}

-- A document of a call whose checks have passed, with an id that no booking has.
module _ (lux : Luxon) (now : ℕ) (db : Db) (consistent : IsConsistent db.next_id db.bookings)
    (durations : HasDurations db) (actor : Actor) (input : CreateBookingInput) (plan : Plan)
    (checked : check_create lux now actor input db ≡ ok plan) (id : ℕ)
    (fresh : (c : Booking) → Memᴰ c db.bookings → c.id ≢ id) where
  checked-IsFree : IsFree db.bookings (new_booking actor input plan id)
  unfolding find_overlapping_booking
  checked-IsFree =
      let facts = check_create-IsChecked lux now actor input db plan checked in
      let b = new_booking actor input plan id in
      record {
        clear = All-of_mem _ db.bookings λ c m.
            let missed =
              All-mem _ db.bookings (find_first-none _ db.bookings facts.consultant_free) m in
            ground (arith, missed);
        key_free =
            IsCompatible-is_key_held db.next_id db.bookings b consistent refl
              (spans lux now actor input db consistent durations plan checked)
              (λ c m d.
                find_overlapping_booking-IsCompatible db b none facts.client_free
                  facts.consultant_free c m (λ e. cc));
        fresh = All-of_mem _ db.bookings λ c m. ground (arith, fresh c m);
        keyed = refl;
      }

-- Two calls of `createBooking` for times of one consultant that meet, which have both passed their
-- checks on the same consistent bookings, with slot durations that are not zero, and have drawn
-- different fresh ids; the schedules may have changed between the two checks. The index and the sweeps leave exactly one of the bookings, and the other call is refused as a
-- taken slot, in every order of the second insert and the sweeps, except that both stay where the call
-- that inserts second has drawn the smaller id, asks for another start, and inserts only after the sweep of the first. The
-- first to insert stays if its id is the smaller one or the starts are the same, and otherwise the second.
pub contend-stays :
    (lux : Luxon) (now : ℕ) (db : Db)
    → IsConsistent db.next_id db.bookings
    → HasDurations db
    → (schedules : List Availability) → HasDurations (record db { availabilities = schedules })
    → (actor other : Actor) (input second_input : CreateBookingInput) (plan second_plan : Plan)
      (id second_id : ℕ)
    → check_create lux now actor input db ≡ ok plan
    → check_create lux now other second_input (record db { availabilities = schedules })
      ≡ ok second_plan
    → plan.profile.user_id ≡ second_plan.profile.user_id
    → overlaps input.start_at plan.end_at second_input.start_at second_plan.end_at ≡ true
    → ((c : Booking) → Memᴰ c db.bookings → (c.id ≢ id) × (c.id ≢ second_id))
    → id ≢ second_id
    → (s : Schedule)
    → let a = new_booking actor input plan id in
      let b = new_booking other second_input second_plan second_id in
      let contest = contend a b s db in
      IsAnswered (first_stays a b s) a contest.first
      × IsAnswered (second_stays a b) b contest.second
      × (contest.bookings
          ≡ db.bookings ++ (if_kept (first_stays a b s) a ++ if_kept (second_stays a b) b))
unfolding overlaps
contend-stays lux now db h d schedules e actor other input second_input plan second_plan id
      second_id checked second_checked same meet fresh differ s =
    contend-Answered db (new_booking actor input plan id)
      (new_booking other second_input second_plan second_id)
      (checked-IsFree lux now db h d actor input plan checked id (λ c m. (fresh c m).0))
      (checked-IsFree lux now (record db { availabilities = schedules }) h e other second_input
        second_plan second_checked second_id (λ c m. (fresh c m).1))
      differ same (ground (arith, meet, same, differ)) (ground (arith, meet, same, differ)) s
