-- ===== src/History.antt =====
-- Histories of the bookings: sequences of the calls that write bookings or schedules, each at its own
-- time and by any actor, whether it returns or throws.
use mathlib.Core.List.Memᴰ
use hr_booking_server.Base.{
  ℕ, ◌<◌, ◌≡◌, refl, ◌≢◌, inl, inr, true, false, Option, String, [], Memᴰ, arith, All-append,
  All-change, Option-cases,
}
use hr_booking_server.DateTime.{Luxon, overlaps}
use hr_booking_server.Models.{Booking}
use hr_booking_server.Store.{Db, final}
use hr_booking_server.Availability.{
  UpdateAvailabilityInput, update_availability, get_or_create_availability, find_availability,
}
use hr_booking_server.Booking.Checks.{Actor, CreateBookingInput, RescheduleBookingInput, is_active}
use hr_booking_server.Booking.Service.{create_booking, cancel_booking, reschedule_booking}
use hr_booking_server.Booking.Invariant.{IsConsistent, IsSound, Shares}
use hr_booking_server.Booking.Create.{
  HasDurations, create_booking-availabilities, create_booking-IsConsistent,
}
use hr_booking_server.Booking.Cancel.{cancel_booking-availabilities, cancel_booking-IsConsistent}
use hr_booking_server.Booking.Reschedule.{
  reschedule_booking-availabilities, reschedule_booking-IsConsistent,
}
use hr_booking_server.Lifecycle.{sweep, sweep-IsConsistent}

pub data Call : Type 0 where
  create : ℕ → Actor → CreateBookingInput → Call
  cancel : ℕ → Actor → ℕ → Option String → Call
  reschedule : ℕ → Actor → ℕ → RescheduleBookingInput → Call
  complete : ℕ → Call
  update : ℕ → UpdateAvailabilityInput → Call

module _ (lux : Luxon) where
  abbrev pub run : Call → Db → Db
  run (create now actor input) db = final (create_booking lux now actor input db)
  run (cancel now actor id reason) db = final (cancel_booking now actor id reason db)
  run (reschedule now actor id input) db = final (reschedule_booking lux now actor id input db)
  run (complete now) db = final (sweep now db)
  run (update hr_user_id input) db = final (update_availability hr_user_id input db)

  -- The validator admits slot durations from a list without 0.
  abbrev pub IsValidated : Call → Type 0
  IsValidated (update hr_user_id input) = 0 < input.slot_duration_minutes
  IsValidated _ = Unit

  pub data Reaches (start : Db) : Db → Type 0 where
    here : Reaches start start
    then_call :
        {db : Db} (call : Call) → Reaches start db → IsValidated call → Reaches start (run call db)

  pub record IsGood (db : Db) : Type 0 where
    pub consistent : IsConsistent db.next_id db.bookings
    pub durations : HasDurations db

empty-IsConsistent : (next_id : ℕ) → IsConsistent next_id []
empty-IsConsistent next_id = record {
  sound = λ b m. absurd (Memᴰ.not-nil m);
  distinct = tt;
  compatible = λ b c m l d. absurd (Memᴰ.not-nil m);
}

pub update_availability-bookings :
    (hr_user_id : ℕ) (input : UpdateAvailabilityInput) (db : Db)
    → ((final (update_availability hr_user_id input db)).bookings ≡ db.bookings)
      × ((final (update_availability hr_user_id input db)).next_id ≡ db.next_id)
unfolding update_availability get_or_create_availability
update_availability-bookings hr_user_id input db =
    elim (Option-cases (find_availability hr_user_id db)) [
      | inl e ↦ rw e (refl, refl)
      | inr (a, e) ↦ rw e (refl, refl)
    ]

update_availability-HasDurations :
    (hr_user_id : ℕ) (input : UpdateAvailabilityInput) (db : Db)
    → 0 < input.slot_duration_minutes
    → HasDurations db
    → HasDurations (final (update_availability hr_user_id input db))
unfolding update_availability get_or_create_availability
update_availability-HasDurations hr_user_id input db l h =
    elim (Option-cases (find_availability hr_user_id db)) [
      | inl e ↦
          rw e
            (All-change _ _ _ _ (λ _ _ _. l) (All-append _ db.availabilities _ h (omega arith, tt)))
      | inr (a, e) ↦ rw e (All-change _ _ _ _ (λ _ _ _. l) h)
    ]

module _ (lux : Luxon) where
  pub run-IsGood :
      (call : Call) (db : Db) → IsValidated lux call → IsGood lux db → IsGood lux (run lux call db)
  unfolding sweep
  run-IsGood (create now actor input) db v h = record {
    consistent = create_booking-IsConsistent lux now actor input db h.consistent h.durations;
    durations =
        rw (create_booking-availabilities lux now actor input db h.consistent h.durations)
          h.durations;
  }
  run-IsGood (cancel now actor id reason) db v h = record {
    consistent = cancel_booking-IsConsistent now actor id reason db h.consistent;
    durations = rw (cancel_booking-availabilities now actor id reason db) h.durations;
  }
  run-IsGood (reschedule now actor id input) db v h = record {
    consistent = reschedule_booking-IsConsistent lux now actor id input db h.consistent h.durations;
    durations =
        rw (reschedule_booking-availabilities lux now actor id input db h.consistent h.durations)
          h.durations;
  }
  run-IsGood (complete now) db v h = record {
    consistent = sweep-IsConsistent now db h.consistent;
    durations = h.durations;
  }
  run-IsGood (update hr_user_id input) db v h =
      let (same, next) = update_availability-bookings hr_user_id input db in
      record {
        consistent = rw (same, next) h.consistent;
        durations = update_availability-HasDurations hr_user_id input db v h.durations;
      }

  pub Reaches-IsGood : (start db : Db) → IsGood lux start → Reaches lux start db → IsGood lux db
  Reaches-IsGood start db h here = h
  Reaches-IsGood start db h (then_call {db = d} call r v) =
      run-IsGood call d v (Reaches-IsGood start d h r)

  from_empty :
      (start db : Db)
      → start.bookings ≡ []
      → HasDurations start
      → Reaches lux start db
      → IsGood lux db
  from_empty start db empty d r =
      Reaches-IsGood start db
        (record { consistent = rw empty (empty-IsConsistent start.next_id); durations = d }) r

  -- From a state without bookings and with slot durations that are not zero, no history leads to a double booking: two
  -- active bookings with different ids that share the consultant or the client never overlap.
  pub no_double_booking :
      (start db : Db)
      → start.bookings ≡ []
      → HasDurations start
      → Reaches lux start db
      → (b c : Booking) → Memᴰ b db.bookings
      → Memᴰ c db.bookings
      → b.id ≢ c.id
      → is_active b ≡ true
      → is_active c ≡ true
      → Shares b c
      → overlaps b.start_at b.end_at c.start_at c.end_at ≡ false
  no_double_booking start db empty d r b c m l =
      (from_empty start db empty d r).consistent.compatible b c m l

  -- In every state of such a history a booking was moved at most three times, and it holds the slot
  -- key of its consultant and start exactly while it is active.
  pub Reaches-IsSound :
      (start db : Db)
      → start.bookings ≡ []
      → HasDurations start
      → Reaches lux start db
      → (b : Booking) → Memᴰ b db.bookings
      → IsSound db.next_id b
  Reaches-IsSound start db empty d r = (from_empty start db empty d r).consistent.sound
