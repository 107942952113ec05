-- ===== src/Diary/Shown.antt =====
-- From the slots that src/services/slot.service.ts shows to the bookings of
-- src/services/booking.service.ts.
use hr_booking_server.Base.{
  ℕ, ◌≡◌, refl, sym, ◌∙◌, ◌≤◌, ◌≢◌, inl, inr, true, false, some, List, [], ◌∷◌, ◌++◌, Memᴰ, All,
  arith, ltb, Bool-cases, Option-cases, find_first-some,
}
use hr_booking_server.DateTime.{Luxon, overlaps}
use hr_booking_server.DateTime.Days.{HasMidnights}
use hr_booking_server.Errors.{ok}
use hr_booking_server.Models.{Booking, HrProfile, Availability}
use hr_booking_server.Store.{Db, returns}
use hr_booking_server.Slot.{Slot, get_available_slots}
use hr_booking_server.Slot.Public.{
  KeepsDate, HasValidTimes, get_available_slots-free, get_available_slots-is_offered_slot,
  get_available_slots-length,
}
use hr_booking_server.Availability.{get_availability_for_hr, find_availability}
use hr_booking_server.Booking.Checks.{Actor, CreateBookingInput, is_active, find_published}
use hr_booking_server.Booking.Service.{create_booking}
use hr_booking_server.Booking.Invariant.{IsConsistent}
use hr_booking_server.Booking.Create.{HasDurations, get_availability_for_hr-duration}
use hr_booking_server.Diary.{IsClear, diary}
use hr_booking_server.Diary.Refines.{All-diary}
use hr_booking_server.Diary.Runs.{asked, create_booking-reserves}

get_availability_for_hr-owner : (id : ℕ) (db : Db) → (get_availability_for_hr id db).hr_user_id ≡ id
unfolding get_availability_for_hr find_availability
get_availability_for_hr-owner id db = elim (Option-cases (find_availability id db)) [
  | inl e ↦ rw (e, find_availability) refl
  | inr (a, e) ↦ rw (e, find_availability) (ground (arith, find_first-some _ _ a e))
]

module _ (lux : Luxon) (from to now : ℕ) (actor : Actor) (input : CreateBookingInput) (db : Db)
    (profile : HrProfile) where
  abbrev schedule : Availability
  schedule = get_availability_for_hr profile.user_id db

  -- A slot that is shown and ends within the range is clear in the diary, if the client is free.
  shown-IsClear :
      HasDurations db
      → {slots : List Slot} → get_available_slots lux schedule from to now db ≡ ok slots
      → {s : Slot} → Memᴰ s slots
      → s.end_at ≤ to
      → input.start_at ≡ s.start_at
      → ((b : Booking)
          → Memᴰ b db.bookings
          → is_active b ≡ true
          → b.user_id ≡ actor.id
          → overlaps s.start_at s.end_at b.start_at b.end_at ≡ false)
      → All (IsClear (asked actor input profile db)) (diary db.bookings)
  unfolding overlaps
  shown-IsClear durations shown {s} m fits start free =
      let pos = get_availability_for_hr-duration profile.user_id db durations in
      let length = get_available_slots-length lux schedule from to now db pos shown m in
      All-diary db.bookings (asked actor input profile db) λ b n active shared.
        rw (start, ← length)
          (elim shared [
            | inr client ↦ free b n active (sym client)
            | inl consultant ↦ elim (Bool-cases (ltb b.start_at to)) [
              | inl early ↦
                  get_available_slots-free lux schedule from to now db pos shown m b n
                    (sym consultant ∙ sym (get_availability_for_hr-owner profile.user_id db)) active
                    (ground (arith, early))
              | inr late ↦ ground (arith, late, fits)
            ]
          ])

  -- What a client is shown can be booked. In a consistent state with slot durations that are not zero, where
  -- the profile is published and takes bookings, the client is someone else, the zone's days begin at midnight, luxon keeps
  -- the date of a wall time and the schedule has valid times: a slot that `getAvailableSlots` shows and that
  -- ends within the range, and in which the client has no active booking, is booked by
  -- `createBooking` at the same moment, and joins the diary.
  pub shown_slot-booked :
      IsConsistent db.next_id db.bookings
      → HasDurations db
      → find_published input.profile_id db ≡ some profile
      → profile.is_available ≡ true
      → profile.user_id ≢ actor.id
      → HasMidnights lux schedule.timezone
      → KeepsDate lux schedule.timezone
      → HasValidTimes schedule.weekly_hours
      → {slots : List Slot} → get_available_slots lux schedule from to now db ≡ ok slots
      → {s : Slot} → Memᴰ s slots
      → s.end_at ≤ to
      → input.start_at ≡ s.start_at
      → ((b : Booking)
          → Memᴰ b db.bookings
          → is_active b ≡ true
          → b.user_id ≡ actor.id
          → overlaps s.start_at s.end_at b.start_at b.end_at ≡ false)
      → (b : Booking) × (after : Db) × (create_booking lux now actor input db ≡ returns b after)
        × (diary after.bookings ≡ diary db.bookings ++ asked actor input profile db ∷ [])
  shown_slot-booked consistent durations published accepting other law dates valid shown m fits
        start free =
      let pos = get_availability_for_hr-duration profile.user_id db durations in
      let offered =
        get_available_slots-is_offered_slot lux schedule from to now db pos shown m law dates
          valid in
      create_booking-reserves lux now actor input db profile consistent durations published
        accepting other (rw start offered) (shown-IsClear durations shown m fits start free)
