-- ===== src/Diary/Runs.antt =====
-- Histories of calls as histories of the diary, and the reservation that a client asks for.
use hr_booking_server.Base.{
  ℕ, ◌≡◌, refl, ◌≢◌, inl, inr, true, false, some, none, [], ◌∷◌, ◌++◌, All, All-mem, All-of_mem,
  ◌==◌, arith, Bool-cases, find_first-eq-none,
}
use hr_booking_server.DateTime.{Luxon, overlaps, add_minutes}
use hr_booking_server.Errors.{ok}
use hr_booking_server.Models.{Booking, HrProfile}
use hr_booking_server.Store.{Db, returns}
use hr_booking_server.Slot.{is_offered_slot}
use hr_booking_server.Availability.{get_availability_for_hr}
use hr_booking_server.Booking.Checks.{
  Actor, CreateBookingInput, Plan, is_active, check_create, find_published,
  find_overlapping_booking, Owner, of_client, of_consultant, owns, assert_client_is_free,
  assert_consultant_is_free,
}
use hr_booking_server.Booking.Service.{create_booking}
use hr_booking_server.Booking.Invariant.{IsConsistent}
use hr_booking_server.Booking.Create.{HasDurations, booked, create_booking-returns}
use hr_booking_server.History.{
  Call, create, cancel, reschedule, complete, update, run, IsGood, Reaches, here, then_call,
  Reaches-IsGood, update_availability-bookings,
}
use hr_booking_server.Diary.{
  Appointment, Diary, Ask, ask_reserve, ask_move, ask_release, ask_expire, ask_nothing, DiaryStep,
  idle, IsClear, HasPersonOf, diary, appointment,
}
use hr_booking_server.Diary.Views.{diary-append, mem-diary}
use hr_booking_server.Diary.Refines.{
  create_booking-DiaryStep, reschedule_booking-DiaryStep, cancel_booking-DiaryStep, sweep-DiaryStep,
}

pub data DiarySteps (start : Diary) : Diary → Type 0 where
  unchanged : DiarySteps start start
  then_step :
      {d e : Diary} → DiarySteps start d → {ask : Ask} → DiaryStep ask d e → DiarySteps start e

-- What a call asks of the diary.
abbrev pub ask_of : Call → Ask
ask_of (create now actor input) = ask_reserve actor.id input.start_at
ask_of (cancel now actor id reason) = ask_release id
ask_of (reschedule now actor id input) = ask_move id input.start_at
ask_of (complete now) = ask_expire now
ask_of (update hr_user_id input) = ask_nothing

module _ (lux : Luxon) where
  -- In a good state, every call of a history, whether it returns or throws, answers in the diary of active bookings to what it asks for as the
  -- abstract diary may. A creation reserves the time asked for, for the actor and clear of their and the consultant's other appointments, or changes
  -- nothing; a reschedule moves the appointment named to the time asked for, clear of the others, or
  -- changes nothing; a cancellation releases the appointment named and no other, or changes nothing; the sweep
  -- drops exactly the appointments that are over at its clock; and a schedule's update changes nothing.
  pub run-DiaryStep :
      (call : Call) (db : Db)
      → IsGood lux db
      → DiaryStep (ask_of call) (diary db.bookings) (diary (run lux call db).bookings)
  run-DiaryStep (create now actor input) db h =
      create_booking-DiaryStep lux now actor input db h.consistent h.durations
  run-DiaryStep (cancel now actor id reason) db h = cancel_booking-DiaryStep now actor id reason db
  run-DiaryStep (reschedule now actor id input) db h =
      reschedule_booking-DiaryStep lux now actor id input db h.consistent h.durations
  run-DiaryStep (complete now) db h = sweep-DiaryStep now db
  run-DiaryStep (update hr_user_id input) db h =
      rw (update_availability-bookings hr_user_id input db).0 (idle refl)

  -- From a good state, every history of calls is a history of the abstract diary.
  pub Reaches-DiarySteps :
      (start db : Db)
      → IsGood lux start
      → Reaches lux start db
      → DiarySteps (diary start.bookings) (diary db.bookings)
  Reaches-DiarySteps start db h here = unchanged
  Reaches-DiarySteps start db h (then_call {db = d} call r v) =
      then_step (Reaches-DiarySteps start d h r)
        (run-DiaryStep call d (Reaches-IsGood lux start d h r))

-- The appointment that a client asks for.
abbrev pub asked : Actor → CreateBookingInput → HrProfile → Db → Appointment
asked actor input profile db = record {
  id = db.next_id;
  client = actor.id;
  consultant = profile.user_id;
  start_at = input.start_at;
  end_at =
      add_minutes input.start_at (get_availability_for_hr profile.user_id db).slot_duration_minutes;
}

abbrev IsHolder : Owner → Appointment → Type 0
IsHolder (of_client id) a = id ≡ a.client
IsHolder (of_consultant id) a = id ≡ a.consultant

owns-HasPersonOf :
    (owner : Owner) (a : Appointment) (b : Booking)
    → IsHolder owner a
    → owns owner b ≡ true
    → HasPersonOf a (appointment b)
owns-HasPersonOf (of_client id) a b h e = inr (ground (arith, h, e))
owns-HasPersonOf (of_consultant id) a b h e = inl (ground (arith, h, e))

-- A time that is clear in the diary is found free.
IsClear-free :
    (owner : Owner) (a : Appointment) (db : Db)
    → IsHolder owner a
    → All (IsClear a) (diary db.bookings)
    → find_overlapping_booking owner a.start_at a.end_at none db ≡ none
unfolding find_overlapping_booking overlaps
IsClear-free owner a db holder h = find_first-eq-none _ db.bookings (
    All-of_mem _ db.bookings λ b m. elim (Bool-cases (owns owner b)) [
      | inr e ↦ ground (arith, e)
      | inl e ↦ elim (Bool-cases (is_active b)) [
        | inr q ↦ ground (arith, e, q)
        | inl q ↦
            let apart =
              All-mem (IsClear a) (diary db.bookings) h (mem-diary db.bookings m q)
                (owns-HasPersonOf owner a b holder e) in
            ground (arith, apart, e, q)
      ]
    ])

module _ (lux : Luxon) (now : ℕ) (actor : Actor) (input : CreateBookingInput) (db : Db)
    (profile : HrProfile) where
  abbrev planned : Plan
  planned = record {
    profile = profile;
    availability = get_availability_for_hr profile.user_id db;
    end_at = (asked actor input profile db).end_at;
  }

  check_create-clear :
      find_published input.profile_id db ≡ some profile
      → profile.is_available ≡ true
      → profile.user_id ≢ actor.id
      → is_offered_slot lux (get_availability_for_hr profile.user_id db) input.start_at now ≡ true
      → All (IsClear (asked actor input profile db)) (diary db.bookings)
      → check_create lux now actor input db ≡ ok planned
  unfolding check_create assert_client_is_free assert_consultant_is_free
  check_create-clear published accepting other offered clear =
      let client = IsClear-free (of_client actor.id) (asked actor input profile db) db refl clear in
      let consultant =
        IsClear-free (of_consultant profile.user_id) (asked actor input profile db) db refl clear in
      let different : profile.user_id == actor.id ≡ false = ground (arith, other) in
      rw (published, accepting, different, offered, client, consultant) refl

  -- In a consistent state with slot durations that are not zero, where the consultant's profile is published
  -- and takes bookings, the client is someone else, the slot is offered and its time is clear in the
  -- diary of both: `createBooking` returns a booking, and the diary is the one before with the
  -- appointment asked for.
  pub create_booking-reserves :
      IsConsistent db.next_id db.bookings
      → HasDurations db
      → find_published input.profile_id db ≡ some profile
      → profile.is_available ≡ true
      → profile.user_id ≢ actor.id
      → is_offered_slot lux (get_availability_for_hr profile.user_id db) input.start_at now ≡ true
      → All (IsClear (asked actor input profile db)) (diary db.bookings)
      → (b : Booking) × (after : Db) × (create_booking lux now actor input db ≡ returns b after)
        × (diary after.bookings ≡ diary db.bookings ++ asked actor input profile db ∷ [])
  create_booking-reserves h d published accepting other offered clear =
      let checked = check_create-clear published accepting other offered clear in
      (
        booked lux now actor input db h d planned checked,
        _,
        create_booking-returns lux now actor input db h d planned checked,
        diary-append db.bookings (booked lux now actor input db h d planned checked) refl,
      )
