-- ===== src/Diary/Refines.antt =====
-- The calls of src/services/booking.service.ts and the sweep of src/jobs/lifecycle.job.ts as changes of
-- the diary.
use hr_booking_server.Base.{
  ℕ, ◌≡◌, refl, ap, ◌≢◌, true, some, not, Option, String, List, Memᴰ, All, All-of_mem, mem-keep,
  ◌==◌, arith, find_first-some,
}
use hr_booking_server.DateTime.{Luxon}
use hr_booking_server.Errors.{Result, ok, err}
use hr_booking_server.Constants.{CancelledBy}
use hr_booking_server.Models.{Booking, Availability}
use hr_booking_server.Store.{Db, final}
use hr_booking_server.Booking.Checks.{
  Actor, CreateBookingInput, RescheduleBookingInput, Plan, is_active, check_create, check_cancel,
  check_reschedule, find_booking,
}
use hr_booking_server.Booking.Service.{create_booking, cancel_booking, reschedule_booking}
use hr_booking_server.Booking.Invariant.{IsConsistent, HasDistinctIds-eq}
use hr_booking_server.Booking.Create.{
  HasDurations, booked, compatible as created-compatible, spans as created-spans,
  create_booking-returns, check_create-refused,
}
use hr_booking_server.Booking.Cancel.{
  cancelled, stored as cancelled_db, audited-bookings, cancel_booking-returns, check_cancel-refused,
  check_cancel_iff,
}
use hr_booking_server.Booking.Reschedule.{
  moved, spans as moved-spans, compatible as moved-compatible, reschedule_booking-returns,
  check_reschedule-refused, check_reschedule-IsMovable,
}
use hr_booking_server.Lifecycle.{sweep}
use hr_booking_server.Diary.{
  Appointment, DiaryStep, ask_reserve, ask_move, ask_release, ask_expire, idle, reserve, move,
  release, expire, IsClear, others, diary, appointment,
}
use hr_booking_server.Diary.Views.{
  diary-append, diary-release, diary-move, diary-expire, diary-mem, mem-diary,
}

-- What is clear of the active bookings is clear of their appointments.
pub All-diary :
    (bs : List Booking) (x : Appointment)
    → ((c : Booking) → Memᴰ c bs → is_active c ≡ true → IsClear x (appointment c))
    → All (IsClear x) (diary bs)
All-diary bs x h =
    All-of_mem _ (diary bs) λ a m. let (c, k, busy, e) = diary-mem bs m in rw (← e) (h c k busy)

All-others :
    (id : ℕ) (bs : List Booking) (x : Appointment)
    → ((c : Booking) → Memᴰ c bs → c.id ≢ id → is_active c ≡ true → IsClear x (appointment c))
    → All (IsClear x) (others id (diary bs))
All-others id bs x h = All-of_mem _ (others id (diary bs)) λ a m.
    let (k, differs) = mem-keep (λ (a : Appointment). not (a.id == id)) (diary bs) m in
    let (c, old, busy, e) = diary-mem bs k in
    let same : c.id ≡ a.id = ap (λ y. y.id) e in
    rw (← e) (h c old (ground (arith, differs, same)) busy)

found_booking : (id : ℕ) (db : Db) (b : Booking) → find_booking id db ≡ some b → Memᴰ b db.bookings
unfolding find_booking
found_booking id db b e = (find_first-some _ _ _ e).0

found_booking-id : (id : ℕ) (db : Db) (b : Booking) → find_booking id db ≡ some b → b.id ≡ id
unfolding find_booking
found_booking-id id db b e = ground (arith, find_first-some _ _ _ e)

module _ (lux : Luxon) (now : ℕ) (actor : Actor) where
  pub create_booking-DiaryStep :
      (input : CreateBookingInput) (db : Db)
      → IsConsistent db.next_id db.bookings
      → HasDurations db
      → DiaryStep
          (ask_reserve actor.id input.start_at)
          (diary db.bookings)
          (diary (final (create_booking lux now actor input db)).bookings)
  create_booking-DiaryStep input db h d = split (check_create lux now actor input db) refl
    where
      split :
          (r : Result Plan)
          → check_create lux now actor input db ≡ r
          → DiaryStep
              (ask_reserve actor.id input.start_at)
              (diary db.bookings)
              (diary (final (create_booking lux now actor input db)).bookings)
      split (err x) e = rw (check_create-refused lux now actor input db x e) (idle refl)
      split (ok plan) e =
          let n = booked lux now actor input db h d plan e in
          rw
            (
              create_booking-returns lux now actor input db h d plan e,
              diary-append db.bookings n refl,
            )
            (reserve (appointment n) refl refl (created-spans lux now actor input db h d plan e) (
              All-diary db.bookings (appointment n)
                (λ c m busy. created-compatible lux now actor input db h d plan e c m refl busy)))

  pub reschedule_booking-DiaryStep :
      (id : ℕ) (input : RescheduleBookingInput) (db : Db)
      → IsConsistent db.next_id db.bookings
      → HasDurations db
      → DiaryStep
          (ask_move id input.start_at)
          (diary db.bookings)
          (diary (final (reschedule_booking lux now actor id input db)).bookings)
  reschedule_booking-DiaryStep id input db h d =
      split (check_reschedule lux now actor id input db) refl
    where
      split :
          (r : Result (Booking × CancelledBy × Availability))
          → check_reschedule lux now actor id input db ≡ r
          → DiaryStep
              (ask_move id input.start_at)
              (diary db.bookings)
              (diary (final (reschedule_booking lux now actor id input db)).bookings)
      split (err x) e = rw (check_reschedule-refused lux now actor id input db x e) (idle refl)
      split (ok (b, role, availability)) e =
          let n = moved lux now actor id input db h d b role availability e in
          let facts = check_reschedule-IsMovable lux now actor id input db b role availability e in
          let stored = found_booking id db b facts.found in
          rw
            (
              reschedule_booking-returns lux now actor id input db h d b role availability e,
              diary-move db.bookings n b.id facts.active
                  (λ x m s. rw (HasDistinctIds-eq db.bookings h.distinct m stored s) facts.active),
            )
            (move (appointment b) (appointment n) (mem-diary db.bookings stored facts.active)
              (found_booking-id id db b facts.found) refl refl refl refl
              (moved-spans lux now actor id input db h d b role availability e)
              (All-others b.id db.bookings (appointment n) (λ c m differ busy.
                moved-compatible lux now actor id input db h d b role availability e c m differ
                  facts.active busy)))

module _ (now : ℕ) (actor : Actor) (id : ℕ) (reason : Option String) (db : Db) where
  pub cancel_booking-DiaryStep :
      DiaryStep
        (ask_release id)
        (diary db.bookings)
        (diary (final (cancel_booking now actor id reason db)).bookings)
  cancel_booking-DiaryStep = split (check_cancel now actor id db) refl
    where
      split :
          (r : Result (Booking × CancelledBy))
          → check_cancel now actor id db ≡ r
          → DiaryStep
              (ask_release id)
              (diary db.bookings)
              (diary (final (cancel_booking now actor id reason db)).bookings)
      split (err x) e = rw (check_cancel-refused now actor id reason db x e) (idle refl)
      split (ok (b, role)) e =
          let k = (check_cancel_iff now actor id db b role).0 e in
          rw
            (
              cancel_booking-returns now actor id reason db b role k,
              (audited-bookings actor b.id reason role
                  (cancelled_db now actor id reason db b role k)).0,
              diary-release db.bookings (cancelled now actor id reason db b role k) b.id refl,
            )
            (rw (found_booking-id id db b k.found) (release id))

pub sweep-DiaryStep :
    (now : ℕ) (db : Db)
    → DiaryStep (ask_expire now) (diary db.bookings) (diary (final (sweep now db)).bookings)
unfolding sweep
sweep-DiaryStep now db = rw (diary-expire now db.bookings) (expire now)
