-- ===== src/Booking/Cancel.antt =====
-- `cancelBooking` of src/services/booking.service.ts.
use hr_booking_server.Base.{
  ℕ, ◌+◌, ◌*◌, ◌≤◌, ◌<◌, ◌≡◌, refl, ◌≢◌, ◌⊎◌, ◌↔◌, inr, true, Option, none, some, String, [], ◌∷◌,
  ◌++◌, arith, ◌==◌, find_first-some, find_first-change, change,
}
use hr_booking_server.Constants.{
  BookingStatus, CancelledBy, AuditAction, AuditResourceType, cancel_notice_minutes,
}
use hr_booking_server.Errors.{app, AppError, Result, ok, err}
use hr_booking_server.Models.{Booking}
use hr_booking_server.Store.{Db, returns, throws, final}
use hr_booking_server.Booking.Checks.{
  Actor, check_cancel, find_booking, assert_participant, is_active,
}
use hr_booking_server.Booking.Service.{
  cancel_booking, get_booking_for_actor, reason_metadata, audit_cancellation,
}
use hr_booking_server.Booking.Invariant.{IsSound, IsConsistent, IsConsistent-change}
use hr_booking_server.Booking.Frame.{emitted, cancelled_effects, dispatch_booking_cancelled-emitted}

module _ (now : ℕ) (actor : Actor) (booking_id : ℕ) (db : Db) where
  -- What a cancellation has been checked for.
  pub record IsCancellable (booking : Booking) (role : CancelledBy) : Type 0 where
    pub found : find_booking booking_id db ≡ some booking
    pub participant : assert_participant actor booking ≡ ok role
    pub active : is_active booking ≡ true
    pub not_started : now < booking.start_at
    pub in_time :
        (role ≢ CancelledBy.user) ⊎ (now + cancel_notice_minutes * 60_000 ≤ booking.start_at)

  -- The checks of `cancelBooking` pass for exactly the bookings that exist, have the actor as client,
  -- consultant or admin, are active and have not started; a client must be an hour ahead.
  pub check_cancel_iff :
      (booking : Booking) (role : CancelledBy)
      → (check_cancel now actor booking_id db ≡ ok (booking, role)) ↔ IsCancellable booking role
  unfolding check_cancel
  check_cancel_iff booking role = (to, from)
    where
      to : check_cancel now actor booking_id db ≡ ok (booking, role) → IsCancellable booking role
      to e = ground arith

      from : IsCancellable booking role → check_cancel now actor booking_id db ≡ ok (booking, role)
      from h = rw (h.found, h.participant) (ground (arith, h.active, h.not_started, h.in_time))

-- A cancellation by an admin is recorded; any other is not.
abbrev pub audited : Actor → ℕ → Option String → CancelledBy → Db → Db
audited actor id reason CancelledBy.admin db = record db {
  audit_logs =
      db.audit_logs
      ++ record {
        actor_id = actor.id;
        actor_role = actor.role;
        action = AuditAction.booking_cancelled;
        resource_type = some AuditResourceType.booking;
        resource_id = some id;
        metadata = reason_metadata reason;
      }
        ∷ [];
}
audited actor id reason _ db = db

audit_cancellation-audited :
    (actor : Actor) (id : ℕ) (reason : Option String) (role : CancelledBy) (db : Db)
    → audit_cancellation actor id reason role db ≡ returns tt (audited actor id reason role db)
audit_cancellation-audited actor id reason CancelledBy.admin db = refl
audit_cancellation-audited actor id reason _ db = refl

audited-availabilities :
    (actor : Actor) (id : ℕ) (reason : Option String) (role : CancelledBy) (db : Db)
    → (audited actor id reason role db).availabilities ≡ db.availabilities
audited-availabilities actor id reason CancelledBy.admin db = refl
audited-availabilities actor id reason _ db = refl

pub audited-bookings :
    (actor : Actor) (id : ℕ) (reason : Option String) (role : CancelledBy) (db : Db)
    → ((audited actor id reason role db).bookings ≡ db.bookings)
      × ((audited actor id reason role db).next_id ≡ db.next_id)
audited-bookings actor id reason CancelledBy.admin db = (refl, refl)
audited-bookings actor id reason _ db = (refl, refl)

module _ (now : ℕ) (actor : Actor) (booking_id : ℕ) (reason : Option String) (db : Db) where
  pub check_cancel-refused :
      (e : AppError)
      → check_cancel now actor booking_id db ≡ err e
      → cancel_booking now actor booking_id reason db ≡ throws (app e) db
  unfolding cancel_booking
  check_cancel-refused e h = rw h

  module _ (booking : Booking) (role : CancelledBy)
      (h : IsCancellable now actor booking_id db booking role) where
    -- The booking as it was, but for what a cancellation says of it; its slot key is released.
    abbrev pub cancelled : Booking
    cancelled = record booking {
      status = BookingStatus.cancelled;
      cancelled_at = some now;
      cancelled_by = some role;
      cancellation_reason = reason;
      slot_key = none;
    }

    abbrev pub stored : Db
    stored = record db { bookings = change (λ c. c.id == booking.id) (λ _. cancelled) db.bookings }

    abbrev pub done : Db
    done =
        emitted (audited actor booking.id reason role stored)
          (cancelled_effects cancelled role (audited actor booking.id reason role stored))

    same_id : booking.id ≡ booking_id
    unfolding find_booking
    same_id = ground (arith, find_first-some _ _ _ h.found)

    pub find_cancelled : find_booking booking.id done ≡ some cancelled
    unfolding find_booking
    find_cancelled = rw (audited-bookings actor booking.id reason role stored).0 (
        find_first-change (λ (b : Booking). b.id == booking.id) cancelled db.bookings (ground arith)
          (rw (← same_id) at h.found))

    get_cancelled : get_booking_for_actor actor booking.id done ≡ returns cancelled done
    unfolding get_booking_for_actor assert_participant
    get_cancelled = rw (find_cancelled, h.participant)

    pub cancel_booking-returns :
        cancel_booking now actor booking_id reason db ≡ returns cancelled done
    unfolding cancel_booking
    cancel_booking-returns = rw (
      (check_cancel_iff now actor booking_id db booking role).1 h,
      audit_cancellation-audited actor booking.id reason role,
      dispatch_booking_cancelled-emitted cancelled role,
      get_cancelled,
    )

    cancelled-IsSound : IsConsistent db.next_id db.bookings → IsSound db.next_id cancelled
    unfolding find_booking
    cancelled-IsSound k =
        let old = k.sound booking (find_first-some _ _ _ h.found).0 in
        record {
          fresh = old.fresh;
          keyed = inr (refl, refl);
          spans = old.spans;
          few_moves = old.few_moves;
        }

    done-IsConsistent :
        IsConsistent db.next_id db.bookings → IsConsistent done.next_id done.bookings
    done-IsConsistent k =
        rw
          (
            (audited-bookings actor booking.id reason role stored).0,
            (audited-bookings actor booking.id reason role stored).1,
          )
          (IsConsistent-change (λ c. c.id == booking.id) (λ _. cancelled) (λ b e. ground arith)
            db.next_id db.bookings k (λ b m e. cancelled-IsSound k)
            (λ b c m l p q d. λ active _ _. cc) (λ b c m l p q d. λ active _ _. cc))

-- `cancelBooking`, whether it returns or throws, keeps the bookings consistent.
pub cancel_booking-IsConsistent :
    (now : ℕ) (actor : Actor) (booking_id : ℕ) (reason : Option String) (db : Db)
    → IsConsistent db.next_id db.bookings
    → IsConsistent
        (final (cancel_booking now actor booking_id reason db)).next_id
        (final (cancel_booking now actor booking_id reason db)).bookings
cancel_booking-IsConsistent now actor booking_id reason db h =
    split (check_cancel now actor booking_id db) refl
  where
    split :
        (r : Result (Booking × CancelledBy))
        → check_cancel now actor booking_id db ≡ r
        → IsConsistent
            (final (cancel_booking now actor booking_id reason db)).next_id
            (final (cancel_booking now actor booking_id reason db)).bookings
    split (ok (booking, role)) e =
        let k = (check_cancel_iff now actor booking_id db booking role).0 e in
        rw (cancel_booking-returns now actor booking_id reason db booking role k)
          (done-IsConsistent now actor booking_id reason db booking role k h)
    split (err x) e = rw (check_cancel-refused now actor booking_id reason db x e) h

pub cancel_booking-availabilities :
    (now : ℕ) (actor : Actor) (booking_id : ℕ) (reason : Option String) (db : Db)
    → (final (cancel_booking now actor booking_id reason db)).availabilities ≡ db.availabilities
cancel_booking-availabilities now actor booking_id reason db =
    split (check_cancel now actor booking_id db) refl
  where
    split :
        (r : Result (Booking × CancelledBy))
        → check_cancel now actor booking_id db ≡ r
        → (final (cancel_booking now actor booking_id reason db)).availabilities ≡ db.availabilities
    split (ok (booking, role)) e =
        let k = (check_cancel_iff now actor booking_id db booking role).0 e in
        rw (cancel_booking-returns now actor booking_id reason db booking role k) (
          audited-availabilities actor booking.id reason role
            (stored now actor booking_id reason db booking role k))
    split (err x) e = rw (check_cancel-refused now actor booking_id reason db x e)
