-- ===== src/Booking/Checks.antt =====
-- src/services/booking.service.ts: what a call reads and refuses before it writes.
use hr_booking_server.Base.{
  ℕ, ◌+◌, ◌-◌, ◌*◌, ◌/◌, Bool, true, false, ◌&&◌, not, Option, none, some, String, ltb, leb, ◌==◌,
  if◌then◌else◌, find_first,
}
use hr_booking_server.DateTime.{Luxon, add_minutes}
use hr_booking_server.Constants.{
  UserRole, is_admin, CancelledBy, is_active_status, MeetingProvider, cancel_notice_minutes,
  reschedule_max,
}
use hr_booking_server.Errors.{
  AppError, Result, ok, err, ◌>>=◌, ◌>>◌, bad_request, conflict, not_found, slot_unavailable,
  slot_taken,
}
use hr_booking_server.Models.{Booking, HrProfile, Availability}
use hr_booking_server.Store.{Db}
use hr_booking_server.Slot.{is_offered_slot}
use hr_booking_server.Availability.{get_availability_for_hr, is_published}

pub record Actor : Type 0 where
  pub id : ℕ
  pub role : UserRole

pub record CreateBookingInput : Type 0 where
  pub profile_id : ℕ
  pub start_at : ℕ
  pub timezone : Option String
  pub notes : Option String
  pub meeting_provider : MeetingProvider

pub record RescheduleBookingInput : Type 0 where
  pub start_at : ℕ
  pub timezone : Option String

abbrev pub or_fail {ℓ} : {A : Type ℓ} → Option A → AppError → Result A
or_fail none e = err e
or_fail (some a) e = ok a

abbrev pub fail_if : Bool → AppError → Result (Unit {0})
fail_if true e = err e
fail_if false e = ok tt

pub data Owner : Type 0 where
  of_consultant of_client : ℕ → Owner

abbrev pub owns : Owner → Booking → Bool
owns (of_consultant id) b = b.hr_user_id == id
owns (of_client id) b = b.user_id == id

abbrev is_excluded : Option ℕ → ℕ → Bool
is_excluded none id = false
is_excluded (some excluded) id = id == excluded

abbrev pub is_active : Booking → Bool
is_active b = is_active_status b.status

-- The query of `findOverlappingBooking`.
abbrev pub meets : Owner → ℕ → ℕ → Option ℕ → Booking → Bool
meets owner start_at end_at exclude b =
    owns owner b
    && is_active b
    && ltb b.start_at end_at
    && ltb start_at b.end_at
    && not (is_excluded exclude b.id)

unfoldable pub find_overlapping_booking : Owner → ℕ → ℕ → Option ℕ → Db → Option Booking
find_overlapping_booking owner start_at end_at exclude db =
    find_first (meets owner start_at end_at exclude) db.bookings

abbrev fail_if_found : Option Booking → AppError → Result (Unit {0})
fail_if_found none e = ok tt
fail_if_found (some b) e = err e

unfoldable pub assert_consultant_is_free : ℕ → ℕ → ℕ → Option ℕ → Db → Result (Unit {0})
assert_consultant_is_free hr_user_id start_at end_at exclude db =
    fail_if_found (find_overlapping_booking (of_consultant hr_user_id) start_at end_at exclude db)
      slot_taken

unfoldable pub assert_client_is_free : ℕ → ℕ → ℕ → Option ℕ → Db → Result (Unit {0})
assert_client_is_free user_id start_at end_at exclude db =
    fail_if_found (find_overlapping_booking (of_client user_id) start_at end_at exclude db)
      (conflict "You already have a consultation booked at that time." none)

unfoldable pub assert_participant : Actor → Booking → Result CancelledBy
assert_participant actor booking =
    if booking.user_id == actor.id
    then ok CancelledBy.user
    else if booking.hr_user_id == actor.id
    then ok CancelledBy.hr
    else if is_admin actor.role
    then ok CancelledBy.admin
    else err (not_found "Booking not found.")

-- `Math.round(x)` is the floor of x + 1/2.
unfoldable pub prorate : ℕ → ℕ → ℕ
prorate hourly_rate_cents duration_minutes = (2 * (hourly_rate_cents * duration_minutes) + 60) / 120

-- What `createBooking` knows when its checks have passed.
pub record Plan : Type 0 where
  pub profile : HrProfile
  pub availability : Availability
  pub end_at : ℕ

unfoldable pub find_booking : ℕ → Db → Option Booking
find_booking id db = find_first (λ b. b.id == id) db.bookings

unfoldable pub find_published : ℕ → Db → Option HrProfile
find_published profile_id db =
    find_first (λ p. p.id == profile_id && is_published p.status) db.profiles

module _ (now : ℕ) where
  abbrev is_late : CancelledBy → Booking → Bool
  is_late CancelledBy.user b = ltb (b.start_at - now) (cancel_notice_minutes * 60_000)
  is_late _ b = false

  -- `cancelBooking` up to its first write.
  unfoldable pub check_cancel : Actor → ℕ → Db → Result (Booking × CancelledBy)
  check_cancel actor booking_id db = do
    booking ← or_fail (find_booking booking_id db) (not_found "Booking not found.")
    role ← assert_participant actor booking
    fail_if (not (is_active booking)) (conflict "This booking can no longer be cancelled." none)
    fail_if (leb booking.start_at now) (conflict "This consultation has already started." none)
    fail_if (is_late role booking)
        (conflict "Consultations must be cancelled at least 60 minutes in advance." none)
    ok (booking, role)

module _ (lux : Luxon) (now : ℕ) where
  -- `createBooking` up to `insertBooking`.
  unfoldable pub check_create : Actor → CreateBookingInput → Db → Result Plan
  check_create actor input db = do
    profile ← or_fail (find_published input.profile_id db) (not_found "Profile not found.")
    fail_if (not profile.is_available)
        (conflict "This consultant is not accepting bookings right now." none)
    fail_if (profile.user_id == actor.id)
        (bad_request "You cannot book a consultation with yourself.")
    let availability = get_availability_for_hr profile.user_id db
    fail_if (not (is_offered_slot lux availability input.start_at now))
        (slot_unavailable "That time is not offered by this consultant.")
    let end_at = add_minutes input.start_at availability.slot_duration_minutes
    assert_client_is_free actor.id input.start_at end_at none db
    assert_consultant_is_free profile.user_id input.start_at end_at none db
    ok (record { profile = profile; availability = availability; end_at = end_at })

  -- `rescheduleBooking` up to its update.
  unfoldable pub check_reschedule :
      Actor → ℕ → RescheduleBookingInput → Db → Result (Booking × CancelledBy × Availability)
  check_reschedule actor booking_id input db = do
    booking ← or_fail (find_booking booking_id db) (not_found "Booking not found.")
    role ← assert_participant actor booking
    fail_if (not (is_active booking)) (conflict "This booking can no longer be rescheduled." none)
    fail_if (leb booking.start_at now) (conflict "This consultation has already started." none)
    fail_if (leb reschedule_max booking.reschedule_count)
        (conflict "A booking can be rescheduled at most 3 times." none)
    fail_if (input.start_at == booking.start_at)
        (bad_request "Pick a different time to reschedule to.")
    let availability = get_availability_for_hr booking.hr_user_id db
    fail_if (not (is_offered_slot lux availability input.start_at now))
        (slot_unavailable "That time is not offered by this consultant.")
    let end_at = add_minutes input.start_at availability.slot_duration_minutes
    assert_client_is_free booking.user_id input.start_at end_at (some booking.id) db
    assert_consultant_is_free booking.hr_user_id input.start_at end_at (some booking.id) db
    ok (booking, role, availability)
