-- ===== src/Booking/Service.antt =====
-- src/services/booking.service.ts: the calls that create, cancel and move a booking. Each reads the
-- clock once, as its argument `now`.
use Prim.Native.String.{◌++◌ as append_text}
use hr_booking_server.Base.{
  ℕ, suc, ◌-◌, Bool, false, ◌&&◌, not, Option, none, some, String, List, [], ◌∷◌, ◌++◌, ltb, leb,
  ◌==◌, if◌then◌else◌, find_first, any, keep, change,
}
use hr_booking_server.DateTime.{Luxon, add_minutes}
use hr_booking_server.Constants.{BookingStatus, CancelledBy, AuditAction, AuditResourceType}
use hr_booking_server.Errors.{Thrown, app, duplicate_key, Result, conflict, slot_taken, not_found}
use hr_booking_server.Models.{Metadatum, words, Booking, SlotKey, User, AuditLog, Availability}
use hr_booking_server.Store.{
  Db, M, Outcome, returns, throws, ◌>>=◌, ◌>>◌, pure, lift, or_throw, get, emit, create, sync,
  cancel, meeting_job, add_reminder, remove_reminder, email, Template, booking_confirmation,
  booking_cancellation, booking_reschedule,
}
use hr_booking_server.Booking.Checks.{
  Actor, CreateBookingInput, RescheduleBookingInput, Plan, check_create, check_cancel,
  check_reschedule, find_booking, assert_participant, is_active, prorate, find_overlapping_booking,
  of_consultant,
}

unfoldable pub build_slot_key : ℕ → ℕ → SlotKey
build_slot_key hr_user_id start_at = record { hr_user_id = hr_user_id; start_at = start_at }

abbrev pub has_key : SlotKey → Option SlotKey → Bool
has_key k none = false
has_key k (some l) = k.hr_user_id == l.hr_user_id && k.start_at == l.start_at

-- The unique sparse index on `slotKey`: another booking holds the key.
unfoldable pub is_key_held : SlotKey → ℕ → List Booking → Bool
is_key_held k id bookings = any (λ b. has_key k b.slot_key && not (b.id == id)) bookings

abbrev pub run_check {ℓ} : {A : Type ℓ} → (Db → Result A) → M A
run_check check db = lift (check db) db

-- `.catch(rethrowDuplicateSlot)`.
abbrev rethrow_duplicate_slot : Thrown → Thrown
rethrow_duplicate_slot duplicate_key = app slot_taken
rethrow_duplicate_slot t = t

abbrev pub catch_duplicate {ℓ} : {A : Type ℓ} → Outcome A → Outcome A
catch_duplicate (returns a db) = returns a db
catch_duplicate (throws t db) = throws (rethrow_duplicate_slot t) db

abbrev pub or_value {ℓ} : {A : Type ℓ} → Option A → A → A
or_value none a = a
or_value (some b) a = b

-- The document that `Booking.create` writes, under the id that it draws.
abbrev pub new_booking : Actor → CreateBookingInput → Plan → ℕ → Booking
new_booking actor input plan id = record {
  id = id;
  user_id = actor.id;
  hr_user_id = plan.profile.user_id;
  hr_profile_id = plan.profile.id;
  start_at = input.start_at;
  end_at = plan.end_at;
  duration_minutes = plan.availability.slot_duration_minutes;
  hr_timezone = plan.availability.timezone;
  user_timezone = or_value input.timezone plan.availability.timezone;
  status = BookingStatus.confirmed;
  price_cents = prorate plan.profile.hourly_rate_cents plan.availability.slot_duration_minutes;
  currency = plan.profile.currency;
  meeting_provider = input.meeting_provider;
  notes = input.notes;
  slot_key = some (build_slot_key plan.profile.user_id input.start_at);
  cancelled_at = none;
  cancelled_by = none;
  cancellation_reason = none;
  previous_start_at = none;
  reschedule_count = 0;
}

abbrev pub key_of : Booking → SlotKey
key_of b = build_slot_key b.hr_user_id b.start_at

-- The insert of a document that has its id: refused by the index, or appended.
unfoldable pub insert_document : Booking → M Booking
unfolding is_key_held
insert_document b db =
    if is_key_held (key_of b) b.id db.bookings
    then throws duplicate_key db
    else returns b (record db { bookings = db.bookings ++ b ∷ [] })

-- `Booking.create`: the document draws its id, and is then inserted.
unfoldable pub create_document : (ℕ → Booking) → M Booking
unfolding insert_document
create_document document db =
    insert_document (document db.next_id) (record db { next_id = suc db.next_id })

abbrev pub is_older : Option Booking → Booking → Bool
is_older none b = false
is_older (some c) b = ltb c.id b.id

-- The sweep after the insert: the booking stands down for an overlapping one with a smaller id.
unfoldable pub stand_down : Booking → M Booking
unfolding find_overlapping_booking
stand_down b db =
    if is_older
      (find_overlapping_booking (of_consultant b.hr_user_id) b.start_at b.end_at (some b.id) db) b
    then throws (app slot_taken)
        (record db { bookings = keep (λ c. not (c.id == b.id)) db.bookings })
    else returns b db

unfoldable pub insert_booking : Actor → CreateBookingInput → Plan → M Booking
unfolding create_document stand_down
insert_booking actor input plan =
    (λ db. catch_duplicate (create_document (new_booking actor input plan) db)) >>= stand_down

abbrev pub reminder_lead_ms : ℕ
reminder_lead_ms = 1_800_000

-- `delay <= 0` is a difference that stops at 0.
unfoldable pub schedule_reminder : ℕ → ℕ → ℕ → M (Unit {0})
schedule_reminder now booking_id start_at db =
    let delay = start_at - reminder_lead_ms - now in
    if leb delay 0
    then returns tt db
    else returns tt (record db { effects = db.effects ++ add_reminder booking_id delay ∷ [] })

-- `${firstName} ${lastName}`; names are stored trimmed.
unfoldable pub full_name : User → String
full_name u = append_text u.first_name (append_text " " u.last_name)

-- The email that one participant gets: the recipient's name, the counterpart's, the timezone.
abbrev pub Letter : Type 0
Letter = String → String → String → Template

abbrev send_both : Letter → Booking → Option User → Option User → M (Unit {0})
send_both letter b (some client) (some consultant) db = returns tt (record db {
  effects =
      db.effects
      ++ email client.email (letter client.first_name (full_name consultant) b.user_timezone)
        ∷ email consultant.email (letter consultant.first_name (full_name client) b.hr_timezone)
        ∷ [];
})
send_both letter b _ _ db = returns tt db

unfoldable pub find_user : ℕ → Db → Option User
find_user id db = find_first (λ u. u.id == id) db.users

unfoldable pub enqueue_booking_emails : Letter → Booking → M (Unit {0})
unfolding find_user full_name
enqueue_booking_emails letter b db =
    send_both letter b (find_user b.user_id db) (find_user b.hr_user_id db) db

unfoldable pub dispatch_booking_created : ℕ → Booking → M (Unit {0})
unfolding schedule_reminder enqueue_booking_emails
dispatch_booking_created now b = do
  emit (meeting_job create b.id)
  schedule_reminder now b.id b.start_at
  enqueue_booking_emails (booking_confirmation b.id) b

unfoldable pub dispatch_booking_cancelled : Booking → CancelledBy → M (Unit {0})
unfolding enqueue_booking_emails
dispatch_booking_cancelled b cancelled_by = do
  emit (meeting_job cancel b.id)
  emit (remove_reminder b.id)
  enqueue_booking_emails
      (λ name counterpart timezone.
        booking_cancellation b.id name counterpart timezone cancelled_by b.cancellation_reason)
      b

unfoldable pub dispatch_booking_rescheduled : ℕ → Booking → ℕ → M (Unit {0})
unfolding schedule_reminder enqueue_booking_emails
dispatch_booking_rescheduled now b previous_start_at = do
  emit (meeting_job sync b.id)
  emit (remove_reminder b.id)
  schedule_reminder now b.id b.start_at
  enqueue_booking_emails
      (λ name counterpart timezone.
        booking_reschedule b.id name counterpart timezone previous_start_at)
      b

-- `recordAuditLog`, whose own failures are swallowed.
abbrev pub record_audit_log : AuditLog → M (Unit {0})
record_audit_log entry db = returns tt (record db { audit_logs = db.audit_logs ++ entry ∷ [] })

unfoldable pub get_booking_for_actor : Actor → ℕ → M Booking
unfolding find_booking assert_participant
get_booking_for_actor actor booking_id = do
  found ← get (find_booking booking_id)
  booking ← or_throw found (not_found "Booking not found.")
  lift (assert_participant actor booking)
  pure booking

module _ (lux : Luxon) (now : ℕ) where
  unfoldable pub create_booking : Actor → CreateBookingInput → M Booking
  unfolding check_create insert_booking dispatch_booking_created
  create_booking actor input = do
    plan ← run_check (check_create lux now actor input)
    booking ← insert_booking actor input plan
    dispatch_booking_created now booking
    pure booking

-- The fields that `cancelBooking` writes.
abbrev pub cancelled_booking : ℕ → CancelledBy → Option String → Booking → Booking
cancelled_booking now role reason b = record b {
  status = BookingStatus.cancelled;
  cancelled_at = some now;
  cancelled_by = some role;
  cancellation_reason = reason;
  slot_key = none;
}

abbrev pub save_booking : Booking → M (Unit {0})
save_booking b db =
    returns tt (record db { bookings = change (λ c. c.id == b.id) (λ _. b) db.bookings })

abbrev pub reason_metadata : Option String → List (String × Metadatum)
reason_metadata none = []
reason_metadata (some r) = ("reason", words r) ∷ []

abbrev pub audit_cancellation : Actor → ℕ → Option String → CancelledBy → M (Unit {0})
audit_cancellation actor id reason CancelledBy.admin db =
    record_audit_log
      (record {
        actor_id = actor.id;
        actor_role = actor.role;
        action = AuditAction.booking_cancelled;
        resource_type = some AuditResourceType.booking;
        resource_id = some id;
        metadata = reason_metadata reason;
      })
      db
audit_cancellation actor id reason _ db = returns tt db

unfoldable pub cancel_booking : ℕ → Actor → ℕ → Option String → M Booking
unfolding check_cancel dispatch_booking_cancelled get_booking_for_actor
cancel_booking now actor booking_id reason = do
  (booking, role) ← run_check (check_cancel now actor booking_id)
  let cancelled = cancelled_booking now role reason booking
  save_booking cancelled
  audit_cancellation actor booking.id reason role
  dispatch_booking_cancelled cancelled role
  get_booking_for_actor actor booking.id

-- The update of `findOneAndUpdate`.
abbrev pub moved_booking : RescheduleBookingInput → Availability → Booking → Booking
moved_booking input availability b = record b {
  start_at = input.start_at;
  end_at = add_minutes input.start_at availability.slot_duration_minutes;
  duration_minutes = availability.slot_duration_minutes;
  hr_timezone = availability.timezone;
  user_timezone = or_value input.timezone b.user_timezone;
  slot_key = some (build_slot_key b.hr_user_id input.start_at);
  previous_start_at = some b.start_at;
  reschedule_count = suc b.reschedule_count;
}

abbrev move_found : (Booking → Booking) → Option Booking → M (Option Booking)
move_found move none db = returns none db
move_found move (some b) db =
    if is_key_held (key_of (move b)) b.id db.bookings
    then throws duplicate_key db
    else returns (some (move b))
        (record db { bookings = change (λ c. c.id == b.id) (λ _. move b) db.bookings })

-- `findOneAndUpdate({ _id, status: { $in: ACTIVE_BOOKING_STATUSES } }, …)`.
unfoldable pub move_booking : ℕ → (Booking → Booking) → M (Option Booking)
unfolding is_key_held
move_booking id move db =
    move_found move (find_first (λ b. b.id == id && is_active b) db.bookings) db

module _ (lux : Luxon) (now : ℕ) where
  unfoldable pub reschedule_booking : Actor → ℕ → RescheduleBookingInput → M Booking
  unfolding check_reschedule move_booking dispatch_booking_rescheduled get_booking_for_actor
  reschedule_booking actor booking_id input = do
    (booking, role, availability) ← run_check (check_reschedule lux now actor booking_id input)
    result ← λ db. catch_duplicate (move_booking booking.id (moved_booking input availability) db)
    moved ← or_throw result (conflict "This booking can no longer be rescheduled." none)
    dispatch_booking_rescheduled now moved booking.start_at
    get_booking_for_actor actor moved.id
