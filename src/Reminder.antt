-- ===== src/Reminder.antt =====
-- src/jobs/reminder.job.ts: the reminder that the queue delivers half an hour before a consultation.
use hr_booking_server.Base.{
  ℕ, ◌≡◌, true, false, ◌||◌, ◌&&◌, not, Option, none, some, String, leb, ltb, if◌then◌else◌, arith,
  Bool-cases, inl, inr,
}
use hr_booking_server.Constants.{CancelledBy}
use hr_booking_server.Models.{Booking, Meeting}
use hr_booking_server.Store.{Db, M, returns, final, booking_reminder}
use hr_booking_server.Booking.Checks.{Actor, is_active, find_booking}
use hr_booking_server.Booking.Service.{Letter, enqueue_booking_emails, cancel_booking}
use hr_booking_server.Booking.Frame.{emitted, email_effects, enqueue_booking_emails-emitted}
use hr_booking_server.Booking.Cancel.{IsCancellable, cancel_booking-returns, find_cancelled}
use hr_booking_server.Meetings.{find_meeting}

abbrev pub url_of : Option Meeting → Option String
url_of none = none
url_of (some m) = m.meeting_url

-- The two emails, with the link of the meeting.
abbrev pub reminder_letter : Booking → Option Meeting → Letter
reminder_letter b meeting name counterpart timezone =
    booking_reminder b.id name counterpart timezone (url_of meeting)

abbrev remind : ℕ → Option Booking → Option Meeting → M (Unit {0})
remind now none meeting db = returns tt db
remind now (some b) meeting db =
    if not (is_active b) || leb b.end_at now
    then returns tt db
    else enqueue_booking_emails (reminder_letter b meeting) b db

-- The worker of the reminder queue.
unfoldable pub run_reminder : ℕ → ℕ → M (Unit {0})
unfolding find_booking find_meeting
run_reminder now booking_id db =
    remind now (find_booking booking_id db) (find_meeting booking_id db) db

-- A reminder of a booking that exists sends one email to each participant if the booking is active and
-- not over, and nothing otherwise; it changes nothing else.
pub run_reminder-emitted :
    (now id : ℕ) (db : Db) (b : Booking)
    → find_booking id db ≡ some b
    → run_reminder now id db
      ≡ returns tt (
          if is_active b && ltb now b.end_at
          then emitted db (email_effects (reminder_letter b (find_meeting id db)) b db)
          else db)
unfolding run_reminder
run_reminder-emitted now id db b found = elim (Bool-cases (not (is_active b) || leb b.end_at now)) [
  | inl e ↦
      let idle : (is_active b && ltb now b.end_at) ≡ false = ground (arith, e) in
      rw (found, e, idle)
  | inr e ↦
      let due : (is_active b && ltb now b.end_at) ≡ true = ground (arith, e) in
      rw (found, e, due)
        (enqueue_booking_emails-emitted (reminder_letter b (find_meeting id db)) b db)
]

-- A reminder that is delivered after its booking was cancelled sends nothing and changes nothing.
pub run_reminder-cancelled :
    (now later : ℕ) (actor : Actor) (id : ℕ) (reason : Option String) (db : Db) (b : Booking)
    (role : CancelledBy)
    → IsCancellable now actor id db b role
    → run_reminder later b.id (final (cancel_booking now actor id reason db))
      ≡ returns tt (final (cancel_booking now actor id reason db))
unfolding run_reminder
run_reminder-cancelled now later actor id reason db b role h = rw (
  cancel_booking-returns now actor id reason db b role h,
  find_cancelled now actor id reason db b role h,
)
