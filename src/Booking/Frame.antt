-- ===== src/Booking/Frame.antt =====
-- The effects that the dispatch helpers of src/services/booking.service.ts hand on, and in which order.
use mathlib.Core.List.{append_assoc, append-nil}
use hr_booking_server.Base.{
  ℕ, ◌-◌, ◌≡◌, ap, inl, inr, Option, none, some, List, [], ◌∷◌, ◌++◌, leb, Bool-cases, Option-cases,
  if◌then◌else◌,
}
use hr_booking_server.Constants.{CancelledBy}
use hr_booking_server.Models.{Booking, User}
use hr_booking_server.Store.{
  Db, returns, Effect, meeting_job, create, cancel, sync, add_reminder, remove_reminder, email,
  booking_confirmation, booking_cancellation, booking_reschedule,
}
use hr_booking_server.Booking.Service.{
  Letter, schedule_reminder, enqueue_booking_emails, dispatch_booking_created,
  dispatch_booking_cancelled, dispatch_booking_rescheduled, find_user, reminder_lead_ms, full_name,
}

abbrev pub emitted : Db → List Effect → Db
emitted db es = record db { effects = db.effects ++ es }

emitted-emitted :
    (db : Db) (es fs : List Effect) → emitted (emitted db es) fs ≡ emitted db (es ++ fs)
emitted-emitted db es fs = ap (λ xs. record db { effects = xs }) (append_assoc db.effects es fs)

-- A reminder is queued 30 minutes ahead, if that moment is still to come.
abbrev pub reminder_effects : ℕ → ℕ → ℕ → List Effect
reminder_effects now id start_at =
    if leb (start_at - reminder_lead_ms - now) 0
    then []
    else add_reminder id (start_at - reminder_lead_ms - now) ∷ []

abbrev letters : Letter → Booking → Option User → Option User → List Effect
letters letter b (some client) (some consultant) =
    email client.email (letter client.first_name (full_name consultant) b.user_timezone)
    ∷ email consultant.email (letter consultant.first_name (full_name client) b.hr_timezone)
    ∷ []
letters letter b (some client) none = []
letters letter b none _ = []

-- One email to each participant, or none if one of the accounts is gone.
abbrev pub email_effects : Letter → Booking → Db → List Effect
email_effects letter b db = letters letter b (find_user b.user_id db) (find_user b.hr_user_id db)

schedule_reminder-emitted :
    (now id start_at : ℕ) (db : Db)
    → schedule_reminder now id start_at db
      ≡ returns tt (emitted db (reminder_effects now id start_at))
unfolding schedule_reminder
schedule_reminder-emitted now id start_at db =
    elim (Bool-cases (leb (start_at - reminder_lead_ms - now) 0)) [
      | inl e ↦ rw (e, append-nil)
      | inr e ↦ rw e
    ]

pub enqueue_booking_emails-emitted :
    (letter : Letter) (b : Booking) (db : Db)
    → enqueue_booking_emails letter b db ≡ returns tt (emitted db (email_effects letter b db))
unfolding enqueue_booking_emails
enqueue_booking_emails-emitted letter b db = elim (Option-cases (find_user b.user_id db)) [
  | inl e ↦ rw (e, append-nil)
  | inr (c, e) ↦ elim (Option-cases (find_user b.hr_user_id db)) [
    | inl q ↦ rw (e, q, append-nil)
    | inr (d, q) ↦ rw (e, q)
  ]
]

abbrev pub created_effects : ℕ → Booking → Db → List Effect
created_effects now b db =
    meeting_job create b.id ∷ reminder_effects now b.id b.start_at
    ++ email_effects (booking_confirmation b.id) b db

pub dispatch_booking_created-emitted :
    (now : ℕ) (b : Booking) (db : Db)
    → dispatch_booking_created now b db ≡ returns tt (emitted db (created_effects now b db))
unfolding dispatch_booking_created find_user
dispatch_booking_created-emitted now b db =
    rw
      (
        schedule_reminder-emitted now b.id b.start_at,
        enqueue_booking_emails-emitted (booking_confirmation b.id) b,
      )
      (simp append_assoc)

abbrev pub cancelled_effects : Booking → CancelledBy → Db → List Effect
cancelled_effects b by db =
    meeting_job cancel b.id
    ∷ remove_reminder b.id
    ∷ email_effects
        (λ name counterpart timezone.
          booking_cancellation b.id name counterpart timezone by b.cancellation_reason)
        b db

pub dispatch_booking_cancelled-emitted :
    (b : Booking) (by : CancelledBy) (db : Db)
    → dispatch_booking_cancelled b by db ≡ returns tt (emitted db (cancelled_effects b by db))
unfolding dispatch_booking_cancelled find_user
dispatch_booking_cancelled-emitted b by db =
    rw
      (enqueue_booking_emails-emitted
        (λ name counterpart timezone.
          booking_cancellation b.id name counterpart timezone by b.cancellation_reason)
        b)
      (simp append_assoc)

abbrev pub rescheduled_effects : ℕ → Booking → ℕ → Db → List Effect
rescheduled_effects now b previous db =
    meeting_job sync b.id ∷ remove_reminder b.id ∷ reminder_effects now b.id b.start_at
    ++ email_effects
        (λ name counterpart timezone. booking_reschedule b.id name counterpart timezone previous) b
        db

pub dispatch_booking_rescheduled-emitted :
    (now : ℕ) (b : Booking) (previous : ℕ) (db : Db)
    → dispatch_booking_rescheduled now b previous db
      ≡ returns tt (emitted db (rescheduled_effects now b previous db))
unfolding dispatch_booking_rescheduled find_user
dispatch_booking_rescheduled-emitted now b previous db =
    rw
      (
        schedule_reminder-emitted now b.id b.start_at,
        enqueue_booking_emails-emitted
            (λ name counterpart timezone.
              booking_reschedule b.id name counterpart timezone previous)
            b,
      )
      (simp append_assoc)
