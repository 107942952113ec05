-- ===== src/Store.antt =====
-- The state that a service call reads and changes: the collections, the ids, and the effects that
-- were handed to the queues and the mailer, newest last. A call is a function of the state that
-- returns or throws; a throw keeps what was written before it.
use hr_booking_server.Base.{
  ℕ, String, Option, none, some, List, ◌∷◌, [], ◌++◌, Bool, true, false, ◌≡◌, refl, arith,
}
use hr_booking_server.Errors.{AppError, Thrown, app, Result, ok, err}
use hr_booking_server.Constants.{CancelledBy}
use hr_booking_server.Models.{
  User, RefreshToken, Availability, HrProfile, Booking, Meeting, Report, Specialization, AuditLog,
  OauthAccount,
}

pub data MeetingJobName : Type 0 where
  create sync cancel : MeetingJobName

pub data Template : Type 0 where
  -- the booking, the names of the recipient and of the counterpart, the recipient's timezone
  booking_confirmation : ℕ → String → String → String → Template
  booking_reminder : ℕ → String → String → String → Option String → Template
  booking_cancellation : ℕ → String → String → String → CancelledBy → Option String → Template
  booking_reschedule : ℕ → String → String → String → ℕ → Template
  verify_email reset_password : String → String → Template
  account_suspended : String → String → Template
  account_reactivated : String → Template
  new_application : String → String → Template
  profile_approved : String → Template
  profile_rejected : String → String → Template

pub data Effect : Type 0 where
  meeting_job : MeetingJobName → ℕ → Effect
  add_reminder : ℕ → ℕ → Effect
  remove_reminder : ℕ → Effect
  email : String → Template → Effect

pub record Db : Type 0 where
  pub users : List User
  pub refresh_tokens : List RefreshToken
  pub availabilities : List Availability
  pub profiles : List HrProfile
  pub bookings : List Booking
  pub meetings : List Meeting
  pub reports : List Report
  pub specializations : List Specialization
  pub audit_logs : List AuditLog
  pub oauth_accounts : List OauthAccount
  pub next_id : ℕ
  pub effects : List Effect

pub data Outcome {ℓ} (A : Type ℓ) : Type ℓ where
  returns : A → Db → Outcome A
  throws : Thrown → Db → Outcome A

abbrev pub M {ℓ} : Type ℓ → Type ℓ
M A = Db → Outcome A

abbrev pub after_outcome {ℓ κ} :
    {A : Type ℓ} {B : Type κ} → Outcome A → (A → Db → Outcome B) → Outcome B
after_outcome (returns a db) f = f a db
after_outcome (throws t db) f = throws t db

infixl 5 ◌>>=◌ ◌>>◌
abbrev pub ◌>>=◌ {ℓ κ} : {A : Type ℓ} {B : Type κ} → M A → (A → M B) → M B
◌>>=◌ m f db = after_outcome (m db) f

abbrev pub ◌>>◌ {ℓ κ} : {A : Type ℓ} {B : Type κ} → M A → M B → M B
◌>>◌ m k db = after_outcome (m db) (λ _. k)

abbrev pub pure {ℓ} : {A : Type ℓ} → A → M A
pure a db = returns a db

abbrev pub throw {ℓ} : {A : Type ℓ} → AppError → M A
throw e db = throws (app e) db

-- A check that needs no state.
abbrev pub lift {ℓ} : {A : Type ℓ} → Result A → M A
lift (ok a) db = returns a db
lift (err e) db = throws (app e) db

-- `if (test) throw e`.
abbrev pub throw_if : Bool → AppError → M (Unit {0})
throw_if true e db = throws (app e) db
throw_if false e db = returns tt db

-- `if (!document) throw e`.
abbrev pub or_throw {ℓ} : {A : Type ℓ} → Option A → AppError → M A
or_throw none e db = throws (app e) db
or_throw (some a) e db = returns a db

abbrev pub get {ℓ} : {A : Type ℓ} → (Db → A) → M A
get f db = returns (f db) db

abbrev pub modify : (Db → Db) → M (Unit {0})
modify f db = returns tt (f db)

abbrev pub emit : Effect → M (Unit {0})
emit e db = returns tt (record db { effects = db.effects ++ e ∷ [] })

-- The state that a call leaves, whether it returns or throws.
abbrev pub final {ℓ} : {A : Type ℓ} → Outcome A → Db
final (returns a db) = db
final (throws t db) = db

-- A call that returns has returned at each of its steps.
pub bind-returns {ℓ κ} :
    {A : Type ℓ} {B : Type κ} (m : Outcome A) (next : A → M B) (b : B) (after : Db)
    → after_outcome m next ≡ returns b after
    → (a : A) × (mid : Db) × (m ≡ returns a mid) × (next a mid ≡ returns b after)
bind-returns (returns a mid) next b after e = (a, mid, refl, e)
bind-returns (throws t mid) next b after e = ground (arith, e)
