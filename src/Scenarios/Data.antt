-- ===== src/Scenarios/Data.antt =====
-- A zone without clock changes, and a small state: a client, a consultant with a schedule and a
-- published profile, and an admin.
use hr_booking_server.Base.{
  ℕ, ◌+◌, ◌*◌, ◌/◌, true, Option, none, some, String, List, [], ◌∷◌, ltb, same_text, if◌then◌else◌,
}
use hr_booking_server.DateTime.{Luxon, TimeText, time_to_minutes}
use hr_booking_server.Constants.{UserRole, UserStatus, ProfileStatus, google_meet, BookingStatus}
use hr_booking_server.Models.{User, Availability, HrProfile, WorkingDay, Booking}
use hr_booking_server.Store.{Db}
use hr_booking_server.Booking.Checks.{Actor, CreateBookingInput}

abbrev pub day_ms : ℕ
day_ms = 86_400_000

abbrev time_of : Option ℕ → ℕ
time_of none = 0
time_of (some m) = m * 60_000

-- Two days are known.
unfoldable pub utc : Luxon
unfolding time_to_minutes
utc = record {
  start_of_day = λ zone t. t / 86_400_000 * 86_400_000;
  plus_days = λ zone n t. t + n * 86_400_000;
  to_format = λ zone t. if ltb t 86_400_000 then "1970-01-01" else "1970-01-02";
  weekday = λ zone key. 4;
  from_iso = λ zone key time.
      if same_text key "1970-01-01" then some (time_of (time_to_minutes time)) else none;
}

abbrev pub user_of : ℕ → String → UserRole → User
user_of id address role = record {
  id = id;
  email = address;
  password = "hashed";
  first_name = "Ada";
  last_name = "Byron";
  role = role;
  status = UserStatus.active;
  is_email_verified = true;
  email_verified_at = none;
  phone = none;
  profile_image_url = none;
  failed_login_attempts = 0;
  locked_until = none;
}

abbrev pub nine : TimeText
nine = 48 ∷ 57 ∷ 58 ∷ 48 ∷ 48 ∷ []

abbrev pub eleven : TimeText
eleven = 49 ∷ 49 ∷ 58 ∷ 48 ∷ 48 ∷ []

abbrev pub mornings : List WorkingDay
mornings = record { weekday = 4; intervals = record { start = nine; end = eleven } ∷ [] } ∷ []

abbrev pub schedule : Availability
schedule = record {
  hr_user_id = 2;
  timezone = "UTC";
  slot_duration_minutes = 60;
  buffer_minutes = 0;
  min_notice_minutes = 0;
  max_advance_days = 60;
  weekly_hours = mornings;
  blocked_dates = [];
}

abbrev pub profile_with : ProfileStatus → HrProfile
profile_with status = record {
  id = 5;
  user_id = 2;
  headline = "Payroll";
  bio = "Twenty years of payroll.";
  specializations = "HRIS" ∷ [];
  years_of_experience = 20;
  company_name = none;
  hourly_rate_cents = 9000;
  currency = "USD";
  languages = [];
  city = none;
  country = none;
  profile_image_url = none;
  certifications = [];
  work_history = [];
  status = status;
  rejection_reason = none;
  reviewed_by = none;
  reviewed_at = none;
  is_available = true;
}

-- Without bookings.
abbrev pub start_db : Db
start_db = record {
  users =
      user_of 1 "client@mail" UserRole.user
      ∷ user_of 2 "consultant@mail" UserRole.hr
      ∷ user_of 9 "admin@mail" UserRole.admin
      ∷ [];
  refresh_tokens = [];
  availabilities = schedule ∷ [];
  profiles = profile_with ProfileStatus.published ∷ [];
  bookings = [];
  meetings = [];
  reports = [];
  specializations = [];
  audit_logs = [];
  oauth_accounts = [];
  next_id = 100;
  effects = [];
}

abbrev pub client : Actor
client = record { id = 1; role = UserRole.user }

abbrev pub admin : Actor
admin = record { id = 9; role = UserRole.admin }

-- 09:00 and 10:00 of the first day.
abbrev pub nine_ms : ℕ
nine_ms = 32_400_000

abbrev pub ten_ms : ℕ
ten_ms = 36_000_000

abbrev pub nine_input : CreateBookingInput
nine_input = record {
  profile_id = 5;
  start_at = nine_ms;
  timezone = none;
  notes = none;
  meeting_provider = google_meet;
}

abbrev pub nine_booking : Booking
nine_booking = record {
  id = 100;
  user_id = 1;
  hr_user_id = 2;
  hr_profile_id = 5;
  start_at = nine_ms;
  end_at = ten_ms;
  duration_minutes = 60;
  hr_timezone = "UTC";
  user_timezone = "UTC";
  status = BookingStatus.confirmed;
  price_cents = 9000;
  currency = "USD";
  meeting_provider = google_meet;
  notes = none;
  slot_key = some (record { hr_user_id = 2; start_at = nine_ms });
  cancelled_at = none;
  cancelled_by = none;
  cancellation_reason = none;
  previous_start_at = none;
  reschedule_count = 0;
}

abbrev pub booked_db : Db
booked_db = record start_db { bookings = nine_booking ∷ []; next_id = 101 }
