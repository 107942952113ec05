-- ===== src/Availability.antt =====
-- src/services/availability.service.ts: the schedule records of the consultants.
pub mod Validator
pub mod Disjoint
pub mod Admitted
use hr_booking_server.Base.{
  ℕ, Bool, true, false, Option, none, some, List, [], ◌∷◌, ◌++◌, String, ◌==◌, find_first, change,
}
use hr_booking_server.Constants.{
  ProfileStatus, published, default_timezone, default_slot_duration_minutes, default_buffer_minutes,
  default_min_notice_minutes, default_max_advance_days,
}
use hr_booking_server.Models.{Availability, WorkingDay, BlockedDate}
use hr_booking_server.Store.{Db, M, returns, ◌>>=◌, ◌>>◌, pure, modify}

-- What `new Availability({ hrUserId })` and `Availability.create({ hrUserId })` fill in.
abbrev pub default_availability : ℕ → Availability
default_availability hr_user_id = record {
  hr_user_id = hr_user_id;
  timezone = default_timezone;
  slot_duration_minutes = default_slot_duration_minutes;
  buffer_minutes = default_buffer_minutes;
  min_notice_minutes = default_min_notice_minutes;
  max_advance_days = default_max_advance_days;
  weekly_hours = [];
  blocked_dates = [];
}

unfoldable pub find_availability : ℕ → Db → Option Availability
find_availability hr_user_id db = find_first (λ a. a.hr_user_id == hr_user_id) db.availabilities

abbrev create_availability : ℕ → M Availability
create_availability hr_user_id db =
    returns (default_availability hr_user_id)
      (record db { availabilities = db.availabilities ++ default_availability hr_user_id ∷ [] })

abbrev or_create : Option Availability → ℕ → M Availability
or_create (some a) hr_user_id db = returns a db
or_create none hr_user_id db = create_availability hr_user_id db

unfoldable pub get_or_create_availability : ℕ → M Availability
get_or_create_availability hr_user_id db = or_create (find_availability hr_user_id db) hr_user_id db

pub record UpdateAvailabilityInput : Type 0 where
  pub timezone : String
  pub slot_duration_minutes : ℕ
  pub buffer_minutes : ℕ
  pub min_notice_minutes : ℕ
  pub max_advance_days : ℕ
  pub weekly_hours : List WorkingDay
  pub blocked_dates : List BlockedDate

abbrev pub assign : UpdateAvailabilityInput → Availability → Availability
assign input a = record {
  hr_user_id = a.hr_user_id;
  timezone = input.timezone;
  slot_duration_minutes = input.slot_duration_minutes;
  buffer_minutes = input.buffer_minutes;
  min_notice_minutes = input.min_notice_minutes;
  max_advance_days = input.max_advance_days;
  weekly_hours = input.weekly_hours;
  blocked_dates = input.blocked_dates;
}

unfoldable pub update_availability : ℕ → UpdateAvailabilityInput → M Availability
unfolding get_or_create_availability
update_availability hr_user_id input = do
  availability ← get_or_create_availability hr_user_id
  modify λ db. record db {
    availabilities =
        change (λ a. a.hr_user_id == hr_user_id) (λ _. assign input availability) db.availabilities;
  }
  pure (assign input availability)

abbrev or_default : Option Availability → ℕ → Availability
or_default (some a) hr_user_id = a
or_default none hr_user_id = default_availability hr_user_id

unfoldable pub get_availability_for_hr : ℕ → Db → Availability
unfolding find_availability
get_availability_for_hr hr_user_id db = or_default (find_availability hr_user_id db) hr_user_id

abbrev pub is_published : ProfileStatus → Bool
is_published published = true
is_published _ = false
