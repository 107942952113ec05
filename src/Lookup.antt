-- ===== src/Lookup.antt =====
-- The calls of src/services that only read, what they answer with, and `retryBookingMeeting`. The
-- dates `createdAt` and `updatedAt` of an answer, and the ratings of a profile, are left out.
use hr_booking_server.Base.{
  ℕ, Bool, true, false, ◌&&◌, not, Option, none, some, String, List, map, ltb, leb, if◌then◌else◌,
  keep, length,
}
use hr_booking_server.Constants.{
  UserRole, UserStatus, is_hr, ProfileStatus, BookingStatus, ReportStatus,
}
use hr_booking_server.Errors.{unauthorized, not_found, conflict}
use hr_booking_server.Models.{
  User, Booking, HrProfile, Availability, Meeting, Specialization, Certification, WorkHistoryEntry,
  WorkingDay,
}
use hr_booking_server.Store.{M, ◌>>=◌, ◌>>◌, pure, throw_if, or_throw, lift, get}
use hr_booking_server.Auth.{find_by_id}
use hr_booking_server.Availability.{get_availability_for_hr}
use hr_booking_server.Profile.{find_profile, find_profile_of}
use hr_booking_server.Booking.Checks.{Actor, find_booking, find_published, assert_participant}
use hr_booking_server.Booking.Service.{get_booking_for_actor}
use hr_booking_server.Meetings.{Provider, find_meeting, is_retryable, ensure_meeting_for_booking}
use hr_booking_server.Listings.{same_status}

-- What a user may read of an account.
pub record PublicUser : Type 0 where
  pub id : ℕ
  pub email : String
  pub first_name : String
  pub last_name : String
  pub role : UserRole
  pub status : UserStatus
  pub is_email_verified : Bool
  pub phone : Option String
  pub profile_image_url : Option String

unfoldable pub to_public_user : User → PublicUser
to_public_user u = record {
  id = u.id;
  email = u.email;
  first_name = u.first_name;
  last_name = u.last_name;
  role = u.role;
  status = u.status;
  is_email_verified = u.is_email_verified;
  phone = u.phone;
  profile_image_url = u.profile_image_url;
}

-- What an admin may read of an account.
pub record AdminUser : Type 0 where
  pub id : ℕ
  pub email : String
  pub first_name : String
  pub last_name : String
  pub role : UserRole
  pub status : UserStatus
  pub is_email_verified : Bool
  pub phone : Option String

unfoldable pub to_admin_user : User → AdminUser
to_admin_user u = record {
  id = u.id;
  email = u.email;
  first_name = u.first_name;
  last_name = u.last_name;
  role = u.role;
  status = u.status;
  is_email_verified = u.is_email_verified;
  phone = u.phone;
}

-- What the public may read of a profile; the owner's name is left out.
pub record PublicProfile : Type 0 where
  pub id : ℕ
  pub headline : String
  pub bio : String
  pub specializations : List String
  pub years_of_experience : ℕ
  pub company_name : Option String
  pub hourly_rate_cents : ℕ
  pub currency : String
  pub languages : List String
  pub city : Option String
  pub country : Option String
  pub profile_image_url : Option String
  pub certifications : List Certification
  pub work_history : List WorkHistoryEntry
  pub is_available : Bool

unfoldable pub to_public_profile : HrProfile → PublicProfile
to_public_profile p = record {
  id = p.id;
  headline = p.headline;
  bio = p.bio;
  specializations = p.specializations;
  years_of_experience = p.years_of_experience;
  company_name = p.company_name;
  hourly_rate_cents = p.hourly_rate_cents;
  currency = p.currency;
  languages = p.languages;
  city = p.city;
  country = p.country;
  profile_image_url = p.profile_image_url;
  certifications = p.certifications;
  work_history = p.work_history;
  is_available = p.is_available;
}

-- What the public may read of a schedule.
pub record PublicSchedule : Type 0 where
  pub timezone : String
  pub slot_duration_minutes : ℕ
  pub min_notice_minutes : ℕ
  pub max_advance_days : ℕ
  pub weekly_hours : List WorkingDay

unfoldable pub to_public_schedule_response : Availability → PublicSchedule
to_public_schedule_response a = record {
  timezone = a.timezone;
  slot_duration_minutes = a.slot_duration_minutes;
  min_notice_minutes = a.min_notice_minutes;
  max_advance_days = a.max_advance_days;
  weekly_hours = a.weekly_hours;
}

unfoldable pub get_user_by_id : ℕ → M User
unfolding find_by_id
get_user_by_id id = do
  found ← get (find_by_id id)
  or_throw found (unauthorized "Account not found." none)

-- `hrProfile` of the detail: absent for an account that is not a consultant's.
pub data ProfileSummary : Type 0 where
  not_consultant no_profile : ProfileSummary
  summary : ℕ → ProfileStatus → ProfileSummary

pub record UserDetail : Type 0 where
  pub user : User
  pub hr_profile : ProfileSummary

abbrev summarize : Bool → Option HrProfile → ProfileSummary
summarize false _ = not_consultant
summarize true none = no_profile
summarize true (some p) = summary p.id p.status

unfoldable pub get_user_detail : ℕ → M UserDetail
unfolding find_by_id find_profile_of
get_user_detail user_id = do
  found ← get (find_by_id user_id)
  user ← or_throw found (not_found "User not found.")
  profile ← get (find_profile_of user_id)
  pure (record { user = user; hr_profile = summarize (is_hr user.role) profile })

unfoldable pub get_profile_by_user_id : ℕ → M HrProfile
unfolding find_profile_of
get_profile_by_user_id user_id = do
  found ← get (find_profile_of user_id)
  or_throw found (not_found "Profile not found. Complete onboarding to create one.")

unfoldable pub get_profile_for_admin_by_id : ℕ → M HrProfile
unfolding find_profile
get_profile_for_admin_by_id id = do
  found ← get (find_profile id)
  or_throw found (not_found "Profile not found.")

unfoldable pub get_public_profile : ℕ → M PublicProfile
unfolding find_published to_public_profile
get_public_profile id = do
  found ← get (find_published id)
  profile ← or_throw found (not_found "Profile not found.")
  pure (to_public_profile profile)

unfoldable pub get_published_profile_availability : ℕ → M (HrProfile × Availability)
unfolding find_published get_availability_for_hr
get_published_profile_availability id = do
  found ← get (find_published id)
  profile ← or_throw found (not_found "Profile not found.")
  availability ← get (get_availability_for_hr profile.user_id)
  pure (profile, availability)

-- The server's sort by name is the argument `by_name`.
unfoldable pub list_specializations :
    (List Specialization → List Specialization) → Bool → M (List Specialization)
list_specializations by_name include_inactive = get λ db.
    by_name
      (if include_inactive then db.specializations else keep (λ s. s.is_active) db.specializations)

pub record DashboardStats : Type 0 where
  pub total_users : ℕ
  pub total_hr_professionals : ℕ
  pub pending_hr_applications : ℕ
  pub suspended_users : ℕ
  pub total_bookings : ℕ
  pub todays_bookings : ℕ
  pub completed_bookings : ℕ
  pub cancelled_bookings : ℕ
  pub pending_reports : ℕ

abbrev count {ℓ} : {A : Type ℓ} → (A → Bool) → List A → ℕ
count p xs = length (keep p xs)

abbrev is_plain : UserRole → Bool
is_plain UserRole.user = true
is_plain _ = false

abbrev awaits_review : ProfileStatus → Bool
awaits_review ProfileStatus.pending_review = true
awaits_review _ = false

abbrev is_barred : UserStatus → Bool
is_barred UserStatus.suspended = true
is_barred _ = false

abbrev awaits_resolution : ReportStatus → Bool
awaits_resolution ReportStatus.pending = true
awaits_resolution _ = false

-- The starts of today and of tomorrow in UTC are arguments, as luxon finds them.
unfoldable pub get_dashboard_stats : ℕ → ℕ → M DashboardStats
get_dashboard_stats start_of_day start_of_tomorrow = get λ db. record {
  total_users = count (λ u. is_plain u.role) db.users;
  total_hr_professionals = count (λ u. is_hr u.role) db.users;
  pending_hr_applications = count (λ p. awaits_review p.status) db.profiles;
  suspended_users = count (λ u. is_barred u.status) db.users;
  total_bookings = length db.bookings;
  todays_bookings =
      count (λ b. leb start_of_day b.start_at && ltb b.start_at start_of_tomorrow) db.bookings;
  completed_bookings = count (λ b. same_status b.status BookingStatus.completed) db.bookings;
  cancelled_bookings = count (λ b. same_status b.status BookingStatus.cancelled) db.bookings;
  pending_reports = count (λ r. awaits_resolution r.status) db.reports;
}

pub record BookingDetail : Type 0 where
  pub booking : Booking
  pub meeting : Option Meeting

unfoldable pub to_booking_detail : Booking → M BookingDetail
unfolding find_meeting
to_booking_detail b = get λ db. record { booking = b; meeting = find_meeting b.id db }

unfoldable pub to_booking_list : List Booking → M (List BookingDetail)
unfolding find_meeting
to_booking_list bs = get λ db. map (λ b. record { booking = b; meeting = find_meeting b.id db }) bs

unfoldable pub retry_booking_meeting : Provider → ℕ → Actor → ℕ → M Booking
unfolding find_booking assert_participant find_meeting ensure_meeting_for_booking
    get_booking_for_actor is_retryable
retry_booking_meeting provider now actor booking_id = do
  found ← get (find_booking booking_id)
  booking ← or_throw found (not_found "Booking not found.")
  lift (assert_participant actor booking)
  meeting ← get (find_meeting booking.id)
  throw_if (not (is_retryable now meeting booking))
      (conflict "This meeting does not need to be created again." none)
  ensure_meeting_for_booking provider booking.id
  get_booking_for_actor actor booking.id
