-- ===== src/Http/Profiles.antt =====
-- src/routes/v1/hrProfile.routes.ts, availability.routes.ts, report.routes.ts and
-- specialization.routes.ts with their controllers. A profile, a schedule, a report or a
-- specialization is answered with its document, where the public does not read it; the answer's shape
-- is left out.
use hr_booking_server.Base.{ℕ, Bool, false, Option, none, some, List, ltb, if◌then◌else◌, map}
use hr_booking_server.Constants.{is_hr}
use hr_booking_server.DateTime.{add_days}
use hr_booking_server.Errors.{not_found}
use hr_booking_server.Models.{HrProfile, ProfileInput, Availability, Report, Specialization}
use hr_booking_server.Store.{M, ◌>>=◌, or_throw}
use hr_booking_server.Booking.Checks.{Actor}
use hr_booking_server.Booking.Service.{run_check}
use hr_booking_server.Slot.{Slot, get_available_slots}
use hr_booking_server.Availability.{
  UpdateAvailabilityInput, get_or_create_availability, update_availability,
}
use hr_booking_server.Listings.{ListProfilesQuery, list_public_profiles}
use hr_booking_server.Lookup.{
  PublicProfile, PublicSchedule, to_public_profile, to_public_schedule_response,
  get_profile_by_user_id, get_public_profile, get_published_profile_availability,
  list_specializations,
}
use hr_booking_server.Profile.{
  upsert_profile, submit_profile_for_review, withdraw_profile, set_availability,
}
use hr_booking_server.Reports.{CreateReportInput, create_report}
use hr_booking_server.Http.{
  Platform, Request, Parsed, Success, authenticate, load_user, require_role, validate,
  require_actor, send_success, send_created, send_paginated,
}

pub data OwnRoute : Type 0 where
  my_profile_route submit_route withdraw_route : OwnRoute
  set_availability_route : Bool → OwnRoute
  my_schedule_route : OwnRoute
  update_schedule_route : UpdateAvailabilityInput → OwnRoute

pub data OwnPayload : Type 0 where
  own_profile : HrProfile → OwnPayload
  own_schedule : Availability → OwnPayload

pub record SlotsQuery : Type 0 where
  pub from : Option ℕ
  pub to : Option ℕ

pub record SlotsAnswer : Type 0 where
  pub schedule : PublicSchedule
  pub from : ℕ
  pub to : ℕ
  pub slots : List Slot

abbrev default_slot_window_days : ℕ
default_slot_window_days = 14

-- `query.from && query.from > now ? query.from : now`.
abbrev pub from_of : ℕ → Option ℕ → ℕ
from_of now none = now
from_of now (some from) = if ltb now from then from else now

-- `query.to ?? addDays(from, DEFAULT_SLOT_WINDOW_DAYS)`.
abbrev pub to_of : ℕ → Option ℕ → ℕ
to_of from none = add_days from default_slot_window_days
to_of from (some to) = to

abbrev own_account : Request → M Actor
own_account req = or_throw req.user (not_found "Account not found.")

module _ (platform : Platform) where
  unfoldable pub get_my_profile_handler : Request → M (Success OwnPayload)
  unfolding get_profile_by_user_id
  get_my_profile_handler req = do
    actor ← own_account req
    profile ← get_profile_by_user_id actor.id
    send_success (own_profile profile)

  unfoldable pub submit_profile_handler : Request → M (Success OwnPayload)
  unfolding submit_profile_for_review
  submit_profile_handler req = do
    actor ← own_account req
    profile ← submit_profile_for_review actor.id
    send_success (own_profile profile)

  unfoldable pub withdraw_profile_handler : Request → M (Success OwnPayload)
  unfolding withdraw_profile
  withdraw_profile_handler req = do
    actor ← own_account req
    profile ← withdraw_profile actor.id
    send_success (own_profile profile)

  unfoldable pub availability_handler : Request → Bool → M (Success OwnPayload)
  unfolding set_availability
  availability_handler req is_available = do
    actor ← own_account req
    profile ← set_availability actor.id is_available
    send_success (own_profile profile)

  unfoldable pub get_my_availability_handler : Request → M (Success OwnPayload)
  unfolding get_or_create_availability
  get_my_availability_handler req = do
    actor ← require_actor req
    availability ← get_or_create_availability actor.id
    send_success (own_schedule availability)

  unfoldable pub update_my_availability_handler :
      Request → UpdateAvailabilityInput → M (Success OwnPayload)
  unfolding update_availability
  update_my_availability_handler req input = do
    actor ← require_actor req
    availability ← update_availability actor.id input
    send_success (own_schedule availability)

  unfoldable pub own_handler : OwnRoute → Request → M (Success OwnPayload)
  own_handler my_profile_route req = get_my_profile_handler req
  own_handler submit_route req = submit_profile_handler req
  own_handler withdraw_route req = withdraw_profile_handler req
  own_handler (set_availability_route is_available) req = availability_handler req is_available
  own_handler my_schedule_route req = get_my_availability_handler req
  own_handler (update_schedule_route input) req = update_my_availability_handler req input

  -- The routes under /profiles/me and /availability/me that are for consultants only.
  unfoldable pub consultant_router : Parsed OwnRoute → Request → M (Success OwnPayload)
  unfolding authenticate load_user require_role own_handler
  consultant_router input req = do
    authenticated ← authenticate platform.verify_access_token req
    loaded ← load_user authenticated
    admitted ← require_role is_hr loaded
    route ← validate input
    own_handler route admitted

  unfoldable pub upsert_profile_handler : Request → ProfileInput → M (Success (HrProfile × Bool))
  unfolding upsert_profile
  upsert_profile_handler req input = do
    actor ← own_account req
    result ← upsert_profile actor.id input
    send_success (result.profile, result.upgraded)

  -- `hrProfileRouter.put('/me', …)`, for every account.
  unfoldable pub upsert_route : Parsed ProfileInput → Request → M (Success (HrProfile × Bool))
  unfolding authenticate load_user upsert_profile_handler
  upsert_route input req = do
    authenticated ← authenticate platform.verify_access_token req
    loaded ← load_user authenticated
    profile ← validate input
    upsert_profile_handler loaded profile

  unfoldable pub create_report_handler : Request → CreateReportInput → M (Success Report)
  unfolding create_report
  create_report_handler req input = do
    actor ← require_actor req
    report ← create_report actor.id input
    send_created report

  unfoldable pub report_router : Parsed CreateReportInput → Request → M (Success Report)
  unfolding authenticate load_user create_report_handler
  report_router input req = do
    authenticated ← authenticate platform.verify_access_token req
    loaded ← load_user authenticated
    report ← validate input
    create_report_handler loaded report

  unfoldable pub list_profiles_handler : ListProfilesQuery → M (Success (List PublicProfile))
  unfolding list_public_profiles to_public_profile
  list_profiles_handler query = do
    page ← list_public_profiles platform.mongo query
    send_paginated (map to_public_profile page.data_of) page.pagination

  unfoldable pub get_profile_handler : ℕ → M (Success PublicProfile)
  unfolding get_public_profile
  get_profile_handler id = do profile ← get_public_profile id; send_success profile

  unfoldable pub get_profile_slots_handler : ℕ → SlotsQuery → M (Success SlotsAnswer)
  unfolding get_published_profile_availability get_available_slots to_public_schedule_response
  get_profile_slots_handler profile_id query = do
    (profile, availability) ← get_published_profile_availability profile_id
    let from = from_of platform.now query.from
    let to = to_of from query.to
    slots ← run_check (get_available_slots platform.luxon availability from to platform.now)
    send_success (record {
      schedule = to_public_schedule_response availability;
      from = from;
      to = to;
      slots = slots;
    })

  unfoldable pub list_public_specializations_handler : M (Success (List Specialization))
  unfolding list_specializations
  list_public_specializations_handler = do
    found ← list_specializations platform.by_name false
    send_success found
