-- ===== src/Listings.antt =====
-- The listings of src/services: `listBookings`, `listBookingsForAdmin`, `listUsers`,
-- `listProfilesForAdmin`, `listPublicProfiles`, `listReports` and `listAuditLogs`. What the server does
-- with a sort and with a regular expression is a parameter; the populated names are left out.
pub mod Scope
pub mod Upcoming
use hr_booking_server.Base.{
  ℕ, Bool, true, false, ◌&&◌, ◌||◌, not, Option, none, some, String, List, ltb, leb, ◌==◌,
  same_text, if◌then◌else◌, any,
}
use hr_booking_server.Constants.{
  UserRole, UserStatus, is_hr, ProfileStatus, BookingStatus, is_active_status, ReportStatus,
  AuditAction, AuditResourceType,
}
use hr_booking_server.Errors.{Result, ok, err, forbidden}
use hr_booking_server.Models.{User, Booking, HrProfile, Report, AuditLog}
use hr_booking_server.Store.{Db, M, ◌>>=◌, pure, lift, get}
use hr_booking_server.Availability.{is_published}
use hr_booking_server.Booking.Checks.{Actor}
use hr_booking_server.Paging.{Page, find_page}

pub data Direction : Type 0 where
  ascending descending : Direction

pub data ProfileKey : Type 0 where
  rating hourly_rate_cents newest : ProfileKey

-- The server's sorts in the query of a page, the case-insensitive search for a text within another, and the
-- case-insensitive comparison of a whole text. An enumeration is compared by its text.
pub record Mongo : Type 0 where
  pub bookings_by_start : Direction → ℕ → List Booking → List Booking
  pub users_newest : ℕ → List User → List User
  pub profiles_by : ProfileKey → Direction → ℕ → List HrProfile → List HrProfile
  pub reports_newest : ℕ → List Report → List Report
  pub audit_logs_newest : ℕ → List AuditLog → List AuditLog
  pub contains : String → String → Bool
  pub matches : String → String → Bool
  pub action_text : AuditAction → String
  pub resource_text : AuditResourceType → String

-- A part of a filter that is only set if the query has the value.
abbrev pub when_given {ℓ} : {A : Type ℓ} → Option A → (A → Bool) → Bool
when_given none test = true
when_given (some a) test = test a

-- An empty search is no search.
abbrev when_searched : Option String → (String → Bool) → Bool
when_searched none test = true
when_searched (some s) test = same_text s "" || test s

abbrev pub same_status : BookingStatus → BookingStatus → Bool
same_status BookingStatus.pending BookingStatus.pending = true
same_status BookingStatus.confirmed BookingStatus.confirmed = true
same_status BookingStatus.cancelled BookingStatus.cancelled = true
same_status BookingStatus.completed BookingStatus.completed = true
same_status BookingStatus.no_show BookingStatus.no_show = true
same_status _ _ = false

abbrev same_role : UserRole → UserRole → Bool
same_role UserRole.user UserRole.user = true
same_role UserRole.hr UserRole.hr = true
same_role UserRole.admin UserRole.admin = true
same_role UserRole.super_admin UserRole.super_admin = true
same_role _ _ = false

abbrev same_user_status : UserStatus → UserStatus → Bool
same_user_status UserStatus.active UserStatus.active = true
same_user_status UserStatus.suspended UserStatus.suspended = true
same_user_status _ _ = false

abbrev same_profile_status : ProfileStatus → ProfileStatus → Bool
same_profile_status ProfileStatus.draft ProfileStatus.draft = true
same_profile_status ProfileStatus.pending_review ProfileStatus.pending_review = true
same_profile_status ProfileStatus.published ProfileStatus.published = true
same_profile_status ProfileStatus.rejected ProfileStatus.rejected = true
same_profile_status _ _ = false

abbrev same_report_status : ReportStatus → ReportStatus → Bool
same_report_status ReportStatus.pending ReportStatus.pending = true
same_report_status ReportStatus.dismissed ReportStatus.dismissed = true
same_report_status ReportStatus.actioned ReportStatus.actioned = true
same_report_status _ _ = false

-- `TERMINAL_STATUSES.includes(status)`.
abbrev pub is_terminal_status : BookingStatus → Bool
is_terminal_status BookingStatus.cancelled = true
is_terminal_status BookingStatus.completed = true
is_terminal_status BookingStatus.no_show = true
is_terminal_status _ = false

pub data ScopeRole : Type 0 where
  as_user as_hr : ScopeRole

pub data ListScope : Type 0 where
  upcoming past all_bookings : ListScope

pub record ListBookingsQuery : Type 0 where
  pub page : ℕ
  pub limit : ℕ
  pub role : Option ScopeRole
  pub scope : ListScope
  pub status : Option BookingStatus

abbrev grant : UserRole → ScopeRole → Result ScopeRole
grant role as_user = ok as_user
grant role as_hr =
    if is_hr role
    then ok as_hr
    else err (forbidden "Only consultants can list bookings made with them." none)

unfoldable pub resolve_scope_role : Actor → Option ScopeRole → Result ScopeRole
resolve_scope_role actor none = ok (if is_hr actor.role then as_hr else as_user)
resolve_scope_role actor (some requested) = grant actor.role requested

abbrev pub is_party_as : ScopeRole → ℕ → Booking → Bool
is_party_as as_hr id b = b.hr_user_id == id
is_party_as as_user id b = b.user_id == id

-- `filter.startAt` and `filter.$or`.
abbrev pub in_scope : ℕ → ListScope → Booking → Bool
in_scope now upcoming b = leb now b.start_at
in_scope now past b = ltb b.start_at now || is_terminal_status b.status
in_scope now all_bookings b = true

-- `filter.status`, which a status of the query replaces.
abbrev pub has_status : ListScope → Option BookingStatus → Booking → Bool
has_status scope (some status) b = same_status status b.status
has_status upcoming none b = is_active_status b.status
has_status _ none b = true

unfoldable pub bookings_filter : ℕ → ScopeRole → ℕ → ListBookingsQuery → Booking → Bool
bookings_filter now role id query b =
    is_party_as role id b && in_scope now query.scope b && has_status query.scope query.status b

abbrev pub direction_of : ListScope → Direction
direction_of upcoming = ascending
direction_of _ = descending

pub record AdminListBookingsQuery : Type 0 where
  pub page : ℕ
  pub limit : ℕ
  pub status : Option BookingStatus
  pub user_id : Option ℕ
  pub hr_user_id : Option ℕ
  pub from : Option ℕ
  pub to : Option ℕ

unfoldable pub admin_bookings_filter : AdminListBookingsQuery → Booking → Bool
admin_bookings_filter query b =
    when_given query.status (λ status. same_status status b.status)
    && when_given query.user_id (λ id. b.user_id == id)
    && when_given query.hr_user_id (λ id. b.hr_user_id == id)
    && when_given query.from (λ from. leb from b.start_at)
    && when_given query.to (λ to. leb b.start_at to)

pub record AdminListUsersQuery : Type 0 where
  pub page : ℕ
  pub limit : ℕ
  pub role : Option UserRole
  pub status : Option UserStatus
  pub search : Option String

pub record AdminListProfilesQuery : Type 0 where
  pub page : ℕ
  pub limit : ℕ
  pub status : Option ProfileStatus
  pub search : Option String

pub record ListProfilesQuery : Type 0 where
  pub page : ℕ
  pub limit : ℕ
  pub search : Option String
  pub specialization : Option String
  pub language : Option String
  pub min_rate_cents : Option ℕ
  pub max_rate_cents : Option ℕ
  pub sort_by : ProfileKey
  pub sort_order : Direction

pub record ListReportsQuery : Type 0 where
  pub page : ℕ
  pub limit : ℕ
  pub status : Option ReportStatus

pub record ListAuditLogsQuery : Type 0 where
  pub page : ℕ
  pub limit : ℕ
  pub action : Option String
  pub actor_id : Option ℕ
  pub resource_type : Option String

module _ (mongo : Mongo) where
  unfoldable pub list_bookings : ℕ → Actor → ListBookingsQuery → M (Page Booking)
  unfolding resolve_scope_role find_page bookings_filter
  list_bookings now actor query = do
    role ← lift (resolve_scope_role actor query.role)
    get λ db.
        find_page (bookings_filter now role actor.id query)
          (mongo.bookings_by_start (direction_of query.scope)) query.page query.limit db.bookings

  unfoldable pub list_bookings_for_admin : AdminListBookingsQuery → M (Page Booking)
  unfolding find_page admin_bookings_filter
  list_bookings_for_admin query = get λ db.
      find_page (admin_bookings_filter query) (mongo.bookings_by_start descending) query.page
        query.limit db.bookings

  abbrev in_field : String → Option String → Bool
  in_field s none = false
  in_field s (some field) = mongo.contains s field

  unfoldable pub users_filter : AdminListUsersQuery → User → Bool
  users_filter query u =
      when_given query.role (λ role. same_role role u.role)
      && when_given query.status (λ status. same_user_status status u.status)
      && when_searched query.search (λ s.
        mongo.contains s u.email || mongo.contains s u.first_name || mongo.contains s u.last_name)

  unfoldable pub list_users : AdminListUsersQuery → M (Page User)
  unfolding find_page users_filter
  list_users query =
      get λ db. find_page (users_filter query) mongo.users_newest query.page query.limit db.users

  unfoldable pub admin_profiles_filter : AdminListProfilesQuery → HrProfile → Bool
  admin_profiles_filter query p =
      when_given query.status (λ status. same_profile_status status p.status)
      && when_searched query.search (λ s. mongo.contains s p.headline || in_field s p.company_name)

  unfoldable pub list_profiles_for_admin : AdminListProfilesQuery → M (Page HrProfile)
  unfolding find_page admin_profiles_filter
  list_profiles_for_admin query = get λ db.
      find_page (admin_profiles_filter query) (mongo.profiles_by newest descending) query.page
        query.limit db.profiles

  unfoldable pub public_profiles_filter : ListProfilesQuery → HrProfile → Bool
  public_profiles_filter query p =
      is_published p.status
      && when_searched query.specialization (λ s. any (same_text s) p.specializations)
      && when_searched query.language (λ s. any (mongo.matches s) p.languages)
      && when_given query.min_rate_cents (λ least. leb least p.hourly_rate_cents)
      && when_given query.max_rate_cents (λ most. leb p.hourly_rate_cents most)
      && when_searched query.search (λ s. mongo.contains s p.headline || mongo.contains s p.bio)

  unfoldable pub list_public_profiles : ListProfilesQuery → M (Page HrProfile)
  unfolding find_page public_profiles_filter
  list_public_profiles query = get λ db.
      find_page (public_profiles_filter query) (mongo.profiles_by query.sort_by query.sort_order)
        query.page query.limit db.profiles

  unfoldable pub reports_filter : ListReportsQuery → Report → Bool
  reports_filter query r = when_given query.status (λ status. same_report_status status r.status)

  unfoldable pub list_reports : ListReportsQuery → M (Page Report)
  unfolding find_page reports_filter
  list_reports query =
      get λ db.
        find_page (reports_filter query) mongo.reports_newest query.page query.limit db.reports

  abbrev is_about : String → Option AuditResourceType → Bool
  is_about s none = false
  is_about s (some r) = same_text s (mongo.resource_text r)

  unfoldable pub audit_logs_filter : ListAuditLogsQuery → AuditLog → Bool
  audit_logs_filter query entry =
      when_searched query.action (λ s. same_text s (mongo.action_text entry.action))
      && when_given query.actor_id (λ id. entry.actor_id == id)
      && when_searched query.resource_type (λ s. is_about s entry.resource_type)

  unfoldable pub list_audit_logs : ListAuditLogsQuery → M (Page AuditLog)
  unfolding find_page audit_logs_filter
  list_audit_logs query = get λ db.
      find_page (audit_logs_filter query) mongo.audit_logs_newest query.page query.limit
        db.audit_logs
