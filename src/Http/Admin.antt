-- ===== src/Http/Admin.antt =====
-- src/routes/v1/admin.routes.ts and src/controllers/admin.controller.ts.
use hr_booking_server.Base.{ℕ, true, String, List, map}
use hr_booking_server.Constants.{is_admin}
use hr_booking_server.Models.{HrProfile, Specialization, Report, AuditLog}
use hr_booking_server.Store.{M, ◌>>=◌, ◌>>◌}
use hr_booking_server.Listings.{
  AdminListUsersQuery, AdminListProfilesQuery, AdminListBookingsQuery, ListReportsQuery,
  ListAuditLogsQuery, list_users, list_profiles_for_admin, list_bookings_for_admin, list_reports,
  list_audit_logs,
}
use hr_booking_server.Lookup.{
  AdminUser, to_admin_user, ProfileSummary, DashboardStats, BookingDetail, get_dashboard_stats,
  get_user_detail, get_profile_for_admin_by_id, list_specializations, to_booking_list,
}
use hr_booking_server.Admin.{suspend_user, reactivate_user, delete_user}
use hr_booking_server.Profile.{approve_profile, reject_profile}
use hr_booking_server.Specializations.{
  CreateSpecializationInput, UpdateSpecializationInput, create_specialization,
  update_specialization, delete_specialization,
}
use hr_booking_server.Reports.{ResolveReportInput, resolve_report}
use hr_booking_server.Http.{
  Platform, Request, Parsed, Success, authenticate, load_user, require_role, validate,
  require_actor, send_success, send_created, send_paginated,
}

-- A profile, a booking, a report or an entry of the log is answered with its document; the answer's
-- shape is left out. Here are the routes of the router with their validated input.
pub data AdminRoute : Type 0 where
  dashboard_route : AdminRoute
  users_route : AdminListUsersQuery → AdminRoute
  user_route : ℕ → AdminRoute
  suspend_route : ℕ → String → AdminRoute
  reactivate_route delete_route : ℕ → AdminRoute
  profiles_route : AdminListProfilesQuery → AdminRoute
  profile_route : ℕ → AdminRoute
  approve_route : ℕ → AdminRoute
  reject_route : ℕ → String → AdminRoute
  bookings_route : AdminListBookingsQuery → AdminRoute
  specializations_route : AdminRoute
  add_specialization_route : CreateSpecializationInput → AdminRoute
  change_specialization_route : ℕ → UpdateSpecializationInput → AdminRoute
  remove_specialization_route : ℕ → AdminRoute
  reports_route : ListReportsQuery → AdminRoute
  resolve_route : ℕ → ResolveReportInput → AdminRoute
  audit_logs_route : ListAuditLogsQuery → AdminRoute

pub data AdminPayload : Type 0 where
  stats_body : DashboardStats → AdminPayload
  users_body : List AdminUser → AdminPayload
  user_body : AdminUser → AdminPayload
  user_detail_body : AdminUser → ProfileSummary → AdminPayload
  deleted_body : String → String → AdminPayload
  profiles_body : List HrProfile → AdminPayload
  profile_body : HrProfile → AdminPayload
  bookings_body : List BookingDetail → AdminPayload
  specializations_body : List Specialization → AdminPayload
  specialization_body : Specialization → AdminPayload
  message_body : String → AdminPayload
  reports_body : List Report → AdminPayload
  report_body : Report → AdminPayload
  audit_logs_body : List AuditLog → AdminPayload

module _ (platform : Platform) where
  unfoldable pub dashboard_handler : M (Success AdminPayload)
  unfolding get_dashboard_stats
  dashboard_handler = do
    stats ← get_dashboard_stats platform.start_of_day platform.start_of_tomorrow
    send_success (stats_body stats)

  unfoldable pub list_users_handler : AdminListUsersQuery → M (Success AdminPayload)
  unfolding list_users to_admin_user
  list_users_handler query = do
    page ← list_users platform.mongo query
    send_paginated (users_body (map to_admin_user page.data_of)) page.pagination

  unfoldable pub get_user_handler : ℕ → M (Success AdminPayload)
  unfolding get_user_detail to_admin_user
  get_user_handler id = do
    detail ← get_user_detail id
    send_success (user_detail_body (to_admin_user detail.user) detail.hr_profile)

  unfoldable pub suspend_user_handler : Request → ℕ → String → M (Success AdminPayload)
  unfolding suspend_user to_admin_user
  suspend_user_handler req id reason = do
    actor ← require_actor req
    user ← suspend_user actor id reason
    send_success (user_body (to_admin_user user))

  unfoldable pub reactivate_user_handler : Request → ℕ → M (Success AdminPayload)
  unfolding reactivate_user to_admin_user
  reactivate_user_handler req id = do
    actor ← require_actor req
    user ← reactivate_user actor id
    send_success (user_body (to_admin_user user))

  unfoldable pub delete_user_handler : Request → ℕ → M (Success AdminPayload)
  unfolding delete_user
  delete_user_handler req id = do
    actor ← require_actor req
    summary ← delete_user platform.now actor id
    send_success (deleted_body "User deleted." summary.email)

  unfoldable pub list_admin_profiles_handler : AdminListProfilesQuery → M (Success AdminPayload)
  unfolding list_profiles_for_admin
  list_admin_profiles_handler query = do
    page ← list_profiles_for_admin platform.mongo query
    send_paginated (profiles_body page.data_of) page.pagination

  unfoldable pub get_admin_profile_handler : ℕ → M (Success AdminPayload)
  unfolding get_profile_for_admin_by_id
  get_admin_profile_handler id = do
    profile ← get_profile_for_admin_by_id id
    send_success (profile_body profile)

  unfoldable pub approve_profile_handler : Request → ℕ → M (Success AdminPayload)
  unfolding approve_profile
  approve_profile_handler req id = do
    actor ← require_actor req
    profile ← approve_profile platform.now actor id
    send_success (profile_body profile)

  unfoldable pub reject_profile_handler : Request → ℕ → String → M (Success AdminPayload)
  unfolding reject_profile
  reject_profile_handler req id reason = do
    actor ← require_actor req
    profile ← reject_profile platform.now actor id reason
    send_success (profile_body profile)

  unfoldable pub list_admin_bookings_handler : AdminListBookingsQuery → M (Success AdminPayload)
  unfolding list_bookings_for_admin to_booking_list
  list_admin_bookings_handler query = do
    page ← list_bookings_for_admin platform.mongo query
    shown ← to_booking_list page.data_of
    send_paginated (bookings_body shown) page.pagination

  unfoldable pub list_admin_specializations_handler : M (Success AdminPayload)
  unfolding list_specializations
  list_admin_specializations_handler = do
    found ← list_specializations platform.by_name true
    send_success (specializations_body found)

  unfoldable pub create_specialization_handler :
      CreateSpecializationInput → M (Success AdminPayload)
  unfolding create_specialization
  create_specialization_handler input = do
    created ← create_specialization platform.to_upper_case input
    send_created (specialization_body created)

  unfoldable pub update_specialization_handler :
      ℕ → UpdateSpecializationInput → M (Success AdminPayload)
  unfolding update_specialization
  update_specialization_handler id input = do
    updated ← update_specialization id input
    send_success (specialization_body updated)

  unfoldable pub delete_specialization_handler : ℕ → M (Success AdminPayload)
  unfolding delete_specialization
  delete_specialization_handler id = do
    delete_specialization id
    send_success (message_body "Specialization deleted.")

  unfoldable pub list_admin_reports_handler : ListReportsQuery → M (Success AdminPayload)
  unfolding list_reports
  list_admin_reports_handler query = do
    page ← list_reports platform.mongo query
    send_paginated (reports_body page.data_of) page.pagination

  unfoldable pub resolve_report_handler :
      Request → ℕ → ResolveReportInput → M (Success AdminPayload)
  unfolding resolve_report
  resolve_report_handler req id input = do
    actor ← require_actor req
    report ← resolve_report platform.now actor id input
    send_success (report_body report)

  unfoldable pub list_audit_logs_handler : ListAuditLogsQuery → M (Success AdminPayload)
  unfolding list_audit_logs
  list_audit_logs_handler query = do
    page ← list_audit_logs platform.mongo query
    send_paginated (audit_logs_body page.data_of) page.pagination

  unfoldable pub admin_handler : AdminRoute → Request → M (Success AdminPayload)
  admin_handler dashboard_route req = dashboard_handler
  admin_handler (users_route query) req = list_users_handler query
  admin_handler (user_route id) req = get_user_handler id
  admin_handler (suspend_route id reason) req = suspend_user_handler req id reason
  admin_handler (reactivate_route id) req = reactivate_user_handler req id
  admin_handler (delete_route id) req = delete_user_handler req id
  admin_handler (profiles_route query) req = list_admin_profiles_handler query
  admin_handler (profile_route id) req = get_admin_profile_handler id
  admin_handler (approve_route id) req = approve_profile_handler req id
  admin_handler (reject_route id reason) req = reject_profile_handler req id reason
  admin_handler (bookings_route query) req = list_admin_bookings_handler query
  admin_handler specializations_route req = list_admin_specializations_handler
  admin_handler (add_specialization_route input) req = create_specialization_handler input
  admin_handler (change_specialization_route id input) req = update_specialization_handler id input
  admin_handler (remove_specialization_route id) req = delete_specialization_handler id
  admin_handler (reports_route query) req = list_admin_reports_handler query
  admin_handler (resolve_route id input) req = resolve_report_handler req id input
  admin_handler (audit_logs_route query) req = list_audit_logs_handler query

  -- `adminRouter.use(authenticate, loadUser, requireRole(ADMIN, SUPER_ADMIN))`, then the route.
  unfoldable pub admin_router : Parsed AdminRoute → Request → M (Success AdminPayload)
  unfolding authenticate load_user require_role admin_handler
  admin_router input req = do
    authenticated ← authenticate platform.verify_access_token req
    loaded ← load_user authenticated
    admitted ← require_role is_admin loaded
    route ← validate input
    admin_handler route admitted
