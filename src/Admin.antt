-- ===== src/Admin.antt =====
-- src/services/admin-user.service.ts: what admins do to accounts.
pub mod Deletion
use hr_booking_server.Base.{
  ℕ, suc, Bool, true, false, ◌&&◌, ◌||◌, not, Option, none, some, String, List, [], ◌∷◌, ◌++◌, ◌==◌,
  if◌then◌else◌, find_first, any, keep, change, map,
}
use hr_booking_server.Constants.{
  UserRole, UserStatus, is_hr, is_admin, AuditAction, AuditResourceType,
}
use hr_booking_server.Errors.{AppError, Thrown, app, bad_request, conflict, not_found}
use hr_booking_server.Models.{Metadatum, words, User, Booking, HrProfile}
use hr_booking_server.Store.{
  Db, M, Outcome, returns, throws, after_outcome, ◌>>=◌, ◌>>◌, final, pure, throw_if, or_throw, get,
  modify, emit, email, account_suspended, account_reactivated,
}
use hr_booking_server.Auth.{find_by_id, save_user, delete_tokens_of}
use hr_booking_server.Booking.Checks.{Actor, is_active}
use hr_booking_server.Booking.Service.{cancel_booking, record_audit_log}

abbrev is_suspended : UserStatus → Bool
is_suspended UserStatus.suspended = true
is_suspended UserStatus.active = false

abbrev audit_user : Actor → AuditAction → ℕ → List (String × Metadatum) → M (Unit {0})
audit_user actor action id metadata = record_audit_log (record {
  actor_id = actor.id;
  actor_role = actor.role;
  action = action;
  resource_type = some AuditResourceType.user;
  resource_id = some id;
  metadata = metadata;
})

abbrev pub suspended : User → User
suspended u = record u { status = UserStatus.suspended }

unfoldable pub suspend_user : Actor → ℕ → String → M User
unfolding find_by_id save_user delete_tokens_of
suspend_user actor user_id reason = do
  found ← get (find_by_id user_id)
  user ← or_throw found (not_found "User not found.")
  throw_if (is_admin user.role) (bad_request "Admin accounts cannot be suspended here.")
  throw_if (is_suspended user.status) (conflict "This account is already suspended." none)
  save_user (suspended user)
  delete_tokens_of user.id
  audit_user actor AuditAction.user_suspended user.id (("reason", words reason) ∷ [])
  emit (email user.email (account_suspended user.first_name reason))
  pure (suspended user)

abbrev pub reactivated : User → User
reactivated u = record u {
  status = UserStatus.active;
  failed_login_attempts = 0;
  locked_until = none;
}

unfoldable pub reactivate_user : Actor → ℕ → M User
unfolding find_by_id save_user
reactivate_user actor user_id = do
  found ← get (find_by_id user_id)
  user ← or_throw found (not_found "User not found.")
  throw_if (not (is_suspended user.status)) (conflict "This account is not suspended." none)
  save_user (reactivated user)
  audit_user actor AuditAction.user_reactivated user.id []
  emit (email user.email (account_reactivated user.first_name))
  pure (reactivated user)

pub record DeletedUserSummary : Type 0 where
  pub email : String
  pub first_name : String
  pub last_name : String

-- `{ $or: [{ userId }, { hrUserId }] }`.
abbrev pub is_party : ℕ → Booking → Bool
is_party id b = b.user_id == id || b.hr_user_id == id

-- Each cancellation's failure is caught.
unfoldable pub cancel_all : ℕ → Actor → List Booking → Db → Db
cancel_all now actor [] db = db
cancel_all now actor (b ∷ bs) db =
    cancel_all now actor bs
      (final (cancel_booking now actor b.id (some "The other party's account was deleted.") db))

-- The meetings of the bookings and the bookings themselves.
unfoldable pub delete_bookings_of : ℕ → M (Unit {0})
delete_bookings_of id = modify λ db. record db {
  meetings =
      keep (λ m. not (any (λ b. is_party id b && b.id == m.booking_id) db.bookings)) db.meetings;
  bookings = keep (λ c. not (any (λ b. is_party id b && b.id == c.id) db.bookings)) db.bookings;
}

unfoldable pub delete_records_of : ℕ → M (Unit {0})
delete_records_of id = modify λ db. record db {
  refresh_tokens = keep (λ t. not (t.user_id == id)) db.refresh_tokens;
  reports = keep (λ r. not (r.reporter_id == id || r.hr_user_id == id)) db.reports;
}

unfoldable pub delete_consultant_records_of : Bool → ℕ → M (Unit {0})
delete_consultant_records_of false id = pure tt
delete_consultant_records_of true id = modify λ db. record db {
  availabilities = keep (λ a. not (a.hr_user_id == id)) db.availabilities;
  oauth_accounts = keep (λ a. not (a.user_id == id)) db.oauth_accounts;
  profiles = keep (λ p. not (p.user_id == id)) db.profiles;
}

unfoldable pub delete_user : ℕ → Actor → ℕ → M DeletedUserSummary
unfolding find_by_id cancel_all delete_bookings_of delete_records_of delete_consultant_records_of
delete_user now actor user_id = do
  found ← get (find_by_id user_id)
  user ← or_throw found (not_found "User not found.")
  throw_if (is_admin user.role) (bad_request "Admin accounts cannot be deleted here.")
  modify (λ db. cancel_all now actor (keep (λ b. is_party user.id b && is_active b) db.bookings) db)
  delete_bookings_of user.id
  delete_records_of user.id
  delete_consultant_records_of (is_hr user.role) user.id
  modify λ db. record db { users = keep (λ u. not (u.id == user.id)) db.users }
  audit_user actor AuditAction.user_deleted user_id (("email", words user.email) ∷ [])
  pure (record { email = user.email; first_name = user.first_name; last_name = user.last_name })
