-- ===== src/Http.antt =====
-- src/middlewares/auth.ts, src/middlewares/validate.ts and src/middlewares/error-handler.ts: what
-- stands before and after the handlers of the routes. jsonwebtoken is the argument `verify`.
pub mod Admin
pub mod Bookings
pub mod Sessions
pub mod Profiles
pub mod Guards
pub mod Privacy
use hr_booking_server.Base.{
  ℕ, Bool, true, false, not, Option, none, some, String, List, [], ◌∷◌, same_text, if◌then◌else◌,
}
use hr_booking_server.Constants.{UserRole, is_hr, is_admin}
use hr_booking_server.Errors.{
  AppError, Thrown, app, duplicate_key, other, unauthorized, forbidden, validation_error,
}
use hr_booking_server.Models.{User, Specialization}
use hr_booking_server.Store.{
  Db, M, Outcome, returns, throws, after_outcome, ◌>>=◌, ◌>>◌, pure, throw, throw_if, or_throw, get,
}
use hr_booking_server.DateTime.{Luxon}
use hr_booking_server.Listings.{Mongo}
use hr_booking_server.Meetings.{Provider}
use hr_booking_server.Auth.{Crypto, find_by_id, is_active_user}
use hr_booking_server.Booking.Checks.{Actor}
use hr_booking_server.Paging.{Pagination}

-- An Authorization header, cut at its first space; the credentials are trimmed.
pub record Authorization : Type 0 where
  pub scheme : String
  pub credentials : String

-- What the guards and the handlers read of a request, next to its input. `user` is what the guards
-- write.
pub record Request : Type 0 where
  pub access_cookie : Option String
  pub refresh_cookie : Option String
  pub authorization : Option Authorization
  pub ip : Option String
  pub user_agent : Option String
  pub user : Option Actor

unfoldable pub extract_bearer_token : Option Authorization → Option String
extract_bearer_token none = none
extract_bearer_token (some header) =
    if same_text header.scheme "Bearer" then some header.credentials else none

abbrev pub unauthenticated : AppError
unauthenticated = unauthorized "Authentication is required." none

-- `cookieToken ?? headerToken`.
abbrev pub token_of : Option String → Option String → Option String
token_of (some t) header = some t
token_of none header = header

abbrev pub when_true : Option String → Option String
when_true none = none
when_true (some t) = if same_text t "" then none else some t

abbrev pub invalid_token : AppError
invalid_token = unauthorized "Access token is invalid or expired." none

abbrev verified : Option Actor → Request → M Request
verified none req = throw invalid_token
verified (some payload) req = pure (record req { user = some payload })

-- A handler before the last, which passes the request on or an error.
abbrev pub Middleware : Type 0
Middleware = Request → M Request

-- `verify` gives the payload of a valid access token.
unfoldable pub authenticate : (String → Option Actor) → Middleware
unfolding extract_bearer_token
authenticate verify req = do
  token ←
      or_throw (when_true (token_of req.access_cookie (extract_bearer_token req.authorization)))
        unauthenticated
  verified (verify token) req

abbrev pub no_permission : AppError
no_permission = forbidden "You do not have permission to perform this action." none

unfoldable pub require_role : (UserRole → Bool) → Middleware
require_role allows req = do
  user ← or_throw req.user unauthenticated
  throw_if (not (allows user.role)) no_permission
  pure req

abbrev pub inactive_account : AppError
inactive_account = unauthorized "Account is no longer active." none

abbrev still_active : Option User → M User
still_active none = throw inactive_account
still_active (some u) = if is_active_user u.status then pure u else throw inactive_account

unfoldable pub load_user : Middleware
unfolding find_by_id
load_user req = do
  user ← or_throw req.user unauthenticated
  found ← get (find_by_id user.id)
  account ← still_active found
  pure (record req { user = some (record { id = account.id; role = account.role }) })

-- `safeParse` of the route's schemas gives the input, or what is wrong with it.
pub data Parsed {ℓ} (A : Type ℓ) : Type ℓ where
  parsed : A → Parsed A
  rejected : String → Parsed A

abbrev pub validate {ℓ} : {A : Type ℓ} → Parsed A → M A
validate (parsed a) = pure a
validate (rejected details) = throw (record {
  status_code = 400;
  code = "VALIDATION_ERROR";
  message = "Invalid request.";
  details = some details;
})

-- `requireActor`, `requireAdmin` and `if (!req.user)`.
abbrev pub require_actor : Request → M Actor
require_actor req = or_throw req.user unauthenticated

-- What `sendSuccess` and `sendPaginated` send.
pub record Success {ℓ} (Payload : Type ℓ) : Type ℓ where
  pub status_code : ℕ
  pub payload : Payload
  pub pagination : Option Pagination

abbrev pub send_success {ℓ} : {A : Type ℓ} → A → M (Success A)
send_success a = pure (record { status_code = 200; payload = a; pagination = none })

abbrev pub send_created {ℓ} : {A : Type ℓ} → A → M (Success A)
send_created a = pure (record { status_code = 201; payload = a; pagination = none })

abbrev pub send_paginated {ℓ} : {A : Type ℓ} → A → Pagination → M (Success A)
send_paginated a p = pure (record { status_code = 200; payload = a; pagination = some p })

pub record Failure : Type 0 where
  pub status_code : ℕ
  pub code : String
  pub message : String
  pub details : Option String

-- What reaches `errorHandler`: something thrown, or an error of zod, multer or the body parser.
pub data Problem : Type 0 where
  thrown : Thrown → Problem
  zod_error multer_error : String → Problem
  too_large : Problem

-- The driver's text of a duplicate key is the argument `duplicate`.
unfoldable pub error_handler : Bool → String → Problem → Failure
error_handler production duplicate (thrown (app e)) = record {
  status_code = e.status_code;
  code = e.code;
  message = e.message;
  details = e.details;
}
error_handler production duplicate (zod_error issues) = record {
  status_code = 400;
  code = "VALIDATION_ERROR";
  message = "Invalid request.";
  details = some issues;
}
error_handler production duplicate (multer_error message) = record {
  status_code = 400;
  code = "BAD_REQUEST";
  message = message;
  details = none;
}
error_handler production duplicate too_large = record {
  status_code = 413;
  code = "PAYLOAD_TOO_LARGE";
  message = "Request payload is too large.";
  details = none;
}
error_handler production duplicate (thrown duplicate_key) = record {
  status_code = 500;
  code = "INTERNAL_SERVER_ERROR";
  message = if production then "Internal server error." else duplicate;
  details = none;
}
error_handler production duplicate (thrown (other message)) = record {
  status_code = 500;
  code = "INTERNAL_SERVER_ERROR";
  message = if production then "Internal server error." else message;
  details = none;
}

-- What the handlers call that is not part of the service: the clock and the libraries.
pub record Platform : Type 0 where
  pub now : ℕ
  pub start_of_day : ℕ
  pub start_of_tomorrow : ℕ
  pub verify_access_token : String → Option Actor
  pub crypto : Crypto
  pub luxon : Luxon
  pub mongo : Mongo
  pub provider : Provider
  pub by_name : List Specialization → List Specialization
  pub to_upper_case : String → String
  pub fresh_token : String
