-- ===== src/Errors.antt =====
-- src/utils/http-errors.ts, and what a service call comes to: a value, or something thrown.
use hr_booking_server.Base.{ℕ, String, Option, none}

-- `details` carries the `code` of the errors that have one.
pub record AppError : Type 0 where
  pub status_code : ℕ
  pub code : String
  pub message : String
  pub details : Option String

abbrev pub bad_request : String → AppError
bad_request m = record { status_code = 400; code = "BAD_REQUEST"; message = m; details = none }

abbrev pub unauthorized : String → Option String → AppError
unauthorized m d = record { status_code = 401; code = "UNAUTHORIZED"; message = m; details = d }

abbrev pub forbidden : String → Option String → AppError
forbidden m d = record { status_code = 403; code = "FORBIDDEN"; message = m; details = d }

abbrev pub not_found : String → AppError
not_found m = record { status_code = 404; code = "NOT_FOUND"; message = m; details = none }

abbrev pub conflict : String → Option String → AppError
conflict m d = record { status_code = 409; code = "CONFLICT"; message = m; details = d }

abbrev pub slot_unavailable : String → AppError
slot_unavailable m = record {
  status_code = 409;
  code = "SLOT_ALREADY_BOOKED";
  message = m;
  details = none;
}

abbrev pub validation_error : String → AppError
validation_error m = record {
  status_code = 400;
  code = "VALIDATION_ERROR";
  message = m;
  details = none;
}

-- The message that `SlotUnavailableError` has by default.
abbrev pub slot_taken : AppError
slot_taken = slot_unavailable "This appointment slot is no longer available."

-- What is thrown: an `AppError`, the driver's duplicate-key error (code 11000), or another error.
pub data Thrown : Type 0 where
  app : AppError → Thrown
  duplicate_key : Thrown
  other : String → Thrown

-- A check or computation that throws an `AppError`, or yields a value.
pub data Result {ℓ} (Value : Type ℓ) : Type ℓ where
  err : AppError → Result Value
  ok : Value → Result Value

-- What follows a check is not reached when the check throws.
abbrev pub followed_by {ℓ κ} :
    {Value : Type ℓ} {Next : Type κ} → (Value → Result Next) → Result Value → Result Next
followed_by next (err thrown) = err thrown
followed_by next (ok value) = next value

infixl 5 ◌>>=◌
abbrev pub ◌>>=◌ {ℓ κ} :
    {Value : Type ℓ} {Next : Type κ} → Result Value → (Value → Result Next) → Result Next
check >>= next = followed_by next check

infixl 5 ◌>>◌
abbrev pub ◌>>◌ {κ} : {Next : Type κ} → Result (Unit {0}) → Result Next → Result Next
check >> rest = followed_by (λ _. rest) check
