-- ===== src/Auth.antt =====
-- src/services/auth.service.ts: accounts, passwords, the lockout, and the sessions that refresh
-- tokens stand for. Each call reads the clock once, as its argument `now`; `fresh` is the refresh
-- token that a call draws.
pub mod Login
pub mod Session
pub mod Account
use hr_booking_server.Base.{
  non_empty, ℕ, suc, ◌+◌, Bool, true, false, ◌&&◌, ◌||◌, not, Option, none, some, String, List, [],
  ◌∷◌, ◌++◌, ltb, leb, ◌==◌, same_text, if◌then◌else◌, find_first, any, keep, change,
}
use hr_booking_server.Constants.{UserRole, UserStatus, TokenType, max_failed_attempts, lockout_ms}
use hr_booking_server.Errors.{
  AppError, Thrown, app, duplicate_key, Result, ok, err, conflict, unauthorized, forbidden,
}
use hr_booking_server.Models.{User, RefreshToken}
use hr_booking_server.Store.{
  Db, M, Outcome, returns, throws, after_outcome, ◌>>=◌, ◌>>◌, pure, throw, lift, throw_if,
  or_throw, get, modify, emit, email, verify_email as verify_email_letter,
  reset_password as reset_password_letter,
}

-- argon2, SHA-256, jsonwebtoken and `toLowerCase`.
pub record Crypto : Type 0 where
  pub hash_password : String → String
  pub verify_password : String → String → Bool
  pub hash_refresh_token : String → String
  pub sign_access_token : ℕ → UserRole → String
  pub sign_generic_token : ℕ → TokenType → String
  pub verify_generic_token : String → TokenType → Option ℕ
  pub to_lower_case : String → String

pub record RegisterInput : Type 0 where
  pub email : String
  pub first_name : String
  pub last_name : String
  pub password : String

pub record LoginInput : Type 0 where
  pub email : String
  pub password : String

pub record DeviceContext : Type 0 where
  pub ip : Option String
  pub user_agent : Option String

pub record AuthResult : Type 0 where
  pub user : User
  pub access_token : String
  pub refresh_token : String

abbrev pub refresh_token_ttl_ms : ℕ
refresh_token_ttl_ms = 604_800_000

abbrev pub is_active_user : UserStatus → Bool
is_active_user UserStatus.active = true
is_active_user UserStatus.suspended = false

unfoldable pub find_by_email : String → Db → Option User
find_by_email address db = find_first (λ u. same_text u.email address) db.users

unfoldable pub find_by_id : ℕ → Db → Option User
find_by_id id db = find_first (λ u. u.id == id) db.users

unfoldable pub find_token : String → Db → Option RefreshToken
find_token token_hash db = find_first (λ t. same_text t.token_hash token_hash) db.refresh_tokens

-- `user.save()`.
unfoldable pub save_user : User → M (Unit {0})
save_user u = modify (λ db. record db { users = change (λ v. v.id == u.id) (λ _. u) db.users })

unfoldable pub delete_tokens_of : ℕ → M (Unit {0})
delete_tokens_of user_id =
    modify (λ db. record db {
      refresh_tokens = keep (λ t. not (t.user_id == user_id)) db.refresh_tokens;
    })

-- `lockedUntil && lockedUntil > now`.
abbrev pub is_locked : ℕ → User → Bool
is_locked now u = elim u.locked_until [ none ↦ false | some t ↦ ltb now t ]

unfoldable pub count_failure : ℕ → User → User
count_failure now u =
    if leb max_failed_attempts (suc u.failed_login_attempts)
    then record u { failed_login_attempts = 0; locked_until = some (now + lockout_ms) }
    else record u { failed_login_attempts = suc u.failed_login_attempts }

unfoldable pub increment_failed_attempts : ℕ → User → M (Unit {0})
unfolding count_failure save_user
increment_failed_attempts now u = save_user (count_failure now u)

abbrev pub has_failures : User → Bool
has_failures u =
    ltb 0 u.failed_login_attempts || elim u.locked_until [ none ↦ false | some t ↦ true ]

abbrev pub without_failures : User → User
without_failures u =
    if has_failures u then record u { failed_login_attempts = 0; locked_until = none } else u

unfoldable pub reset_failed_attempts : User → M User
unfolding save_user
reset_failed_attempts u db =
    if has_failures u
    then (save_user (without_failures u) >> pure (without_failures u)) db
    else returns u db

abbrev revoked : ℕ → String → RefreshToken → RefreshToken
revoked now token_hash t = record t {
  revoked_at = some now;
  replaced_by_token_hash = some token_hash;
}

abbrev revoke : ℕ → String → Option RefreshToken → M (Unit {0})
revoke now token_hash none db = returns tt db
revoke now token_hash (some previous) db = returns tt (record db {
  refresh_tokens =
      change (λ t. t.id == previous.id) (λ _. revoked now token_hash previous) db.refresh_tokens;
})

module _ (crypto : Crypto) (now : ℕ) where
  abbrev pub new_token : User → DeviceContext → String → ℕ → RefreshToken
  new_token user device fresh id = record {
    id = id;
    user_id = user.id;
    token_hash = crypto.hash_refresh_token fresh;
    expires_at = now + refresh_token_ttl_ms;
    revoked_at = none;
    replaced_by_token_hash = none;
    user_agent = device.user_agent;
    ip = device.ip;
  }

  -- `RefreshToken.create`, under the unique index on `tokenHash`.
  unfoldable pub create_token : (ℕ → RefreshToken) → M (Unit {0})
  create_token token db =
      if any (λ t. same_text t.token_hash (token db.next_id).token_hash) db.refresh_tokens
      then throws duplicate_key db
      else returns tt (record db {
        refresh_tokens = db.refresh_tokens ++ token db.next_id ∷ [];
        next_id = suc db.next_id;
      })

  unfoldable pub issue_tokens : User → DeviceContext → Option RefreshToken → String → M AuthResult
  unfolding create_token
  issue_tokens user device previous fresh = do
    create_token (new_token user device fresh)
    revoke now (crypto.hash_refresh_token fresh) previous
    pure (record {
      user = user;
      access_token = crypto.sign_access_token user.id user.role;
      refresh_token = fresh;
    })

  abbrev send_verification : User → M (Unit {0})
  send_verification u = emit (
      email u.email
        (verify_email_letter u.first_name (crypto.sign_generic_token u.id TokenType.verify_email)))

  abbrev wrong_credentials : AppError
  wrong_credentials = unauthorized "Invalid email or password." none

  -- A wrong password is counted before it is refused.
  abbrev check_password : Bool → User → M (Unit {0})
  check_password true u db = returns tt db
  check_password false u db = (increment_failed_attempts now u >> throw wrong_credentials) db

  abbrev check_verified : Bool → User → M (Unit {0})
  check_verified true u db = returns tt db
  check_verified false u db =
      (send_verification u
          >> throw (
              unauthorized "Please verify your email address before logging in."
                (some "EMAIL_NOT_VERIFIED")))
        db

  unfoldable pub login : LoginInput → DeviceContext → String → M AuthResult
  unfolding increment_failed_attempts reset_failed_attempts issue_tokens
  login input device fresh = do
    found ← get (find_by_email (crypto.to_lower_case input.email))
    user ← or_throw found wrong_credentials
    throw_if (not (is_active_user user.status))
        (forbidden "This account has been suspended." (some "ACCOUNT_SUSPENDED"))
    throw_if (is_locked now user)
        (unauthorized "Too many failed attempts. Try again later." (some "ACCOUNT_LOCKED"))
    check_password (crypto.verify_password input.password user.password) user
    reset ← reset_failed_attempts user
    check_verified reset.is_email_verified reset
    issue_tokens reset device none fresh

  abbrev is_revoked : RefreshToken → Bool
  is_revoked t = elim t.revoked_at [ none ↦ false | some a ↦ true ]

  abbrev drop_if_expired : RefreshToken → M (Unit {0})
  drop_if_expired t db =
      if ltb t.expires_at now
      then throws (app (unauthorized "Refresh token has expired." none))
          (record db { refresh_tokens = keep (λ s. not (s.id == t.id)) db.refresh_tokens })
      else returns tt db

  -- `!user || user.status !== 'ACTIVE'`.
  abbrev pub active_user : Option User → Option User
  active_user none = none
  active_user (some u) = if is_active_user u.status then some u else none

  unfoldable pub refresh : Option String → DeviceContext → String → M AuthResult
  unfolding issue_tokens find_token find_by_id
  refresh refresh_token device fresh = do
    token ← or_throw (non_empty refresh_token) (unauthorized "Missing refresh token." none)
    found ← get (find_token (crypto.hash_refresh_token token))
    stored ← or_throw found (unauthorized "Invalid or revoked refresh token." none)
    throw_if (is_revoked stored) (unauthorized "Invalid or revoked refresh token." none)
    drop_if_expired stored
    owner ← get (find_by_id stored.user_id)
    user ← or_throw (active_user owner) (unauthorized "Account no longer active." none)
    issue_tokens user device (some stored) fresh
