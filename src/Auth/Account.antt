-- ===== src/Auth/Account.antt =====
-- src/services/auth.service.ts: registration, email verification, the password reset and logout.
use hr_booking_server.Base.{
  non_empty, ℕ, suc, Bool, true, false, not, Option, none, some, String, List, [], ◌∷◌, ◌++◌, ◌==◌,
  same_text, if◌then◌else◌, any, keep,
}
use hr_booking_server.Constants.{UserRole, UserStatus, TokenType, ProfileStatus}
use hr_booking_server.Errors.{AppError, duplicate_key, conflict, unauthorized}
use hr_booking_server.Models.{User, RefreshToken, HrProfile, WorkHistoryEntry}
use hr_booking_server.Store.{
  Db, M, Outcome, returns, throws, ◌>>=◌, ◌>>◌, pure, lift, throw_if, or_throw, get, emit, email,
  verify_email as verify_email_letter, reset_password as reset_password_letter,
}
use hr_booking_server.Specializations.{assert_active_specializations}
use hr_booking_server.Auth.{
  Crypto, RegisterInput, find_by_email, find_by_id, save_user, delete_tokens_of,
}

pub record RegisterHrInput : Type 0 where
  pub email : String
  pub first_name : String
  pub last_name : String
  pub password : String
  pub phone : String
  pub profile_image_url : Option String
  pub headline : String
  pub bio : String
  pub specializations : List String
  pub years_of_experience : ℕ
  pub company_name : String
  pub hourly_rate_cents : ℕ
  pub currency : String
  pub languages : List String
  pub city : Option String
  pub country : Option String
  pub work_history : List WorkHistoryEntry

abbrev pub is_taken : Option User → Bool
is_taken none = false
is_taken (some u) = true

-- `User.create`, under the unique index on `email`.
unfoldable pub create_user : (ℕ → User) → M User
create_user user db =
    let u = user db.next_id in
    if any (λ v. same_text v.email u.email) db.users
    then throws duplicate_key db
    else returns u (record db { users = db.users ++ u ∷ []; next_id = suc db.next_id })

abbrev email_registered : AppError
email_registered =
    conflict "An account with this email already exists." (some "EMAIL_ALREADY_REGISTERED")

-- `HRProfile.create`, under the unique index on `userId`.
unfoldable pub create_profile : (ℕ → HrProfile) → M HrProfile
create_profile profile db =
    let p = profile db.next_id in
    if any (λ q. q.user_id == p.user_id) db.profiles
    then throws duplicate_key db
    else returns p (record db { profiles = db.profiles ++ p ∷ []; next_id = suc db.next_id })

abbrev or_else {ℓ} : {A : Type ℓ} → Outcome A → (Db → Db) → Outcome A
or_else (returns a db) undo = returns a db
or_else (throws t db) undo = throws t (undo db)

unfoldable pub delete_user_document : ℕ → Db → Db
delete_user_document id db = record db { users = keep (λ u. not (u.id == id)) db.users }

module _ (crypto : Crypto) (now : ℕ) where
  -- The schema stores an email in lower case.
  abbrev pub new_user : RegisterInput → ℕ → User
  new_user input id = record {
    id = id;
    email = crypto.to_lower_case input.email;
    password = crypto.hash_password input.password;
    first_name = input.first_name;
    last_name = input.last_name;
    role = UserRole.user;
    status = UserStatus.active;
    is_email_verified = false;
    email_verified_at = none;
    phone = none;
    profile_image_url = none;
    failed_login_attempts = 0;
    locked_until = none;
  }

  unfoldable pub register : RegisterInput → M User
  unfolding find_by_email create_user
  register input = do
    existing ← get (find_by_email (crypto.to_lower_case input.email))
    throw_if (is_taken existing) email_registered
    user ← create_user (new_user input)
    emit (
        email user.email (
          verify_email_letter user.first_name
            (crypto.sign_generic_token user.id TokenType.verify_email)))
    pure user

  abbrev pub new_consultant : RegisterHrInput → ℕ → User
  new_consultant input id = record {
    id = id;
    email = crypto.to_lower_case input.email;
    password = crypto.hash_password input.password;
    first_name = input.first_name;
    last_name = input.last_name;
    role = UserRole.hr;
    status = UserStatus.active;
    is_email_verified = true;
    email_verified_at = some now;
    phone = some input.phone;
    profile_image_url = input.profile_image_url;
    failed_login_attempts = 0;
    locked_until = none;
  }

  abbrev pub new_application : RegisterHrInput → ℕ → ℕ → HrProfile
  new_application input user_id id = record {
    id = id;
    user_id = user_id;
    headline = input.headline;
    bio = input.bio;
    specializations = input.specializations;
    years_of_experience = input.years_of_experience;
    company_name = some input.company_name;
    hourly_rate_cents = input.hourly_rate_cents;
    currency = input.currency;
    languages = input.languages;
    city = input.city;
    country = input.country;
    profile_image_url = input.profile_image_url;
    certifications = [];
    work_history = input.work_history;
    status = ProfileStatus.draft;
    rejection_reason = none;
    reviewed_by = none;
    reviewed_at = none;
    is_available = true;
  }

  -- A profile that is not created takes the new account back.
  unfoldable pub register_hr : RegisterHrInput → M User
  unfolding find_by_email create_user create_profile assert_active_specializations
      delete_user_document
  register_hr input = do
    existing ← get (find_by_email (crypto.to_lower_case input.email))
    throw_if (is_taken existing) email_registered
    λ db. lift (assert_active_specializations input.specializations db) db
    user ← create_user (new_consultant input)
    λ db. or_else (create_profile (new_application input user.id) db) (delete_user_document user.id)
    pure user

  abbrev invalid_link : String → AppError
  invalid_link message = unauthorized message (some "INVALID_TOKEN")

  abbrev mark_verified : Bool → User → M User
  mark_verified true u db = returns u db
  mark_verified false u db =
      (save_user (record u { is_email_verified = true; email_verified_at = some now })
          >> pure (record u { is_email_verified = true; email_verified_at = some now }))
        db

  unfoldable pub verify_email : String → M User
  unfolding find_by_id save_user
  verify_email token = do
    id ←
        or_throw (crypto.verify_generic_token token TokenType.verify_email)
          (invalid_link "The verification link is invalid or has expired.")
    found ← get (find_by_id id)
    user ← or_throw found (invalid_link "The verification link is invalid or has expired.")
    mark_verified user.is_email_verified user

  abbrev send_reset : Option User → M (Unit {0})
  send_reset none db = returns tt db
  send_reset (some u) db =
      emit
        (email u.email (
          reset_password_letter u.first_name
            (crypto.sign_generic_token u.id TokenType.reset_password)))
        db

  unfoldable pub forgot_password : String → M (Unit {0})
  unfolding find_by_email
  forgot_password address = do
    found ← get (find_by_email (crypto.to_lower_case address))
    send_reset found

  unfoldable pub reset_password : String → String → M (Unit {0})
  unfolding find_by_id save_user delete_tokens_of
  reset_password token new_password = do
    id ←
        or_throw (crypto.verify_generic_token token TokenType.reset_password)
          (invalid_link "The reset link is invalid or has expired.")
    found ← get (find_by_id id)
    user ← or_throw found (invalid_link "The reset link is invalid or has expired.")
    save_user (record user { password = crypto.hash_password new_password })
    delete_tokens_of user.id

  abbrev delete_first_token : List RefreshToken → String → List RefreshToken
  delete_first_token [] token_hash = []
  delete_first_token (t ∷ ts) token_hash =
      let rest = delete_first_token ts token_hash in
      if same_text t.token_hash token_hash then ts else t ∷ rest

  abbrev forget_token : Option String → M (Unit {0})
  forget_token none db = returns tt db
  forget_token (some token) db = returns tt (record db {
    refresh_tokens = delete_first_token db.refresh_tokens (crypto.hash_refresh_token token);
  })

  unfoldable pub logout : Option String → M (Unit {0})
  logout refresh_token db = forget_token (non_empty refresh_token) db
