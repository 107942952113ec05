-- ===== src/Scenarios/Accounts.antt =====
-- Accounts and sessions of the concrete state.
use hr_booking_server.Base.{
  ℕ, ◌≡◌, ◌≢◌, refl, true, none, some, String, [], ◌∷◌, Memᴰ, arith, any, keep, find_first, All,
  same_text, if◌then◌else◌,
}
use hr_booking_server.Constants.{UserRole, TokenType, ProfileStatus}
use hr_booking_server.Errors.{app, duplicate_key, unauthorized}
use hr_booking_server.Models.{User, RefreshToken, HrProfile}
use hr_booking_server.Store.{Db, returns, throws, final}
use hr_booking_server.Specializations.{assert_active_specializations}
use hr_booking_server.Auth.{
  Crypto, LoginInput, DeviceContext, AuthResult, login, refresh, find_by_email, find_by_id,
  find_token, issue_tokens, create_token, reset_failed_attempts,
}
use hr_booking_server.Auth.Login.{
  IsAdmitted, Login, IsWrong, login-IsAdmitted, login-locked, locked_db,
}
use hr_booking_server.Auth.Session.{refresh-replay, reset_password-ends, register_hr-rollback}
use hr_booking_server.Auth.Account.{
  RegisterHrInput, register_hr, reset_password, create_user, create_profile,
}
use hr_booking_server.Profile.{find_profile_of, submit_profile_for_review}
use hr_booking_server.Profile.Review.{OwnerCall, run_owner-published}
use hr_booking_server.Scenarios.Data.{start_db, user_of, profile_with}

-- A password is right when it is "secret"; a token's text is its own hash.
abbrev crypto : Crypto
crypto = record {
  hash_password = λ p. "hashed";
  verify_password = λ p hash. same_text p "secret";
  hash_refresh_token = λ t. t;
  sign_access_token = λ id role. "access";
  sign_generic_token = λ id type. "link";
  verify_generic_token = λ token type. if same_text token "link" then some 1 else none;
  to_lower_case = λ t. t;
}

abbrev device : DeviceContext
device = record { ip = none; user_agent = none }

abbrev wrong : LoginInput
wrong = record { email = "client@mail"; password = "guess" }

abbrev right : LoginInput
right = record { email = "client@mail"; password = "secret" }

abbrev pub client_user : User
client_user = user_of 1 "client@mail" UserRole.user

abbrev guess : ℕ → Login
guess t = record { at_time = t; input = wrong; device = device; fresh = "t" }

guess-IsWrong : (t : ℕ) → IsWrong crypto client_user "client@mail" (guess t)
guess-IsWrong t = record { same_account = refl; unlocked = refl; wrong = refl }

login-locked_example :
    login crypto 6 right
      (record { ip = some "elsewhere"; user_agent = none })
      "t"
      (locked_db crypto client_user "client@mail" refl
        (guess 1 ∷ guess 2 ∷ guess 3 ∷ guess 4 ∷ [])
        (guess 5)
        start_db)
    ≡ throws
        (app (unauthorized "Too many failed attempts. Try again later." (some "ACCOUNT_LOCKED")))
        (locked_db crypto client_user "client@mail" refl
          (guess 1 ∷ guess 2 ∷ guess 3 ∷ guess 4 ∷ [])
          (guess 5)
          start_db)
unfolding find_by_email find_first
login-locked_example =
    login-locked crypto client_user "client@mail" refl (guess 1 ∷ guess 2 ∷ guess 3 ∷ guess 4 ∷ [])
      (guess 5)
      (record {
        at_time = 6;
        input = right;
        device = record { ip = some "elsewhere"; user_agent = none };
        fresh = "t";
      })
      start_db refl (guess-IsWrong 1, (guess-IsWrong 2, (guess-IsWrong 3, (guess-IsWrong 4, tt))))
      (guess-IsWrong 5) refl refl (omega arith)

unfoldable pub token_of : String → ℕ → RefreshToken
token_of text id = record {
  id = id;
  user_id = 1;
  token_hash = text;
  expires_at = 604_800_000;
  revoked_at = none;
  replaced_by_token_hash = none;
  user_agent = none;
  ip = none;
}

abbrev pub logged_in : Db
logged_in = record start_db { refresh_tokens = token_of "t" 100 ∷ []; next_id = 101 }

abbrev result_with : String → AuthResult
result_with text = record { user = client_user; access_token = "access"; refresh_token = text }

login_run : login crypto 0 right device "t" start_db ≡ returns (result_with "t") logged_in
unfolding login find_by_email find_first reset_failed_attempts issue_tokens create_token any
    token_of
login_run = refl

login-IsAdmitted_example :
    (u : User) × IsAdmitted crypto right 0 start_db u × (u.is_email_verified ≡ true)
login-IsAdmitted_example =
    login-IsAdmitted crypto right device "t" 0 start_db logged_in (result_with "t") login_run

rotated : Db
rotated = final (refresh crypto 1 (some "t") device "u" logged_in)

refresh_run : refresh crypto 1 (some "t") device "u" logged_in ≡ returns (result_with "u") rotated
unfolding rotated refresh find_token find_by_id find_first issue_tokens create_token any token_of
refresh_run = refl

refresh-replay_example :
    refresh crypto 2 (some "t") device "v" rotated
    ≡ throws (app (unauthorized "Invalid or revoked refresh token." none)) rotated
refresh-replay_example =
    refresh-replay crypto 1 "t" device "u" logged_in rotated (result_with "u") refresh_run 2 device
      "v"

reset_state : Db
reset_state = final (reset_password crypto 1 "link" "new" logged_in)

reset_run : reset_password crypto 1 "link" "new" logged_in ≡ returns tt reset_state
unfolding reset_state reset_password find_by_id find_first
reset_run = refl

reset_password-ends_example :
    (u : User) × (crypto.verify_generic_token "link" TokenType.reset_password ≡ some u.id)
    × (find_by_id u.id reset_state ≡ some (record u { password = crypto.hash_password "new" }))
    × All (λ t. t.user_id ≢ u.id) reset_state.refresh_tokens
reset_password-ends_example =
    reset_password-ends crypto 1 "link" "new" logged_in reset_state reset_run

hr_input : RegisterHrInput
hr_input = record {
  email = "client@mail";
  first_name = "Ada";
  last_name = "Byron";
  password = "secret";
  phone = "1";
  profile_image_url = none;
  headline = "h";
  bio = "b";
  specializations = [];
  years_of_experience = 1;
  company_name = "c";
  hourly_rate_cents = 1;
  currency = "USD";
  languages = [];
  city = none;
  country = none;
  work_history = [];
}

-- A profile under the id that the new account will draw.
abbrev stray_db : Db
stray_db = record start_db {
  users = [];
  profiles = record (profile_with ProfileStatus.draft) { user_id = 100 } ∷ [];
}

stray_after : Db
stray_after = final (register_hr crypto 1 hr_input stray_db)

stray_run : register_hr crypto 1 hr_input stray_db ≡ throws duplicate_key stray_after
unfolding stray_after register_hr hr_input find_by_email find_first create_user create_profile any
    assert_active_specializations keep
stray_run = refl

register_hr-rollback_example : stray_after.users ≡ stray_db.users
register_hr-rollback_example =
    register_hr-rollback crypto 1 hr_input stray_db stray_after duplicate_key tt stray_run

-- Another consultant's call leaves the published profile alone.
run_owner-published_example :
    (q : HrProfile) × Memᴰ q start_db.profiles × (q.id ≡ 5) × (q.status ≡ ProfileStatus.published)
unfolding submit_profile_for_review find_profile_of find_first
run_owner-published_example =
    run_owner-published 3 OwnerCall.submit start_db (profile_with ProfileStatus.published)
      (Memᴰ.head refl) refl
