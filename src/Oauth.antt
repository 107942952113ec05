-- ===== src/Oauth.antt =====
-- src/services/oauth.service.ts and the callback of src/controllers/integration.controller.ts: the Google
-- account that a consultant connects. What Google answers, the cipher of src/utils/crypto.ts and the
-- signed state are parameters.
pub mod Client
pub mod Connection
use hr_booking_server.Base.{
  non_empty, ℕ, ◌+◌, ◌-◌, ◌*◌, Bool, true, false, ◌&&◌, not, Option, none, some, String, List, [],
  ◌∷◌, ◌++◌, ltb, ◌==◌, same_text, if◌then◌else◌, find_first, keep, change,
}
use hr_booking_server.Errors.{AppError, bad_request, not_found}
use hr_booking_server.Models.{OauthAccount}
use hr_booking_server.Store.{Db}
pub use hr_booking_server.Oauth.Client.{
  code_grant, refresh_grant, GrantParams, TokenBody, TokenAnswer, IdentityBody, IdentityAnswer,
  Google, GoogleTokens, GoogleIdentity, GoogleAccess, OauthError, connection_error,
  google_api_error, refused, network_error, Attempt, failed, got, attempt, or_option,
}
unfoldable pub use hr_booking_server.Oauth.Client.{request_tokens, fetch_identity}

abbrev token_expiry_skew_ms : ℕ
token_expiry_skew_ms = 60_000

module _ (google : Google) (now : ℕ) where
  unfoldable pub find_account : ℕ → Db → Option OauthAccount
  find_account user_id db = find_first (λ a. a.user_id == user_id) db.oauth_accounts

  abbrev decrypted : Option String → Option String
  decrypted none = none
  decrypted (some value) = google.decrypt_secret value

  unfoldable pub safe_decrypt : Option String → Option String
  safe_decrypt value = decrypted (non_empty value)

  abbrev state_owner : Option ℕ → Attempt ℕ
  state_owner none = failed (connection_error "invalid_state" "The authorisation request expired.")
  state_owner (some user_id) = got user_id

  abbrev stored_token : Option OauthAccount → Option String
  stored_token none = none
  stored_token (some a) = some a.refresh_token

  abbrev fresh_or_stored : Option String → Option OauthAccount → Option String
  fresh_or_stored none existing = stored_token existing
  fresh_or_stored (some token) existing = some (google.encrypt_secret token)

  abbrev required : Option String → Attempt String
  required none = failed (
      connection_error "missing_refresh_token"
        "Google did not return a refresh token. Remove the app from your Google account permissions and try again.")
  required (some token) = got token

  abbrev map_text : (String → String) → Option String → Option String
  map_text f none = none
  map_text f (some s) = some (f s)

  abbrev old_email : Option OauthAccount → Option String
  old_email none = none
  old_email (some a) = a.account_email

  abbrev calendar_of : Option OauthAccount → String
  calendar_of none = "primary"
  calendar_of (some a) = a.calendar_id

  -- `$set`, `$unset` and `$setOnInsert`; an email that is undefined is not set.
  abbrev pub connected :
      ℕ → GoogleTokens → GoogleIdentity → String → Option OauthAccount → OauthAccount
  connected user_id tokens identity refresh_token existing = record {
    user_id = user_id;
    provider_account_id = identity.sub;
    account_email = or_option (map_text google.lower_case identity.email) (old_email existing);
    refresh_token = refresh_token;
    access_token = some (google.encrypt_secret tokens.access_token);
    access_token_expires_at = some tokens.expires_at;
    scopes = tokens.scopes;
    calendar_id = calendar_of existing;
    last_error = none;
  }

  abbrev pub upserted : OauthAccount → Option OauthAccount → List OauthAccount → List OauthAccount
  upserted a none accounts = accounts ++ a ∷ []
  upserted a (some old) accounts = change (λ b. b.user_id == a.user_id) (λ _. a) accounts

  -- All that is read and refused before the upsert: the account to store.
  unfoldable pub check_connection : String → String → Db → Attempt OauthAccount
  unfolding request_tokens fetch_identity find_account
  check_connection code state db = attempt (state_owner (google.verify_state state)) λ user_id.
      attempt (request_tokens google now (code_grant code)) λ tokens.
        attempt (fetch_identity google now tokens.access_token) λ identity.
          let existing = find_account user_id db in
          attempt (required (non_empty (fresh_or_stored (non_empty tokens.refresh_token) existing)))
            λ token. got (connected user_id tokens identity token existing)

  abbrev store_connection : Attempt OauthAccount → Db → Attempt OauthAccount × Db
  store_connection (failed e) db = (failed e, db)
  store_connection (got a) db = (
    got a,
    record db { oauth_accounts = upserted a (find_account a.user_id db) db.oauth_accounts },
  )

  unfoldable pub complete_google_connection : String → String → Db → Attempt OauthAccount × Db
  unfolding check_connection find_account
  complete_google_connection code state db = store_connection (check_connection code state db) db

  abbrev pub get_connection : ℕ → Db → Option OauthAccount
  get_connection user_id db = find_account user_id db

  abbrev forget : ℕ → Option OauthAccount → Db → Attempt (Unit {0}) × Db
  forget user_id none db = (failed (refused (not_found "No Google account is connected.")), db)
  forget user_id (some a) db = (
    got tt,
    record db { oauth_accounts = keep (λ b. not (b.user_id == a.user_id)) db.oauth_accounts },
  )

  -- The answer to the revocation does not matter.
  unfoldable pub disconnect_google : ℕ → Db → Attempt (Unit {0}) × Db
  unfolding find_account
  disconnect_google user_id db = forget user_id (find_account user_id db) db

  abbrev pub save_account : OauthAccount → Db → Db
  save_account a db = record db {
    oauth_accounts = change (λ b. b.user_id == a.user_id) (λ _. a) db.oauth_accounts;
  }

  abbrev pub with_error : String → OauthAccount → OauthAccount
  with_error message a = record a { last_error = some (google.truncate message) }

  abbrev pub refreshed : GoogleTokens → OauthAccount → OauthAccount
  refreshed tokens a = record a {
    access_token = some (google.encrypt_secret tokens.access_token);
    access_token_expires_at = some tokens.expires_at;
    last_error = none;
  }

  abbrev message_of : OauthError → String
  message_of (google_api_error message status) = message
  message_of _ = "Google refused to refresh the access token."

  abbrev use_refreshed : OauthAccount → Attempt GoogleTokens → Db → Attempt GoogleAccess × Db
  use_refreshed a (got tokens) db = (
    got (record { access_token = tokens.access_token; calendar_id = a.calendar_id }),
    save_account (refreshed tokens a) db,
  )
  use_refreshed a (failed e) db = (
    failed (connection_error "refresh_failed" (message_of e)),
    save_account (with_error (message_of e) a) db,
  )

  abbrev unreadable : String
  unreadable = "Stored Google credentials could not be read."

  abbrev refresh_with : OauthAccount → Option String → Db → Attempt GoogleAccess × Db
  refresh_with a none db = (
    failed (
        connection_error "unreadable_credentials"
          "Stored Google credentials could not be read. Reconnect the account."),
    save_account (with_error unreadable a) db,
  )
  refresh_with a (some token) db =
      use_refreshed a (request_tokens google now (refresh_grant token)) db

  abbrev is_valid_until : Option ℕ → Bool
  is_valid_until none = false
  is_valid_until (some expires_at) = ltb now (expires_at - token_expiry_skew_ms)

  -- The stored access token, if it can be used.
  unfoldable pub usable_token : OauthAccount → Option String
  unfolding safe_decrypt
  usable_token a =
      if is_valid_until a.access_token_expires_at
      then non_empty (safe_decrypt a.access_token)
      else none

  abbrev use_token : OauthAccount → Option String → Db → Attempt GoogleAccess × Db
  use_token a (some token) db =
      (got (record { access_token = token; calendar_id = a.calendar_id }), db)
  use_token a none db = refresh_with a (non_empty (safe_decrypt (some a.refresh_token))) db

  abbrev access_of : Option OauthAccount → Db → Attempt GoogleAccess × Db
  access_of none db = (
    failed (connection_error "not_connected" "The consultant has not connected a Google account."),
    db,
  )
  access_of (some a) db = use_token a (usable_token a) db

  unfoldable pub get_google_access : ℕ → Db → Attempt GoogleAccess × Db
  unfolding find_account usable_token safe_decrypt request_tokens
  get_google_access user_id db = access_of (find_account user_id db) db

pub record CallbackQuery : Type 0 where
  pub error : Option String
  pub code : Option String
  pub state : Option String

abbrev both : Option String → Option String → Attempt (String × String)
both (some code) (some state) = got (code, state)
both (some code) none =
    failed (refused (bad_request "The Google callback is missing its code or state."))
both none state = failed (refused (bad_request "The Google callback is missing its code or state."))

abbrev declined : Option String → Attempt (String × String) → Attempt (String × String)
declined none next = next
declined (some error) next = failed (connection_error error "Google authorisation was declined.")

unfoldable pub assert_callback_params : CallbackQuery → Attempt (String × String)
assert_callback_params query = declined query.error (both query.code query.state)

abbrev reason_of : OauthError → String
reason_of (connection_error reason message) = reason
reason_of (google_api_error message status) = "google_error"
reason_of (refused e) = if e.status_code == 400 then "missing_parameters" else "unexpected_error"
reason_of network_error = "unexpected_error"

-- The parameters of the redirect back into the client.
pub data Redirect : Type 0 where
  connected_to : Option String → Redirect
  error_reason : String → Redirect

abbrev redirect_of : Attempt OauthAccount → Redirect
redirect_of (failed e) = error_reason (reason_of e)
redirect_of (got a) = connected_to a.account_email

-- `googleCallbackHandler` of src/controllers/integration.controller.ts.
abbrev complete_with : Google → ℕ → Attempt (String × String) → Db → Redirect × Db
complete_with google now (failed e) db = (error_reason (reason_of e), db)
complete_with google now (got (code, state)) db =
    let (result, after) = complete_google_connection google now code state db in
    (redirect_of result, after)

unfoldable pub google_callback_handler : Google → ℕ → CallbackQuery → Db → Redirect × Db
unfolding assert_callback_params complete_google_connection
google_callback_handler google now query db =
    complete_with google now (assert_callback_params query) db
