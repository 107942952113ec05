-- ===== src/Oauth/Client.antt =====
-- src/integrations/google/google-oauth.client.ts: what Google answers, and the tokens and the identity that
-- are read of it.
use hr_booking_server.Base.{
  non_empty, ℕ, ◌+◌, ◌*◌, Bool, true, false, Option, none, some, String, List, if◌then◌else◌,
}
use hr_booking_server.Errors.{AppError}

pub data GrantParams : Type 0 where
  code_grant refresh_grant : String → GrantParams

pub record TokenBody : Type 0 where
  pub access_token : Option String
  pub refresh_token : Option String
  pub expires_in : Option ℕ
  pub scopes : Option (List String)
  pub error : Option String
  pub error_description : Option String

-- An answer of Google's, with the body that its JSON has, if any.
pub record TokenAnswer : Type 0 where
  pub ok_status : Bool
  pub status : ℕ
  pub body : Option TokenBody

pub record IdentityBody : Type 0 where
  pub sub : Option String
  pub email : Option String

pub record IdentityAnswer : Type 0 where
  pub ok_status : Bool
  pub status : ℕ
  pub body : Option IdentityBody

-- `none` is a request that fails. An email is stored in lower case.
pub record Google : Type 0 where
  pub is_configured : Bool
  pub post_token : GrantParams → Option TokenAnswer
  pub get_identity : String → Option IdentityAnswer
  pub encrypt_secret : String → String
  pub decrypt_secret : String → Option String
  pub verify_state : String → Option ℕ
  pub lower_case : String → String
  pub truncate : String → String
  pub default_scopes : List String

pub record GoogleTokens : Type 0 where
  pub access_token : String
  pub refresh_token : Option String
  pub expires_at : ℕ
  pub scopes : List String

pub record GoogleIdentity : Type 0 where
  pub sub : String
  pub email : Option String

pub record GoogleAccess : Type 0 where
  pub access_token : String
  pub calendar_id : String

-- `OAuthConnectionError`, `GoogleApiError`, an `AppError`, and an error of a request that fails.
pub data OauthError : Type 0 where
  connection_error : String → String → OauthError
  google_api_error : String → ℕ → OauthError
  refused : AppError → OauthError
  network_error : OauthError

pub data Attempt {ℓ} (A : Type ℓ) : Type ℓ where
  failed : OauthError → Attempt A
  got : A → Attempt A

-- What follows an attempt is not reached when it fails.
abbrev pub attempt {ℓ κ} : {A : Type ℓ} {B : Type κ} → Attempt A → (A → Attempt B) → Attempt B
attempt (failed e) next = failed e
attempt (got a) next = next a

abbrev pub or_text : Option String → String → String
or_text none s = s
or_text (some t) s = t

abbrev pub or_option {ℓ} : {A : Type ℓ} → Option A → Option A → Option A
or_option none o = o
or_option (some a) o = some a

abbrev seconds_of : Option ℕ → ℕ
seconds_of none = 3600
seconds_of (some n) = n

abbrev scopes_of : List String → Option (List String) → List String
scopes_of defaults none = defaults
scopes_of defaults (some scopes) = scopes

module _ (google : Google) (now : ℕ) where
  abbrev rejection : Option TokenBody → String
  rejection none = "Google rejected the token request."
  rejection (some body) =
      or_text (or_option body.error_description body.error) "Google rejected the token request."

  abbrev granted : ℕ → TokenBody → Option String → Attempt GoogleTokens
  granted status body none = failed (google_api_error (rejection (some body)) status)
  granted status body (some token) = got (record {
    access_token = token;
    refresh_token = body.refresh_token;
    expires_at = now + seconds_of body.expires_in * 1000;
    scopes = scopes_of google.default_scopes body.scopes;
  })

  abbrev read_tokens : ℕ → Bool → Option TokenBody → Attempt GoogleTokens
  read_tokens status false body = failed (google_api_error (rejection body) status)
  read_tokens status true none = failed (google_api_error (rejection none) status)
  read_tokens status true (some body) = granted status body (non_empty body.access_token)

  abbrev read_answer : Option TokenAnswer → Attempt GoogleTokens
  read_answer none = failed network_error
  read_answer (some answer) = read_tokens answer.status answer.ok_status answer.body

  unfoldable pub request_tokens : GrantParams → Attempt GoogleTokens
  request_tokens params =
      if google.is_configured
      then read_answer (google.post_token params)
      else failed (google_api_error "Google integration is not configured on this server." 503)

  abbrev read_sub : Option String → Option String → Attempt GoogleIdentity
  read_sub none email = failed (google_api_error "Google did not return an account identifier." 502)
  read_sub (some sub) email = got (record { sub = sub; email = email })

  -- A body that is no JSON is an error of the reading.
  abbrev read_body : Option IdentityBody → Attempt GoogleIdentity
  read_body none = failed network_error
  read_body (some body) = read_sub (non_empty body.sub) body.email

  abbrev read_identity : Option IdentityAnswer → Attempt GoogleIdentity
  read_identity none = failed network_error
  read_identity (some answer) =
      if answer.ok_status
      then read_body answer.body
      else failed (google_api_error "Could not read the Google account profile." answer.status)

  unfoldable pub fetch_identity : String → Attempt GoogleIdentity
  fetch_identity access_token = read_identity (google.get_identity access_token)
