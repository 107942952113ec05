-- ===== src/Scenarios/Connections.antt =====
-- The connection of a Google account by the consultant of the concrete state, and a conference on it.
use hr_booking_server.Base.{
  ◌≡◌, refl, true, Option, none, some, String, [], ◌∷◌, find_first, change,
}
use hr_booking_server.Models.{OauthAccount}
use hr_booking_server.Store.{Db}
use hr_booking_server.Oauth.{
  Google, connection_error, got, find_account, get_google_access, usable_token, safe_decrypt,
  request_tokens, complete_google_connection, check_connection, fetch_identity, disconnect_google,
}
use hr_booking_server.Oauth.Connection.{
  get_google_access-recorded, complete_google_connection-disconnect,
}
use hr_booking_server.Conference.{
  CalendarRequest, CalendarAnswer, Texts, CreateMeetingInput, MeetingDetails, create_meeting,
  request,
}
use hr_booking_server.Conference.Hosting.{IsHosted, create_meeting-IsHosted}
use hr_booking_server.Scenarios.Data.{start_db}

-- Every code is good; a secret is its own cipher.
abbrev google_with : (String → Option String) → Google
google_with decrypt = record {
  is_configured = true;
  post_token = λ params. some (record {
    ok_status = true;
    status = 200;
    body = some (record {
      access_token = some "access";
      refresh_token = some "refresh";
      expires_in = none;
      scopes = none;
      error = none;
      error_description = none;
    });
  });
  get_identity = λ token. some (record {
    ok_status = true;
    status = 200;
    body = some (record { sub = some "sub"; email = none });
  });
  encrypt_secret = λ s. s;
  decrypt_secret = decrypt;
  verify_state = λ s. some 2;
  lower_case = λ s. s;
  truncate = λ s. s;
  default_scopes = [];
}

abbrev google : Google
google = google_with (λ s. some s)

abbrev account : OauthAccount
account = record {
  user_id = 2;
  provider_account_id = "sub";
  account_email = none;
  refresh_token = "refresh";
  access_token = some "access";
  access_token_expires_at = some 3_600_000;
  scopes = [];
  calendar_id = "primary";
  last_error = none;
}

abbrev connected_db : Db
connected_db = record start_db { oauth_accounts = account ∷ [] }

-- Every request is answered with one event.
abbrev fetch : CalendarRequest → Unit {0} → Option CalendarAnswer × Unit {0}
fetch call s = (
  some (record {
    ok_status = true;
    status = 200;
    message = none;
    event = some (record { id = some "event"; hangout_link = some "meet" });
  }),
  tt,
)

abbrev texts : Texts
texts = record {
  to_iso_string = λ n. "date";
  number_text = λ n. "number";
  encode_uri_component = λ t. t;
  with_query = λ t query. t;
}

abbrev meeting_input : CreateMeetingInput
meeting_input = record {
  booking_id = 100;
  host_user_id = 2;
  title = "Consultation";
  description = none;
  start_at = 32_400_000;
  end_at = 36_000_000;
  time_zone = "UTC";
  attendees = [];
}

abbrev hosted : MeetingDetails
hosted = record {
  external_meeting_id = "event";
  external_calendar_id = "primary";
  meeting_url = some "meet";
}

create_meeting-IsHosted_example :
    IsHosted fetch texts google 0 meeting_input connected_db tt hosted connected_db tt
unfolding create_meeting request get_google_access find_account find_first usable_token safe_decrypt
create_meeting-IsHosted_example =
    create_meeting-IsHosted fetch texts google 0 meeting_input connected_db tt hosted connected_db
      tt refl

abbrev unreadable_db : Db
unreadable_db = record connected_db {
  oauth_accounts =
      record account { last_error = some "Stored Google credentials could not be read." } ∷ [];
}

get_google_access-recorded_example :
    (message : String) × (find_account (google_with (λ s. none)) 0 2 unreadable_db
      ≡ some (record account { last_error = some message }))
unfolding get_google_access find_account find_first change usable_token safe_decrypt
get_google_access-recorded_example =
    get_google_access-recorded (google_with (λ s. none)) 0 2 connected_db unreadable_db account
      (connection_error "unreadable_credentials"
        "Stored Google credentials could not be read. Reconnect the account.")
      refl refl

complete_google_connection-disconnect_example :
    (google.verify_state "state" ≡ some 2)
    × (account.last_error ≡ none)
    × (find_account google 0 2 connected_db ≡ some account)
    × ((left : Db) × (disconnect_google google 0 2 connected_db ≡ (got tt, left))
        × (find_account google 0 2 left ≡ none))
unfolding complete_google_connection check_connection request_tokens fetch_identity find_account
    find_first
complete_google_connection-disconnect_example =
    complete_google_connection-disconnect google 0 "code" "state" start_db connected_db account refl
