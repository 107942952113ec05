-- ===== src/Conference.antt =====
-- src/integrations/google/google-calendar.client.ts and src/integrations/meeting/google-meet.provider.ts:
-- the conference of a booking in the calendar of its consultant. Google's calendar is a parameter, a state
-- with an answer to each request.
pub mod Hosting
use Prim.Native.String.{◌++◌ as append_text}
use hr_booking_server.Base.{
  non_empty, ℕ, Bool, true, false, ◌&&◌, not, Option, none, some, String, List, [], ◌∷◌, ◌==◌,
  if◌then◌else◌,
}
use hr_booking_server.Store.{Db}
use hr_booking_server.Oauth.{
  Google, GoogleAccess, Attempt, failed, got, google_api_error, network_error, get_google_access,
}

pub record MeetingAttendee : Type 0 where
  pub email : String
  pub display_name : Option String

pub record CreateMeetingInput : Type 0 where
  pub booking_id : ℕ
  pub host_user_id : ℕ
  pub title : String
  pub description : Option String
  pub start_at : ℕ
  pub end_at : ℕ
  pub time_zone : String
  pub attendees : List MeetingAttendee

pub record UpdateMeetingInput : Type 0 where
  pub host_user_id : ℕ
  pub external_meeting_id : String
  pub external_calendar_id : String
  pub start_at : ℕ
  pub end_at : ℕ
  pub time_zone : String

pub record CancelMeetingInput : Type 0 where
  pub host_user_id : ℕ
  pub external_meeting_id : String
  pub external_calendar_id : String

pub record MeetingDetails : Type 0 where
  pub external_meeting_id : String
  pub external_calendar_id : String
  pub meeting_url : Option String

pub record CalendarEventInput : Type 0 where
  pub summary : String
  pub description : Option String
  pub start_at : ℕ
  pub end_at : ℕ
  pub time_zone : String
  pub attendees : List MeetingAttendee
  pub conference_request_id : String

-- The fields that are read of Google's event, as they come.
pub record CalendarEvent : Type 0 where
  pub id : Option String
  pub hangout_link : Option String

pub record EventTime : Type 0 where
  pub date_time : String
  pub time_zone : String

-- The method with its body; an event is inserted with a conference of Google Meet.
pub data EventRequest : Type 0 where
  post_event :
      String → Option String → EventTime → EventTime → List MeetingAttendee → String → EventRequest
  patch_times : EventTime → EventTime → EventRequest
  delete_it : EventRequest

pub record CalendarRequest : Type 0 where
  pub url : String
  pub access_token : String
  pub event_request : EventRequest

-- `event` is the body of an answer that has one, `message` the `error.message` of its body.
pub record CalendarAnswer : Type 0 where
  pub ok_status : Bool
  pub status : ℕ
  pub message : Option String
  pub event : Option CalendarEvent

-- Functions of the platform: the text of a date, of a number and of a part of an address, and an
-- address with its query.
pub record Texts : Type 0 where
  pub to_iso_string : ℕ → String
  pub number_text : ℕ → String
  pub encode_uri_component : String → String
  pub with_query : String → List (String × String) → String

abbrev calendar_api : String
calendar_api = "https://www.googleapis.com/calendar/v3"

-- `fetch` answers `none` where the request fails.
module _ {S : Type 0} (fetch : CalendarRequest → S → Option CalendarAnswer × S)
    (texts : Texts) where
  abbrev build_url : String → String → List (String × String) → String
  build_url calendar_id suffix query =
      texts.with_query
        (append_text calendar_api (
          append_text "/calendars/"
            (append_text (texts.encode_uri_component calendar_id) (append_text "/events" suffix))))
        query

  abbrev event_suffix : String → String
  event_suffix event_id = append_text "/" (texts.encode_uri_component event_id)

  abbrev or_failure : Option String → ℕ → String
  or_failure (some message) status = message
  or_failure none status =
      append_text "Google Calendar request failed with status "
        (append_text (texts.number_text status) ".")

  abbrev describe_failure : CalendarAnswer → String
  describe_failure answer = or_failure answer.message answer.status

  abbrev check_id : CalendarEvent → Option String → Attempt (String × CalendarEvent)
  check_id event none =
      failed (google_api_error "Google Calendar returned an event without an id." 502)
  check_id event (some id) = got (id, event)

  -- A body that is no event is an error of the reading.
  abbrev check_event : Option CalendarEvent → Attempt (String × CalendarEvent)
  check_event none = failed network_error
  check_event (some event) = check_id event (non_empty event.id)

  abbrev check_answer : CalendarAnswer → Bool → Attempt (String × CalendarEvent)
  check_answer answer false = failed (google_api_error (describe_failure answer) answer.status)
  check_answer answer true = check_event answer.event

  abbrev read_event : Option CalendarAnswer → Attempt (String × CalendarEvent)
  read_event none = failed network_error
  read_event (some answer) = check_answer answer answer.ok_status

  -- The id of the event, and the event.
  unfoldable pub request : CalendarRequest → S → Attempt (String × CalendarEvent) × S
  request r s = let answered = fetch r s in (read_event answered.0, answered.1)

  abbrev pub insertion : String → String → CalendarEventInput → CalendarRequest
  insertion access_token calendar_id input = record {
    url = build_url calendar_id "" (("conferenceDataVersion", "1") ∷ ("sendUpdates", "all") ∷ []);
    access_token = access_token;
    event_request =
        post_event input.summary input.description
          (record { date_time = texts.to_iso_string input.start_at; time_zone = input.time_zone })
          (record { date_time = texts.to_iso_string input.end_at; time_zone = input.time_zone })
          input.attendees input.conference_request_id;
  }

  abbrev create_event :
      String → String → CalendarEventInput → S → Attempt (String × CalendarEvent) × S
  create_event access_token calendar_id input = request (insertion access_token calendar_id input)

  abbrev patch_event :
      String → String → String → UpdateMeetingInput → S → Attempt (String × CalendarEvent) × S
  patch_event access_token calendar_id event_id patch = request (record {
    url = build_url calendar_id (event_suffix event_id) (("sendUpdates", "all") ∷ []);
    access_token = access_token;
    event_request =
        patch_times
          (record { date_time = texts.to_iso_string patch.start_at; time_zone = patch.time_zone })
          (record { date_time = texts.to_iso_string patch.end_at; time_zone = patch.time_zone });
  })

  -- An event that is already gone is deleted.
  abbrev check_deletion : Option CalendarAnswer → Attempt (Unit {0})
  check_deletion none = failed network_error
  check_deletion (some answer) =
      if not answer.ok_status && not (answer.status == 404) && not (answer.status == 410)
      then failed (google_api_error (describe_failure answer) answer.status)
      else got tt

  abbrev pub deletion : String → String → String → CalendarRequest
  deletion access_token calendar_id event_id = record {
    url = build_url calendar_id (event_suffix event_id) (("sendUpdates", "all") ∷ []);
    access_token = access_token;
    event_request = delete_it;
  }

  unfoldable pub delete_event : String → String → String → S → Attempt (Unit {0}) × S
  delete_event access_token calendar_id event_id s =
      let answered = fetch (deletion access_token calendar_id event_id) s in
      (check_deletion answered.0, answered.1)

  module _ (google : Google) (now : ℕ) where
    abbrev with_access {ℓ} :
        {A : Type ℓ}
        → (GoogleAccess → S → Attempt A × S)
        → Attempt GoogleAccess × Db
        → S
        → Attempt A × (Db × S)
    with_access next (failed e, db) s = (failed e, (db, s))
    with_access next (got access, db) s = let done = next access s in (done.0, (db, done.1))

    abbrev details_of : String → Attempt (String × CalendarEvent) → Attempt MeetingDetails
    details_of calendar_id (failed e) = failed e
    details_of calendar_id (got (id, event)) = got (record {
      external_meeting_id = id;
      external_calendar_id = calendar_id;
      meeting_url = event.hangout_link;
    })

    abbrev pub event_input : CreateMeetingInput → CalendarEventInput
    event_input input = record {
      summary = input.title;
      description = input.description;
      start_at = input.start_at;
      end_at = input.end_at;
      time_zone = input.time_zone;
      attendees = input.attendees;
      conference_request_id = append_text "booking-" (texts.number_text input.booking_id);
    }

    abbrev create_with : CreateMeetingInput → GoogleAccess → S → Attempt MeetingDetails × S
    create_with input access s =
        let done = create_event access.access_token access.calendar_id (event_input input) s in
        (details_of access.calendar_id done.0, done.1)

    unfoldable pub create_meeting : CreateMeetingInput → Db → S → Attempt MeetingDetails × (Db × S)
    unfolding request
    create_meeting input db =
        with_access (create_with input) (get_google_access google now input.host_user_id db)

    abbrev update_with : UpdateMeetingInput → GoogleAccess → S → Attempt MeetingDetails × S
    update_with input access s =
        let done =
          patch_event access.access_token input.external_calendar_id input.external_meeting_id input
            s in
        (details_of input.external_calendar_id done.0, done.1)

    unfoldable pub update_meeting : UpdateMeetingInput → Db → S → Attempt MeetingDetails × (Db × S)
    unfolding request
    update_meeting input db =
        with_access (update_with input) (get_google_access google now input.host_user_id db)

    abbrev cancel_with : CancelMeetingInput → GoogleAccess → S → Attempt (Unit {0}) × S
    cancel_with input access =
        delete_event access.access_token input.external_calendar_id input.external_meeting_id

    unfoldable pub cancel_meeting : CancelMeetingInput → Db → S → Attempt (Unit {0}) × (Db × S)
    unfolding delete_event
    cancel_meeting input db =
        with_access (cancel_with input) (get_google_access google now input.host_user_id db)
