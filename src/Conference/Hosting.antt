-- ===== src/Conference/Hosting.antt =====
-- What a conference that `googleMeetProvider` reports stands on: an access of the consultant's account,
-- and an event that Google's calendar has answered with.
use Prim.Native.String.{◌++◌ as append_text}
use hr_booking_server.Base.{
  ℕ, ◌≡◌, refl, ap, [], ◌∷◌, ◌⊎◌, true, false, Option, none, some, String, arith, same_text,
}
use hr_booking_server.Store.{Db}
use hr_booking_server.Oauth.{Google, GoogleAccess, Attempt, failed, got, get_google_access}
use hr_booking_server.Oauth.Connection.{IsStored, IsGranted, get_google_access-usable}
use hr_booking_server.Conference.{
  CalendarRequest, CalendarAnswer, CalendarEvent, Texts, CreateMeetingInput, MeetingDetails,
  post_event, request, create_meeting, read_event, details_of,
}

-- An answer with an event that has an id.
pub record IsEvent (answer : CalendarAnswer) (id : String) (event : CalendarEvent) : Type 0 where
  pub ok_status : answer.ok_status ≡ true
  pub in_body : answer.event ≡ some event
  pub has_id : event.id ≡ some id
  pub not_empty : same_text id "" ≡ false

module _ {S : Type 0} (fetch : CalendarRequest → S → Option CalendarAnswer × S)
    (texts : Texts) where
  read_event-IsEvent :
      (o : Option CalendarAnswer) (id : String) (event : CalendarEvent)
      → read_event fetch texts o ≡ got (id, event)
      → (answer : CalendarAnswer) × (o ≡ some answer) × IsEvent answer id event
  read_event-IsEvent none id event h = absurd (ground (arith, h))
  read_event-IsEvent (some answer) id event h = (
    answer,
    refl,
    record {
      ok_status = ground arith;
      in_body = ground arith;
      has_id = ground arith;
      not_empty = ground arith;
    },
  )

  module _ (google : Google) (now : ℕ) (input : CreateMeetingInput) (db : Db) (s : S) where
    -- A request for an event in the calendar of the account, with a conference under the key of the
    -- booking.
    abbrev pub asked_event : GoogleAccess → CalendarRequest
    asked_event access = record {
      url =
          texts.with_query
            (append_text "https://www.googleapis.com/calendar/v3" (
              append_text "/calendars/"
                (append_text (texts.encode_uri_component access.calendar_id) "/events")))
            (("conferenceDataVersion", "1") ∷ ("sendUpdates", "all") ∷ []);
      access_token = access.access_token;
      event_request =
          post_event input.title input.description
            (record { date_time = texts.to_iso_string input.start_at; time_zone = input.time_zone })
            (record { date_time = texts.to_iso_string input.end_at; time_zone = input.time_zone })
            input.attendees (append_text "booking-" (texts.number_text input.booking_id));
    }

    -- The conference that is reported, with what it stands on.
    pub record IsHosted (details : MeetingDetails) (after : Db) (done : S) : Type 0 where
      pub access : GoogleAccess
      pub usable :
          IsStored google now input.host_user_id db after access
          ⊎ IsGranted google now input.host_user_id db after access
      pub calendar : details.external_calendar_id ≡ access.calendar_id
      pub answer : CalendarAnswer
      pub answered : fetch (asked_event access) s ≡ (some answer, done)
      pub event : CalendarEvent
      pub inserted : IsEvent answer details.external_meeting_id event
      pub url : details.meeting_url ≡ event.hangout_link

    details_of-got :
        (calendar_id : String) (t : Attempt (String × CalendarEvent)) (details : MeetingDetails)
        → details_of fetch texts google now calendar_id t ≡ got details
        → (event : CalendarEvent) × (t ≡ got (details.external_meeting_id, event))
          × (details.external_calendar_id ≡ calendar_id)
          × (details.meeting_url ≡ event.hangout_link)
    details_of-got calendar_id (failed e) details h = absurd (ground (arith, h))
    details_of-got calendar_id (got (id, event)) details h =
        (event, ground arith, ground arith, ground arith)

    -- Where `createMeeting` of the Google Meet provider reports a conference, the access was usable: the stored token of the
    -- consultant's account, of which more than a minute is left, or one that Google has just granted and
    -- the account keeps. The conference is in the calendar of that account, and it is the event with an
    -- id that the calendar has answered with, to the one request sent: for an event of the title, times
    -- and attendees of the booking in that calendar, with a conference under the key `booking-<id>`.
    pub create_meeting-IsHosted :
        (details : MeetingDetails) (after : Db) (done : S)
        → create_meeting fetch texts google now input db s ≡ (got details, (after, done))
        → IsHosted details after done
    unfolding create_meeting request
    create_meeting-IsHosted details after done h =
        by_access (get_google_access google now input.host_user_id db) refl
      where
        by_access :
            (r : Attempt GoogleAccess × Db)
            → get_google_access google now input.host_user_id db ≡ r
            → IsHosted details after done
        by_access (failed e, mid) q = absurd (ground (arith, rw q at h))
        by_access (got access, mid) q =
            let call = asked_event access in
            let k = rw q at h in
            let same_db : mid ≡ after = ap (λ r. r.1.0) k in
            let same_calendar : (fetch call s).1 ≡ done = ap (λ r. r.1.1) k in
            let (event, read, calendar, url) =
              details_of-got access.calendar_id (read_event fetch texts (fetch call s).0) details
                (ap (λ r. r.0) k) in
            let (answer, from, inserted) =
              read_event-IsEvent (fetch call s).0 details.external_meeting_id event read in
            record {
              access = access;
              usable =
                  get_google_access-usable google now input.host_user_id db after access
                    (rw (q, same_db) refl);
              calendar = calendar;
              answer = answer;
              answered = rw (← from, ← same_calendar) refl;
              event = event;
              inserted = inserted;
              url = url;
            }
