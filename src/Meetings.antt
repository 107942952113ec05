-- ===== src/Meetings.antt =====
-- src/services/meeting.service.ts and src/jobs/meeting.job.ts: the conference of a booking.
pub mod Outage
use hr_booking_server.Base.{
  ℕ, suc, Bool, true, false, ◌&&◌, ◌||◌, not, Option, none, some, String, List, [], ◌∷◌, ◌++◌, ◌==◌,
  ltb, ◌⊎◌, inl, inr, if◌then◌else◌, find_first, keep, change,
}
use hr_booking_server.Constants.{MeetingProvider, is_supported, MeetingStatus}
use hr_booking_server.Models.{User, Booking, Meeting}
use hr_booking_server.Store.{
  Db, M, Outcome, returns, throws, after_outcome, ◌>>=◌, ◌>>◌, pure, get, modify, MeetingJobName,
  create, sync, cancel,
}
use hr_booking_server.Booking.Checks.{is_active, find_booking}

pub record Details : Type 0 where
  pub external_meeting_id : String
  pub external_calendar_id : String
  pub meeting_url : Option String

-- The provider's client. It answers, or throws an error with a message; `truncate` cuts a message to
-- 300 characters.
pub record Provider : Type 0 where
  pub create_meeting : Booking → List User → Details ⊎ String
  pub update_meeting : Meeting → Booking → Option String ⊎ String
  pub cancel_meeting : Meeting → Booking → Option String
  pub unsupported : MeetingProvider → String
  pub truncate : String → String

unfoldable pub find_meeting : ℕ → Db → Option Meeting
find_meeting booking_id db = find_first (λ m. m.booking_id == booking_id) db.meetings

-- `meeting.save()`.
unfoldable pub save_meeting : Meeting → M (Unit {0})
save_meeting m =
    modify λ db. record db { meetings = change (λ n. n.id == m.id) (λ _. m) db.meetings }

abbrev pub refreshed : Booking → Meeting → Meeting
refreshed b m = record m {
  start_time = b.start_at;
  end_time = b.end_at;
  provider = b.meeting_provider;
}

abbrev pub new_meeting : Booking → ℕ → Meeting
new_meeting b id = record {
  id = id;
  booking_id = b.id;
  provider = b.meeting_provider;
  status = MeetingStatus.pending;
  external_meeting_id = none;
  external_calendar_id = none;
  meeting_url = none;
  start_time = b.start_at;
  end_time = b.end_at;
  last_error = none;
  attempts = 0;
}

abbrev upsert : Booking → Option Meeting → M Meeting
upsert b (some m) db = returns (refreshed b m) db
upsert b none db = returns (new_meeting b db.next_id) (record db {
  meetings = db.meetings ++ new_meeting b db.next_id ∷ [];
  next_id = suc db.next_id;
})

-- A record that exists is changed in memory, and saved by the caller.
unfoldable pub upsert_meeting_record : Booking → M Meeting
unfolding find_meeting
upsert_meeting_record b db = upsert b (find_meeting b.id db) db

abbrev pub has {ℓ} : {A : Type ℓ} → Option A → Bool
has none = false
has (some a) = true

abbrev pub is_created : MeetingStatus → Bool
is_created MeetingStatus.created = true
is_created _ = false

abbrev pub participants : Booking → Db → List User
participants b db = keep (λ u. u.id == b.user_id || u.id == b.hr_user_id) db.users

module _ (provider : Provider) where
  abbrev pub with_failure : Meeting → String → Meeting
  with_failure m message = record m {
    status = MeetingStatus.failed;
    last_error = some (provider.truncate message);
    attempts = suc m.attempts;
  }

  unfoldable pub record_failure : Meeting → String → M (Option Meeting)
  unfolding save_meeting
  record_failure m message = do
    save_meeting (with_failure m message)
    pure (some (with_failure m message))

  abbrev pub with_details : Details → Meeting → Meeting
  with_details d m = record m {
    status = MeetingStatus.created;
    external_meeting_id = some d.external_meeting_id;
    external_calendar_id = some d.external_calendar_id;
    meeting_url = d.meeting_url;
    last_error = none;
  }

  abbrev pub keep_details : Meeting → Details ⊎ String → M (Option Meeting)
  keep_details m (inl d) db = (save_meeting (with_details d m) >> pure (some (with_details d m))) db
  keep_details m (inr message) db = record_failure m message db

  abbrev pub host : Booking → Meeting → M (Option Meeting)
  host b m db =
      if is_created m.status && has m.external_meeting_id
      then returns (some m) db
      else if not (is_supported b.meeting_provider)
      then record_failure m (provider.unsupported b.meeting_provider) db
      else keep_details m (provider.create_meeting b (participants b db)) db

  abbrev ensure : Option Booking → M (Option Meeting)
  ensure none db = returns none db
  ensure (some b) db = (upsert_meeting_record b >>= host b) db

  unfoldable pub ensure_meeting_for_booking : ℕ → M (Option Meeting)
  unfolding find_booking upsert_meeting_record record_failure save_meeting
  ensure_meeting_for_booking booking_id db = ensure (find_booking booking_id db) db

  abbrev or_old {ℓ} : {A : Type ℓ} → Option A → Option A → Option A
  or_old none a = a
  or_old (some b) a = some b

  abbrev pub timed : Booking → Meeting → Meeting
  timed b m = record m { start_time = b.start_at; end_time = b.end_at }

  abbrev keep_url : Meeting → Option String ⊎ String → M (Option Meeting)
  keep_url m (inl url) db =
      let moved = record m { meeting_url = or_old url m.meeting_url; last_error = none } in
      (save_meeting moved >> pure (some moved)) db
  keep_url m (inr message) db = record_failure m message db

  abbrev move : ℕ → Booking → Option Meeting → M (Option Meeting)
  move booking_id b none db = ensure_meeting_for_booking booking_id db
  move booking_id b (some m) db =
      if not (is_created m.status)
        || not (has m.external_meeting_id)
        || not (has m.external_calendar_id)
      then (save_meeting (timed b m) >> ensure_meeting_for_booking booking_id) db
      else keep_url (timed b m) (provider.update_meeting (timed b m) b) db

  abbrev sync_found : ℕ → Option Booking → M (Option Meeting)
  sync_found booking_id none db = returns none db
  sync_found booking_id (some b) db = move booking_id b (find_meeting b.id db) db

  unfoldable pub sync_meeting_times : ℕ → M (Option Meeting)
  unfolding find_booking find_meeting ensure_meeting_for_booking save_meeting record_failure
  sync_meeting_times booking_id db = sync_found booking_id (find_booking booking_id db) db

  abbrev pub withdrawn : Meeting → Meeting
  withdrawn m = record m { status = MeetingStatus.cancelled; last_error = none }

  -- The provider's own failure is only logged, so its answer does not matter.
  abbrev cancel_found : Option Booking → Option Meeting → M (Option Meeting)
  cancel_found (some b) (some m) db = (save_meeting (withdrawn m) >> pure (some (withdrawn m))) db
  cancel_found none _ db = returns none db
  cancel_found (some b) none db = returns none db

  unfoldable pub cancel_meeting_for_booking : ℕ → M (Option Meeting)
  unfolding find_booking find_meeting save_meeting
  cancel_meeting_for_booking booking_id db =
      cancel_found (find_booking booking_id db) (find_meeting booking_id db) db

  -- The worker of the meeting queue.
  unfoldable pub run_meeting_job : MeetingJobName → ℕ → M (Option Meeting)
  unfolding ensure_meeting_for_booking sync_meeting_times cancel_meeting_for_booking
  run_meeting_job create booking_id = ensure_meeting_for_booking booking_id
  run_meeting_job sync booking_id = sync_meeting_times booking_id
  run_meeting_job cancel booking_id = cancel_meeting_for_booking booking_id

abbrev is_retryable_status : Option Meeting → Bool
is_retryable_status none = true
is_retryable_status (some m) = elim m.status [
  | MeetingStatus.pending ↦ true
  | MeetingStatus.failed ↦ true
  | _ ↦ false
]

unfoldable pub is_retryable : ℕ → Option Meeting → Booking → Bool
is_retryable now meeting b = is_active b && ltb now b.end_at && is_retryable_status meeting
