-- ===== src/Meetings/Outage.antt =====
-- src/services/meeting.service.ts: whatever the provider does, the bookings stay as they are and the
-- outcome is recorded on the meeting.
use hr_booking_server.Base.{
  ℕ, suc, ◌≡◌, refl, ◌⊎◌, inl, inr, ◌&&◌, Option, none, some, String, [], ◌∷◌, ◌++◌, ◌==◌, change,
  arith, Bool-cases, Option-cases, find_first-some,
}
use hr_booking_server.Base.Find.{find_first-change-other, find_first-append-none}
use hr_booking_server.Constants.{MeetingStatus, is_supported}
use hr_booking_server.Models.{Booking, Meeting}
use hr_booking_server.Store.{Db, Outcome, returns}
use hr_booking_server.Booking.Checks.{find_booking}
use hr_booking_server.Meetings.{
  Details, Provider, find_meeting, save_meeting, refreshed, new_meeting, upsert_meeting_record,
  participants, is_created, has, host, keep_details, record_failure, with_failure, with_details,
  ensure_meeting_for_booking,
}

-- A call that returned, left the bookings as they were and recorded the outcome: the booking's meeting
-- is created or failed.
abbrev pub IsSettled : ℕ → Db → Outcome (Option Meeting) → Type 0
IsSettled booking_id db o =
    (r : Option Meeting) × (after : Db) × (m : Meeting) × (o ≡ returns r after)
    × (after.bookings ≡ db.bookings)
    × (find_meeting booking_id after ≡ some m)
    × ((m.status ≡ MeetingStatus.created) ⊎ (m.status ≡ MeetingStatus.failed))

find_meeting-saved :
    (booking_id : ℕ) (db : Db) (old new : Meeting)
    → find_meeting booking_id db ≡ some old
    → new.id ≡ old.id
    → new.booking_id ≡ old.booking_id
    → find_meeting booking_id
        (record db { meetings = change (λ n. n.id == new.id) (λ _. new) db.meetings })
      ≡ some new
unfolding find_meeting
find_meeting-saved booking_id db old new found i b =
    find_first-change-other (λ m. m.booking_id == booking_id) (λ n. n.id == new.id) new db.meetings
      (rw b (find_first-some (λ m. m.booking_id == booking_id) db.meetings old found).1)
      (ground arith) found

find_meeting-appended :
    (booking : Booking) (db : Db)
    → find_meeting booking.id db ≡ none
    → find_meeting booking.id (record db {
      meetings = db.meetings ++ new_meeting booking db.next_id ∷ [];
      next_id = suc db.next_id;
    })
      ≡ some (new_meeting booking db.next_id)
unfolding find_meeting
find_meeting-appended booking db e =
    find_first-append-none (λ m. m.booking_id == booking.id) db.meetings
      (new_meeting booking db.next_id) e (ground arith)

module _ (provider : Provider) where
  record_failure-IsSettled :
      (booking_id : ℕ) (db : Db) (old m : Meeting) (message : String)
      → find_meeting booking_id db ≡ some old
      → m.id ≡ old.id
      → m.booking_id ≡ old.booking_id
      → IsSettled booking_id db (record_failure provider m message db)
  unfolding record_failure save_meeting
  record_failure-IsSettled booking_id db old m message found i b = (
    _,
    _,
    with_failure provider m message,
    refl,
    refl,
    find_meeting-saved booking_id db old (with_failure provider m message) found i b,
    inr refl,
  )

  host-IsSettled :
      (booking : Booking) (db : Db) (old m : Meeting)
      → find_meeting booking.id db ≡ some old
      → m.id ≡ old.id
      → m.booking_id ≡ old.booking_id
      → m.status ≡ old.status
      → IsSettled booking.id db (host provider booking m db)
  unfolding save_meeting
  host-IsSettled booking db old m found i b s =
      elim (Bool-cases (is_created m.status && has m.external_meeting_id)) [
        | inl e ↦ rw e (_, _, old, refl, refl, found, inl (ground arith))
        | inr e ↦ elim (Bool-cases (is_supported booking.meeting_provider)) [
          | inl k ↦
              rw (e, k) (answered (provider.create_meeting booking (participants booking db)) refl)
          | inr k ↦
              rw (e, k)
                (record_failure-IsSettled booking.id db old m
                  (provider.unsupported booking.meeting_provider) found i b)
        ]
      ]
    where
      answered :
          (a : Details ⊎ String)
          → provider.create_meeting booking (participants booking db) ≡ a
          → IsSettled booking.id db (
              keep_details provider m
                (provider.create_meeting booking (participants booking db))
                db)
      answered (inl d) e = rw e (
        _,
        _,
        with_details provider d m,
        refl,
        refl,
        find_meeting-saved booking.id db old (with_details provider d m) found i b,
        inl refl,
      )
      answered (inr message) e =
          rw e (record_failure-IsSettled booking.id db old m message found i b)

  -- For a booking that exists, creating its meeting always returns and leaves every booking as it was, whatever the
  -- provider answers; the booking's meeting is created or failed afterwards, never pending.
  pub ensure_meeting-IsSettled :
      (booking : Booking) (db : Db) (id : ℕ)
      → find_booking id db ≡ some booking
      → IsSettled booking.id db (ensure_meeting_for_booking provider id db)
  unfolding ensure_meeting_for_booking upsert_meeting_record
  ensure_meeting-IsSettled booking db id found = elim (Option-cases (find_meeting booking.id db)) [
    | inl e ↦
        rw (found, e)
          (host-IsSettled booking
            (record db {
              meetings = db.meetings ++ new_meeting booking db.next_id ∷ [];
              next_id = suc db.next_id;
            })
            (new_meeting booking db.next_id) (new_meeting booking db.next_id)
            (find_meeting-appended booking db e) refl refl refl)
    | inr (m, e) ↦
        rw (found, e) (host-IsSettled booking db m (refreshed booking m) e refl refl refl)
  ]
