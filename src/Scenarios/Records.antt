-- ===== src/Scenarios/Records.antt =====
-- Reviews, account administration, meetings and reports of the concrete state.
use mathlib.Core.List.Memᴰ
use hr_booking_server.Base.{
  ◌⊎◌, Memᴰ, inl, arith, ◌≡◌, ◌≢◌, refl, inr, false, none, some, [], ◌∷◌, find_first, All,
}
use hr_booking_server.Constants.{ProfileStatus, is_admin}
use hr_booking_server.Models.{User, HrProfile, Booking}
use hr_booking_server.Store.{Db, returns, final}
use hr_booking_server.Auth.{find_by_id}
use hr_booking_server.Booking.Checks.{find_booking}
use hr_booking_server.Profile.{approve_profile, find_profile, save_profile}
use hr_booking_server.Admin.{
  suspend_user, suspended, DeletedUserSummary, delete_user, is_party, delete_consultant_records_of,
}
use hr_booking_server.Admin.Deletion.{delete_user-erases}
use hr_booking_server.Meetings.{Provider, ensure_meeting_for_booking}
use hr_booking_server.Meetings.Outage.{IsSettled, ensure_meeting-IsSettled}
use hr_booking_server.Reports.{
  CreateReportInput, create_report, HasOnePending, create_report-HasOnePending,
}
use hr_booking_server.Scenarios.Data.{
  ten_ms, start_db, booked_db, profile_with, nine_booking, admin,
}
use hr_booking_server.Scenarios.Accounts.{logged_in, client_user}
use hr_booking_server.Admin.Deletion.{delete_user-keeps}
use hr_booking_server.Booking.Invariant.{IsConsistent, IsSound, IsCompatible}
use hr_booking_server.DateTime.{overlaps}

abbrev pending_db : Db
pending_db = record start_db { profiles = profile_with ProfileStatus.pending_review ∷ [] }

approved_profile : HrProfile
approved_profile = record (profile_with ProfileStatus.published) {
  reviewed_by = some 9;
  reviewed_at = some 7;
}

approved_db : Db
approved_db = final (approve_profile 7 admin 5 pending_db)

approve_run : approve_profile 7 admin 5 pending_db ≡ returns approved_profile approved_db
unfolding approved_db approved_profile approve_profile find_profile find_first save_profile
    find_by_id
approve_run = refl

suspended_db : Db
suspended_db = final (suspend_user admin 1 "spam" logged_in)

suspend_run : suspend_user admin 1 "spam" logged_in ≡ returns (suspended client_user) suspended_db
unfolding suspended_db suspend_user find_by_id find_first
suspend_run = refl

deleted_db : Db
deleted_db = final (delete_user 7 admin 1 booked_db)

abbrev summary : DeletedUserSummary
summary = record { email = "client@mail"; first_name = "Ada"; last_name = "Byron" }

delete_run : delete_user 7 admin 1 booked_db ≡ returns summary deleted_db
unfolding deleted_db delete_user find_by_id find_first delete_consultant_records_of
delete_run = refl

delete_user-erases_example :
    (u : User) × (find_by_id 1 booked_db ≡ some u)
    × (is_admin u.role ≡ false)
    × All (λ b. is_party u.id b ≡ false) deleted_db.bookings
    × All (λ t. t.user_id ≢ u.id) deleted_db.refresh_tokens
    × All (λ v. v.id ≢ u.id) deleted_db.users
delete_user-erases_example = delete_user-erases 7 admin 1 booked_db deleted_db summary delete_run

-- A provider that is down.
abbrev down : Provider
down = record {
  create_meeting = λ b us. inr "down";
  update_meeting = λ m b. inr "down";
  cancel_meeting = λ m b. some "down";
  unsupported = λ p. "unsupported";
  truncate = λ t. t;
}

ensure_meeting-IsSettled_example :
    IsSettled 100 booked_db (ensure_meeting_for_booking down 100 booked_db)
unfolding find_booking find_first
ensure_meeting-IsSettled_example = ensure_meeting-IsSettled down nine_booking booked_db 100 refl

report_input : CreateReportInput
report_input = record { hr_profile_id = 5; reason = "SPAM"; details = none }

create_report-HasOnePending_example :
    HasOnePending (final (create_report 1 report_input start_db)).reports
create_report-HasOnePending_example =
    create_report-HasOnePending 1 report_input start_db (λ a b m l p q s t. absurd (Memᴰ.not-nil m))

-- A booking of the consultant with another client.
abbrev other_booking : Booking
other_booking = record nine_booking {
  id = 101;
  user_id = 9;
  start_at = ten_ms;
  end_at = 39_600_000;
  slot_key = some (record { hr_user_id = 2; start_at = ten_ms });
}

abbrev shared_db : Db
shared_db = record booked_db { bookings = nine_booking ∷ other_booking ∷ []; next_id = 102 }

-- What is in the list is one of the two.
one_of_both : {b : Booking} → Memᴰ b shared_db.bookings → (b ≡ nine_booking) ⊎ (b ≡ other_booking)
one_of_both m = elim (Memᴰ.cases_cons m) [ inl e ↦ inl e | inr n ↦ inr (Memᴰ.eq_of_singleton n) ]

shared-IsSound : (b : Booking) → Memᴰ b shared_db.bookings → IsSound 102 b
shared-IsSound b m = elim (one_of_both m) [
  | inl e ↦ rw e (record {
    fresh = omega arith;
    keyed = inl (refl, refl);
    spans = omega arith;
    few_moves = omega arith;
  })
  | inr e ↦ rw e (record {
    fresh = omega arith;
    keyed = inl (refl, refl);
    spans = omega arith;
    few_moves = omega arith;
  })
]

shared-IsCompatible :
    (b c : Booking)
    → Memᴰ b shared_db.bookings
    → Memᴰ c shared_db.bookings
    → b.id ≢ c.id
    → IsCompatible b c
unfolding overlaps
shared-IsCompatible b c m l d = elim (one_of_both m) [
  | inl e ↦ elim (one_of_both l) [
    | inl f ↦ absurd (d (rw (e, f) refl))
    | inr f ↦ rw (e, f) (λ p q s. refl)
  ]
  | inr e ↦ elim (one_of_both l) [
    | inl f ↦ rw (e, f) (λ p q s. refl)
    | inr f ↦ absurd (d (rw (e, f) refl))
  ]
]

shared-IsConsistent : IsConsistent 102 shared_db.bookings
shared-IsConsistent = record {
  sound = shared-IsSound;
  distinct = (((λ e. absurd (omega (arith, e))), tt), (tt, tt));
  compatible = shared-IsCompatible;
}

shared_after : Db
shared_after = final (delete_user 7 admin 1 shared_db)

shared_run : delete_user 7 admin 1 shared_db ≡ returns summary shared_after
unfolding shared_after delete_user find_by_id find_first delete_consultant_records_of
shared_run = refl

delete_user-keeps_example : Memᴰ other_booking shared_after.bookings
delete_user-keeps_example =
    delete_user-keeps 7 admin 1 shared_db shared_after summary shared_run shared-IsConsistent
      other_booking (Memᴰ.tail (Memᴰ.head refl)) (omega arith) (omega arith)
