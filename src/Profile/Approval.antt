-- ===== src/Profile/Approval.antt =====
-- src/services/hr-profile.service.ts: an admin's approval.
use hr_booking_server.Base.{
  ℕ, ◌≡◌, none, some, ◌==◌, find_first, change, arith, find_first-some, find_first-change,
}
use hr_booking_server.Constants.{ProfileStatus}
use hr_booking_server.Models.{HrProfile}
use hr_booking_server.Store.{Db, returns}
use hr_booking_server.Booking.Checks.{Actor}
use hr_booking_server.Profile.{find_profile, save_profile, approve_profile}

module _ (now : ℕ) (actor : Actor) (id : ℕ) (db after : Db) (p : HrProfile)
    (h : approve_profile now actor id db ≡ returns p after) where
  approve_profile-parts :
      (q : HrProfile) × (find_profile id db ≡ some q)
      × (q.status ≡ ProfileStatus.pending_review)
      × (p ≡ record q {
        status = ProfileStatus.published;
        rejection_reason = none;
        reviewed_by = some actor.id;
        reviewed_at = some now;
      })
      × (after.profiles ≡ change (λ r. r.id == q.id) (λ _. p) db.profiles)
  unfolding approve_profile save_profile
  approve_profile-parts = ground arith

  -- An approval that returns was of a profile that is pending review; it is published afterwards, with
  -- the reviewer and the time.
  pub approve_profile-published :
      (q : HrProfile) × (find_profile id db ≡ some q)
      × (q.status ≡ ProfileStatus.pending_review)
      × (find_profile id after ≡ some p)
      × (p.status ≡ ProfileStatus.published)
      × (p.reviewed_by ≡ some actor.id)
      × (p.reviewed_at ≡ some now)
  unfolding find_profile
  approve_profile-published =
      let (q, found, pending, same, saved) = approve_profile-parts in
      let same_id : q.id ≡ id =
        ground (arith, find_first-some (λ r. r.id == id) db.profiles q found) in
      let stored : find_first (λ r. r.id == id) after.profiles ≡ some p =
        rw (saved, same_id)
          (find_first-change (λ r. r.id == id) p db.profiles {a = q} (ground arith) found) in
      (q, found, pending, stored, ground arith, ground arith, ground arith)
