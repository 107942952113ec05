-- ===== src/Profile/Review.antt =====
-- src/services/hr-profile.service.ts: who moves a profile through its review.
use mathlib.Core.List.Memᴰ
use hr_booking_server.Base.{
  ℕ, ◌≡◌, refl, ◌⊎◌, inl, inr, Bool, none, some, String, List, [], ◌∷◌, ◌++◌, ◌==◌, any, change,
  arith, Bool-cases, Option-cases, Memᴰ, mem-change, find_first-some, keep,
}
use hr_booking_server.Constants.{ProfileStatus, is_hr, is_admin}
use hr_booking_server.Errors.{Result, ok, err}
use hr_booking_server.Models.{User, HrProfile, ProfileInput}
use hr_booking_server.Store.{Db, returns, final}
use hr_booking_server.Specializations.{assert_active_specializations}
use hr_booking_server.Auth.{find_by_id, save_user}
use hr_booking_server.Auth.Account.{create_profile}
use hr_booking_server.Booking.Service.{full_name}
use hr_booking_server.Profile.{
  find_profile_of, save_profile, upsert_profile, update_profile, create_first_profile, upgrade,
  submit_profile_for_review, notify_admins_of_new_application, withdraw_profile, set_availability,
  notices, assigned, drafted,
}

-- The calls of the profile's owner.
pub data OwnerCall : Type 0 where
  upsert : ProfileInput → OwnerCall
  submit withdraw : OwnerCall
  set_available : Bool → OwnerCall

abbrev pub run_owner : ℕ → OwnerCall → Db → Db
run_owner user_id (upsert input) db = final (upsert_profile user_id input db)
run_owner user_id submit db = final (submit_profile_for_review user_id db)
run_owner user_id withdraw db = final (withdraw_profile user_id db)
run_owner user_id (set_available b) db = final (set_availability user_id b db)

-- The profiles are as they were, or one of them was saved in a form that is published only if it was.
abbrev IsOwners : List HrProfile → List HrProfile → Type 0
IsOwners before after =
    (after ≡ before)
    ⊎ ((n : HrProfile) × (after ≡ before ++ n ∷ []) × (n.status ≡ ProfileStatus.draft))
    ⊎ ((old new : HrProfile) × Memᴰ old before
        × (new.id ≡ old.id)
        × (new.status ≡ ProfileStatus.published → old.status ≡ ProfileStatus.published)
        × (after ≡ change (λ q. q.id == new.id) (λ _. new) before))

notices-profiles :
    (name headline : String) (us : List User) (db : Db)
    → (notices name headline us db).profiles ≡ db.profiles
notices-profiles name headline [] db = refl
notices-profiles name headline (u ∷ us) db = notices-profiles name headline us _

notify_admins-returns :
    (user_id : ℕ) (headline : String) (db : Db)
    → (after : Db) × (notify_admins_of_new_application user_id headline db ≡ returns tt after)
      × (after.profiles ≡ db.profiles)
unfolding notify_admins_of_new_application
notify_admins-returns user_id headline db = elim (Option-cases (find_by_id user_id db)) [
  | inl e ↦ (db, rw e, refl)
  | inr (u, e) ↦ (
    notices (full_name u) headline (keep (λ v. is_admin v.role) db.users) db,
    rw e,
    notices-profiles (full_name u) headline (keep (λ v. is_admin v.role) db.users) db,
  )
]

find_profile_of-mem :
    (user_id : ℕ) (db : Db) (p : HrProfile)
    → find_profile_of user_id db ≡ some p
    → Memᴰ p db.profiles
unfolding find_profile_of
find_profile_of-mem user_id db p e = (find_first-some (λ q. q.user_id == user_id) db.profiles p e).0

set_availability-IsOwners :
    (user_id : ℕ) (b : Bool) (db : Db)
    → IsOwners db.profiles (final (set_availability user_id b db)).profiles
unfolding set_availability save_profile
set_availability-IsOwners user_id b db = elim (Option-cases (find_profile_of user_id db)) [
  | inl e ↦ inl (ground (arith, e))
  | inr (p, e) ↦ inr (
      inr (
        p,
        record p { is_available = b },
        find_profile_of-mem user_id db p e,
        refl,
        (λ h. h),
        ground (arith, e),
      ))
]

withdraw_profile-IsOwners :
    (user_id : ℕ) (db : Db) → IsOwners db.profiles (final (withdraw_profile user_id db)).profiles
unfolding withdraw_profile save_profile
withdraw_profile-IsOwners user_id db = elim (Option-cases (find_profile_of user_id db)) [
  | inl e ↦ inl (ground (arith, e))
  | inr (p, e) ↦ split p e p.status refl
]
  where
    split :
        (p : HrProfile)
        → find_profile_of user_id db ≡ some p
        → (s : ProfileStatus) → p.status ≡ s
        → IsOwners db.profiles (final (withdraw_profile user_id db)).profiles
    split p e ProfileStatus.draft h = inl (ground (arith, e, h))
    split p e ProfileStatus.rejected h = inl (ground (arith, e, h))
    split p e _ h = inr (
        inr (
          p,
          record p { status = ProfileStatus.draft },
          find_profile_of-mem user_id db p e,
          refl,
          (λ h. cc),
          ground (arith, e, h),
        ))

abbrev submitted : HrProfile → HrProfile
submitted p = record p { status = ProfileStatus.pending_review; rejection_reason = none }

submit_profile-profiles :
    (user_id : ℕ) (db : Db) (p : HrProfile)
    → find_profile_of user_id db ≡ some p
    → (p.status ≡ ProfileStatus.draft) ⊎ (p.status ≡ ProfileStatus.rejected)
    → (final (submit_profile_for_review user_id db)).profiles
      ≡ change (λ q. q.id == p.id) (λ _. submitted p) db.profiles
unfolding submit_profile_for_review save_profile
submit_profile-profiles user_id db p e h =
    let (after, told, same) =
      notify_admins-returns user_id p.headline
        (record db { profiles = change (λ q. q.id == p.id) (λ _. submitted p) db.profiles }) in
    elim h [ inl s ↦ rw (e, s, told) same | inr s ↦ rw (e, s, told) same ]

submit_profile-IsOwners :
    (user_id : ℕ) (db : Db)
    → IsOwners db.profiles (final (submit_profile_for_review user_id db)).profiles
unfolding submit_profile_for_review
submit_profile-IsOwners user_id db = elim (Option-cases (find_profile_of user_id db)) [
  | inl e ↦ inl (ground (arith, e))
  | inr (p, e) ↦ split p e p.status refl
]
  where
    saved :
        (p : HrProfile)
        → find_profile_of user_id db ≡ some p
        → (p.status ≡ ProfileStatus.draft) ⊎ (p.status ≡ ProfileStatus.rejected)
        → IsOwners db.profiles (final (submit_profile_for_review user_id db)).profiles
    saved p e h = inr (
        inr (
          p,
          submitted p,
          find_profile_of-mem user_id db p e,
          refl,
          (λ k. cc),
          submit_profile-profiles user_id db p e h,
        ))

    split :
        (p : HrProfile)
        → find_profile_of user_id db ≡ some p
        → (s : ProfileStatus) → p.status ≡ s
        → IsOwners db.profiles (final (submit_profile_for_review user_id db)).profiles
    split p e ProfileStatus.draft h = saved p e (inl h)
    split p e ProfileStatus.rejected h = saved p e (inr h)
    split p e _ h = inl (ground (arith, e, h))

create_first_profile-IsOwners :
    (user_id : ℕ) (input : ProfileInput) (db : Db)
    → IsOwners db.profiles (final (create_first_profile user_id input db)).profiles
unfolding create_first_profile upgrade create_profile save_user
create_first_profile-IsOwners user_id input db = elim (Option-cases (find_by_id user_id db)) [
  | inl e ↦ inl (ground (arith, e))
  | inr (u, e) ↦ elim (Bool-cases (is_hr u.role)) [
    | inl r ↦ elim (Bool-cases (any (λ q. q.user_id == user_id) db.profiles)) [
      | inl k ↦ inl (ground (arith, e, r, k))
      | inr k ↦ inr (inl (drafted input user_id db.next_id, ground (arith, e, r, k), refl))
    ]
    | inr r ↦ elim (Bool-cases (any (λ q. q.user_id == user_id) db.profiles)) [
      | inl k ↦ inl (ground (arith, e, r, k))
      | inr k ↦ inr (inl (drafted input user_id db.next_id, ground (arith, e, r, k), refl))
    ]
  ]
]

upsert_profile-IsOwners :
    (user_id : ℕ) (input : ProfileInput) (db : Db)
    → IsOwners db.profiles (final (upsert_profile user_id input db)).profiles
unfolding upsert_profile update_profile save_profile
upsert_profile-IsOwners user_id input db =
    split (assert_active_specializations input.specializations db) refl
  where
    split :
        (r : Result (Unit {0}))
        → assert_active_specializations input.specializations db ≡ r
        → IsOwners db.profiles (final (upsert_profile user_id input db)).profiles
    split (err x) k = inl (ground (arith, k))
    split (ok t) k = elim (Option-cases (find_profile_of user_id db)) [
      | inl e ↦ rw (k, e) (create_first_profile-IsOwners user_id input db)
      | inr (p, e) ↦ inr (
          inr (
            p,
            assigned input p,
            find_profile_of-mem user_id db p e,
            refl,
            (λ h. h),
            ground (arith, k, e),
          ))
    ]

run_owner-IsOwners :
    (user_id : ℕ) (call : OwnerCall) (db : Db)
    → IsOwners db.profiles (run_owner user_id call db).profiles
run_owner-IsOwners user_id (upsert input) db = upsert_profile-IsOwners user_id input db
run_owner-IsOwners user_id submit db = submit_profile-IsOwners user_id db
run_owner-IsOwners user_id withdraw db = withdraw_profile-IsOwners user_id db
run_owner-IsOwners user_id (set_available b) db = set_availability-IsOwners user_id b db

-- An owner cannot publish: whatever call the owner makes, a profile that is published afterwards was
-- published before, under the same id.
pub run_owner-published :
    (user_id : ℕ) (call : OwnerCall) (db : Db) (p : HrProfile)
    → Memᴰ p (run_owner user_id call db).profiles
    → p.status ≡ ProfileStatus.published
    → (q : HrProfile) × Memᴰ q db.profiles × (q.id ≡ p.id) × (q.status ≡ ProfileStatus.published)
run_owner-published user_id call db p m h =
    split (run_owner user_id call db).profiles (run_owner-IsOwners user_id call db) m
  where
    split :
        (after : List HrProfile)
        → IsOwners db.profiles after
        → Memᴰ p after
        → (q : HrProfile) × Memᴰ q db.profiles
          × (q.id ≡ p.id)
          × (q.status ≡ ProfileStatus.published)
    split after (inl e) m = (p, rw (← e) m, refl, h)
    split after (inr (inl (n, e, d))) m = elim (Memᴰ.append_cases db.profiles (rw e at m)) [
      | inl old ↦ (p, old, refl, h)
      | inr k ↦ let same = Memᴰ.eq_of_singleton k in absurd (ground arith)
    ]
    split after (inr (inr (old, new, l, i, k, e))) m =
        elim (mem-change (λ q. q.id == new.id) (λ _. new) db.profiles (rw e at m)) [
          | inl (kept, _) ↦ (p, kept, refl, h)
          | inr (a, _, _, same) ↦ (old, l, ground arith, k (rw (← same) h))
        ]
