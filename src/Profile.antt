-- ===== src/Profile.antt =====
-- src/services/hr-profile.service.ts: the consultant's profile and its review. Each call reads the
-- clock once, as its argument `now`.
pub mod Review
pub mod Approval
use hr_booking_server.Base.{
  ℕ, suc, Bool, true, false, ◌&&◌, ◌||◌, not, Option, none, some, String, List, [], ◌∷◌, ◌++◌, ◌==◌,
  if◌then◌else◌, find_first, keep, change, map,
}
use hr_booking_server.Constants.{
  UserRole, is_hr, is_admin, ProfileStatus, AuditAction, AuditResourceType,
}
use hr_booking_server.Errors.{AppError, Thrown, app, Result, ok, err, conflict, not_found}
use hr_booking_server.Models.{
  Metadatum, words, User, HrProfile, ProfileInput, AuditLog, Certification, WorkHistoryEntry,
}
use hr_booking_server.Store.{
  Db, M, Outcome, returns, throws, after_outcome, ◌>>=◌, ◌>>◌, pure, lift, throw_if, or_throw, get,
  modify, emit, email, Template, new_application, profile_approved, profile_rejected,
}
use hr_booking_server.Specializations.{assert_active_specializations}
use hr_booking_server.Auth.{find_by_id, save_user}
use hr_booking_server.Auth.Account.{create_profile}
use hr_booking_server.Booking.Checks.{Actor}
use hr_booking_server.Booking.Service.{full_name, record_audit_log}

pub record UpsertProfileResult : Type 0 where
  pub profile : HrProfile
  pub upgraded : Bool

unfoldable pub find_profile_of : ℕ → Db → Option HrProfile
find_profile_of user_id db = find_first (λ p. p.user_id == user_id) db.profiles

unfoldable pub find_profile : ℕ → Db → Option HrProfile
find_profile id db = find_first (λ p. p.id == id) db.profiles

-- `profile.save()`.
unfoldable pub save_profile : HrProfile → M (Unit {0})
save_profile p =
    modify (λ db. record db { profiles = change (λ q. q.id == p.id) (λ _. p) db.profiles })

abbrev or_previous {ℓ} : {A : Type ℓ} → Option A → A → A
or_previous none a = a
or_previous (some b) a = b

abbrev or_previous_option {ℓ} : {A : Type ℓ} → Option A → Option A → Option A
or_previous_option none a = a
or_previous_option (some b) a = some b

-- `Object.assign(existing, input)`: a field that the input leaves out is kept.
abbrev pub assigned : ProfileInput → HrProfile → HrProfile
assigned input p = record p {
  headline = input.headline;
  bio = input.bio;
  specializations = input.specializations;
  years_of_experience = input.years_of_experience;
  company_name = or_previous_option input.company_name p.company_name;
  hourly_rate_cents = input.hourly_rate_cents;
  currency = input.currency;
  languages = input.languages;
  city = or_previous_option input.city p.city;
  country = or_previous_option input.country p.country;
  profile_image_url = or_previous_option input.profile_image_url p.profile_image_url;
  certifications = or_previous input.certifications p.certifications;
  work_history = or_previous input.work_history p.work_history;
}

abbrev pub drafted : ProfileInput → ℕ → ℕ → HrProfile
drafted input user_id id = record {
  id = id;
  user_id = user_id;
  headline = input.headline;
  bio = input.bio;
  specializations = input.specializations;
  years_of_experience = input.years_of_experience;
  company_name = input.company_name;
  hourly_rate_cents = input.hourly_rate_cents;
  currency = input.currency;
  languages = input.languages;
  city = input.city;
  country = input.country;
  profile_image_url = input.profile_image_url;
  certifications = or_previous input.certifications [];
  work_history = or_previous input.work_history [];
  status = ProfileStatus.draft;
  rejection_reason = none;
  reviewed_by = none;
  reviewed_at = none;
  is_available = true;
}

abbrev pub as_role : UserRole → User → User
as_role role u = record u { role = role }

-- The account becomes a consultant's before the profile is created.
unfoldable pub upgrade : User → M Bool
unfolding save_user
upgrade u db =
    if not (is_hr u.role)
    then (save_user (as_role UserRole.hr u) >> pure true) db
    else returns false db

-- What `catch` undoes when the profile is not created.
abbrev roll_back : Bool → User → Db → Db
roll_back true u db = record db {
  users = change (λ v. v.id == u.id) (λ _. as_role UserRole.user u) db.users;
}
roll_back false u db = db

abbrev undo_on_throw {ℓ} : {A : Type ℓ} → Outcome A → (Db → Db) → Outcome A
undo_on_throw (returns a db) undo = returns a db
undo_on_throw (throws t db) undo = throws t (undo db)

unfoldable pub create_first_profile : ℕ → ProfileInput → M UpsertProfileResult
unfolding find_by_id upgrade create_profile
create_first_profile user_id input = do
  found ← get (find_by_id user_id)
  user ← or_throw found (not_found "Account not found.")
  upgraded ← upgrade user
  profile ←
      λ db. undo_on_throw (create_profile (drafted input user_id) db) (roll_back upgraded user)
  pure (record { profile = profile; upgraded = upgraded })

unfoldable pub update_profile : ProfileInput → HrProfile → M UpsertProfileResult
unfolding save_profile
update_profile input existing = do
  save_profile (assigned input existing)
  pure (record { profile = assigned input existing; upgraded = false })

abbrev upsert : ℕ → ProfileInput → Option HrProfile → M UpsertProfileResult
upsert user_id input (some existing) db = update_profile input existing db
upsert user_id input none db = create_first_profile user_id input db

unfoldable pub upsert_profile : ℕ → ProfileInput → M UpsertProfileResult
unfolding assert_active_specializations find_profile_of update_profile create_first_profile
upsert_profile user_id input = do
  λ db. lift (assert_active_specializations input.specializations db) db
  existing ← get (find_profile_of user_id)
  upsert user_id input existing

abbrev is_draft_or_rejected : ProfileStatus → Bool
is_draft_or_rejected ProfileStatus.draft = true
is_draft_or_rejected ProfileStatus.rejected = true
is_draft_or_rejected _ = false

abbrev is_pending : ProfileStatus → Bool
is_pending ProfileStatus.pending_review = true
is_pending _ = false

abbrev is_pending_or_published : ProfileStatus → Bool
is_pending_or_published ProfileStatus.pending_review = true
is_pending_or_published ProfileStatus.published = true
is_pending_or_published _ = false

abbrev notices : String → String → List User → Db → Db
notices name headline [] db = db
notices name headline (u ∷ us) db =
    notices name headline us
      (record db { effects = db.effects ++ email u.email (new_application name headline) ∷ [] })

abbrev notify : String → Option User → M (Unit {0})
notify headline none db = returns tt db
notify headline (some applicant) db =
    returns tt (notices (full_name applicant) headline (keep (λ u. is_admin u.role) db.users) db)

unfoldable pub notify_admins_of_new_application : ℕ → String → M (Unit {0})
unfolding find_by_id full_name
notify_admins_of_new_application applicant_id headline db =
    notify headline (find_by_id applicant_id db) db

unfoldable pub submit_profile_for_review : ℕ → M HrProfile
unfolding find_profile_of save_profile notify_admins_of_new_application
submit_profile_for_review user_id = do
  found ← get (find_profile_of user_id)
  profile ← or_throw found (not_found "Profile not found.")
  throw_if (not (is_draft_or_rejected profile.status))
      (conflict "Only a draft or rejected profile can be submitted for review." none)
  let submitted = record profile { status = ProfileStatus.pending_review; rejection_reason = none }
  save_profile submitted
  notify_admins_of_new_application user_id profile.headline
  pure submitted

unfoldable pub withdraw_profile : ℕ → M HrProfile
unfolding find_profile_of save_profile
withdraw_profile user_id = do
  found ← get (find_profile_of user_id)
  profile ← or_throw found (not_found "Profile not found.")
  throw_if (not (is_pending_or_published profile.status))
      (conflict "This profile cannot be withdrawn from its current state." none)
  save_profile (record profile { status = ProfileStatus.draft })
  pure (record profile { status = ProfileStatus.draft })

unfoldable pub set_availability : ℕ → Bool → M HrProfile
unfolding find_profile_of save_profile
set_availability user_id is_available = do
  found ← get (find_profile_of user_id)
  profile ← or_throw found (not_found "Profile not found.")
  save_profile (record profile { is_available = is_available })
  pure (record profile { is_available = is_available })

abbrev tell : (String → Template) → Option User → M (Unit {0})
tell letter none db = returns tt db
tell letter (some u) db =
    returns tt (record db { effects = db.effects ++ email u.email (letter u.first_name) ∷ [] })

abbrev audit_review : Actor → AuditAction → ℕ → List (String × Metadatum) → M (Unit {0})
audit_review actor action id metadata = record_audit_log (record {
  actor_id = actor.id;
  actor_role = actor.role;
  action = action;
  resource_type = some AuditResourceType.hr_profile;
  resource_id = some id;
  metadata = metadata;
})

module _ (now : ℕ) where
  unfoldable pub approve_profile : Actor → ℕ → M HrProfile
  unfolding find_profile save_profile find_by_id
  approve_profile actor profile_id = do
    found ← get (find_profile profile_id)
    profile ← or_throw found (not_found "Profile not found.")
    throw_if (not (is_pending profile.status))
        (conflict "Only a profile pending review can be approved." none)
    let approved = record profile {
      status = ProfileStatus.published;
      rejection_reason = none;
      reviewed_by = some actor.id;
      reviewed_at = some now;
    }
    save_profile approved
    audit_review actor AuditAction.hr_profile_approved profile.id []
    owner ← get (find_by_id profile.user_id)
    tell profile_approved owner
    pure approved

  unfoldable pub reject_profile : Actor → ℕ → String → M HrProfile
  unfolding find_profile save_profile find_by_id
  reject_profile actor profile_id reason = do
    found ← get (find_profile profile_id)
    profile ← or_throw found (not_found "Profile not found.")
    throw_if (not (is_pending_or_published profile.status))
        (conflict "Only a pending or published profile can be rejected." none)
    let rejected = record profile {
      status = ProfileStatus.rejected;
      rejection_reason = some reason;
      reviewed_by = some actor.id;
      reviewed_at = some now;
    }
    save_profile rejected
    audit_review actor AuditAction.hr_profile_rejected profile.id (("reason", words reason) ∷ [])
    owner ← get (find_by_id profile.user_id)
    tell (λ name. profile_rejected name reason) owner
    pure rejected
