-- ===== src/Auth/Session.antt =====
-- src/services/auth.service.ts: a refresh token works once, and a password reset ends the sessions.
use hr_booking_server.Base.{
  inl, inr, false, Bool-cases, ℕ, ◌≡◌, ◌≢◌, not, none, some, String, List, [], ◌∷◌, ◌++◌, ◌==◌,
  same_text, find_first, keep, change, arith, mem-keep, find_first-some, All, All-of_mem,
}
use hr_booking_server.Base.Find.{find_first-change-other, find_first-append}
use hr_booking_server.Constants.{TokenType}
use hr_booking_server.Errors.{AppError, Thrown, app, unauthorized}
use hr_booking_server.Models.{User, RefreshToken}
use hr_booking_server.Store.{Db, returns, throws}
use hr_booking_server.Auth.{
  Crypto, DeviceContext, AuthResult, find_by_id, find_token, refresh, issue_tokens, create_token,
  new_token, save_user, delete_tokens_of,
}
use hr_booking_server.Auth.Account.{
  RegisterHrInput, register_hr, create_user, create_profile, new_consultant, delete_user_document,
  reset_password,
}

drop-appended :
    (n : User) (users : List User)
    → All (λ u. u.id ≢ n.id) users
    → keep (λ u. not (u.id == n.id)) (users ++ n ∷ []) ≡ users
unfolding keep
drop-appended n [] h = ground arith
drop-appended n (u ∷ users) h = ground (arith, drop-appended n users h.1)

module _ (crypto : Crypto) where
  abbrev revoked_message : AppError
  revoked_message = unauthorized "Invalid or revoked refresh token." none

  module _ (now : ℕ) (token : String) (device : DeviceContext) (fresh : String) (db after : Db)
      (r : AuthResult) (h : refresh crypto now (some token) device fresh db ≡ returns r after) where
    abbrev key : String
    key = crypto.hash_refresh_token token

    not_empty : same_text token "" ≡ false
    unfolding refresh issue_tokens create_token
    not_empty = elim (Bool-cases (same_text token "")) [
      | inl e ↦ absurd (ground (arith, rw e at h))
      | inr e ↦ e
    ]

    refresh-stored :
        (stored : RefreshToken) × (find_token key db ≡ some stored)
        × (after.refresh_tokens
            ≡ change
                (λ t. t.id == stored.id)
                (λ _. record stored {
                  revoked_at = some now;
                  replaced_by_token_hash = some (crypto.hash_refresh_token fresh);
                })
                (db.refresh_tokens ++ new_token crypto now r.user device fresh db.next_id ∷ []))
    unfolding refresh issue_tokens create_token
    refresh-stored = ground arith

    -- A refresh token works once: after a refresh that returned, the token that was given is refused
    -- whenever it comes back, and nothing changes.
    pub refresh-replay :
        (later : ℕ) (other : DeviceContext) (next : String)
        → refresh crypto later (some token) other next after ≡ throws (app revoked_message) after
    unfolding refresh find_token
    refresh-replay later other next =
        let (stored, found, tokens) = refresh-stored in
        let q = λ (t : RefreshToken). same_text t.token_hash key in
        let same = find_first-some q db.refresh_tokens stored found in
        let found_after : find_first q after.refresh_tokens
            ≡ some (record stored {
              revoked_at = some now;
              replaced_by_token_hash = some (crypto.hash_refresh_token fresh);
            }) =
          rw tokens (
            find_first-change-other q (λ t. t.id == stored.id)
              (record stored {
                revoked_at = some now;
                replaced_by_token_hash = some (crypto.hash_refresh_token fresh);
              })
              (db.refresh_tokens ++ new_token crypto now r.user device fresh db.next_id ∷ []) same.1
              (ground arith)
              (find_first-append q db.refresh_tokens
                (new_token crypto now r.user device fresh db.next_id ∷ []) found)) in
        rw (not_empty, found_after)

  reset_password-parts :
      (now : ℕ) (token new_password : String) (db after : Db)
      → reset_password crypto now token new_password db ≡ returns tt after
      → (id : ℕ) × (u : User) × (crypto.verify_generic_token token TokenType.reset_password
          ≡ some id)
        × (find_by_id id db ≡ some u)
        × (after.users
            ≡ change
                (λ v. v.id == u.id)
                (λ _. record u { password = crypto.hash_password new_password })
                db.users)
        × (after.refresh_tokens ≡ keep (λ t. not (t.user_id == u.id)) db.refresh_tokens)
  unfolding reset_password save_user delete_tokens_of
  reset_password-parts now token new_password db after h = ground arith

  -- A password reset that returns was asked for with a valid link of an account; the account then has
  -- the new password, and no session of it is left.
  pub reset_password-ends :
      (now : ℕ) (token new_password : String) (db after : Db)
      → reset_password crypto now token new_password db ≡ returns tt after
      → (u : User) × (crypto.verify_generic_token token TokenType.reset_password ≡ some u.id)
        × (find_by_id u.id after ≡ some (record u { password = crypto.hash_password new_password }))
        × All (λ t. t.user_id ≢ u.id) after.refresh_tokens
  unfolding find_by_id
  reset_password-ends now token new_password db after h =
      let (id, u, linked, found, users, tokens) =
        reset_password-parts now token new_password db after h in
      let same : u.id ≡ id = ground (arith, find_first-some (λ v. v.id == id) db.users u found) in
      (
        u,
        rw same linked,
        rw users (
            find_first-change-other (λ v. v.id == u.id) (λ v. v.id == u.id)
              (record u { password = crypto.hash_password new_password }) db.users {a = u}
              (ground arith) (ground arith) (rw same found)),
        rw tokens (
            All-of_mem (λ t. t.user_id ≢ u.id)
              (keep (λ t. not (t.user_id == u.id)) db.refresh_tokens)
              (λ t m.
                let (_, other) = mem-keep (λ s. not (s.user_id == u.id)) db.refresh_tokens m in
                ground arith)),
      )

  -- A registration of a consultant that throws leaves the accounts as they were, if none has the next
  -- id yet.
  pub register_hr-rollback :
      (now : ℕ) (input : RegisterHrInput) (db after : Db) (t : Thrown)
      → All (λ u. u.id ≢ db.next_id) db.users
      → register_hr crypto now input db ≡ throws t after
      → after.users ≡ db.users
  unfolding register_hr create_user create_profile delete_user_document
  register_hr-rollback now input db after t fresh h =
      ground (arith, drop-appended (new_consultant crypto now input db.next_id) db.users fresh)
