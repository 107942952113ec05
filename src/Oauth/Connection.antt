-- ===== src/Oauth/Connection.antt =====
-- What connecting, using and disconnecting a Google account leaves behind.
use hr_booking_server.Base.{
  non_empty, ℕ, ◌+◌, ◌≡◌, refl, sym, ap, ◌<◌, ◌⊎◌, inl, inr, not, Option, none, some, String, arith,
  ◌==◌, Option-cases, find_first-change, find_first-some, keep, find_first-eq-none, All-of_mem,
  mem-keep,
}
use hr_booking_server.Base.Find.{find_first-append-none}
use hr_booking_server.Models.{OauthAccount}
use hr_booking_server.Store.{Db}
use hr_booking_server.Oauth.{
  Google, GoogleTokens, GoogleAccess, Attempt, failed, got, OauthError, find_account, upserted,
  check_connection, complete_google_connection, disconnect_google, get_google_access, usable_token,
  safe_decrypt, request_tokens, refreshed, refresh_grant, with_error, save_account,
}

module _ (google : Google) (now : ℕ) where
  find_account-user :
      (user_id : ℕ) (db : Db) (a : OauthAccount)
      → find_account google now user_id db ≡ some a
      → a.user_id ≡ user_id
  unfolding find_account
  find_account-user user_id db a e = ground (arith, find_first-some _ _ _ e)

  -- An account that was saved is the one that is found.
  find_account-saved :
      (db : Db) (old a : OauthAccount)
      → find_account google now a.user_id db ≡ some old
      → find_account google now a.user_id (save_account google now a db) ≡ some a
  unfolding find_account
  find_account-saved db old a e =
      find_first-change (λ (b : OauthAccount). b.user_id == a.user_id) a db.oauth_accounts
        (ground arith) e

  -- Where an account is connected and `getGoogleAccess` yields no token, the account then has an error, by which
  -- the consultant is asked to reconnect.
  pub get_google_access-recorded :
      (user_id : ℕ) (db after : Db) (a : OauthAccount) (e : OauthError)
      → find_account google now user_id db ≡ some a
      → get_google_access google now user_id db ≡ (failed e, after)
      → (message : String) × (find_account google now user_id after
          ≡ some (record a { last_error = some message }))
  unfolding get_google_access
  get_google_access-recorded user_id db after a e found h =
      elim (Option-cases (usable_token google now a)) [
        | inr (token, u) ↦ absurd (ground (arith, rw (found, u) at h))
        | inl u ↦ elim (Option-cases (non_empty (safe_decrypt google now (some a.refresh_token)))) [
          | inl k ↦ recorded _ (ap (λ r. r.1) (rw (found, u, k) at h))
          | inr (token, k) ↦
              by_answer token u k (request_tokens google now (refresh_grant token)) refl
        ]
      ]
    where
      recorded :
          (message : String)
          → save_account google now (with_error google now message a) db ≡ after
          → (message : String) × (find_account google now user_id after
              ≡ some (record a { last_error = some message }))
      recorded message same =
          let owner = find_account-user user_id db a found in
          (
            google.truncate message,
            rw (← same, ← owner)
                (find_account-saved db a (with_error google now message a) (rw (← owner) at found)),
          )

      by_answer :
          (token : String)
          → usable_token google now a ≡ none
          → non_empty (safe_decrypt google now (some a.refresh_token)) ≡ some token
          → (answer : Attempt GoogleTokens)
          → request_tokens google now (refresh_grant token) ≡ answer
          → (message : String) × (find_account google now user_id after
              ≡ some (record a { last_error = some message }))
      by_answer token u k (got tokens) q = absurd (ground (arith, rw (found, u, k, q) at h))
      by_answer token u k (failed x) q = recorded _ (ap (λ r. r.1) (rw (found, u, k, q) at h))

  -- The stored token, of which more than a minute is left, with nothing changed.
  pub record IsStored (user_id : ℕ) (db after : Db) (access : GoogleAccess) : Type 0 where
    pub account : OauthAccount
    pub found : find_account google now user_id db ≡ some account
    pub calendar : access.calendar_id ≡ account.calendar_id
    pub until : ℕ
    pub expires : account.access_token_expires_at ≡ some until
    pub left : now + 60_000 < until
    pub token : safe_decrypt google now account.access_token ≡ some access.access_token
    pub same_state : after ≡ db

  -- A token that Google has just granted for the stored refresh token, with the account updated.
  pub record IsGranted (user_id : ℕ) (db after : Db) (access : GoogleAccess) : Type 0 where
    pub account : OauthAccount
    pub found : find_account google now user_id db ≡ some account
    pub calendar : access.calendar_id ≡ account.calendar_id
    pub token : String
    pub tokens : GoogleTokens
    pub stored : safe_decrypt google now (some account.refresh_token) ≡ some token
    pub answer : request_tokens google now (refresh_grant token) ≡ got tokens
    pub access_token : tokens.access_token ≡ access.access_token
    pub kept : find_account google now user_id after ≡ some (refreshed google now tokens account)

  usable_token-left :
      (a : OauthAccount) (token : String)
      → usable_token google now a ≡ some token
      → (until : ℕ) × (a.access_token_expires_at ≡ some until)
        × (now + 60_000 < until)
        × (safe_decrypt google now a.access_token ≡ some token)
  unfolding usable_token
  usable_token-left a token h = ground arith

  non_empty-some : (o : Option String) (s : String) → non_empty o ≡ some s → o ≡ some s
  non_empty-some o s h = ground arith

  -- A token that `getGoogleAccess` yields is the stored one, of which more than a minute is left, and
  -- nothing changes; or Google has just granted it for the stored refresh token, and the account keeps it and
  -- has no error.
  pub get_google_access-usable :
      (user_id : ℕ) (db after : Db) (access : GoogleAccess)
      → get_google_access google now user_id db ≡ (got access, after)
      → IsStored user_id db after access ⊎ IsGranted user_id db after access
  unfolding get_google_access
  get_google_access-usable user_id db after access h =
      elim (Option-cases (find_account google now user_id db)) [
        | inl e ↦ absurd (ground (arith, rw e at h))
        | inr (a, found) ↦ elim (Option-cases (usable_token google now a)) [
          | inr (token, u) ↦
              let (until, expires, left, stored) = usable_token-left a token u in
              let answer = rw (found, u) at h in
              let same : token ≡ access.access_token = ground (arith, answer) in
              inl (record {
                account = a;
                found = found;
                calendar = ground (arith, answer);
                until = until;
                expires = expires;
                left = left;
                token = rw (← same) stored;
                same_state = ap (λ r. r.1) (sym answer);
              })
          | inl u ↦
              elim (Option-cases (non_empty (safe_decrypt google now (some a.refresh_token)))) [
                | inl k ↦ absurd (ground (arith, rw (found, u, k) at h))
                | inr (token, k) ↦
                    by_answer a found u token k (request_tokens google now (refresh_grant token))
                      refl
              ]
        ]
      ]
    where
      by_answer :
          (a : OauthAccount)
          → find_account google now user_id db ≡ some a
          → usable_token google now a ≡ none
          → (token : String)
          → non_empty (safe_decrypt google now (some a.refresh_token)) ≡ some token
          → (answer : Attempt GoogleTokens)
          → request_tokens google now (refresh_grant token) ≡ answer
          → IsStored user_id db after access ⊎ IsGranted user_id db after access
      by_answer a found u token k (failed x) q = absurd (ground (arith, rw (found, u, k, q) at h))
      by_answer a found u token k (got tokens) q =
          let answer = rw (found, u, k, q) at h in
          let owner = find_account-user user_id db a found in
          inr (record {
            account = a;
            found = found;
            calendar = ground (arith, answer);
            token = token;
            tokens = tokens;
            stored = non_empty-some _ token k;
            answer = q;
            access_token = ground (arith, answer);
            kept =
                rw (← ap (λ r. r.1) answer, ← owner)
                  (find_account-saved db a (refreshed google now tokens a) (rw (← owner) at found));
          })

  check_connection-owner :
      (code state : String) (db : Db) (a : OauthAccount)
      → check_connection google now code state db ≡ got a
      → (google.verify_state state ≡ some a.user_id) × (a.last_error ≡ none)
  unfolding check_connection
  check_connection-owner code state db a h = ground arith

  find_account-upserted :
      (a : OauthAccount) (db : Db)
      → find_account google now a.user_id (record db {
        oauth_accounts =
            upserted google now a (find_account google now a.user_id db) db.oauth_accounts;
      })
        ≡ some a
  unfolding find_account
  find_account-upserted a db = elim (Option-cases (find_account google now a.user_id db)) [
    | inl e ↦ rw e (
        find_first-append-none (λ (b : OauthAccount). b.user_id == a.user_id) db.oauth_accounts a e
          (ground arith))
    | inr (old, e) ↦ rw e (
        find_first-change (λ (b : OauthAccount). b.user_id == a.user_id) a db.oauth_accounts
          (ground arith) e)
  ]

  disconnect_google-found :
      (a : OauthAccount) (db : Db)
      → find_account google now a.user_id db ≡ some a
      → (disconnect_google google now a.user_id db ≡ (
        got tt,
        record db { oauth_accounts = keep (λ b. not (b.user_id == a.user_id)) db.oauth_accounts },
      ))
        × (find_account google now a.user_id (record db {
          oauth_accounts = keep (λ b. not (b.user_id == a.user_id)) db.oauth_accounts;
        })
            ≡ none)
  unfolding disconnect_google find_account
  disconnect_google-found a db found = (
    rw found refl,
    find_first-eq-none (λ (b : OauthAccount). b.user_id == a.user_id) _
        (All-of_mem _ _ λ b m.
          let (_, other) =
            mem-keep (λ (b : OauthAccount). not (b.user_id == a.user_id)) db.oauth_accounts m in
          ground (arith, other)),
  )

  -- A connection that succeeds belongs to the account that the signed state names, has no error, and is the one
  -- that is found for it afterwards; disconnecting then succeeds, and none is found.
  pub complete_google_connection-disconnect :
      (code state : String) (db after : Db) (a : OauthAccount)
      → complete_google_connection google now code state db ≡ (got a, after)
      → (google.verify_state state ≡ some a.user_id)
        × (a.last_error ≡ none)
        × (find_account google now a.user_id after ≡ some a)
        × ((left : Db) × (disconnect_google google now a.user_id after ≡ (got tt, left))
            × (find_account google now a.user_id left ≡ none))
  unfolding complete_google_connection
  complete_google_connection-disconnect code state db after a h =
      split (check_connection google now code state db) refl
    where
      split :
          (r : Attempt OauthAccount)
          → check_connection google now code state db ≡ r
          → (google.verify_state state ≡ some a.user_id)
            × (a.last_error ≡ none)
            × (find_account google now a.user_id after ≡ some a)
            × ((left : Db) × (disconnect_google google now a.user_id after ≡ (got tt, left))
                × (find_account google now a.user_id left ≡ none))
      split (failed e) q = absurd (ground (arith, rw q at h))
      split (got b) q =
          let answer = rw q at h in
          let same : b ≡ a = ground (arith, answer) in
          let (owner, clean) = check_connection-owner code state db a (rw same at q) in
          let found : find_account google now a.user_id after ≡ some a =
            rw (← ap (λ r. r.1) answer, same) (find_account-upserted a db) in
          let (gone, none_left) = disconnect_google-found a after found in
          (owner, clean, found, (_, gone, none_left))
