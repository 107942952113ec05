-- ===== src/Auth/Login.antt =====
-- `login` of src/services/auth.service.ts: who gets in, and the lockout.
use hr_booking_server.Base.{
  ℕ, suc, ◌+◌, ◌≤◌, ◌<◌, ◌≡◌, refl, ap, true, false, Option, some, String, List, [], ◌∷◌, leb, ◌==◌,
  same_text, change, arith, length, find_first-some, All,
}
use hr_booking_server.Base.Find.{find_first-change-other}
use hr_booking_server.Constants.{UserStatus, max_failed_attempts, lockout_ms}
use hr_booking_server.Errors.{app, unauthorized}
use hr_booking_server.Models.{User}
use hr_booking_server.Store.{Db, returns, throws, final}
use hr_booking_server.Auth.{
  Crypto, LoginInput, DeviceContext, AuthResult, login, find_by_email, is_locked, count_failure,
  increment_failed_attempts, reset_failed_attempts, save_user,
}

count_failure-counts :
    (now : ℕ) (u : User)
    → suc u.failed_login_attempts < max_failed_attempts
    → count_failure now u ≡ record u { failed_login_attempts = suc u.failed_login_attempts }
unfolding count_failure
count_failure-counts now u h =
    let low : leb max_failed_attempts (suc u.failed_login_attempts) ≡ false = ground arith in rw low

count_failure-locks :
    (now : ℕ) (u : User)
    → max_failed_attempts ≤ suc u.failed_login_attempts
    → count_failure now u
      ≡ record u { failed_login_attempts = 0; locked_until = some (now + lockout_ms) }
unfolding count_failure
count_failure-locks now u h =
    let high : leb max_failed_attempts (suc u.failed_login_attempts) ≡ true = ground arith in
    rw high

module _ (crypto : Crypto) (input : LoginInput) where
  abbrev pub account : Db → Option User
  account db = find_by_email (crypto.to_lower_case input.email) db

  abbrev pub with_user : User → Db → Db
  with_user u db = record db { users = change (λ v. v.id == u.id) (λ _. u) db.users }

  -- What lets a login in.
  pub record IsAdmitted (now : ℕ) (db : Db) (u : User) : Type 0 where
    pub found : account db ≡ some u
    pub active : u.status ≡ UserStatus.active
    pub unlocked : is_locked now u ≡ false
    pub password : crypto.verify_password input.password u.password ≡ true

  account-with_user :
      (db : Db) (u v : User)
      → account db ≡ some u
      → v.id ≡ u.id
      → v.email ≡ u.email
      → account (with_user v db) ≡ some v
  unfolding find_by_email
  account-with_user db u v h i e =
      find_first-change-other (λ (w : User). same_text w.email (crypto.to_lower_case input.email))
        (λ w. w.id == v.id) v db.users
        (rw e
          (find_first-some (λ (w : User). same_text w.email (crypto.to_lower_case input.email))
            db.users u h).1)
        (ground arith) h

  module _ (device : DeviceContext) (fresh : String) where
    -- A login that returns was of an active, unlocked account with the right password and a verified
    -- email.
    pub login-IsAdmitted :
        (now : ℕ) (db after : Db) (r : AuthResult)
        → login crypto now input device fresh db ≡ returns r after
        → (u : User) × IsAdmitted now db u × (u.is_email_verified ≡ true)
    unfolding login reset_failed_attempts increment_failed_attempts save_user
    login-IsAdmitted now db after r e = ground arith

    locked-refused :
        (password : String) (now : ℕ) (db : Db) (u : User)
        → account db ≡ some u
        → u.status ≡ UserStatus.active
        → is_locked now u ≡ true
        → login crypto now (record { email = input.email; password = password }) device fresh db
          ≡ throws
              (app
                (unauthorized "Too many failed attempts. Try again later." (some "ACCOUNT_LOCKED")))
              db
    unfolding login
    locked-refused password now db u h a l = rw (h, a, l)

    wrong-login :
        (now : ℕ) (db : Db) (u : User)
        → account db ≡ some u
        → u.status ≡ UserStatus.active
        → is_locked now u ≡ false
        → crypto.verify_password input.password u.password ≡ false
        → final (login crypto now input device fresh db) ≡ with_user (count_failure now u) db
    unfolding login increment_failed_attempts save_user
    wrong-login now db u h a l p = rw (h, a, l, p)

-- A call of `login`, at a time.
pub record Login : Type 0 where
  pub at_time : ℕ
  pub input : LoginInput
  pub device : DeviceContext
  pub fresh : String

module _ (crypto : Crypto) (u : User) where
  abbrev pub run_login : Login → Db → Db
  run_login l db = final (login crypto l.at_time l.input l.device l.fresh db)

  -- The state that a run of logins leaves.
  abbrev pub after_logins : List Login → Db → Db
  after_logins [] db = db
  after_logins (l ∷ ls) db = after_logins ls (run_login l db)

  -- A login for the account at a time at which it is not locked, with a wrong password.
  pub record IsWrong (email : String) (l : Login) : Type 0 where
    pub same_account : crypto.to_lower_case l.input.email ≡ email
    pub unlocked : is_locked l.at_time u ≡ false
    pub wrong : crypto.verify_password l.input.password u.password ≡ false

  module _ (email : String) (active : u.status ≡ UserStatus.active) where
    counted : ℕ → User
    counted n = record u { failed_login_attempts = n }

    abbrev locked : ℕ → User
    locked last = record u { failed_login_attempts = 0; locked_until = some (last + lockout_ms) }

    wrong-counted :
        (l : Login) (n : ℕ) (db : Db)
        → IsWrong email l
        → find_by_email email db ≡ some (counted n)
        → suc n < max_failed_attempts
        → find_by_email email (run_login l db) ≡ some (counted (suc n))
    unfolding counted
    wrong-counted l n db w h low =
        let at_key = rw (← w.same_account) at h in
        rw
          (
            ← w.same_account,
            wrong-login crypto l.input l.device l.fresh l.at_time db (counted n) at_key active
                w.unlocked w.wrong,
            count_failure-counts l.at_time (counted n) low,
          )
          (account-with_user crypto l.input db (counted n) (counted (suc n)) at_key refl refl)

    after_logins-counted :
        (ls : List Login) (n : ℕ) (db : Db)
        → All (IsWrong email) ls
        → find_by_email email db ≡ some (counted n)
        → n + length ls < max_failed_attempts
        → find_by_email email (after_logins ls db) ≡ some (counted (n + length ls))
    after_logins-counted [] n db all h low = let same : n + 0 ≡ n = omega arith in rw same h
    after_logins-counted (l ∷ ls) n db all h low =
        let shift : n + suc (length ls) ≡ suc n + length ls = omega arith in
        rw shift (
          after_logins-counted ls (suc n) (run_login l db) all.1
            (wrong-counted l n db all.0 h (omega arith)) (omega arith))

    -- The state after wrong logins of which `last` is the fifth failure in a row.
    abbrev pub locked_db : List Login → Login → Db → Db
    locked_db ls last db = run_login last (after_logins ls db)

    wrong-locked :
        (ls : List Login) (last : Login) (db : Db)
        → All (IsWrong email) ls
        → IsWrong email last
        → find_by_email email db ≡ some u
        → suc (u.failed_login_attempts + length ls) ≡ max_failed_attempts
        → find_by_email email (locked_db ls last db) ≡ some (locked last.at_time)
    unfolding counted
    wrong-locked ls last db all w h five =
        let n = u.failed_login_attempts + length ls in
        let start : find_by_email email db ≡ some (counted u.failed_login_attempts) =
          rw h (ap some cc) in
        let before = after_logins-counted ls u.failed_login_attempts db all start (omega arith) in
        let at_key = rw (← w.same_account) at before in
        rw
          (
            ← w.same_account,
            wrong-login crypto last.input last.device last.fresh last.at_time (after_logins ls db)
                (counted n) at_key active w.unlocked w.wrong,
            count_failure-locks last.at_time (counted n) (omega arith),
          )
          (account-with_user crypto last.input (after_logins ls db) (counted n)
            (locked last.at_time) at_key refl refl)

    -- The failures in a row that make five lock an active account, whatever wrong passwords, devices and
    -- times they are tried with, if it is not locked at these times: in the quarter of an hour after the fifth,
    -- every login for the account is refused, from any device and with the right password too, and
    -- changes nothing.
    pub login-locked :
        (ls : List Login) (last next : Login) (db : Db)
        → find_by_email email db ≡ some u
        → All (IsWrong email) ls
        → IsWrong email last
        → suc (u.failed_login_attempts + length ls) ≡ max_failed_attempts
        → crypto.to_lower_case next.input.email ≡ email
        → next.at_time < last.at_time + lockout_ms
        → login crypto next.at_time next.input next.device next.fresh (locked_db ls last db)
          ≡ throws
              (app
                (unauthorized "Too many failed attempts. Try again later." (some "ACCOUNT_LOCKED")))
              (locked_db ls last db)
    login-locked ls last next db h all w five same early =
        let found = wrong-locked ls last db all w h five in
        locked-refused crypto next.input next.device next.fresh next.input.password next.at_time
          (locked_db ls last db) (locked last.at_time) (rw same found) active (ground arith)
