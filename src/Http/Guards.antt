-- ===== src/Http/Guards.antt =====
-- What the guards of src/middlewares/auth.ts keep out of the routers of src/routes/v1.
use hr_booking_server.Base.{
  ℕ, ◌≡◌, refl, ◌⊎◌, inl, inr, true, false, Option, some, String, same_text, Bool-cases,
  Option-cases,
}
use hr_booking_server.Constants.{UserStatus, is_admin, is_hr}
use hr_booking_server.Errors.{AppError, app}
use hr_booking_server.Models.{User}
use hr_booking_server.Store.{Db, M, Outcome, throws, ◌>>=◌}
use hr_booking_server.Auth.{find_by_id}
use hr_booking_server.Booking.Checks.{Actor}
use hr_booking_server.Http.{
  Platform, Request, Parsed, authenticate, load_user, require_role, validate, no_permission,
  unauthenticated, invalid_token, inactive_account, extract_bearer_token, token_of,
}
use hr_booking_server.Http.Admin.{AdminRoute, admin_handler, admin_router}
use hr_booking_server.Http.Bookings.{BookingRoute, booking_handler, booking_router}
use hr_booking_server.Http.Profiles.{OwnRoute, own_handler, consultant_router}

-- The request of an account that the guards have found.
abbrev pub signed_in : User → Request → Request
signed_in u req = record req { user = some (record { id = u.id; role = u.role }) }

-- The account of a valid token exists and is active.
abbrev pub IsSignedIn : (String → Option Actor) → Request → Db → User → Type 0
IsSignedIn verify req db u =
    (token : String) × (payload : Actor) × (token_of req.access_cookie
        (extract_bearer_token req.authorization)
      ≡ some token)
    × (verify token ≡ some payload)
    × (find_by_id payload.id db ≡ some u)
    × (u.status ≡ UserStatus.active)

-- A call that a guard ends before it changes anything.
abbrev pub IsTurnedAway {ℓ} : {A : Type ℓ} → ℕ → Outcome A → Db → Type ℓ
IsTurnedAway status outcome db =
    (e : AppError) × (e.status_code ≡ status) × (outcome ≡ throws (app e) db)

-- `authenticate` and `loadUser`, before what follows them.
abbrev pub guarded {ℓ} : {A : Type ℓ} → (String → Option Actor) → Request → (Request → M A) → M A
guarded verify req next = authenticate verify req >>= λ r. load_user r >>= next

guarded-cases {ℓ} :
    {A : Type ℓ} (verify : String → Option Actor) (req : Request) (next : Request → M A) (db : Db)
    → IsTurnedAway 401 (guarded verify req next db) db
      ⊎ ((u : User) × IsSignedIn verify req db u
          × (guarded verify req next db ≡ next (signed_in u req) db))
unfolding authenticate load_user
guarded-cases verify req next db =
    elim (Option-cases (token_of req.access_cookie (extract_bearer_token req.authorization))) [
      | inl e ↦ inl (unauthenticated, refl, rw e refl)
      | inr (token, e) ↦ elim (Bool-cases (same_text token "")) [
        | inl k ↦ inl (unauthenticated, refl, rw (e, k) refl)
        | inr k ↦ elim (Option-cases (verify token)) [
          | inl v ↦ inl (invalid_token, refl, rw (e, k, v) refl)
          | inr (payload, v) ↦ elim (Option-cases (find_by_id payload.id db)) [
            | inl f ↦ inl (inactive_account, refl, rw (e, k, v, f) refl)
            | inr (u, f) ↦ by_status token payload u e k v f u.status refl
          ]
        ]
      ]
    ]
  where
    by_status :
        (token : String) (payload : Actor) (u : User)
        → token_of req.access_cookie (extract_bearer_token req.authorization) ≡ some token
        → same_text token "" ≡ false
        → verify token ≡ some payload
        → find_by_id payload.id db ≡ some u
        → (status : UserStatus) → u.status ≡ status
        → IsTurnedAway 401 (guarded verify req next db) db
          ⊎ ((v : User) × IsSignedIn verify req db v
              × (guarded verify req next db ≡ next (signed_in v req) db))
    by_status token payload u e k v f UserStatus.suspended s =
        inl (inactive_account, refl, rw (e, k, v, f, s) refl)
    by_status token payload u e k v f UserStatus.active s =
        inr (u, (token, payload, e, v, f, s), rw (e, k, v, f, s) refl)

module _ (platform : Platform) where
  abbrev pub IsSignedInHere : Request → Db → User → Type 0
  IsSignedInHere = IsSignedIn platform.verify_access_token

  -- A request to a route of the admin router is turned away with 401 or 403 and changes nothing, or it has a valid
  -- token of an account that is stored as an active admin at this moment, whatever role the token
  -- says, and the route runs as that account.
  pub admin_router-guarded :
      (input : Parsed AdminRoute) (req : Request) (db : Db)
      → IsTurnedAway 401 (admin_router platform input req db) db
        ⊎ (IsTurnedAway 403 (admin_router platform input req db) db
            ⊎ ((u : User) × IsSignedInHere req db u
                × (is_admin u.role ≡ true)
                × (admin_router platform input req db
                    ≡ (validate input >>= λ route. admin_handler platform route (signed_in u req))
                        db)))
  unfolding admin_router require_role
  admin_router-guarded input req db =
      elim (guarded-cases platform.verify_access_token req
        (λ r. require_role is_admin r >>= λ s.
          validate input >>= λ route. admin_handler platform route s)
        db) [
          | inl away ↦ inl away
          | inr (u, signed, same) ↦ elim (Bool-cases (is_admin u.role)) [
            | inl e ↦ inr (inr (u, signed, e, rw (same, e) refl))
            | inr e ↦ inr (inl (no_permission, refl, rw (same, e) refl))
          ]
        ]

  -- A request to a route for consultants is turned away with 401 or 403 and changes nothing, or it has a
  -- valid token of an account that is stored as an active consultant, and the route runs as that account.
  pub consultant_router-guarded :
      (input : Parsed OwnRoute) (req : Request) (db : Db)
      → IsTurnedAway 401 (consultant_router platform input req db) db
        ⊎ (IsTurnedAway 403 (consultant_router platform input req db) db
            ⊎ ((u : User) × IsSignedInHere req db u
                × (is_hr u.role ≡ true)
                × (consultant_router platform input req db
                    ≡ (validate input >>= λ route. own_handler platform route (signed_in u req))
                        db)))
  unfolding consultant_router require_role
  consultant_router-guarded input req db =
      elim (guarded-cases platform.verify_access_token req
        (λ r.
          require_role is_hr r >>= λ s. validate input >>= λ route. own_handler platform route s)
        db) [
          | inl away ↦ inl away
          | inr (u, signed, same) ↦ elim (Bool-cases (is_hr u.role)) [
            | inl e ↦ inr (inr (u, signed, e, rw (same, e) refl))
            | inr e ↦ inr (inl (no_permission, refl, rw (same, e) refl))
          ]
        ]

  -- A request to a route of the booking router is turned away with 401 and changes nothing, or runs as the active
  -- account of its token.
  pub booking_router-guarded :
      (input : Parsed BookingRoute) (req : Request) (db : Db)
      → IsTurnedAway 401 (booking_router platform input req db) db
        ⊎ ((u : User) × IsSignedInHere req db u
            × (booking_router platform input req db
                ≡ (validate input >>= λ route. booking_handler platform route (signed_in u req))
                    db))
  unfolding booking_router
  booking_router-guarded input req db =
      guarded-cases platform.verify_access_token req
        (λ r. validate input >>= λ route. booking_handler platform route r) db
