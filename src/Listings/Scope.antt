-- ===== src/Listings/Scope.antt =====
-- Whose entries a listing of src/services shows.
use hr_booking_server.Base.{
  ℕ, ◌≡◌, refl, ◌≤◌, ◌<◌, ◌⊎◌, ◌↔◌, true, false, Memᴰ, keep, arith, some, none, Option,
}
use hr_booking_server.Constants.{is_hr, is_active_status, ProfileStatus, BookingStatus}
use hr_booking_server.Errors.{ok}
use hr_booking_server.Models.{Booking, HrProfile}
use hr_booking_server.Store.{Db, returns}
use hr_booking_server.Booking.Checks.{Actor}
use hr_booking_server.Paging.{Page, find_page}
use hr_booking_server.Paging.Pages.{Rearranges, Orders, page-mem, mem-page}
use hr_booking_server.Paging.Order.{HasOwnKeys}
use hr_booking_server.Listings.{
  Mongo, Direction, ascending, descending, ProfileKey, ListBookingsQuery, ListScope, ScopeRole,
  as_hr, as_user, upcoming, past, all_bookings, list_bookings, resolve_scope_role, bookings_filter,
  same_status, is_terminal_status, ListProfilesQuery, list_public_profiles, public_profiles_filter,
  direction_of,
}

-- The order of two keys, one after the other, in a sort.
abbrev pub IsSortedBy : Direction → ℕ → ℕ → Type 0
IsSortedBy ascending m n = m ≤ n
IsSortedBy descending m n = n ≤ m

-- Documented of the server's sorts.
pub record MongoSorts (mongo : Mongo) : Type 0 where
  pub bookings : (d : Direction) → Rearranges (mongo.bookings_by_start d)
  pub profiles : (k : ProfileKey) (d : Direction) → Rearranges (mongo.profiles_by k d)

-- And of the sort of the bookings.
abbrev pub OrdersByStart : Mongo → Type 0
OrdersByStart mongo =
    (d : Direction) → Orders (λ b. b.start_at) (IsSortedBy d) (mongo.bookings_by_start d)

-- Which role a request to list one's bookings is answered in.
abbrev pub IsScopeRole : Actor → Option ScopeRole → ScopeRole → Type 0
IsScopeRole actor none as_hr = is_hr actor.role ≡ true
IsScopeRole actor none as_user = is_hr actor.role ≡ false
IsScopeRole actor (some requested) as_hr = (requested ≡ as_hr) × (is_hr actor.role ≡ true)
IsScopeRole actor (some requested) as_user = requested ≡ as_user

abbrev pub IsPartyAs : ScopeRole → ℕ → Booking → Type 0
IsPartyAs as_hr id b = b.hr_user_id ≡ id
IsPartyAs as_user id b = b.user_id ≡ id

abbrev pub IsInScope : ℕ → ListScope → Booking → Type 0
IsInScope now upcoming b = now ≤ b.start_at
IsInScope now past b = (b.start_at < now) ⊎ (is_terminal_status b.status ≡ true)
IsInScope now all_bookings b = Unit

abbrev pub HasAskedStatus : ListScope → Option BookingStatus → Booking → Type 0
HasAskedStatus scope (some status) b = b.status ≡ status
HasAskedStatus upcoming none b = is_active_status b.status ≡ true
HasAskedStatus past none b = Unit
HasAskedStatus all_bookings none b = Unit

same_status_iff : (s t : BookingStatus) → (same_status s t ≡ true) ↔ (t ≡ s)
same_status_iff s t = ground arith

bookings_filter_iff :
    (now : ℕ) (role : ScopeRole) (id : ℕ) (query : ListBookingsQuery) (b : Booking)
    → (bookings_filter now role id query b ≡ true) ↔ (
        IsPartyAs role id b
        × IsInScope now query.scope b
        × HasAskedStatus query.scope query.status b)
unfolding bookings_filter
bookings_filter_iff now role id query b = ground arith

resolve_scope_role-granted :
    (actor : Actor) (asked : Option ScopeRole) (role : ScopeRole)
    → (resolve_scope_role actor asked ≡ ok role) ↔ IsScopeRole actor asked role
unfolding resolve_scope_role
resolve_scope_role-granted actor none as_hr = ground arith
resolve_scope_role-granted actor none as_user = ground arith
resolve_scope_role-granted actor (some as_hr) as_hr = ground arith
resolve_scope_role-granted actor (some as_hr) as_user = ground arith
resolve_scope_role-granted actor (some as_user) as_hr = ground arith
resolve_scope_role-granted actor (some as_user) as_user = ground arith

module _ (mongo : Mongo) (sorts : MongoSorts mongo) where
  -- With a limit that is not zero, where no two of the bookings asked for start at the same time, `listBookings`
  -- shows on its pages exactly the bookings asked for: those that have the actor
  -- as consultant or client, as the role granted says, are in the scope asked for and have the status asked for
  -- (active, if the scope is upcoming and no status is given).
  pub list_bookings_iff :
      (now : ℕ) (actor : Actor) (query : ListBookingsQuery) (role : ScopeRole) (db : Db)
      (b : Booking)
      → OrdersByStart mongo
      → IsScopeRole actor query.role role
      → 0 < query.limit
      → HasOwnKeys (λ b. b.start_at) (keep (bookings_filter now role actor.id query) db.bookings)
      → (Memᴰ b db.bookings
          × IsPartyAs role actor.id b
          × IsInScope now query.scope b
          × HasAskedStatus query.scope query.status b)
        ↔ ((page : ℕ) × (1 ≤ page)
            × (shown : Page Booking) × (list_bookings mongo now actor
                  (record query { page = page })
                  db
                ≡ returns shown db)
            × Memᴰ b shown.data_of)
  unfolding list_bookings bookings_filter
  list_bookings_iff now actor query role db b orders granted pos own =
      let resolved = (resolve_scope_role-granted actor query.role role).1 granted in
      let wanted = bookings_filter now role actor.id query in
      let sort = mongo.bookings_by_start (direction_of query.scope) in
      (
        (λ h.
            let passes = (bookings_filter_iff now role actor.id query b).1 (h.1, h.2, h.3) in
            let (page, first, m) =
              mem-page wanted sort db.bookings query.limit (λ b. b.start_at) _ pos (orders _) own
                h.0 passes in
            (page, first, find_page wanted sort page query.limit db.bookings, rw resolved refl, m)),
        (λ h.
            let (page, first, shown, answer, m) = h in
            let same : find_page wanted sort page query.limit db.bookings ≡ shown =
              ground (arith, rw resolved at answer) in
            let (stored, passes) =
              page-mem wanted sort page query.limit db.bookings (sorts.bookings _) shown same b m in
            let (party, scope, status) =
              ((bookings_filter_iff now role actor.id query b).0 passes) in
            (stored, party, scope, status)),
      )

  -- `listPublicProfiles` shows published profiles only, with rates in the range asked for.
  pub list_public_profiles-published :
      (query : ListProfilesQuery) (db after : Db) (page : Page HrProfile) (p : HrProfile)
      → list_public_profiles mongo query db ≡ returns page after
      → Memᴰ p page.data_of
      → Memᴰ p db.profiles
        × (p.status ≡ ProfileStatus.published)
        × ((least : ℕ) → query.min_rate_cents ≡ some least → least ≤ p.hourly_rate_cents)
        × ((most : ℕ) → query.max_rate_cents ≡ some most → p.hourly_rate_cents ≤ most)
  unfolding list_public_profiles public_profiles_filter
  list_public_profiles-published query db after page p answer m =
      let wanted = public_profiles_filter mongo query in
      let sort = mongo.profiles_by query.sort_by query.sort_order in
      let same : find_page wanted sort query.page query.limit db.profiles ≡ page =
        ground (arith, answer) in
      let (stored, passes) =
        page-mem wanted sort query.page query.limit db.profiles (sorts.profiles _ _) page same p
          m in
      (
        stored,
        ground (arith, passes),
        (λ least e. ground (arith, passes, e)),
        (λ most e. ground (arith, passes, e)),
      )
