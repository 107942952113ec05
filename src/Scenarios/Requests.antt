-- ===== src/Scenarios/Requests.antt =====
-- Requests and listings of the concrete state.
use hr_booking_server.Base.{
  ℕ, ◌≡◌, refl, ◌↔◌, ◌⊎◌, ◌≤◌, inr, true, none, some, String, [], ◌∷◌, Memᴰ, arith, ltb, keep,
  find_first, same_text, if◌then◌else◌,
}
use hr_booking_server.Constants.{is_admin}
use hr_booking_server.Models.{User, Booking}
use hr_booking_server.Store.{returns, ◌>>=◌}
use hr_booking_server.Auth.{Crypto, find_by_id}
use hr_booking_server.Booking.Checks.{find_booking, assert_participant}
use hr_booking_server.Booking.Service.{get_booking_for_actor}
use hr_booking_server.Meetings.{Provider, find_meeting}
use hr_booking_server.Paging.{Page}
use mathlib.Core.List.{Permᴰ}
use hr_booking_server.Paging.Order.{IsOrdered}
use hr_booking_server.Listings.Upcoming.{list_bookings-upcoming}
use hr_booking_server.Scenarios.Bookings.{booked-IsConsistent}
use hr_booking_server.Constants.{is_active_status}
use hr_booking_server.Scenarios.Sorting.{sorted, sorted-Orders, sorted-Rearranges}
use hr_booking_server.Paging.Pages.{pages_from, last_page, find_page_concat}
use hr_booking_server.Listings.{
  Mongo, ascending, bookings_filter, ListBookingsQuery, upcoming, as_user, list_bookings,
}
use hr_booking_server.Listings.Scope.{
  MongoSorts, IsSortedBy, IsPartyAs, IsInScope, HasAskedStatus, list_bookings_iff,
}
use hr_booking_server.Lookup.{to_booking_detail}
use hr_booking_server.Http.{
  Platform, Request, parsed, Success, authenticate, load_user, validate, extract_bearer_token,
}
use hr_booking_server.Http.Admin.{suspend_route, admin_router, admin_handler}
use hr_booking_server.Http.Bookings.{
  get_route, one_booking, BookingPayload, booking_router, booking_handler, get_booking_handler,
}
use hr_booking_server.Http.Guards.{IsTurnedAway, IsSignedInHere, signed_in, admin_router-guarded}
use hr_booking_server.Http.Privacy.{MaySee, booking_router-MaySee}
use hr_booking_server.Scenarios.Data.{utc, start_db, booked_db, nine_booking, client, admin}

find_page_concat_example :
    Permᴰ
      (pages_from
        (ltb 1)
        (λ page. sorted ascending (λ n. n))
        (3 ∷ 1 ∷ 2 ∷ [])
        (last_page (ltb 1) (λ page. sorted ascending (λ n. n)) (3 ∷ 1 ∷ 2 ∷ []) 1)
        0
        1)
      (3 ∷ 2 ∷ [])
    × IsOrdered
        (λ n. n)
        (IsSortedBy ascending)
        (pages_from
          (ltb 1)
          (λ page. sorted ascending (λ n. n))
          (3 ∷ 1 ∷ 2 ∷ [])
          (last_page (ltb 1) (λ page. sorted ascending (λ n. n)) (3 ∷ 1 ∷ 2 ∷ []) 1)
          0
          1)
unfolding keep
find_page_concat_example =
    find_page_concat (ltb 1) (λ page. sorted ascending (λ n. n)) (3 ∷ 1 ∷ 2 ∷ []) 1 (λ n. n)
      (IsSortedBy ascending) (omega arith) (sorted-Orders ascending (λ n. n))
      (((λ e. absurd (omega (arith, e))), tt), (tt, tt))

-- The bookings are sorted; the other entries are listed as they are stored.
abbrev mongo : Mongo
mongo = record {
  bookings_by_start = λ d page. sorted d (λ b. b.start_at);
  users_newest = λ page xs. xs;
  profiles_by = λ k d page xs. xs;
  reports_newest = λ page xs. xs;
  audit_logs_newest = λ page xs. xs;
  contains = λ s t. same_text s t;
  matches = λ s t. same_text s t;
  action_text = λ a. "action";
  resource_text = λ r. "resource";
}

mongo-MongoSorts : MongoSorts mongo
mongo-MongoSorts = record {
  bookings = λ d. sorted-Rearranges d (λ b. b.start_at);
  profiles = λ k d. record {
    same_length = λ page xs. refl;
    sort-mem = λ page a xs m. m;
    mem-sort = λ page a xs m. m;
  };
}

abbrev upcoming_query : ListBookingsQuery
upcoming_query = record { page = 1; limit = 20; role = none; scope = upcoming; status = none }

list_bookings_iff_example :
    (Memᴰ nine_booking booked_db.bookings
      × IsPartyAs as_user 1 nine_booking
      × IsInScope 0 upcoming nine_booking
      × HasAskedStatus upcoming none nine_booking)
    ↔ ((page : ℕ) × (1 ≤ page)
        × (shown : Page Booking) × (list_bookings mongo 0 client
              (record upcoming_query { page = page })
              booked_db
            ≡ returns shown booked_db)
        × Memᴰ nine_booking shown.data_of)
unfolding bookings_filter keep
list_bookings_iff_example =
    list_bookings_iff mongo mongo-MongoSorts 0 client upcoming_query as_user booked_db nine_booking
      (λ d. sorted-Orders d (λ b. b.start_at)) refl (omega arith) (tt, tt)

list_bookings-upcoming_example :
    (Memᴰ nine_booking booked_db.bookings
      × IsPartyAs as_user 1 nine_booking
      × (0 ≤ nine_booking.start_at)
      × (is_active_status nine_booking.status ≡ true))
    ↔ ((page : ℕ) × (1 ≤ page)
        × (shown : Page Booking) × (list_bookings mongo 0 client
              (record upcoming_query { page = page })
              booked_db
            ≡ returns shown booked_db)
        × Memᴰ nine_booking shown.data_of)
list_bookings-upcoming_example =
    list_bookings-upcoming mongo mongo-MongoSorts (λ d. sorted-Orders d (λ b. b.start_at)) 0 client
      upcoming_query as_user booked_db nine_booking booked-IsConsistent refl (omega arith)

abbrev no_provider : Provider
no_provider = record {
  create_meeting = λ b us. inr "down";
  update_meeting = λ m b. inr "down";
  cancel_meeting = λ m b. none;
  unsupported = λ p. "unsupported";
  truncate = λ s. s;
}

abbrev plain : Crypto
plain = record {
  hash_password = λ p. p;
  verify_password = λ p hash. same_text p hash;
  hash_refresh_token = λ t. t;
  sign_access_token = λ id role. "access";
  sign_generic_token = λ id type. "link";
  verify_generic_token = λ token type. none;
  to_lower_case = λ t. t;
}

abbrev platform : Platform
platform = record {
  now = 0;
  start_of_day = 0;
  start_of_tomorrow = 86_400_000;
  verify_access_token = λ t. if same_text t "admin" then some admin else some client;
  crypto = plain;
  luxon = utc;
  mongo = mongo;
  provider = no_provider;
  by_name = λ xs. xs;
  to_upper_case = λ s. s;
  fresh_token = "t";
}

abbrev request_with : String → Request
request_with token = record {
  access_cookie = some token;
  refresh_cookie = none;
  authorization = none;
  ip = none;
  user_agent = none;
  user = none;
}

admin_router-guarded_example :
    IsTurnedAway 401
      (admin_router platform (parsed (suspend_route 1 "spam")) (request_with "admin") start_db)
      start_db
    ⊎ (IsTurnedAway 403
          (admin_router platform (parsed (suspend_route 1 "spam")) (request_with "admin") start_db)
          start_db
        ⊎ ((u : User) × IsSignedInHere platform (request_with "admin") start_db u
            × (is_admin u.role ≡ true)
            × (admin_router platform
                  (parsed (suspend_route 1 "spam"))
                  (request_with "admin")
                  start_db
                ≡ (validate (parsed (suspend_route 1 "spam")) >>= λ route.
                      admin_handler platform route (signed_in u (request_with "admin")))
                    start_db)))
admin_router-guarded_example =
    admin_router-guarded platform (parsed (suspend_route 1 "spam")) (request_with "admin") start_db

abbrev nine_answer : Success BookingPayload
nine_answer = record {
  status_code = 200;
  payload = one_booking (record { booking = nine_booking; meeting = none });
  pagination = none;
}

booking_router-MaySee_example :
    (u : User) × IsSignedInHere platform (request_with "client") booked_db u
    × MaySee (record { id = u.id; role = u.role }) nine_booking
unfolding booking_router authenticate extract_bearer_token load_user find_by_id find_first
    booking_handler get_booking_handler get_booking_for_actor find_booking assert_participant
    to_booking_detail find_meeting
booking_router-MaySee_example =
    booking_router-MaySee platform mongo-MongoSorts (parsed (get_route 100)) (request_with "client")
      booked_db booked_db nine_answer refl nine_booking refl
