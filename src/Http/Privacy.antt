-- ===== src/Http/Privacy.antt =====
-- Which bookings the booking router of src/routes/v1/booking.routes.ts answers with.
use hr_booking_server.Base.{
  ℕ, ◌≡◌, refl, ap, ◌⊎◌, inl, inr, true, not, Option, none, some, String, List, [], ◌∷◌, Memᴰ, map,
  arith, ◌==◌, Bool-cases,
}
use hr_booking_server.Constants.{is_admin, CancelledBy}
use hr_booking_server.Errors.{conflict, not_found, ok}
use hr_booking_server.Models.{User, Booking, Meeting}
use hr_booking_server.Store.{
  Db, M, Outcome, returns, final, or_throw, lift, throw_if, after_outcome, bind-returns,
}
use hr_booking_server.Booking.Checks.{
  Actor, RescheduleBookingInput, check_cancel, check_reschedule, find_booking, assert_participant,
}
use hr_booking_server.Booking.Service.{
  run_check, create_booking, get_booking_for_actor, cancel_booking, reschedule_booking,
  cancelled_booking, save_booking, audit_cancellation, dispatch_booking_cancelled, catch_duplicate,
  move_booking, moved_booking, dispatch_booking_rescheduled,
}
use hr_booking_server.DateTime.{Luxon}
use hr_booking_server.Listings.{
  ListBookingsQuery, ScopeRole, as_hr, as_user, is_party_as, list_bookings, bookings_filter,
  resolve_scope_role, direction_of,
}
use hr_booking_server.Listings.Scope.{MongoSorts}
use hr_booking_server.Paging.{find_page}
use hr_booking_server.Paging.Pages.{page-mem}
use hr_booking_server.Meetings.{Provider, find_meeting, is_retryable, ensure_meeting_for_booking}
use hr_booking_server.Lookup.{BookingDetail, to_booking_detail, retry_booking_meeting}
use hr_booking_server.Http.{Platform, Request, Parsed, Success, validate}
use hr_booking_server.Http.Bookings.{
  BookingRoute, create_route, list_route, get_route, cancel_route, reschedule_route, retry_route,
  BookingPayload, one_booking, listed_bookings, booking_handler, booking_router,
  create_booking_handler, get_booking_handler, cancel_booking_handler, reschedule_booking_handler,
  retry_meeting_handler, list_bookings_handler,
}
use hr_booking_server.Http.Guards.{IsSignedInHere, signed_in, booking_router-guarded}

-- The client, the consultant, or an admin.
abbrev pub MaySee : Actor → Booking → Type 0
MaySee actor b = (b.user_id ≡ actor.id) ⊎ ((b.hr_user_id ≡ actor.id) ⊎ (is_admin actor.role ≡ true))

assert_participant-MaySee :
    (actor : Actor) (b : Booking) (by : CancelledBy)
    → assert_participant actor b ≡ ok by
    → MaySee actor b
unfolding assert_participant
assert_participant-MaySee actor b by h = elim (Bool-cases (b.user_id == actor.id)) [
  | inl e ↦ inl (ground (arith, e))
  | inr e ↦ elim (Bool-cases (b.hr_user_id == actor.id)) [
    | inl k ↦ inr (inl (ground (arith, k)))
    | inr k ↦ inr (inr (ground (arith, h, e, k)))
  ]
]

get_booking_for_actor-MaySee :
    (actor : Actor) (id : ℕ) (db after : Db) (b : Booking)
    → get_booking_for_actor actor id db ≡ returns b after
    → MaySee actor b
unfolding get_booking_for_actor assert_participant
get_booking_for_actor-MaySee actor id db after b h = ground arith

cancel_booking-MaySee :
    (now : ℕ) (actor : Actor) (id : ℕ) (reason : Option String) (db after : Db) (b : Booking)
    → cancel_booking now actor id reason db ≡ returns b after
    → MaySee actor b
unfolding cancel_booking
cancel_booking-MaySee now actor id reason db after b h =
    let checked = bind-returns (run_check (check_cancel now actor id) db) _ b after h in
    let (found, role) = checked.0 in
    let cancelled = cancelled_booking now role reason found in
    let stored = final (save_booking cancelled checked.1) in
    let logged =
      bind-returns (audit_cancellation actor found.id reason role stored) _ b after checked.3 in
    let sent =
      bind-returns (dispatch_booking_cancelled cancelled role logged.1) _ b after logged.3 in
    get_booking_for_actor-MaySee actor found.id sent.1 after b sent.3

reschedule_booking-MaySee :
    (lux : Luxon) (now : ℕ) (actor : Actor) (id : ℕ) (input : RescheduleBookingInput)
    (db after : Db) (b : Booking)
    → reschedule_booking lux now actor id input db ≡ returns b after
    → MaySee actor b
unfolding reschedule_booking
reschedule_booking-MaySee lux now actor id input db after b h =
    let checked =
      bind-returns (run_check (check_reschedule lux now actor id input) db) _ b after h in
    let (found, role, availability) = checked.0 in
    let result =
      bind-returns
        (catch_duplicate (move_booking found.id (moved_booking input availability) checked.1)) _ b
        after checked.3 in
    let moved =
      bind-returns
        (or_throw result.0 (conflict "This booking can no longer be rescheduled." none) result.1) _
        b after result.3 in
    let sent =
      bind-returns (dispatch_booking_rescheduled now moved.0 found.start_at moved.1) _ b after
        moved.3 in
    get_booking_for_actor-MaySee actor moved.0.id sent.1 after b sent.3

retry_booking_meeting-MaySee :
    (provider : Provider) (now : ℕ) (actor : Actor) (id : ℕ) (db after : Db) (b : Booking)
    → retry_booking_meeting provider now actor id db ≡ returns b after
    → MaySee actor b
unfolding retry_booking_meeting
retry_booking_meeting-MaySee provider now actor id db after b h =
    let found =
      bind-returns (or_throw (find_booking id db) (not_found "Booking not found.") db) _ b after
        h in
    let admitted =
      bind-returns (lift (assert_participant actor found.0) found.1) _ b after found.3 in
    let wanted =
      bind-returns
        (throw_if (not (is_retryable now (find_meeting found.0.id admitted.1) found.0))
          (conflict "This meeting does not need to be created again." none) admitted.1)
        _ b after admitted.3 in
    let hosted =
      bind-returns (ensure_meeting_for_booking provider found.0.id wanted.1) _ b after wanted.3 in
    get_booking_for_actor-MaySee actor found.0.id hosted.1 after b hosted.3

abbrev pub booking_of : BookingDetail → Booking
booking_of d = d.booking

-- The booking that a payload shows.
abbrev pub Shows : BookingPayload → Booking → Type 0
Shows (one_booking d) b = d.booking ≡ b
Shows (listed_bookings ds) b = Memᴰ b (map booking_of ds)

abbrev pub answered : ℕ → Booking → M (Success BookingPayload)
answered code x d =
    returns
      (record {
        status_code = code;
        payload = one_booking (record { booking = x; meeting = find_meeting x.id d });
        pagination = none;
      })
      d

-- A handler that answers with the booking of a call.
answered-MaySee :
    (actor : Actor) (code : ℕ) (m : Outcome Booking)
    → ((x : Booking) (mid : Db) → m ≡ returns x mid → MaySee actor x)
    → (answer : Success BookingPayload) (after : Db)
    → after_outcome m (answered code) ≡ returns answer after
    → (b : Booking) → Shows answer.payload b
    → MaySee actor b
answered-MaySee actor code m ok_call answer after h b s =
    let called = bind-returns m (answered code) answer after h in
    let same : one_booking
          (record { booking = called.0; meeting = find_meeting called.0.id called.1 })
        ≡ answer.payload =
      ground (arith, called.3) in
    let here : called.0 ≡ b = rw (← same) at s in rw (← here) (ok_call called.0 called.1 called.2)

abbrev detail_of : (Booking → Option Meeting) → Booking → BookingDetail
detail_of f b = record { booking = b; meeting = f b }

bookings_of_details :
    (f : Booking → Option Meeting) (bs : List Booking) → map booking_of (map (detail_of f) bs) ≡ bs
bookings_of_details f [] = refl
bookings_of_details f (b ∷ bs) = ap (λ xs. b ∷ xs) (bookings_of_details f bs)

party-MaySee :
    (actor : Actor) (role : ScopeRole) (b : Booking)
    → is_party_as role actor.id b ≡ true
    → MaySee actor b
party-MaySee actor as_hr b h = inr (inl (ground (arith, h)))
party-MaySee actor as_user b h = inl (ground (arith, h))

list_bookings_handler-MaySee :
    (platform : Platform) (sorts : MongoSorts platform.mongo) (req : Request) (actor : Actor)
    (query : ListBookingsQuery) (db after : Db) (answer : Success BookingPayload)
    → req.user ≡ some actor
    → list_bookings_handler platform req query db ≡ returns answer after
    → (b : Booking) → Shows answer.payload b
    → MaySee actor b
unfolding list_bookings_handler list_bookings bookings_filter
list_bookings_handler-MaySee platform sorts req actor query db after answer u h b s =
    let listed =
      bind-returns (list_bookings platform.mongo platform.now actor query db) _ answer after
        (rw u at h) in
    let found =
      bind-returns (lift (resolve_scope_role actor query.role) db) _ listed.0 listed.1 listed.2 in
    let sent : listed_bookings (map (detail_of (λ x. find_meeting x.id listed.1)) listed.0.data_of)
        ≡ answer.payload =
      ground (arith, listed.3) in
    let stored : Memᴰ b listed.0.data_of =
      rw (bookings_of_details (λ x. find_meeting x.id listed.1)) at (rw (← sent) at s) in
    let shown : find_page (bookings_filter platform.now found.0 actor.id query)
          (platform.mongo.bookings_by_start (direction_of query.scope)) query.page query.limit
          found.1.bookings
        ≡ listed.0 =
      ground (arith, found.3) in
    let (_, passes) =
      page-mem (bookings_filter platform.now found.0 actor.id query)
        (platform.mongo.bookings_by_start (direction_of query.scope)) query.page query.limit
        found.1.bookings (sorts.bookings _) listed.0 shown b stored in
    party-MaySee actor found.0 b (ground (arith, passes))

booking_handler-MaySee :
    (platform : Platform) (sorts : MongoSorts platform.mongo) (req : Request) (actor : Actor)
    (route : BookingRoute) (db after : Db) (answer : Success BookingPayload)
    → req.user ≡ some actor
    → booking_handler platform route req db ≡ returns answer after
    → (b : Booking) → Shows answer.payload b
    → MaySee actor b
unfolding booking_handler create_booking_handler get_booking_handler cancel_booking_handler
    reschedule_booking_handler retry_meeting_handler to_booking_detail
booking_handler-MaySee platform sorts req actor (create_route input) db after answer u h b s =
    let created =
      bind-returns (create_booking platform.luxon platform.now actor input db) _ answer after
        (rw u at h) in
    answered-MaySee actor 201 (get_booking_for_actor actor created.0.id created.1)
      (λ x mid e. get_booking_for_actor-MaySee actor created.0.id created.1 mid x e) answer after
      created.3 b s
booking_handler-MaySee platform sorts req actor (list_route query) db after answer u h b s =
    list_bookings_handler-MaySee platform sorts req actor query db after answer u h b s
booking_handler-MaySee platform sorts req actor (get_route id) db after answer u h b s =
    answered-MaySee actor 200 (get_booking_for_actor actor id db)
      (λ x mid e. get_booking_for_actor-MaySee actor id db mid x e) answer after (rw u at h) b s
booking_handler-MaySee platform sorts req actor (cancel_route id reason) db after answer u h b s =
    answered-MaySee actor 200 (cancel_booking platform.now actor id reason db)
      (λ x mid e. cancel_booking-MaySee platform.now actor id reason db mid x e) answer after
      (rw u at h) b s
booking_handler-MaySee platform sorts req actor (reschedule_route id input) db after answer u h b
      s =
    answered-MaySee actor 200 (reschedule_booking platform.luxon platform.now actor id input db)
      (λ x mid e. reschedule_booking-MaySee platform.luxon platform.now actor id input db mid x e)
      answer after (rw u at h) b s
booking_handler-MaySee platform sorts req actor (retry_route id) db after answer u h b s =
    answered-MaySee actor 200 (retry_booking_meeting platform.provider platform.now actor id db)
      (λ x mid e. retry_booking_meeting-MaySee platform.provider platform.now actor id db mid x e)
      answer after (rw u at h) b s

-- Where the server's sorts keep their entries: every booking that the booking router answers with, alone or in a
-- list, is one of the active account of the request's token, as client or consultant, or that account is an
-- admin's.
pub booking_router-MaySee :
    (platform : Platform) (sorts : MongoSorts platform.mongo) (input : Parsed BookingRoute)
    (req : Request) (db after : Db) (answer : Success BookingPayload)
    → booking_router platform input req db ≡ returns answer after
    → (b : Booking) → Shows answer.payload b
    → (u : User) × IsSignedInHere platform req db u × MaySee (record { id = u.id; role = u.role }) b
booking_router-MaySee platform sorts input req db after answer h b s =
    elim (booking_router-guarded platform input req db) [
      | inl (e, _, away) ↦ absurd (ground (arith, rw away at h))
      | inr (u, signed, same) ↦
          let valid = bind-returns (validate input db) _ answer after (rw same at h) in
          (
            u,
            signed,
            booking_handler-MaySee platform sorts (signed_in u req)
                (record { id = u.id; role = u.role }) valid.0 valid.1 after answer refl valid.3 b s,
          )
    ]
