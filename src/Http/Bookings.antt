-- ===== src/Http/Bookings.antt =====
-- src/routes/v1/booking.routes.ts and src/controllers/booking.controller.ts.
use hr_booking_server.Base.{ℕ, Option, String, List}
use hr_booking_server.Store.{M, ◌>>=◌}
use hr_booking_server.Booking.Checks.{CreateBookingInput, RescheduleBookingInput}
use hr_booking_server.Booking.Service.{
  create_booking, cancel_booking, reschedule_booking, get_booking_for_actor,
}
use hr_booking_server.Listings.{ListBookingsQuery, list_bookings}
use hr_booking_server.Lookup.{
  BookingDetail, to_booking_detail, to_booking_list, retry_booking_meeting,
}
use hr_booking_server.Http.{
  Platform, Request, Parsed, Success, authenticate, load_user, validate, require_actor,
  send_success, send_created, send_paginated,
}

pub data BookingRoute : Type 0 where
  create_route : CreateBookingInput → BookingRoute
  list_route : ListBookingsQuery → BookingRoute
  get_route : ℕ → BookingRoute
  cancel_route : ℕ → Option String → BookingRoute
  reschedule_route : ℕ → RescheduleBookingInput → BookingRoute
  retry_route : ℕ → BookingRoute

pub data BookingPayload : Type 0 where
  one_booking : BookingDetail → BookingPayload
  listed_bookings : List BookingDetail → BookingPayload

module _ (platform : Platform) where
  unfoldable pub create_booking_handler : Request → CreateBookingInput → M (Success BookingPayload)
  unfolding create_booking get_booking_for_actor to_booking_detail
  create_booking_handler req input = do
    actor ← require_actor req
    created ← create_booking platform.luxon platform.now actor input
    booking ← get_booking_for_actor actor created.id
    detail ← to_booking_detail booking
    send_created (one_booking detail)

  unfoldable pub list_bookings_handler : Request → ListBookingsQuery → M (Success BookingPayload)
  unfolding list_bookings to_booking_list
  list_bookings_handler req query = do
    actor ← require_actor req
    page ← list_bookings platform.mongo platform.now actor query
    shown ← to_booking_list page.data_of
    send_paginated (listed_bookings shown) page.pagination

  unfoldable pub get_booking_handler : Request → ℕ → M (Success BookingPayload)
  unfolding get_booking_for_actor to_booking_detail
  get_booking_handler req id = do
    actor ← require_actor req
    booking ← get_booking_for_actor actor id
    detail ← to_booking_detail booking
    send_success (one_booking detail)

  unfoldable pub cancel_booking_handler : Request → ℕ → Option String → M (Success BookingPayload)
  unfolding cancel_booking to_booking_detail
  cancel_booking_handler req id reason = do
    actor ← require_actor req
    booking ← cancel_booking platform.now actor id reason
    detail ← to_booking_detail booking
    send_success (one_booking detail)

  unfoldable pub reschedule_booking_handler :
      Request → ℕ → RescheduleBookingInput → M (Success BookingPayload)
  unfolding reschedule_booking to_booking_detail
  reschedule_booking_handler req id input = do
    actor ← require_actor req
    booking ← reschedule_booking platform.luxon platform.now actor id input
    detail ← to_booking_detail booking
    send_success (one_booking detail)

  unfoldable pub retry_meeting_handler : Request → ℕ → M (Success BookingPayload)
  unfolding retry_booking_meeting to_booking_detail
  retry_meeting_handler req id = do
    actor ← require_actor req
    booking ← retry_booking_meeting platform.provider platform.now actor id
    detail ← to_booking_detail booking
    send_success (one_booking detail)

  unfoldable pub booking_handler : BookingRoute → Request → M (Success BookingPayload)
  booking_handler (create_route input) req = create_booking_handler req input
  booking_handler (list_route query) req = list_bookings_handler req query
  booking_handler (get_route id) req = get_booking_handler req id
  booking_handler (cancel_route id reason) req = cancel_booking_handler req id reason
  booking_handler (reschedule_route id input) req = reschedule_booking_handler req id input
  booking_handler (retry_route id) req = retry_meeting_handler req id

  -- `bookingRouter.use(authenticate, loadUser)`, then the route.
  unfoldable pub booking_router : Parsed BookingRoute → Request → M (Success BookingPayload)
  unfolding authenticate load_user booking_handler
  booking_router input req = do
    authenticated ← authenticate platform.verify_access_token req
    loaded ← load_user authenticated
    route ← validate input
    booking_handler route loaded
