-- ===== src/Booking/Contention.antt =====
-- Two calls of `createBooking` of src/services/booking.service.ts at the same time: both have passed
-- their checks on the same state and drawn their ids, and their inserts and sweeps interleave. An id is
-- drawn before the insert, so that the ids need not be in the order of the inserts.
pub mod Sweeps
pub mod Stays
use mathlib.Core.List.{append_assoc}
use hr_booking_server.Base.{
  ℕ, ◌≡◌, refl, ◌∙◌, ◌≢◌, inl, inr, Bool, true, false, not, none, some, List, [], ◌∷◌, ◌++◌, Memᴰ,
  arith, Bool-cases, ◌==◌, ltb, keep, find_first, any, All, All-mem, All-of_mem, find_first-none,
  ◌&&◌, ◌||◌,
}
use hr_booking_server.DateTime.{Luxon, overlaps}
use hr_booking_server.Errors.{app, slot_taken, ok}
use hr_booking_server.Models.{Availability, Booking}
use hr_booking_server.Store.{Db, Outcome, returns, throws}
use hr_booking_server.Booking.Checks.{
  Actor, CreateBookingInput, Plan, check_create, meets, of_consultant, find_overlapping_booking,
}
use hr_booking_server.Booking.Service.{
  build_slot_key, is_key_held, new_booking, insert_document, stand_down, catch_duplicate,
}
use hr_booking_server.Booking.Invariant.{IsConsistent}
use hr_booking_server.Booking.Free.{find_overlapping_booking-IsCompatible, IsCompatible-is_key_held}
use hr_booking_server.Booking.Create.{HasDurations, check_create-IsChecked, spans}

-- The writes of the two calls, in the order of the inserts.
pub data Schedule : Type 0 where
  one_by_one sweep_first sweep_second : Schedule

pub record Contest : Type 0 where
  pub first : Outcome Booking
  pub second : Outcome Booking
  pub bookings : List Booking

abbrev pub state_of : Outcome Booking → Db
state_of (returns b db) = db
state_of (throws t db) = db

-- The sweep of a call whose insert came to this.
abbrev pub swept : Outcome Booking → Db → Outcome Booking
swept (returns b db) now_db = stand_down b now_db
swept (throws t db) now_db = throws t now_db

abbrev pub inserted : Booking → Db → Outcome Booking
inserted document db = catch_duplicate (insert_document document db)

-- The first call inserts; then the two sweeps and the second insert follow in one of three orders.
unfoldable pub contend : Booking → Booking → Schedule → Db → Contest
contend first_document second_document one_by_one db =
    let first_insert = inserted first_document db in
    let first = swept first_insert (state_of first_insert) in
    let second_insert = inserted second_document (state_of first) in
    let second = swept second_insert (state_of second_insert) in
    record { first = first; second = second; bookings = (state_of second).bookings }
contend first_document second_document sweep_first db =
    let first_insert = inserted first_document db in
    let second_insert = inserted second_document (state_of first_insert) in
    let first = swept first_insert (state_of second_insert) in
    let second = swept second_insert (state_of first) in
    record { first = first; second = second; bookings = (state_of second).bookings }
contend first_document second_document sweep_second db =
    let first_insert = inserted first_document db in
    let second_insert = inserted second_document (state_of first_insert) in
    let second = swept second_insert (state_of second_insert) in
    let first = swept first_insert (state_of second) in
    record { first = first; second = second; bookings = (state_of first).bookings }

-- A call returns its booking, or is refused as a taken slot.
abbrev pub IsAnswered : Bool → Booking → Outcome Booking → Type 0
IsAnswered true b o = (after : Db) × (o ≡ returns b after)
IsAnswered false b o = (after : Db) × (o ≡ throws (app slot_taken) after)

abbrev pub if_kept : Bool → Booking → List Booking
if_kept true b = b ∷ []
if_kept false b = []

abbrev pub is_one_by_one : Schedule → Bool
is_one_by_one one_by_one = true
is_one_by_one _ = false

-- Whether the second document has the start of the first, and whether the first has the smaller id.
abbrev pub same_start : Booking → Booking → Bool
same_start a b = b.start_at == a.start_at

-- The first call keeps its booking if it is older, if the index turns the second away, or if it sweeps before
-- the second inserts.
abbrev pub first_stays : Booking → Booking → Schedule → Bool
first_stays a b s = ltb a.id b.id || same_start a b || is_one_by_one s

-- The second call keeps its booking if it is older and starts at another time.
abbrev pub second_stays : Booking → Booking → Bool
second_stays a b = not (ltb a.id b.id) && not (same_start a b)
