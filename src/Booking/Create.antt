-- ===== src/Booking/Create.antt =====
-- `createBooking` of src/services/booking.service.ts.
use mathlib.Core.List.Memᴰ
use hr_booking_server.Base.{
  ℕ, suc, ◌<◌, ◌≡◌, refl, ◌≢◌, inl, inr, true, false, none, some, [], ◌∷◌, ◌++◌, Memᴰ, arith,
  Option-cases, All, All-of_mem, All-mem, find_first-none, find_first-some, find_first-eq-none,
}
use hr_booking_server.DateTime.{Luxon, add_minutes}
use hr_booking_server.Errors.{app, AppError, Result, ok, err}
use hr_booking_server.Models.{Booking}
use hr_booking_server.Store.{Db, returns, throws, final}
use hr_booking_server.Slot.{is_offered_slot}
use hr_booking_server.Availability.{get_availability_for_hr, find_availability}
use hr_booking_server.Booking.Checks.{
  Actor, CreateBookingInput, Plan, check_create, find_published, find_overlapping_booking,
  of_client, of_consultant, meets, assert_client_is_free, assert_consultant_is_free,
}
use hr_booking_server.Booking.Service.{
  build_slot_key, new_booking, create_document, stand_down, insert_booking, create_booking,
}
use hr_booking_server.Booking.Invariant.{IsCompatible, IsSound, IsConsistent, IsConsistent-append}
use hr_booking_server.Booking.Free.{find_overlapping_booking-IsCompatible, IsCompatible-is_key_held}
use hr_booking_server.Booking.Frame.{emitted, created_effects, dispatch_booking_created-emitted}

module _ (lux : Luxon) (now : ℕ) (actor : Actor) (input : CreateBookingInput) (db : Db) where
  -- What a plan has been checked for.
  pub record IsChecked (plan : Plan) : Type 0 where
    pub published : find_published input.profile_id db ≡ some plan.profile
    pub accepting : plan.profile.is_available ≡ true
    pub other_person : plan.profile.user_id ≢ actor.id
    pub schedule : plan.availability ≡ get_availability_for_hr plan.profile.user_id db
    pub offered : is_offered_slot lux plan.availability input.start_at now ≡ true
    pub ends : plan.end_at ≡ add_minutes input.start_at plan.availability.slot_duration_minutes
    pub client_free :
        find_overlapping_booking (of_client actor.id) input.start_at plan.end_at none db ≡ none
    pub consultant_free :
        find_overlapping_booking
          (of_consultant plan.profile.user_id)
          input.start_at
          plan.end_at
          none
          db
        ≡ none

  pub check_create-IsChecked :
      (plan : Plan) → check_create lux now actor input db ≡ ok plan → IsChecked plan
  unfolding check_create assert_client_is_free assert_consultant_is_free
  check_create-IsChecked plan e = ground arith

  pub check_create-refused :
      (e : AppError)
      → check_create lux now actor input db ≡ err e
      → create_booking lux now actor input db ≡ throws (app e) db
  unfolding create_booking
  check_create-refused e h = rw h

-- Every stored schedule has a slot duration that is not zero.
abbrev pub HasDurations : Db → Type 0
HasDurations db = All (λ a. 0 < a.slot_duration_minutes) db.availabilities

pub get_availability_for_hr-duration :
    (id : ℕ) (db : Db) → HasDurations db → 0 < (get_availability_for_hr id db).slot_duration_minutes
unfolding get_availability_for_hr find_availability
get_availability_for_hr-duration id db h = elim (Option-cases (find_availability id db)) [
  | inl e ↦ rw (e, find_availability) (omega arith)
  | inr (a, e) ↦
      rw (e, find_availability) (All-mem _ db.availabilities h (find_first-some _ _ a e).0)
]

module _ (lux : Luxon) (now : ℕ) (actor : Actor) (input : CreateBookingInput) (db : Db)
    (consistent : IsConsistent db.next_id db.bookings) (durations : HasDurations db) (plan : Plan)
    (checked : check_create lux now actor input db ≡ ok plan) where
  abbrev pub booked : Booking
  booked = new_booking actor input plan db.next_id

  abbrev pub stored : Db
  stored = record db { bookings = db.bookings ++ booked ∷ []; next_id = suc db.next_id }

  facts : IsChecked lux now actor input db plan
  facts = check_create-IsChecked lux now actor input db plan checked

  pub spans : input.start_at < plan.end_at
  unfolding add_minutes
  spans =
      let long : 0 < plan.availability.slot_duration_minutes =
        rw facts.schedule (get_availability_for_hr-duration plan.profile.user_id db durations) in
      omega (arith, facts.ends)

  pub compatible : (c : Booking) → Memᴰ c db.bookings → IsCompatible booked c
  compatible c m =
      find_overlapping_booking-IsCompatible db booked none facts.client_free facts.consultant_free c
        m (λ e. cc)

  booked-IsSound : IsSound (suc db.next_id) booked
  unfolding build_slot_key
  booked-IsSound = record {
    fresh = omega arith;
    keyed = inl (refl, refl);
    spans = spans;
    few_moves = omega arith;
  }

  stored-IsConsistent : IsConsistent (suc db.next_id) (db.bookings ++ booked ∷ [])
  stored-IsConsistent =
      IsConsistent-append db.next_id db.bookings booked consistent refl booked-IsSound compatible

  pub create_document-stored :
      create_document (new_booking actor input plan) db ≡ returns booked stored
  unfolding create_document
  create_document-stored = rw (
      IsCompatible-is_key_held db.next_id db.bookings booked consistent refl spans
        (λ c m d. compatible c m))

  alone :
      (c : Booking)
      → Memᴰ c (db.bookings ++ booked ∷ [])
      → meets (of_consultant booked.hr_user_id) booked.start_at booked.end_at (some booked.id) c
        ≡ false
  unfolding find_overlapping_booking
  alone c m = elim (Memᴰ.append_cases db.bookings m) [
    | inl old ↦
        let missed =
          All-mem _ db.bookings (find_first-none _ db.bookings facts.consultant_free) old in
        ground (arith, missed)
    | inr new ↦ rw (Memᴰ.eq_of_singleton new) (ground arith)
  ]

  pub stand_down-stored : stand_down booked stored ≡ returns booked stored
  unfolding stand_down find_overlapping_booking
  stand_down-stored = rw (
      find_first-eq-none
        (meets (of_consultant booked.hr_user_id) booked.start_at booked.end_at (some booked.id))
        (db.bookings ++ booked ∷ []) (All-of_mem _ _ alone))

  insert_booking-stored : insert_booking actor input plan db ≡ returns booked stored
  unfolding insert_booking
  insert_booking-stored = rw (create_document-stored, stand_down-stored)

  -- From a consistent state with slot durations that are not zero: where the checks of `createBooking`
  -- pass, neither the unique index nor the sweep after the insert
  -- turns the booking away: it is stored under a fresh id, and the call returns it after handing on
  -- the meeting job, the reminder and the two emails.
  pub create_booking-returns :
      create_booking lux now actor input db
      ≡ returns booked (emitted stored (created_effects now booked stored))
  unfolding create_booking
  create_booking-returns =
      rw (checked, insert_booking-stored, dispatch_booking_created-emitted now booked stored)

-- With slot durations that are not zero, `createBooking`, whether it returns or throws, keeps the
-- bookings consistent: no two active
-- bookings of one consultant or of one client overlap, and exactly the active ones hold their slot key.
pub create_booking-IsConsistent :
    (lux : Luxon) (now : ℕ) (actor : Actor) (input : CreateBookingInput) (db : Db)
    → IsConsistent db.next_id db.bookings
    → HasDurations db
    → IsConsistent
        (final (create_booking lux now actor input db)).next_id
        (final (create_booking lux now actor input db)).bookings
create_booking-IsConsistent lux now actor input db h d =
    split (check_create lux now actor input db) refl
  where
    split :
        (r : Result Plan)
        → check_create lux now actor input db ≡ r
        → IsConsistent
            (final (create_booking lux now actor input db)).next_id
            (final (create_booking lux now actor input db)).bookings
    split (ok plan) e =
        rw (create_booking-returns lux now actor input db h d plan e)
          (stored-IsConsistent lux now actor input db h d plan e)
    split (err x) e = rw (check_create-refused lux now actor input db x e) h

pub create_booking-availabilities :
    (lux : Luxon) (now : ℕ) (actor : Actor) (input : CreateBookingInput) (db : Db)
    → IsConsistent db.next_id db.bookings
    → HasDurations db
    → (final (create_booking lux now actor input db)).availabilities ≡ db.availabilities
create_booking-availabilities lux now actor input db h d =
    split (check_create lux now actor input db) refl
  where
    split :
        (r : Result Plan)
        → check_create lux now actor input db ≡ r
        → (final (create_booking lux now actor input db)).availabilities ≡ db.availabilities
    split (ok plan) e = rw (create_booking-returns lux now actor input db h d plan e)
    split (err x) e = rw (check_create-refused lux now actor input db x e)
