-- ===== src/Booking/Free.antt =====
-- What the overlap checks of src/services/booking.service.ts establish.
use hr_booking_server.Base.{
  ℕ, ◌<◌, ◌≡◌, ◌≢◌, inl, inr, true, false, not, ◌&&◌, Option, none, some, List, Memᴰ, arith, ◌==◌,
  ==_iff, Bool-cases, any-eq-false, All-mem, All-of_mem, find_first-none,
}
use hr_booking_server.DateTime.{overlaps}
use hr_booking_server.Models.{Booking}
use hr_booking_server.Store.{Db}
use hr_booking_server.Booking.Checks.{
  is_active, meets, of_consultant, of_client, find_overlapping_booking,
}
use hr_booking_server.Booking.Service.{build_slot_key, is_key_held, has_key}
use hr_booking_server.Booking.Invariant.{IsCompatible, IsConsistent}

-- With no overlapping booking found for the consultant and for the client, a booking of these two at
-- that time is compatible with every booking that is not excluded.
pub find_overlapping_booking-IsCompatible :
    (db : Db) (b : Booking) (exclude : Option ℕ)
    → find_overlapping_booking (of_client b.user_id) b.start_at b.end_at exclude db ≡ none
    → find_overlapping_booking (of_consultant b.hr_user_id) b.start_at b.end_at exclude db ≡ none
    → (c : Booking) → Memᴰ c db.bookings
    → exclude ≢ some c.id
    → IsCompatible b c
unfolding find_overlapping_booking overlaps
find_overlapping_booking-IsCompatible db b exclude e f c m d active_b active_c (inl s) =
    let missed = All-mem _ db.bookings (find_first-none _ db.bookings f) m in apart exclude d missed
  where
    apart :
        (x : Option ℕ)
        → x ≢ some c.id
        → meets (of_consultant b.hr_user_id) b.start_at b.end_at x c ≡ false
        → overlaps b.start_at b.end_at c.start_at c.end_at ≡ false
    apart none d h = ground arith
    apart (some x) d h = ground (arith, ==_iff c.id x)
find_overlapping_booking-IsCompatible db b exclude e f c m d active_b active_c (inr s) =
    let missed = All-mem _ db.bookings (find_first-none _ db.bookings e) m in apart exclude d missed
  where
    apart :
        (x : Option ℕ)
        → x ≢ some c.id
        → meets (of_client b.user_id) b.start_at b.end_at x c ≡ false
        → overlaps b.start_at b.end_at c.start_at c.end_at ≡ false
    apart none d h = ground arith
    apart (some x) d h = ground (arith, ==_iff c.id x)

-- In a consistent state the unique index refuses no booking that is compatible with the others.
pub IsCompatible-is_key_held :
    (next_id : ℕ) (bs : List Booking) (b : Booking)
    → IsConsistent next_id bs
    → is_active b ≡ true
    → b.start_at < b.end_at
    → ((c : Booking) → Memᴰ c bs → c.id ≢ b.id → IsCompatible b c)
    → is_key_held (build_slot_key b.hr_user_id b.start_at) b.id bs ≡ false
unfolding is_key_held build_slot_key overlaps
IsCompatible-is_key_held next_id bs b h active span k = any-eq-false _ bs (
    All-of_mem _ bs λ c m.
      elim (Bool-cases
        (has_key (build_slot_key b.hr_user_id b.start_at) c.slot_key && not (c.id == b.id))) [
          | inr free ↦ free
          | inl held ↦ absurd (clash c m held)
        ])
  where
    clash :
        (c : Booking)
        → Memᴰ c bs
        → has_key (build_slot_key b.hr_user_id b.start_at) c.slot_key && not (c.id == b.id) ≡ true
        → ⊥
    clash c m held = elim (h.sound c m).keyed [
      | inr (idle, e) ↦ ground (arith, idle, e)
      | inl (busy, e) ↦
          let differ : c.id ≢ b.id = ground (arith, held) in
          let same : (b.hr_user_id ≡ c.hr_user_id) × (b.start_at ≡ c.start_at) =
            ground (arith, held, e) in
          ground (arith, same, k c m differ active busy (inl same.0), (h.sound c m).spans)
    ]
