-- ===== src/Lifecycle.antt =====
-- src/jobs/lifecycle.job.ts: the sweep that completes the consultations that are over.
use hr_booking_server.Base.{
  ℕ, ◌<◌, ◌≡◌, refl, ap, inl, inr, Bool, true, ◌&&◌, none, List, [], ◌∷◌, Memᴰ, arith, leb, change,
  mem-change,
}
use hr_booking_server.Constants.{BookingStatus}
use hr_booking_server.Models.{Booking}
use hr_booking_server.Store.{Db, M, returns, final, modify}
use hr_booking_server.Booking.Checks.{is_active}
use hr_booking_server.Booking.Invariant.{IsConsistent, IsConsistent-change, IsSound}

module _ (now : ℕ) where
  -- The filter of the update.
  abbrev pub is_over : Booking → Bool
  is_over b = is_active b && leb b.end_at now

  abbrev pub completed : Booking → Booking
  completed b = record b { status = BookingStatus.completed; slot_key = none }

  unfoldable pub sweep : M (Unit {0})
  sweep = modify (λ db. record db { bookings = change is_over completed db.bookings })

  -- The sweep always succeeds and keeps the bookings consistent.
  pub sweep-IsConsistent :
      (db : Db)
      → IsConsistent db.next_id db.bookings
      → IsConsistent (final (sweep db)).next_id (final (sweep db)).bookings
  unfolding sweep
  sweep-IsConsistent db h =
      IsConsistent-change is_over completed (λ b e. refl) db.next_id db.bookings h
        (λ b m e. sound b (h.sound b m)) (λ b c m l p q d. λ active _ _. cc)
        (λ b c m l p q d. λ active _ _. cc)
    where
      sound : (b : Booking) → IsSound db.next_id b → IsSound db.next_id (completed b)
      sound b k = record {
        fresh = k.fresh;
        keyed = inr (refl, refl);
        spans = k.spans;
        few_moves = k.few_moves;
      }

  -- After the sweep no booking that has ended is active; a booking that is active was there before,
  -- as it is now.
  pub sweep-active :
      (db : Db) (b : Booking)
      → Memᴰ b (final (sweep db)).bookings
      → is_active b ≡ true
      → (now < b.end_at) × Memᴰ b db.bookings
  unfolding sweep
  sweep-active db b m active = elim (mem-change is_over completed db.bookings m) [
    | inl (old, q) ↦ (ground arith, old)
    | inr (a, old, q, e) ↦ absurd (ground arith)
  ]

  -- A second sweep at the same time changes nothing.
  pub sweep-idempotent : (db : Db) → sweep (final (sweep db)) ≡ sweep db
  unfolding sweep change
  sweep-idempotent db = ap (λ bs. returns tt (record db { bookings = bs })) (again db.bookings)
    where
      again :
          (bs : List Booking)
          → change is_over completed (change is_over completed bs) ≡ change is_over completed bs
      again [] = refl
      again (b ∷ bs) = ground (arith, again bs)
