-- ===== src/Booking/Race.antt =====
-- src/services/booking.service.ts under concurrent calls: the single writes of the calls, in any order.
-- Between a call's checks and its write other calls may write, so nothing is assumed of the checks.
use mathlib.Core.List.Memᴰ
use hr_booking_server.Base.{
  ℕ, ◌≡◌, ◌≢◌, refl, sym, ap, ◌∙◌, inl, inr, Bool, true, false, not, ◌&&◌, Option, none, some,
  String, List, [], ◌∷◌, ◌++◌, ◌==◌, Memᴰ, arith, Bool-cases, Option-cases, any-false, keep,
  mem-keep, change, mem-change, find_first, find_first-some,
}
use hr_booking_server.Constants.{CancelledBy}
use hr_booking_server.Models.{Booking, Availability}
use hr_booking_server.Store.{Db, final}
use hr_booking_server.Booking.Checks.{
  Actor, CreateBookingInput, RescheduleBookingInput, Plan, is_active, find_overlapping_booking,
  of_consultant,
}
use hr_booking_server.Booking.Service.{
  new_booking, create_document, stand_down, cancelled_booking, moved_booking, move_booking,
  is_key_held, build_slot_key, is_older,
}
use hr_booking_server.Lifecycle.{sweep, is_over, completed}
use hr_booking_server.Booking.Invariant.{IsKeyed}

-- A write of a call, on the documents as they are when it is made.
pub data Write : Type 0 where
  insert : Actor → CreateBookingInput → Plan → Write
  withdraw : Booking → Write
  cancel : ℕ → ℕ → CancelledBy → Option String → Write
  move : ℕ → RescheduleBookingInput → Availability → Write
  complete : ℕ → Write

abbrev pub write : Write → Db → Db
write (insert actor input plan) db = final (create_document (new_booking actor input plan) db)
write (withdraw b) db = final (stand_down b db)
write (cancel now id role reason) db = record db {
  bookings = change (λ b. b.id == id) (cancelled_booking now role reason) db.bookings;
}
write (move id input availability) db =
    final (move_booking id (moved_booking input availability) db)
write (complete now) db = final (sweep now db)

pub data Interleaving (start : Db) : Db → Type 0 where
  start_of : Interleaving start start
  then_write : {db : Db} (w : Write) → Interleaving start db → Interleaving start (write w db)

-- Every booking has its own key exactly while it is active, and no two have the same.
pub record HasOwnKeys (bookings : List Booking) : Type 0 where
  pub keyed : (b : Booking) → Memᴰ b bookings → IsKeyed b
  pub apart :
      (b c : Booking)
      → Memᴰ b bookings
      → Memᴰ c bookings
      → b.id ≢ c.id
      → is_active b ≡ true
      → is_active c ≡ true
      → b.hr_user_id ≡ c.hr_user_id
      → b.start_at ≢ c.start_at

-- A booking whose key nobody else holds starts apart from every other active booking.
free_key :
    (bookings : List Booking) (n c : Booking)
    → HasOwnKeys bookings
    → is_key_held (build_slot_key n.hr_user_id n.start_at) n.id bookings ≡ false
    → Memᴰ c bookings
    → n.id ≢ c.id
    → is_active c ≡ true
    → n.hr_user_id ≡ c.hr_user_id
    → n.start_at ≢ c.start_at
unfolding is_key_held build_slot_key
free_key bookings n c h free m d active same e =
    let none_held = any-false _ bookings free m in
    elim (h.keyed c m) [ inl (_, key) ↦ ground (arith, none_held, key) | inr (idle, _) ↦ cc ]

keep-HasOwnKeys : (p : Booking → Bool) (bs : List Booking) → HasOwnKeys bs → HasOwnKeys (keep p bs)
keep-HasOwnKeys p bs h = record {
  keyed = λ b m. h.keyed b (mem-keep p bs m).0;
  apart = λ b c m l. h.apart b c (mem-keep p bs m).0 (mem-keep p bs l).0;
}

-- An update that leaves what it selects inactive and without a key.
change-HasOwnKeys :
    (p : Booking → Bool) (f : Booking → Booking) (bs : List Booking)
    → ((b : Booking) → (is_active (f b) ≡ false) × ((f b).slot_key ≡ none))
    → HasOwnKeys bs
    → HasOwnKeys (change p f bs)
change-HasOwnKeys p f bs off h = record {
  keyed = λ b m. elim (mem-change p f bs m) [
    | inl (old, _) ↦ h.keyed b old
    | inr (a, _, _, e) ↦ rw e (inr (off a))
  ];
  apart = λ b c m l d q r s. elim (mem-change p f bs m) [
    | inl (old, _) ↦ elim (mem-change p f bs l) [
      | inl (old', _) ↦ h.apart b c old old' d q r s
      | inr (a, _, _, e) ↦ absurd (let k = (off a).0 in let k' : is_active c ≡ false = rw e k in cc)
    ]
    | inr (a, _, _, e) ↦ absurd (let k = (off a).0 in let k' : is_active b ≡ false = rw e k in cc)
  ];
}

append-HasOwnKeys :
    (bs : List Booking) (n : Booking)
    → HasOwnKeys bs
    → (is_active n ≡ true)
      × (n.slot_key ≡ some (record { hr_user_id = n.hr_user_id; start_at = n.start_at }))
    → is_key_held (build_slot_key n.hr_user_id n.start_at) n.id bs ≡ false
    → HasOwnKeys (bs ++ n ∷ [])
append-HasOwnKeys bs n h own free = record {
  keyed = λ b m. elim (Memᴰ.append_cases bs m) [
    | inl old ↦ h.keyed b old
    | inr new ↦ rw (Memᴰ.eq_of_singleton new) (inl own)
  ];
  apart = λ b c m l d q r s. elim (Memᴰ.append_cases bs m) [
    | inl old ↦ elim (Memᴰ.append_cases bs l) [
      | inl old' ↦ h.apart b c old old' d q r s
      | inr new ↦
          let same = Memᴰ.eq_of_singleton new in
          (λ e.
            free_key bs n b h free old (λ i. d (rw same (sym i))) q (rw (← same) (sym s))
              (rw (← same) (sym e)))
    ]
    | inr new ↦ elim (Memᴰ.append_cases bs l) [
      | inl old' ↦
          let same = Memᴰ.eq_of_singleton new in
          (λ e. free_key bs n c h free old' (λ i. d (rw same i)) r (rw (← same) s) (rw (← same) e))
      | inr new' ↦ absurd (
          d (
            ap (λ (x : Booking). x.id)
              (Memᴰ.eq_of_singleton new ∙ sym (Memᴰ.eq_of_singleton new'))))
    ]
  ];
}

-- An update of the bookings with one id to a booking whose key nobody else holds.
move-HasOwnKeys :
    (bs : List Booking) (n : Booking)
    → HasOwnKeys bs
    → (is_active n ≡ true)
      × (n.slot_key ≡ some (record { hr_user_id = n.hr_user_id; start_at = n.start_at }))
    → is_key_held (build_slot_key n.hr_user_id n.start_at) n.id bs ≡ false
    → HasOwnKeys (change (λ b. b.id == n.id) (λ _. n) bs)
move-HasOwnKeys bs n h own free = record {
  keyed = λ b m. elim (mem-change (λ b. b.id == n.id) (λ _. n) bs m) [
    | inl (old, _) ↦ h.keyed b old
    | inr (_, _, _, e) ↦ rw e (inl own)
  ];
  apart = λ b c m l d q r s. elim (mem-change (λ b. b.id == n.id) (λ _. n) bs m) [
    | inl (old, _) ↦ elim (mem-change (λ b. b.id == n.id) (λ _. n) bs l) [
      | inl (old', _) ↦ h.apart b c old old' d q r s
      | inr (_, _, _, same) ↦ (λ e.
          free_key bs n b h free old (λ i. d (rw same (sym i))) q (rw (← same) (sym s))
            (rw (← same) (sym e)))
    ]
    | inr (_, _, _, same) ↦ elim (mem-change (λ b. b.id == n.id) (λ _. n) bs l) [
      | inl (old', _) ↦
          (λ e. free_key bs n c h free old' (λ i. d (rw same i)) r (rw (← same) s) (rw (← same) e))
      | inr (_, _, _, same') ↦ absurd (d (ap (λ (x : Booking). x.id) (same ∙ sym same')))
    ]
  ];
}

create_document-HasOwnKeys :
    (actor : Actor) (input : CreateBookingInput) (plan : Plan) (db : Db)
    → HasOwnKeys db.bookings
    → HasOwnKeys (final (create_document (new_booking actor input plan) db)).bookings
unfolding create_document build_slot_key
create_document-HasOwnKeys actor input plan db h =
    let n = new_booking actor input plan db.next_id in
    elim (Bool-cases (is_key_held (build_slot_key n.hr_user_id n.start_at) n.id db.bookings)) [
      | inl e ↦ rw e h
      | inr e ↦ rw e (append-HasOwnKeys db.bookings n h (refl, refl) e)
    ]

move_booking-HasOwnKeys :
    (id : ℕ) (input : RescheduleBookingInput) (availability : Availability) (db : Db)
    → HasOwnKeys db.bookings
    → HasOwnKeys (final (move_booking id (moved_booking input availability) db)).bookings
unfolding move_booking build_slot_key
move_booking-HasOwnKeys id input availability db h =
    elim (Option-cases (find_first (λ b. b.id == id && is_active b) db.bookings)) [
      | inl e ↦ rw e h
      | inr (b, e) ↦
          let n = moved_booking input availability b in
          let active : is_active b ≡ true =
            ground (arith, find_first-some (λ b. b.id == id && is_active b) db.bookings b e) in
          elim (Bool-cases
            (is_key_held (build_slot_key n.hr_user_id n.start_at) n.id db.bookings)) [
              | inl k ↦ rw (e, k) h
              | inr k ↦ rw (e, k) (move-HasOwnKeys db.bookings n h (active, refl) k)
            ]
    ]

stand_down-HasOwnKeys :
    (b : Booking) (db : Db) → HasOwnKeys db.bookings → HasOwnKeys (final (stand_down b db)).bookings
unfolding stand_down
stand_down-HasOwnKeys b db h =
    elim (Bool-cases (
      is_older
        (find_overlapping_booking (of_consultant b.hr_user_id) b.start_at b.end_at (some b.id) db)
        b)) [
          | inl e ↦ rw e (keep-HasOwnKeys (λ c. not (c.id == b.id)) db.bookings h)
          | inr e ↦ rw e h
        ]

write-HasOwnKeys : (w : Write) (db : Db) → HasOwnKeys db.bookings → HasOwnKeys (write w db).bookings
unfolding sweep
write-HasOwnKeys (insert actor input plan) db h = create_document-HasOwnKeys actor input plan db h
write-HasOwnKeys (withdraw b) db h = stand_down-HasOwnKeys b db h
write-HasOwnKeys (cancel now id role reason) db h =
    change-HasOwnKeys (λ b. b.id == id) (cancelled_booking now role reason) db.bookings
      (λ b. (refl, refl)) h
write-HasOwnKeys (move id input availability) db h =
    move_booking-HasOwnKeys id input availability db h
write-HasOwnKeys (complete now) db h =
    change-HasOwnKeys (is_over now) (completed now) db.bookings (λ b. (refl, refl)) h

-- From a state where it holds, and however the writes of concurrent calls interleave, whatever their
-- checks have seen: a booking has its own slot key exactly while it is active, and two different active
-- bookings of one consultant never start at the same time.
pub Interleaving-HasOwnKeys :
    (start db : Db) → HasOwnKeys start.bookings → Interleaving start db → HasOwnKeys db.bookings
Interleaving-HasOwnKeys start db h start_of = h
Interleaving-HasOwnKeys start db h (then_write {db = d} w r) =
    write-HasOwnKeys w d (Interleaving-HasOwnKeys start d h r)
