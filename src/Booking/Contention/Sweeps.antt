-- ===== src/Booking/Contention/Sweeps.antt =====
-- Two documents of calls of `createBooking` that meet each other and nothing else: what their inserts and sweeps
-- come to, in each order.
use mathlib.Core.List.{append_assoc}
use hr_booking_server.Base.{
  ◌≡◌, refl, ◌∙◌, ◌≢◌, inl, inr, Bool, true, false, not, none, some, List, [], ◌∷◌, ◌++◌, arith,
  Bool-cases, ◌==◌, ltb, keep, find_first, any, All,
}
use hr_booking_server.Errors.{app, slot_taken}
use hr_booking_server.Models.{Booking}
use hr_booking_server.Store.{Db, returns, throws}
use hr_booking_server.Booking.Checks.{meets, of_consultant, find_overlapping_booking}
use hr_booking_server.Booking.Service.{build_slot_key, is_key_held, insert_document, stand_down}
use hr_booking_server.Booking.Contention.{
  Schedule, one_by_one, sweep_first, sweep_second, inserted, contend, IsAnswered, if_kept,
  same_start, first_stays, second_stays,
}

find_first-skip {ℓ} :
    {A : Type ℓ} (p : A → Bool) (xs ys : List A)
    → All (λ x. p x ≡ false) xs
    → find_first p (xs ++ ys) ≡ find_first p ys
unfolding find_first
find_first-skip p [] ys h = refl
find_first-skip p (x ∷ xs) ys h = ground (arith, h.0, find_first-skip p xs ys h.1)

any-skip {ℓ} :
    {A : Type ℓ} (p : A → Bool) (xs ys : List A) → any p xs ≡ false → any p (xs ++ ys) ≡ any p ys
unfolding any
any-skip p [] ys h = refl
any-skip p (x ∷ xs) ys h = ground (arith, h, any-skip p xs ys)

keep-skip {ℓ} :
    {A : Type ℓ} (p : A → Bool) (xs ys : List A)
    → All (λ x. p x ≡ true) xs
    → keep p (xs ++ ys) ≡ xs ++ keep p ys
unfolding keep
keep-skip p [] ys h = refl
keep-skip p (x ∷ xs) ys h = ground (arith, h.0, keep-skip p xs ys h.1)

-- What meets a booking, the booking itself left out.
abbrev meets_booking : Booking → Booking → Bool
meets_booking b = meets (of_consultant b.hr_user_id) b.start_at b.end_at (some b.id)

-- A document that is clear of the stored bookings.
pub record IsFree (bookings : List Booking) (b : Booking) : Type 0 where
  pub clear : All (λ c. meets_booking b c ≡ false) bookings
  pub key_free : is_key_held (build_slot_key b.hr_user_id b.start_at) b.id bookings ≡ false
  pub fresh : All (λ c. not (c.id == b.id) ≡ true) bookings
  pub keyed : b.slot_key ≡ some (build_slot_key b.hr_user_id b.start_at)

-- Two such documents of one consultant, each of which meets the other.
module _ (db : Db) (a b : Booking) (a_free : IsFree db.bookings a) (b_free : IsFree db.bookings b)
    (differ : a.id ≢ b.id) (same_consultant : a.hr_user_id ≡ b.hr_user_id)
    (a_meets_b : meets_booking a b ≡ true) (b_meets_a : meets_booking b a ≡ true) where
  abbrev only_first : Db
  only_first = record db { bookings = db.bookings ++ a ∷ [] }

  abbrev only_second : Db
  only_second = record db { bookings = db.bookings ++ b ∷ [] }

  abbrev both : Db
  both = record db { bookings = (db.bookings ++ a ∷ []) ++ b ∷ [] }

  first-insert : inserted a db ≡ returns a only_first
  unfolding insert_document build_slot_key
  first-insert = rw (a_free.key_free) refl

  second-held :
      is_key_held (build_slot_key b.hr_user_id b.start_at) b.id (db.bookings ++ a ∷ [])
      ≡ same_start a b
  unfolding is_key_held any build_slot_key
  second-held =
      any-skip _ db.bookings (a ∷ []) b_free.key_free
      ∙ ground (arith, a_free.keyed, differ, same_consultant)

  second-refused :
      same_start a b ≡ true → inserted b only_first ≡ throws (app slot_taken) only_first
  unfolding insert_document build_slot_key
  second-refused e = rw (second-held, e) refl

  second-insert : same_start a b ≡ false → inserted b only_first ≡ returns b both
  unfolding insert_document build_slot_key
  second-insert e = rw (second-held, e) refl

  first-alone : stand_down a only_first ≡ returns a only_first
  unfolding stand_down find_overlapping_booking find_first
  first-alone =
      let seen : find_first (meets_booking a) (db.bookings ++ a ∷ []) ≡ none =
        rw (find_first-skip (meets_booking a) db.bookings (a ∷ []) a_free.clear) (ground arith) in
      rw seen refl

  second-alone : stand_down b only_second ≡ returns b only_second
  unfolding stand_down find_overlapping_booking find_first
  second-alone =
      let seen : find_first (meets_booking b) (db.bookings ++ b ∷ []) ≡ none =
        rw (find_first-skip (meets_booking b) db.bookings (b ∷ []) b_free.clear) (ground arith) in
      rw seen refl

  first-sees : find_first (meets_booking a) both.bookings ≡ some b
  unfolding find_first
  first-sees =
      let not_itself : meets_booking a a ≡ false = ground arith in
      rw
        (
          append_assoc db.bookings (a ∷ []) (b ∷ []),
          find_first-skip (meets_booking a) db.bookings (a ∷ b ∷ []) a_free.clear,
        )
        (ground (arith, not_itself, a_meets_b))

  second-sees : find_first (meets_booking b) both.bookings ≡ some a
  unfolding find_first
  second-sees =
      rw
        (
          append_assoc db.bookings (a ∷ []) (b ∷ []),
          find_first-skip (meets_booking b) db.bookings (a ∷ b ∷ []) b_free.clear,
        )
        (ground (arith, b_meets_a))

  first-older : ltb a.id b.id ≡ true → stand_down a both ≡ returns a both
  unfolding stand_down find_overlapping_booking
  first-older e =
      let younger : ltb b.id a.id ≡ false = ground (arith, e) in rw (first-sees, younger) refl

  second-younger : ltb a.id b.id ≡ true → stand_down b both ≡ throws (app slot_taken) only_first
  unfolding stand_down find_overlapping_booking keep
  second-younger e =
      let left : keep (λ c. not (c.id == b.id)) both.bookings ≡ db.bookings ++ a ∷ [] =
        rw
          (
            append_assoc db.bookings (a ∷ []) (b ∷ []),
            keep-skip (λ (c : Booking). not (c.id == b.id)) db.bookings (a ∷ b ∷ []) b_free.fresh,
          )
          (ground (arith, differ)) in
      rw (second-sees, e, left) refl

  first-younger : ltb a.id b.id ≡ false → stand_down a both ≡ throws (app slot_taken) only_second
  unfolding stand_down find_overlapping_booking keep
  first-younger e =
      let older : ltb b.id a.id ≡ true = ground (arith, e, differ) in
      let left : keep (λ c. not (c.id == a.id)) both.bookings ≡ db.bookings ++ b ∷ [] =
        rw
          (
            append_assoc db.bookings (a ∷ []) (b ∷ []),
            keep-skip (λ (c : Booking). not (c.id == a.id)) db.bookings (a ∷ b ∷ []) a_free.fresh,
          )
          (ground (arith, differ)) in
      rw (first-sees, older, left) refl

  second-older : ltb a.id b.id ≡ false → stand_down b both ≡ returns b both
  unfolding stand_down find_overlapping_booking
  second-older e = rw (second-sees, e) refl

  abbrev pub Answered : Schedule → Type 0
  Answered s =
      IsAnswered (first_stays a b s) a (contend a b s db).first
      × IsAnswered (second_stays a b) b (contend a b s db).second
      × ((contend a b s db).bookings
          ≡ db.bookings ++ (if_kept (first_stays a b s) a ++ if_kept (second_stays a b) b))

  -- The index turns the second call away.
  contend-same_start : (s : Schedule) → same_start a b ≡ true → Answered s
  unfolding contend
  contend-same_start one_by_one e = elim (Bool-cases (ltb a.id b.id)) [
    | inl o ↦ rw (e, o, first-insert, first-alone, second-refused e) ((_, refl), (_, refl), refl)
    | inr o ↦ rw (e, o, first-insert, first-alone, second-refused e) ((_, refl), (_, refl), refl)
  ]
  contend-same_start sweep_first e = elim (Bool-cases (ltb a.id b.id)) [
    | inl o ↦ rw (e, o, first-insert, second-refused e, first-alone) ((_, refl), (_, refl), refl)
    | inr o ↦ rw (e, o, first-insert, second-refused e, first-alone) ((_, refl), (_, refl), refl)
  ]
  contend-same_start sweep_second e = elim (Bool-cases (ltb a.id b.id)) [
    | inl o ↦ rw (e, o, first-insert, second-refused e, first-alone) ((_, refl), (_, refl), refl)
    | inr o ↦ rw (e, o, first-insert, second-refused e, first-alone) ((_, refl), (_, refl), refl)
  ]

  -- The ids are in the order of the inserts.
  contend-older : (s : Schedule) → same_start a b ≡ false → ltb a.id b.id ≡ true → Answered s
  unfolding contend
  contend-older one_by_one e o =
      rw (e, o, first-insert, first-alone, second-insert e, second-younger o)
        ((_, refl), (_, refl), refl)
  contend-older sweep_first e o =
      rw (e, o, first-insert, second-insert e, first-older o, second-younger o)
        ((_, refl), (_, refl), refl)
  contend-older sweep_second e o =
      rw (e, o, first-insert, second-insert e, second-younger o, first-alone)
        ((_, refl), (_, refl), refl)

  -- They are not.
  contend-younger : (s : Schedule) → same_start a b ≡ false → ltb a.id b.id ≡ false → Answered s
  unfolding contend
  contend-younger one_by_one e o =
      rw (e, o, first-insert, first-alone, second-insert e, second-older o)
        ((_, refl), (_, refl), append_assoc db.bookings (a ∷ []) (b ∷ []))
  contend-younger sweep_first e o =
      rw (e, o, first-insert, second-insert e, first-younger o, second-alone)
        ((_, refl), (_, refl), refl)
  contend-younger sweep_second e o =
      rw (e, o, first-insert, second-insert e, second-older o, first-younger o)
        ((_, refl), (_, refl), refl)

  pub contend-Answered : (s : Schedule) → Answered s
  contend-Answered s = elim (Bool-cases (same_start a b)) [
    | inl e ↦ contend-same_start s e
    | inr e ↦ elim (Bool-cases (ltb a.id b.id)) [
      | inl o ↦ contend-older s e o
      | inr o ↦ contend-younger s e o
    ]
  ]
