-- ===== src/Diary.antt =====
-- What src/services/booking.service.ts and src/jobs/lifecycle.job.ts promise of the bookings: a diary of
-- appointments, in which a time is reserved, moved, released or past. It has no statuses, keys, prices
-- or records of cancellations.
mod Views
pub mod Refines
pub mod Runs
pub mod Shown
use hr_booking_server.Base.{
  ℕ, ◌≡◌, ◌<◌, ◌⊎◌, Bool, true, false, not, List, [], ◌∷◌, ◌++◌, map, Memᴰ, keep, change, All, ltb,
  ◌==◌,
}
use hr_booking_server.DateTime.{overlaps}
use hr_booking_server.Models.{Booking}
use hr_booking_server.Booking.Checks.{is_active}

pub record Appointment : Type 0 where
  pub id : ℕ
  pub client : ℕ
  pub consultant : ℕ
  pub start_at : ℕ
  pub end_at : ℕ

abbrev pub Diary : Type 0
Diary = List Appointment

abbrev pub HasPersonOf : Appointment → Appointment → Type 0
HasPersonOf a b = (a.consultant ≡ b.consultant) ⊎ (a.client ≡ b.client)

-- The two do not meet: no person of one is in both at a time.
abbrev pub IsClear : Appointment → Appointment → Type 0
IsClear a b = HasPersonOf a b → overlaps a.start_at a.end_at b.start_at b.end_at ≡ false

abbrev pub others : ℕ → Diary → Diary
others id diary = keep (λ a. not (a.id == id)) diary

-- What the diary is asked for: a time by a client, a new time of an appointment, an appointment's end, or
-- the end of all that is over at an instant.
pub data Ask : Type 0 where
  ask_reserve : ℕ → ℕ → Ask
  ask_move : ℕ → ℕ → Ask
  ask_release : ℕ → Ask
  ask_expire : ℕ → Ask
  ask_nothing : Ask

-- The expiry is never refused.
abbrev pub can_refuse : Ask → Bool
can_refuse (ask_expire now) = false
can_refuse _ = true

-- How a diary answers to what it is asked for.
pub data DiaryStep : Ask → Diary → Diary → Type 0 where
  idle : {ask : Ask} {d : Diary} → can_refuse ask ≡ true → DiaryStep ask d d
  reserve :
      {d : Diary} {client start_at : ℕ} (a : Appointment)
      → a.client ≡ client
      → a.start_at ≡ start_at
      → a.start_at < a.end_at
      → All (IsClear a) d
      → DiaryStep (ask_reserve client start_at) d (d ++ a ∷ [])
  move :
      {d : Diary} {id start_at : ℕ} (a b : Appointment)
      → Memᴰ a d
      → a.id ≡ id
      → b.start_at ≡ start_at
      → b.id ≡ a.id
      → b.client ≡ a.client
      → b.consultant ≡ a.consultant
      → b.start_at < b.end_at
      → All (IsClear b) (others a.id d)
      → DiaryStep (ask_move id start_at) d (change (λ c. c.id == a.id) (λ _. b) d)
  release : {d : Diary} (id : ℕ) → DiaryStep (ask_release id) d (others id d)
  expire : {d : Diary} (now : ℕ) → DiaryStep (ask_expire now) d (keep (λ a. ltb now a.end_at) d)

abbrev pub appointment : Booking → Appointment
appointment b = record {
  id = b.id;
  client = b.user_id;
  consultant = b.hr_user_id;
  start_at = b.start_at;
  end_at = b.end_at;
}

-- The diary of the bookings: those that are active.
unfoldable pub diary : List Booking → Diary
diary bookings = map appointment (keep is_active bookings)
