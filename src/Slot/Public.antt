-- ===== src/Slot/Public.antt =====
-- `isOfferedSlot` and `getAvailableSlots`: what a client is shown, and what a booking is held to.
use mathlib.Core.List.Memᴰ
use hr_booking_server.Base.{
  ℕ, ◌+◌, ◌*◌, ◌<◌, ◌≡◌, refl, sym, ◌∙◌, inl, inr, ◌↔◌, String, true, false, List, [], ◌∷◌, Memᴰ,
  Option, none, some, arith, leb, ◌==◌, Bool-cases, Option-cases, any, any-true, any_of_mem,
  any-false, All, All-mem, map, keep-mem,
}
use hr_booking_server.DateTime.{
  Luxon, add_minutes, overlaps, wall_time_to_utc, matches_time_pattern,
}
use hr_booking_server.DateTime.Days.{HasMidnights, date_keys_between-mem, date_keys_between-dates}
use hr_booking_server.DateTime.Overlap.{overlaps-false}
use hr_booking_server.DateTime.TimeText.{matches_time_pattern-round_trip}
use hr_booking_server.Constants.{is_active_status}
use hr_booking_server.Errors.{ok}
use hr_booking_server.Models.{Availability, Booking, WorkingDay, WorkingInterval}
use hr_booking_server.Store.{Db}
use hr_booking_server.Slot.{
  GenerateSlotsOptions, Slot, window, generate_slots, is_offered_slot, to_slot_config,
  get_available_slots, busy_bookings, intervals_of,
}
use hr_booking_server.Slot.Generate.{IsOffered, generate_slots_iff}

abbrev pub instant_options : ℕ → ℕ → GenerateSlotsOptions
instant_options now t = record {
  range_start = t;
  range_end = add_minutes t 1;
  now = now;
  busy = [];
}

abbrev pub own_slot : Availability → ℕ → Slot
own_slot a t = record { start_at = t; end_at = t + a.slot_duration_minutes * 60_000 }

module _ (lux : Luxon) (availability : Availability) (now : ℕ) where
  -- With a slot duration that is not zero, `isOfferedSlot` accepts an instant exactly when the slot that starts there is offered.
  pub is_offered_slot_iff :
      0 < availability.slot_duration_minutes
      → (t : ℕ)
      → (is_offered_slot lux availability t now ≡ true)
        ↔ IsOffered lux
            (to_slot_config availability)
            (instant_options now t)
            (own_slot availability t)
  unfolding is_offered_slot
  is_offered_slot_iff pos t = (to, from)
    where
      slots : List Slot
      slots = generate_slots lux (to_slot_config availability) (instant_options now t)

      to :
          any (λ s. s.start_at == t) slots ≡ true
          → IsOffered lux
              (to_slot_config availability)
              (instant_options now t)
              (own_slot availability t)
      to e =
          let (s, m, q) = any-true (λ (s : Slot). s.start_at == t) slots e in
          let o =
            (generate_slots_iff lux (to_slot_config availability) (instant_options now t) pos s).0
              m in
          let same : s ≡ own_slot availability t = ground (arith, o.length) in rw same at o

      from :
          IsOffered lux
            (to_slot_config availability)
            (instant_options now t)
            (own_slot availability t)
          → any (λ s. s.start_at == t) slots ≡ true
      from o =
          any_of_mem (λ (s : Slot). s.start_at == t) slots
            ((generate_slots_iff lux (to_slot_config availability) (instant_options now t) pos _).1
              o)
            (ground arith)

-- The times of every working day have the form that the schema wants.
abbrev pub HasValidTimes : List WorkingDay → Type 0
HasValidTimes = All λ day.
    All (λ i. (matches_time_pattern i.start ≡ true) × (matches_time_pattern i.end ≡ true))
      day.intervals

intervals_of-valid :
    (weekday : ℕ) (days : List WorkingDay) (intervals : List WorkingInterval)
    → HasValidTimes days
    → intervals_of weekday days ≡ some intervals
    → All
        (λ i. (matches_time_pattern i.start ≡ true) × (matches_time_pattern i.end ≡ true))
        intervals
unfolding intervals_of
intervals_of-valid w [] is v e = cc
intervals_of-valid w (day ∷ days) is v e = elim (Option-cases (intervals_of w days)) [
  | inl q ↦ elim (Bool-cases (day.weekday == w)) [
    | inl k ↦ let same : day.intervals ≡ is = ground (arith, q, k) in rw (← same) v.0
    | inr k ↦
        let bad : ◌≡◌ {A = Option (List WorkingInterval)} none (some is) = ground (arith, q, k) in
        cc
  ]
  | inr (js, q) ↦
      let same : js ≡ is = ground (arith, q) in rw (← same) (intervals_of-valid w days js v.1 q)
]

-- Luxon's answer for a time of a date of the zone is an instant of that date.
abbrev pub KeepsDate : Luxon → String → Type 0
KeepsDate lux zone =
    (day minutes t : ℕ)
    → minutes < 1440
    → wall_time_to_utc lux (lux.to_format zone day) minutes zone ≡ some t
    → lux.to_format zone t ≡ lux.to_format zone day

module _ (lux : Luxon) (availability : Availability) (from to now : ℕ) (db : Db) where
  abbrev pub range_options : GenerateSlotsOptions
  range_options = record {
    range_start = from;
    range_end = to;
    now = now;
    busy =
        map (λ (b : Booking). record { start_at = b.start_at; end_at = b.end_at })
          (busy_bookings availability.hr_user_id from to db.bookings);
  }

  shown :
      (slots : List Slot)
      → get_available_slots lux availability from to now db ≡ ok slots
      → slots ≡ generate_slots lux (to_slot_config availability) range_options
  unfolding get_available_slots
  shown slots e = ground arith

  module _ {slots : List Slot} (pos : 0 < availability.slot_duration_minutes)
      (e : get_available_slots lux availability from to now db ≡ ok slots) {s : Slot}
      (m : Memᴰ s slots) where
    shown-IsOffered : IsOffered lux (to_slot_config availability) range_options s
    unfolding to_slot_config
    shown-IsOffered =
        (generate_slots_iff lux (to_slot_config availability) range_options pos s).0
          (rw (shown slots e) at m)

    pub get_available_slots-length :
        s.end_at ≡ add_minutes s.start_at availability.slot_duration_minutes
    unfolding to_slot_config add_minutes
    get_available_slots-length = shown-IsOffered.length

    -- With a slot duration that is not zero, a slot that `getAvailableSlots` shows does not overlap any active booking of the consultant
    -- that starts before the end of the range.
    pub get_available_slots-free :
        (b : Booking)
        → Memᴰ b db.bookings
        → b.hr_user_id ≡ availability.hr_user_id
        → is_active_status b.status ≡ true
        → b.start_at < to
        → overlaps s.start_at s.end_at b.start_at b.end_at ≡ false
    unfolding busy_bookings
    get_available_slots-free b n own active early = elim (Bool-cases (leb b.end_at from)) [
      | inl over ↦
          overlaps-false s.start_at s.end_at b.start_at b.end_at
            (inr (ground (arith, shown-IsOffered.from_range)))
      | inr later ↦
          any-false _ _ shown-IsOffered.free (Memᴰ.map _ (keep-mem _ db.bookings n (ground arith)))
    ]

    module _ (law : HasMidnights lux availability.timezone)
        (dates : KeepsDate lux availability.timezone)
        (valid : HasValidTimes availability.weekly_hours) where
      shown-date : lux.to_format availability.timezone s.start_at ≡ shown-IsOffered.date_key
      unfolding to_slot_config window
      shown-date =
          let p = shown-IsOffered.proposed in
          let times =
            All-mem _ p.intervals (intervals_of-valid _ availability.weekly_hours _ valid p.works)
              p.listed in
          let (k, parsed, below, _) = matches_time_pattern-round_trip p.interval.end times.1 in
          let (day, listed) =
            date_keys_between-dates lux availability.timezone
              (window (to_slot_config availability) range_options).earliest
              (window (to_slot_config availability) range_options).latest shown-IsOffered.date_key
              shown-IsOffered.in_window in
          dates day p.offset s.start_at (ground (arith, p.end_time, p.grid.fits))
            (rw listed at p.resolved)
          ∙ sym listed

      -- A slot that `getAvailableSlots` shows is accepted by `isOfferedSlot` at the same moment, if
      -- the zone's days begin at midnight, luxon keeps the date of a wall time, the schedule has
      -- valid times, and the slot duration is not zero.
      pub get_available_slots-is_offered_slot :
          is_offered_slot lux availability s.start_at now ≡ true
      unfolding to_slot_config window any
      get_available_slots-is_offered_slot =
          let o = shown-IsOffered in
          let p = o.proposed in
          (is_offered_slot_iff lux availability now pos s.start_at).1 (record {
            date_key = o.date_key;
            in_window = rw shown-date at (
                date_keys_between-mem lux availability.timezone law
                  (window (to_slot_config availability) (instant_options now s.start_at)).earliest
                  (window (to_slot_config availability) (instant_options now s.start_at)).latest
                  s.start_at (ground (arith, o.from_notice)) (ground (arith, o.to_horizon)));
            proposed = record {
              intervals = p.intervals;
              works = p.works;
              open_day = p.open_day;
              interval = p.interval;
              listed = p.listed;
              start = p.start;
              start_time = p.start_time;
              end = p.end;
              end_time = p.end_time;
              offset = p.offset;
              grid = p.grid;
              unblocked = p.unblocked;
              resolved = p.resolved;
            };
            from_range = omega arith;
            from_notice = o.from_notice;
            to_range = omega arith;
            to_horizon = o.to_horizon;
            length = refl;
            free = refl;
          })
