-- ===== src/Slot/Generate.antt =====
-- `generateSlots` and `isOfferedSlot` against the description of an offered slot.
use mathlib.Core.List.Memᴰ
use hr_booking_server.Base.{
  ℕ, ◌+◌, ◌*◌, ◌≤◌, ◌<◌, ◌≡◌, refl, inl, inr, ◌↔◌, String, true, false, List, [], Memᴰ, arith, leb,
  Bool-cases, any,
}
use hr_booking_server.DateTime.{Luxon, overlaps, date_keys_between}
use hr_booking_server.Slot.{
  SlotConfig, GenerateSlotsOptions, Progress, Slot, window, generate_slots, sort_slots,
}
use hr_booking_server.Slot.Loop.{
  collect, mem-collect, collect-mem, add_all, day_starts, scan_days-all,
}
use hr_booking_server.Slot.Fill.{
  slot_at, IsOpen, IsConsistent, add_all-IsConsistent, add_all-mem, add_all-only,
}
use hr_booking_server.Slot.Sort.{
  IsAscending, mem-sort_slots, sort_slots-mem, sort_slots-IsAscending,
}
use hr_booking_server.Slot.Offer.{IsProposed, mem-day_starts, day_starts-mem}

module _ (lux : Luxon) (config : SlotConfig) (options : GenerateSlotsOptions) where
  -- A slot is offered: its start is proposed by a date of the window; it lies in the range that was
  -- asked for, after the notice period and before the booking horizon; it has the configured
  -- length, and meets no busy interval.
  pub record IsOffered (s : Slot) : Type 0 where
    pub date_key : String
    pub in_window : Memᴰ date_key (
        date_keys_between lux
          (window config options).earliest
          (window config options).latest
          config.timezone)
    pub proposed : IsProposed lux (window config options) date_key s.start_at
    pub from_range : options.range_start ≤ s.start_at
    pub from_notice : options.now + config.min_notice_minutes * 60_000 ≤ s.start_at
    pub to_range : s.start_at < options.range_end
    pub to_horizon : s.start_at < options.now + config.max_advance_days * 1440 * 60_000
    pub length : s.end_at ≡ s.start_at + config.slot_duration_minutes * 60_000
    pub free : any (λ b. overlaps s.start_at s.end_at b.start_at b.end_at) options.busy ≡ false

  abbrev start : Progress
  start = record { seen = []; slots = [] }

  start-IsConsistent : IsConsistent lux (window config options) start
  start-IsConsistent = record { seen_slots = tt; slots_seen = tt; distinct = tt }

  abbrev days : List String
  days =
      date_keys_between lux (window config options).earliest (window config options).latest
        config.timezone

  abbrev filled : Progress
  filled =
      add_all lux (window config options) (collect (day_starts lux (window config options)) days)
        start

  generate_slots-filled :
      leb (window config options).latest (window config options).earliest ≡ false
      → generate_slots lux config options ≡ sort_slots filled.slots
  unfolding generate_slots
  generate_slots-filled e = rw (e, scan_days-all lux (window config options) days start)

  generate_slots-empty :
      leb (window config options).latest (window config options).earliest ≡ true
      → generate_slots lux config options ≡ []
  unfolding generate_slots
  generate_slots-empty e = rw e

  -- `generateSlots` returns its slots in strictly ascending order of their starts, so never one twice.
  pub generate_slots-IsAscending : IsAscending (generate_slots lux config options)
  generate_slots-IsAscending =
      elim (Bool-cases (leb (window config options).latest (window config options).earliest)) [
        | inl e ↦ rw (generate_slots-empty e) tt
        | inr e ↦ rw (generate_slots-filled e) (
            sort_slots-IsAscending filled.slots
              (add_all-IsConsistent lux (window config options) _ start
                start-IsConsistent).distinct)
      ]

  IsOffered-of_IsOpen :
      (d : String) (t : ℕ)
      → Memᴰ d days
      → IsProposed lux (window config options) d t
      → IsOpen lux (window config options) t
      → IsOffered (slot_at lux (window config options) t)
  unfolding window
  IsOffered-of_IsOpen d t m p o = record {
    date_key = d;
    in_window = m;
    proposed = p;
    from_range = ground (arith, o.after);
    from_notice = ground (arith, o.after);
    to_range = ground (arith, o.before);
    to_horizon = ground (arith, o.before);
    length = refl;
    free = o.free;
  }

  generate_slots-IsOffered : {s : Slot} → Memᴰ s (generate_slots lux config options) → IsOffered s
  generate_slots-IsOffered {s} m =
      elim (Bool-cases (leb (window config options).latest (window config options).earliest)) [
        | inl e ↦ absurd (Memᴰ.not-nil (rw (generate_slots-empty e) at m))
        | inr e ↦
            elim (add_all-only lux (window config options) _ start
              (mem-sort_slots filled.slots (rw (generate_slots-filled e) at m))) [
                | inl none_yet ↦ absurd (Memᴰ.not-nil none_yet)
                | inr (t, n, q, o) ↦
                    let (d, k, p) = mem-collect (day_starts lux (window config options)) days n in
                    rw q (
                      IsOffered-of_IsOpen d t k (mem-day_starts lux (window config options) d t p)
                        o)
              ]
      ]

  IsOffered-IsOpen :
      (s : Slot)
      → IsOffered s
      → IsOpen lux (window config options) s.start_at
        × (s ≡ slot_at lux (window config options) s.start_at)
        × (leb (window config options).latest (window config options).earliest ≡ false)
  unfolding window
  IsOffered-IsOpen s o = (
    record {
      after = ground (arith, o.from_range, o.from_notice);
      before = ground (arith, o.to_range, o.to_horizon);
      free = rw o.length at o.free;
    },
    ground (arith, o.length),
    ground (arith, o.from_range, o.from_notice, o.to_range, o.to_horizon),
  )

  IsOffered-generate_slots :
      0 < config.slot_duration_minutes
      → (s : Slot) → IsOffered s
      → Memᴰ s (generate_slots lux config options)
  unfolding window
  IsOffered-generate_slots pos s o =
      let (open_at, same, e) = IsOffered-IsOpen s o in
      rw (generate_slots-filled e, same)
        (sort_slots-mem filled.slots (
          add_all-mem lux (window config options) _ start s.start_at start-IsConsistent
            (collect-mem (day_starts lux (window config options)) days o.in_window
              (day_starts-mem lux (window config options) pos o.date_key s.start_at o.proposed))
            open_at))

  -- With a slot duration that is not zero, `generateSlots` returns exactly the offered slots.
  pub generate_slots_iff :
      0 < config.slot_duration_minutes
      → (s : Slot) → Memᴰ s (generate_slots lux config options) ↔ IsOffered s
  generate_slots_iff pos s = (generate_slots-IsOffered, IsOffered-generate_slots pos s)
