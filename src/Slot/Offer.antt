-- ===== src/Slot/Offer.antt =====
-- What it is for a slot to be offered, and that `generateSlots` returns just the offered slots.
use mathlib.Core.List.Memᴰ
use hr_booking_server.Base.{
  ℕ, suc, ◌+◌, ◌<◌, ◌≡◌, refl, sym, ap, inl, inr, String, false, Option, none, some, List, Memᴰ,
  arith, Bool-cases, any,
}
use hr_booking_server.DateTime.{Luxon, time_to_minutes, weekday_of_date_key, wall_time_to_utc}
use hr_booking_server.Models.{WorkingInterval, BlockedDate}
use hr_booking_server.Slot.{Search, intervals_of, blocks_of, blocks_whole_day, is_blocked}
use hr_booking_server.Slot.Offsets.{OnGrid, offsets-OnGrid, OnGrid-offsets}
use hr_booking_server.Slot.Loop.{
  option_list, mem-collect, collect-mem, offset_starts, times_starts, interval_starts, hours_starts,
  day_starts,
}

module _ (lux : Luxon) (w : Search) where
  open w.config use {timezone, slot_duration_minutes, buffer_minutes, weekly_hours, blocked_dates}

  -- The working hours of a date propose a start: a point on the grid of one of the day's intervals,
  -- with room for a whole slot, on a day with no whole-day block and outside its other blocks,
  -- which stands for an instant in the zone.
  pub record IsProposed (date_key : String) (t : ℕ) : Type 0 where
    pub intervals : List WorkingInterval
    pub works :
        intervals_of (weekday_of_date_key lux date_key timezone) weekly_hours ≡ some intervals
    pub open_day : any blocks_whole_day (blocks_of date_key blocked_dates) ≡ false
    pub interval : WorkingInterval
    pub listed : Memᴰ interval intervals
    pub start : ℕ
    pub start_time : time_to_minutes interval.start ≡ some start
    pub end : ℕ
    pub end_time : time_to_minutes interval.end ≡ some end
    pub offset : ℕ
    pub grid :
        OnGrid slot_duration_minutes (slot_duration_minutes + buffer_minutes) end start offset
    pub unblocked :
        is_blocked (blocks_of date_key blocked_dates) offset (offset + slot_duration_minutes)
        ≡ false
    pub resolved : wall_time_to_utc lux date_key offset timezone ≡ some t

  mem-option_list : (o : Option ℕ) {t : ℕ} → Memᴰ t (option_list o) → o ≡ some t
  mem-option_list none m = absurd (Memᴰ.not-nil m)
  mem-option_list (some u) m = ap some (sym (Memᴰ.eq_of_singleton m))

  mem-offset_starts :
      (date_key : String) (bs : List BlockedDate) (offset t : ℕ)
      → Memᴰ t (offset_starts lux w date_key bs offset)
      → (is_blocked bs offset (offset + slot_duration_minutes) ≡ false)
        × (wall_time_to_utc lux date_key offset timezone ≡ some t)
  unfolding offset_starts
  mem-offset_starts d bs o t m = elim (Bool-cases (is_blocked bs o (o + slot_duration_minutes))) [
    | inl e ↦ absurd (Memᴰ.not-nil (rw (e, offset_starts) at m))
    | inr e ↦ (e, mem-option_list _ (rw (e, offset_starts) at m))
  ]

  offset_starts-mem :
      (date_key : String) (bs : List BlockedDate) (offset t : ℕ)
      → is_blocked bs offset (offset + slot_duration_minutes) ≡ false
      → wall_time_to_utc lux date_key offset timezone ≡ some t
      → Memᴰ t (offset_starts lux w date_key bs offset)
  unfolding offset_starts
  offset_starts-mem d bs o t e r = rw (e, r) (Memᴰ.head refl)

  -- The times of one interval: their parsed minutes, and an offset between them.
  record Times (d : String) (bs : List BlockedDate) (a b : Option ℕ) (t : ℕ) : Type 0 where
    start : ℕ
    start_time : a ≡ some start
    end : ℕ
    end_time : b ≡ some end
    offset : ℕ
    grid : OnGrid slot_duration_minutes (slot_duration_minutes + buffer_minutes) end start offset
    unblocked : is_blocked bs offset (offset + slot_duration_minutes) ≡ false
    resolved : wall_time_to_utc lux d offset timezone ≡ some t

  mem-times_starts :
      (d : String) (bs : List BlockedDate) (a b : Option ℕ) (t : ℕ)
      → Memᴰ t (times_starts lux w d bs a b)
      → Times d bs a b t
  mem-times_starts d bs (some a) (some b) t m =
      let (o, n, k) = mem-collect (offset_starts lux w d bs) _ m in
      let (clear, at) = mem-offset_starts d bs o t k in
      record {
        start = a;
        start_time = refl;
        end = b;
        end_time = refl;
        offset = o;
        grid = offsets-OnGrid _ _ b (suc b) a o n;
        unblocked = clear;
        resolved = at;
      }
  mem-times_starts d bs (some a) none t m = absurd (Memᴰ.not-nil m)
  mem-times_starts d bs none _ t m = absurd (Memᴰ.not-nil m)

  mem-hours_starts :
      (d : String) (t : ℕ) (o : Option (List WorkingInterval))
      → intervals_of (weekday_of_date_key lux d timezone) weekly_hours ≡ o
      → Memᴰ t (hours_starts lux w d (blocks_of d blocked_dates) o)
      → IsProposed d t
  unfolding interval_starts
  mem-hours_starts d t none e m = absurd (Memᴰ.not-nil m)
  mem-hours_starts d t (some is) e m =
      elim (Bool-cases (any blocks_whole_day (blocks_of d blocked_dates))) [
        | inl q ↦ absurd (Memᴰ.not-nil (rw q at m))
        | inr q ↦
            let (i, n, k) =
              mem-collect (interval_starts lux w d (blocks_of d blocked_dates)) is (rw q at m) in
            let x = mem-times_starts d _ _ _ t k in
            record {
              intervals = is;
              works = e;
              open_day = q;
              interval = i;
              listed = n;
              start = x.start;
              start_time = x.start_time;
              end = x.end;
              end_time = x.end_time;
              offset = x.offset;
              grid = x.grid;
              unblocked = x.unblocked;
              resolved = x.resolved;
            }
      ]

  pub mem-day_starts : (d : String) (t : ℕ) → Memᴰ t (day_starts lux w d) → IsProposed d t
  unfolding day_starts
  mem-day_starts d t m = mem-hours_starts d t _ refl m

  pub day_starts-mem :
      0 < slot_duration_minutes
      → (d : String) (t : ℕ) → IsProposed d t
      → Memᴰ t (day_starts lux w d)
  unfolding day_starts interval_starts
  day_starts-mem pos d t p =
      rw (p.works, p.open_day)
        (collect-mem (interval_starts lux w d (blocks_of d blocked_dates)) p.intervals p.listed (
          rw (interval_starts, p.start_time, p.end_time)
            (collect-mem (offset_starts lux w d (blocks_of d blocked_dates)) _
              (OnGrid-offsets _ _ p.end (omega arith) p.grid.index (suc p.end) p.start p.offset
                (omega arith) p.grid.at_index p.grid.fits)
              (offset_starts-mem d _ p.offset t p.unblocked p.resolved))))
