-- ===== src/Slot/Loop.antt =====
-- The nested loops of `generateSlots` as one pass over the starts that they propose.
use mathlib.Core.List.Memᴰ
use hr_booking_server.Base.{
  ℕ, zero, suc, ◌+◌, ◌≡◌, refl, inl, inr, String, Option, none, some, List, [], ◌∷◌, ◌++◌, Memᴰ,
  leb, Bool-cases, if◌then◌else◌, any,
}
use hr_booking_server.DateTime.{Luxon, time_to_minutes, wall_time_to_utc, weekday_of_date_key}
use hr_booking_server.Models.{WorkingInterval, BlockedDate}
use hr_booking_server.Slot.{
  Search, Progress, add_slot, add_resolved, try_offset, scan_offsets, scan_times, scan_intervals,
  scan_hours, scan_days, is_blocked, blocks_whole_day, blocks_of, intervals_of,
}
use hr_booking_server.Slot.Offsets.{offsets}

abbrev pub option_list {ℓ} : {A : Type ℓ} → Option A → List A
option_list none = []
option_list (some a) = a ∷ []

unfoldable pub collect {ℓ κ} : {A : Type ℓ} {B : Type κ} → (A → List B) → List A → List B
collect f [] = []
collect f (x ∷ xs) = f x ++ collect f xs

pub mem-collect {ℓ κ} :
    {A : Type ℓ} {B : Type κ} (f : A → List B) {b : B} (xs : List A)
    → Memᴰ b (collect f xs)
    → (a : A) × Memᴰ a xs × Memᴰ b (f a)
unfolding collect
mem-collect f [] m = absurd (Memᴰ.not-nil m)
mem-collect f (x ∷ xs) m = elim (Memᴰ.append_cases (f x) m) [
  | inl here ↦ (x, Memᴰ.head refl, here)
  | inr later ↦ let (a, k, n) = mem-collect f xs later in (a, Memᴰ.tail k, n)
]

pub collect-mem {ℓ κ} :
    {A : Type ℓ} {B : Type κ} (f : A → List B) {a : A} {b : B} (xs : List A)
    → Memᴰ a xs
    → Memᴰ b (f a)
    → Memᴰ b (collect f xs)
unfolding collect
collect-mem f [] m n = absurd (Memᴰ.not-nil m)
collect-mem f {b} (x ∷ xs) (Memᴰ.head e) n = Memᴰ.append_left (collect f xs) (rw e at n)
collect-mem f (x ∷ xs) (Memᴰ.tail m) n = Memᴰ.append_right (f x) (collect-mem f xs m n)

module _ (lux : Luxon) (w : Search) where
  open w use {config}

  unfoldable pub add_all : List ℕ → Progress → Progress
  add_all [] p = p
  add_all (t ∷ ts) p = add_all ts (add_slot lux w t p)

  add_all-append :
      (ts us : List ℕ) (p : Progress) → add_all (ts ++ us) p ≡ add_all us (add_all ts p)
  unfolding add_all
  add_all-append [] us p = refl
  add_all-append (t ∷ ts) us p = add_all-append ts us (add_slot lux w t p)

  -- What one offset, one interval and one day propose.
  unfoldable pub offset_starts : String → List BlockedDate → ℕ → List ℕ
  offset_starts date_key blocks offset =
      if is_blocked blocks offset (offset + config.slot_duration_minutes)
      then []
      else option_list (wall_time_to_utc lux date_key offset config.timezone)

  abbrev pub grid : ℕ → ℕ → List ℕ
  grid start end =
      offsets config.slot_duration_minutes (config.slot_duration_minutes + config.buffer_minutes)
        end (suc end) start

  abbrev pub times_starts : String → List BlockedDate → Option ℕ → Option ℕ → List ℕ
  times_starts date_key blocks (some start) (some end) =
      collect (offset_starts date_key blocks) (grid start end)
  times_starts date_key blocks _ _ = []

  unfoldable pub interval_starts : String → List BlockedDate → WorkingInterval → List ℕ
  interval_starts date_key blocks i =
      times_starts date_key blocks (time_to_minutes i.start) (time_to_minutes i.end)

  abbrev pub hours_starts : String → List BlockedDate → Option (List WorkingInterval) → List ℕ
  hours_starts date_key blocks none = []
  hours_starts date_key blocks (some intervals) =
      if any blocks_whole_day blocks
      then []
      else collect (interval_starts date_key blocks) intervals

  unfoldable pub day_starts : String → List ℕ
  day_starts date_key =
      hours_starts date_key (blocks_of date_key config.blocked_dates)
        (intervals_of (weekday_of_date_key lux date_key config.timezone) config.weekly_hours)

  add_resolved-all :
      (o : Option ℕ) (p : Progress) → add_resolved lux w o p ≡ add_all (option_list o) p
  unfolding add_all
  add_resolved-all none p = refl
  add_resolved-all (some t) p = refl

  try_offset-all :
      (d : String) (bs : List BlockedDate) (o : ℕ) (p : Progress)
      → try_offset lux w d bs o p ≡ add_all (offset_starts d bs o) p
  unfolding try_offset offset_starts add_all
  try_offset-all d bs o p = elim (Bool-cases (is_blocked bs o (o + config.slot_duration_minutes))) [
    | inl e ↦ rw e
    | inr e ↦ rw e (add_resolved-all (wall_time_to_utc lux d o config.timezone) p)
  ]

  scan_offsets-all :
      (d : String) (bs : List BlockedDate) (fuel o end : ℕ) (p : Progress)
      → scan_offsets lux w d bs fuel o end p
        ≡ add_all
            (collect (offset_starts d bs) (
              offsets config.slot_duration_minutes
                (config.slot_duration_minutes + config.buffer_minutes)
                end
                fuel
                o))
            p
  unfolding scan_offsets collect offsets add_all
  scan_offsets-all d bs zero o end p = refl
  scan_offsets-all d bs (suc fuel) o end p =
      elim (Bool-cases (leb (o + config.slot_duration_minutes) end)) [
        | inl e ↦ rw e (
            rw (
              scan_offsets-all d bs fuel
                  (o + (config.slot_duration_minutes + config.buffer_minutes)) end
                  (try_offset lux w d bs o p),
              try_offset-all d bs o p,
              add_all-append (offset_starts d bs o),
            ))
        | inr e ↦ rw e
      ]

  scan_times-all :
      (d : String) (bs : List BlockedDate) (a b : Option ℕ) (p : Progress)
      → scan_times lux w d bs a b p ≡ add_all (times_starts d bs a b) p
  unfolding add_all
  scan_times-all d bs (some a) (some b) p = scan_offsets-all d bs (suc b) a b p
  scan_times-all d bs (some a) none p = refl
  scan_times-all d bs none _ p = refl

  scan_intervals-all :
      (d : String) (bs : List BlockedDate) (is : List WorkingInterval) (p : Progress)
      → scan_intervals lux w d bs is p ≡ add_all (collect (interval_starts d bs) is) p
  unfolding scan_intervals collect add_all interval_starts
  scan_intervals-all d bs [] p = refl
  scan_intervals-all d bs (i ∷ is) p = rw (
    scan_intervals-all d bs is _,
    scan_times-all d bs (time_to_minutes i.start) (time_to_minutes i.end) p,
    add_all-append (interval_starts d bs i),
  )

  scan_hours-all :
      (d : String) (bs : List BlockedDate) (o : Option (List WorkingInterval)) (p : Progress)
      → scan_hours lux w d bs o p ≡ add_all (hours_starts d bs o) p
  unfolding scan_hours add_all
  scan_hours-all d bs none p = refl
  scan_hours-all d bs (some is) p = elim (Bool-cases (any blocks_whole_day bs)) [
    | inl e ↦ rw e
    | inr e ↦ rw e (scan_intervals-all d bs is p)
  ]

  -- The loop over the days adds, in order, what the days propose.
  pub scan_days-all :
      (ds : List String) (p : Progress) → scan_days lux w ds p ≡ add_all (collect day_starts ds) p
  unfolding scan_days collect add_all day_starts
  scan_days-all [] p = refl
  scan_days-all (d ∷ ds) p = rw (
    scan_days-all ds _,
    scan_hours-all d (blocks_of d config.blocked_dates)
        (intervals_of (weekday_of_date_key lux d config.timezone) config.weekly_hours) p,
    add_all-append (day_starts d),
  )
