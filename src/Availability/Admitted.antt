-- ===== src/Availability/Admitted.antt =====
-- What a schedule is that src/validators/availability.validator.ts admits.
use hr_booking_server.Base.{
  ◌≤◌, ◌≡◌, ◌≢◌, Bool, true, List, [], ◌∷◌, arith, ◌==◌, All, All-of_mem, any-false, length, ltb,
}
use hr_booking_server.DateTime.{matches_time_pattern}
use hr_booking_server.DateTime.TimeText.{matches_time_pattern-round_trip}
use hr_booking_server.Models.{WorkingInterval, WorkingDay}
use hr_booking_server.Slot.Public.{HasValidTimes}
use hr_booking_server.Availability.{UpdateAvailabilityInput}
use hr_booking_server.Availability.Validator.{
  Formats, interval_schema, is_earlier, working_day_schema, has_each_weekday_once, every,
  update_availability_schema,
}
use hr_booking_server.Availability.Disjoint.{
  IsProper, IsDisjoint, has_overlapping_intervals_iff, is_earlier-minutes,
}

interval_schema-IsProper : (i : WorkingInterval) → interval_schema i ≡ true → IsProper i
unfolding interval_schema
interval_schema-IsProper i h =
    let (s, start, _, _) = matches_time_pattern-round_trip i.start (ground (arith, h)) in
    let (e, end, _, _) = matches_time_pattern-round_trip i.end (ground (arith, h)) in
    let later : is_earlier i.start i.end ≡ true = ground (arith, h) in
    let less : ltb s e ≡ true = rw (← is_earlier-minutes i.start i.end start end) later in
    (s, e, (start, end, ground (arith, less)))

every-All {ℓ} :
    {A : Type ℓ} (p : A → Bool) (P : A → Type 0)
    → ((a : A) → p a ≡ true → P a)
    → (xs : List A) → every p xs ≡ true
    → All P xs
unfolding every
every-All p P h [] e = tt
every-All p P h (x ∷ xs) e = (h x (ground (arith, e)), every-All p P h xs (ground (arith, e)))

-- What a working day is held to.
pub record IsWorkable (day : WorkingDay) : Type 0 where
  pub weekday : day.weekday ≤ 6
  pub few : length day.intervals ≤ 4
  pub proper : All IsProper day.intervals
  pub disjoint : IsDisjoint day.intervals

working_day_schema-IsWorkable : (day : WorkingDay) → working_day_schema day ≡ true → IsWorkable day
unfolding working_day_schema
working_day_schema-IsWorkable day h =
    let proper =
      every-All interval_schema IsProper interval_schema-IsProper day.intervals
        (ground (arith, h)) in
    record {
      weekday = ground (arith, h);
      few = ground (arith, h);
      proper = proper;
      disjoint = (has_overlapping_intervals_iff day.intervals proper).0 (ground (arith, h));
    }

working_day_schema-times :
    (day : WorkingDay)
    → working_day_schema day ≡ true
    → All
        (λ i. (matches_time_pattern i.start ≡ true) × (matches_time_pattern i.end ≡ true))
        day.intervals
unfolding working_day_schema interval_schema
working_day_schema-times day h =
    every-All interval_schema _ (λ i k. (ground (arith, k), ground (arith, k))) day.intervals
      (ground (arith, h))

abbrev pub HasDistinctWeekdays : List WorkingDay → Type 0
HasDistinctWeekdays [] = Unit
HasDistinctWeekdays (day ∷ days) =
    All (λ d. d.weekday ≢ day.weekday) days × HasDistinctWeekdays days

module _ (formats : Formats) where
  has_each_weekday_once-HasDistinctWeekdays :
      (days : List WorkingDay)
      → has_each_weekday_once formats days ≡ true
      → HasDistinctWeekdays days
  unfolding has_each_weekday_once
  has_each_weekday_once-HasDistinctWeekdays [] h = tt
  has_each_weekday_once-HasDistinctWeekdays (day ∷ days) h = (
    All-of_mem _ days (λ d m.
        let other = any-false (λ d. d.weekday == day.weekday) days (ground (arith, h)) m in
        ground (arith, other)),
    has_each_weekday_once-HasDistinctWeekdays days (ground (arith, h)),
  )

  -- What a schedule is held to.
  pub record IsAdmitted (input : UpdateAvailabilityInput) : Type 0 where
    pub slot_duration_least : 15 ≤ input.slot_duration_minutes
    pub slot_duration_most : input.slot_duration_minutes ≤ 90
    pub buffer : input.buffer_minutes ≤ 60
    pub notice : input.min_notice_minutes ≤ 20_160
    pub advance_least : 1 ≤ input.max_advance_days
    pub advance_most : input.max_advance_days ≤ 180
    pub days : All IsWorkable input.weekly_hours
    pub times : HasValidTimes input.weekly_hours
    pub weekdays : HasDistinctWeekdays input.weekly_hours

  -- A schedule that the validator admits has slots of 15 to 90 minutes, a buffer of at most an hour, a notice of at
  -- most two weeks and a horizon of 1 to 180 days; each weekday stands at most once, with at most
  -- four intervals, whose times are of the day, which end after they start and do not overlap.
  pub update_availability_schema-IsAdmitted :
      (input : UpdateAvailabilityInput)
      → update_availability_schema formats input ≡ true
      → IsAdmitted input
  unfolding update_availability_schema
  update_availability_schema-IsAdmitted input h = record {
    slot_duration_least = ground (arith, h);
    slot_duration_most = ground (arith, h);
    buffer = ground (arith, h);
    notice = ground (arith, h);
    advance_least = ground (arith, h);
    advance_most = ground (arith, h);
    days =
        every-All working_day_schema IsWorkable working_day_schema-IsWorkable input.weekly_hours
          (ground (arith, h));
    times =
        every-All working_day_schema _ working_day_schema-times input.weekly_hours
          (ground (arith, h));
    weekdays = has_each_weekday_once-HasDistinctWeekdays input.weekly_hours (ground (arith, h));
  }
