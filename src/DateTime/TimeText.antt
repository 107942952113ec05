-- ===== src/DateTime/TimeText.antt =====
-- The texts HH:mm of src/utils/datetime.ts and the minutes of a day.
use hr_booking_server.Base.{
  ℕ, ◌+◌, ◌-◌, ◌*◌, ◌/◌, ◌%◌, ◌≤◌, ◌<◌, ◌≡◌, ◌∙◌, true, some, [], ◌∷◌, arith,
}
use hr_booking_server.DateTime.{
  TimeText, time_to_minutes, minutes_to_time, matches_time_pattern, two_digits, number_from,
}

two_digits_number : (n : ℕ) → n < 100 → number_from 0 (two_digits n) ≡ some n
unfolding number_from two_digits
two_digits_number n h = ground arith

-- Printing a minute of the day and reading it back gives the minute.
pub time_to_minutes-minutes_to_time :
    (m : ℕ) → m < 1440 → time_to_minutes (minutes_to_time m) ≡ some m
unfolding time_to_minutes minutes_to_time
time_to_minutes-minutes_to_time m h = ground arith

module _ (a b d e : ℕ) (hours : 10 * a + b < 24) (units : b < 10) (tens : d < 6)
    (ones : e < 10) where
  digits : TimeText
  digits = (48 + a) ∷ (48 + b) ∷ 58 ∷ (48 + d) ∷ (48 + e) ∷ []

  time_to_minutes-digits : time_to_minutes digits ≡ some ((10 * a + b) * 60 + (10 * d + e))
  unfolding time_to_minutes digits
  time_to_minutes-digits = ground arith

  minutes_to_time-digits : minutes_to_time ((10 * a + b) * 60 + (10 * d + e)) ≡ digits
  unfolding minutes_to_time digits
  minutes_to_time-digits =
      let hour : ((10 * a + b) * 60 + (10 * d + e)) / 60 ≡ 10 * a + b = omega arith in
      let minute : ((10 * a + b) * 60 + (10 * d + e)) % 60 ≡ 10 * d + e = omega arith in
      rw (hour, minute) (ground arith)

-- What TIME_PATTERN says of the five characters.
record IsTime (h g c m n : ℕ) : Type 0 where
  high : 48 ≤ h
  hour : 10 * (h - 48) + (g - 48) < 24
  units : 48 ≤ g
  units_high : g - 48 < 10
  colon : c ≡ 58
  tens : 48 ≤ m
  tens_high : m - 48 < 6
  ones : 48 ≤ n
  ones_high : n - 48 < 10

IsTime-of_pattern :
    (h g c m n : ℕ) → matches_time_pattern (h ∷ g ∷ c ∷ m ∷ n ∷ []) ≡ true → IsTime h g c m n
unfolding matches_time_pattern
IsTime-of_pattern h g c m n e = ground arith

digits-eq :
    (h g c m n : ℕ)
    → IsTime h g c m n
    → (48 + (h - 48)) ∷ (48 + (g - 48)) ∷ 58 ∷ (48 + (m - 48)) ∷ (48 + (n - 48)) ∷ []
      ≡ h ∷ g ∷ c ∷ m ∷ n ∷ []
digits-eq h g c m n t = ground arith

IsTime-round_trip :
    (h g c m n : ℕ)
    → IsTime h g c m n
    → (k : ℕ) × (time_to_minutes (h ∷ g ∷ c ∷ m ∷ n ∷ []) ≡ some k)
      × (k < 1440)
      × (minutes_to_time k ≡ h ∷ g ∷ c ∷ m ∷ n ∷ [])
unfolding digits
IsTime-round_trip h g c m n t = (
  (10 * (h - 48) + (g - 48)) * 60 + (10 * (m - 48) + (n - 48)),
  rw (← digits-eq h g c m n t) (
      time_to_minutes-digits (h - 48) (g - 48) (m - 48) (n - 48) t.hour t.units_high t.tens_high
        t.ones_high),
  omega arith,
  minutes_to_time-digits (h - 48) (g - 48) (m - 48) (n - 48) t.hour t.units_high t.tens_high
        t.ones_high
      ∙ digits-eq h g c m n t,
)

-- A text that the schema's TIME_PATTERN accepts names a minute of the day, and printing that minute
-- gives the text back.
pub matches_time_pattern-round_trip :
    (t : TimeText)
    → matches_time_pattern t ≡ true
    → (k : ℕ) × (time_to_minutes t ≡ some k) × (k < 1440) × (minutes_to_time k ≡ t)
matches_time_pattern-round_trip (h ∷ g ∷ c ∷ m ∷ n ∷ []) e =
    IsTime-round_trip h g c m n (IsTime-of_pattern h g c m n e)
matches_time_pattern-round_trip [] e = unfold matches_time_pattern in cc
matches_time_pattern-round_trip _ e = unfold matches_time_pattern in cc
