-- ===== src/DateTime.antt =====
-- src/utils/datetime.ts. Instants are milliseconds since the epoch. A time text is the list of its
-- character codes. What the code takes from luxon is the record `Luxon`.
pub mod Overlap
pub mod TimeText
pub mod Days
use hr_booking_server.Base.{
  ℕ, zero, suc, ◌+◌, ◌-◌, ◌*◌, ◌/◌, ◌%◌, String, Bool, false, ◌&&◌, ◌||◌, Option, none, some, List,
  [], ◌∷◌, ◌++◌, ltb, leb, ◌==◌, if◌then◌else◌,
}

abbrev pub minutes_in_day : ℕ
minutes_in_day = 1440

-- luxon's operations on a zone: `startOf('day')` and `plus({ days })` on an instant,
-- `toFormat('yyyy-MM-dd')`, the `weekday` (1 to 7) of a date key, and `fromISO` of a date key and
-- a time, `none` where the result is invalid.
pub record Luxon : Type 0 where
  pub start_of_day : String → ℕ → ℕ
  pub plus_days : String → ℕ → ℕ → ℕ
  pub to_format : String → ℕ → String
  pub weekday : String → String → ℕ
  pub from_iso : String → String → List ℕ → Option ℕ

abbrev pub TimeText : Type 0
TimeText = List ℕ

abbrev is_digit : ℕ → Bool
is_digit c = leb b'0' c && leb c b'9'

-- `Number` on a text of decimal digits; `none` is NaN, and stands for every other text.
number_from : ℕ → TimeText → Option ℕ
number_from n [] = some n
number_from n (c ∷ cs) =
    let rest = number_from (10 * n + (c - b'0')) cs in if is_digit c then rest else none

-- The schema's TIME_PATTERN, /^([01]\d|2[0-3]):([0-5]\d)$/.
unfoldable pub matches_time_pattern : TimeText → Bool
matches_time_pattern (h ∷ g ∷ colon ∷ m ∷ n ∷ []) =
    ((leb b'0' h && leb h b'1' && is_digit g) || (h == b'2' && leb b'0' g && leb g b'3'))
    && colon == b':'
    && leb b'0' m
    && leb m b'5'
    && is_digit n
matches_time_pattern _ = false

-- The parts of `time.split(':')` that the destructuring takes.
hours_part : TimeText → TimeText
hours_part [] = []
hours_part (c ∷ cs) = let rest = hours_part cs in if c == b':' then [] else c ∷ rest

minutes_part : TimeText → Option TimeText
minutes_part [] = none
minutes_part (c ∷ cs) =
    let rest = minutes_part cs in if c == b':' then some (hours_part cs) else rest

abbrev minutes_of : Option ℕ → Option ℕ → Option ℕ
minutes_of (some hours) (some minutes) = some (hours * 60 + minutes)
minutes_of _ _ = none

-- `Number(undefined)` is NaN.
abbrev number_of : Option TimeText → Option ℕ
number_of none = none
number_of (some t) = number_from 0 t

unfoldable pub time_to_minutes : TimeText → Option ℕ
unfolding number_from hours_part minutes_part
time_to_minutes time = minutes_of (number_from 0 (hours_part time)) (number_of (minutes_part time))

-- `String(n).padStart(2, '0')` for n < 100.
two_digits : ℕ → TimeText
two_digits n = (b'0' + n / 10) ∷ (b'0' + n % 10) ∷ []

unfoldable pub minutes_to_time : ℕ → TimeText
unfolding two_digits
minutes_to_time minutes = two_digits (minutes / 60) ++ b':' ∷ two_digits (minutes % 60)

unfoldable pub add_minutes : ℕ → ℕ → ℕ
add_minutes instant minutes = instant + minutes * 60_000

unfoldable pub add_days : ℕ → ℕ → ℕ
add_days instant days = instant + days * minutes_in_day * 60_000

unfoldable pub overlaps : ℕ → ℕ → ℕ → ℕ → Bool
overlaps a_start a_end b_start b_end = ltb a_start b_end && ltb b_start a_end

module _ (lux : Luxon) where
  unfoldable pub weekday_of_date_key : String → String → ℕ
  weekday_of_date_key date_key timezone = lux.weekday timezone date_key % 7

  abbrev plus_whole_days : String → ℕ → Option ℕ → Option ℕ
  plus_whole_days timezone days none = none
  plus_whole_days timezone days (some t) = some (lux.plus_days timezone days t)

  unfoldable pub wall_time_to_utc : String → ℕ → String → Option ℕ
  wall_time_to_utc date_key minutes timezone =
      plus_whole_days timezone (minutes / minutes_in_day)
        (lux.from_iso timezone date_key (minutes_to_time (minutes % minutes_in_day)))

  -- The loop of `dateKeysBetween`, on fuel.
  unfoldable pub date_keys_from : ℕ → String → ℕ → ℕ → List String
  date_keys_from zero timezone cursor last = []
  date_keys_from (suc fuel) timezone cursor last =
      let rest = date_keys_from fuel timezone (lux.plus_days timezone 1 cursor) last in
      if leb cursor last then lux.to_format timezone cursor ∷ rest else []

  unfoldable pub date_keys_between : ℕ → ℕ → String → List String
  unfolding date_keys_from
  date_keys_between from to timezone =
      let first = lux.start_of_day timezone from in
      let last = lux.start_of_day timezone to in date_keys_from (suc last) timezone first last
