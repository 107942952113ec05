-- ===== src/DateTime/Days.antt =====
-- The days that `dateKeysBetween` of src/utils/datetime.ts lists.
use native.Mathlib.Decide.{dec_lt}
use mathlib.Core.List.Memᴰ
use hr_booking_server.Base.{
  Bool-cases, ℕ, zero, suc, ◌+◌, ◌≤◌, ◌<◌, ◌≡◌, refl, ap, ◌∙◌, inl, inr, String, true, ◌∷◌, Memᴰ,
  arith, leb, Bool-cases, tests,
}
use hr_booking_server.DateTime.{Luxon, date_keys_from, date_keys_between}

module _ (lux : Luxon) (zone : String) where
  -- Documented of luxon: a day later is later.
  abbrev pub Advances : Type 0
  Advances = (t : ℕ) → t < lux.plus_days zone 1 t

  -- A zone whose days all begin at midnight: adding a day to a day's start gives the next start.
  pub record HasMidnights : Type 0 where
    pub advances : (t : ℕ) → t < lux.plus_days zone 1 t
    pub start_le : (t : ℕ) → lux.start_of_day zone t ≤ t
    pub start_mono : (t u : ℕ) → t ≤ u → lux.start_of_day zone t ≤ lux.start_of_day zone u
    pub start_start :
        (t : ℕ) → lux.start_of_day zone (lux.start_of_day zone t) ≡ lux.start_of_day zone t
    pub next_start :
        (s : ℕ)
        → lux.start_of_day zone s ≡ s
        → lux.start_of_day zone (lux.plus_days zone 1 s) ≡ lux.plus_days zone 1 s
    pub within :
        (s u : ℕ)
        → lux.start_of_day zone s ≡ s
        → s ≤ u
        → u < lux.plus_days zone 1 s
        → lux.start_of_day zone u ≡ s
    pub key_of_day : (t : ℕ) → lux.to_format zone t ≡ lux.to_format zone (lux.start_of_day zone t)

  -- With fuel past the last instant the loop ends by its own test: any two such fuels give the same
  -- days.
  date_keys_from_fuel :
      Advances
      → (f g cursor last : ℕ) → last < cursor + f
      → last < cursor + g
      → date_keys_from lux f zone cursor last ≡ date_keys_from lux g zone cursor last
  unfolding date_keys_from
  date_keys_from_fuel adv zero zero cursor last h k = refl
  date_keys_from_fuel adv zero (suc g) cursor last h k = ground arith
  date_keys_from_fuel adv (suc f) zero cursor last h k = ground arith
  date_keys_from_fuel adv (suc f) (suc g) cursor last h k = elim (Bool-cases (leb cursor last)) [
    | inl e ↦
        let grows = adv cursor in
        rw e (
          ap (λ r. lux.to_format zone cursor ∷ r)
            (date_keys_from_fuel adv f g (lux.plus_days zone 1 cursor) last (omega arith)
              (omega arith)))
    | inr e ↦ rw e
  ]

  -- Where adding a day moves on, `dateKeysBetween` lists what its loop would list with any larger bound on its rounds.
  pub date_keys_between_fuel :
      Advances
      → (from to fuel : ℕ) → lux.start_of_day zone to < fuel
      → date_keys_between lux from to zone
        ≡ date_keys_from lux fuel zone (lux.start_of_day zone from) (lux.start_of_day zone to)
  unfolding date_keys_between
  date_keys_between_fuel adv from to fuel h =
      date_keys_from_fuel adv (suc (lux.start_of_day zone to)) fuel _ _ (omega arith) (omega arith)

  date_keys_from-dates :
      (fuel cursor last : ℕ) (d : String)
      → Memᴰ d (date_keys_from lux fuel zone cursor last)
      → (day : ℕ) × (d ≡ lux.to_format zone day)
  unfolding date_keys_from
  date_keys_from-dates zero cursor last d m = absurd (Memᴰ.not-nil m)
  date_keys_from-dates (suc fuel) cursor last d m = elim (Bool-cases (leb cursor last)) [
    | inr e ↦ absurd (Memᴰ.not-nil (rw e at m))
    | inl e ↦ elim (Memᴰ.cases_cons (rw e at m)) [
      | inl q ↦ (cursor, q)
      | inr k ↦ date_keys_from-dates fuel (lux.plus_days zone 1 cursor) last d k
    ]
  ]

  -- What is listed are dates of the zone.
  pub date_keys_between-dates :
      (from to : ℕ) (d : String)
      → Memᴰ d (date_keys_between lux from to zone)
      → (day : ℕ) × (d ≡ lux.to_format zone day)
  unfolding date_keys_between
  date_keys_between-dates from to d =
      date_keys_from-dates (suc (lux.start_of_day zone to)) (lux.start_of_day zone from)
        (lux.start_of_day zone to) d

  module _ (law : HasMidnights) where
    date_keys_from-mem :
        (fuel cursor last u : ℕ)
        → last < cursor + fuel
        → lux.start_of_day zone cursor ≡ cursor
        → cursor ≤ u
        → lux.start_of_day zone u ≤ last
        → Memᴰ (lux.to_format zone u) (date_keys_from lux fuel zone cursor last)
    unfolding date_keys_from
    date_keys_from-mem zero cursor last u f s c l =
        absurd (omega (arith, law.start_mono cursor u c))
    date_keys_from-mem (suc fuel) cursor last u f s c l =
        let mono = law.start_mono cursor u c in
        let grows = law.advances cursor in
        let test : leb cursor last ≡ true = omega tests in
        elim (dec_lt u (lux.plus_days zone 1 cursor)) [
          | yes near ↦ rw test (
              Memᴰ.head (law.key_of_day u ∙ ap (lux.to_format zone) (law.within cursor u s c near)))
          | no far ↦ rw test (
              Memᴰ.tail (
                date_keys_from-mem fuel (lux.plus_days zone 1 cursor) last u (omega arith)
                  (law.next_start cursor s) (omega arith) l))
        ]

    -- In a zone whose days begin at midnight, the date of every instant from `from` to `to` is
    -- listed.
    pub date_keys_between-mem :
        (from to u : ℕ)
        → from ≤ u
        → u ≤ to
        → Memᴰ (lux.to_format zone u) (date_keys_between lux from to zone)
    unfolding date_keys_between
    date_keys_between-mem from to u h k =
        let low = law.start_le from in
        date_keys_from-mem (suc (lux.start_of_day zone to)) _ _ u (omega arith)
          (law.start_start from) (omega arith) (law.start_mono u to k)
