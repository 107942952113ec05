-- ===== src/Availability/Disjoint.antt =====
-- The intervals of a day that src/validators/availability.validator.ts admits.
use hr_booking_server.Base.{
  ℕ, ◌<◌, ◌≡◌, refl, ◌↔◌, inl, inr, true, false, some, List, [], ◌∷◌, arith, Bool-cases, All, ltb,
}
use hr_booking_server.DateTime.{TimeText, time_to_minutes, overlaps}
use hr_booking_server.DateTime.Overlap.{overlaps_comm}
use hr_booking_server.Models.{WorkingInterval}
use hr_booking_server.Availability.Validator.{
  is_earlier, insert_interval, sort_intervals, has_clash, has_overlapping_intervals,
}

-- The minutes of the day from `s` to `e`, the end left out.
abbrev pub IsSpan : WorkingInterval → ℕ → ℕ → Type 0
IsSpan i s e = (time_to_minutes i.start ≡ some s) × (time_to_minutes i.end ≡ some e) × (s < e)

abbrev pub IsProper : WorkingInterval → Type 0
IsProper i = (s : ℕ) × (e : ℕ) × IsSpan i s e

abbrev pub IsApart : WorkingInterval → WorkingInterval → Type 0
IsApart i j = (s e t f : ℕ) → IsSpan i s e → IsSpan j t f → overlaps s e t f ≡ false

-- No two intervals of the list overlap.
abbrev pub IsDisjoint : List WorkingInterval → Type 0
IsDisjoint [] = Unit
IsDisjoint (i ∷ is) = All (IsApart i) is × IsDisjoint is

abbrev IsSorted : List WorkingInterval → Type 0
IsSorted [] = Unit
IsSorted (i ∷ is) = All (λ j. is_earlier j.start i.start ≡ false) is × IsSorted is

pub is_earlier-minutes :
    (a b : TimeText) {m n : ℕ}
    → time_to_minutes a ≡ some m
    → time_to_minutes b ≡ some n
    → is_earlier a b ≡ ltb m n
is_earlier-minutes a b h k = rw (h, k) refl

ahead :
    (i j k : WorkingInterval)
    → IsProper i
    → IsProper j
    → IsProper k
    → is_earlier j.start i.start ≡ false
    → is_earlier k.start j.start ≡ false
    → is_earlier k.start i.start ≡ false
ahead i j k (s, _, (a, _, _)) (t, _, (b, _, _)) (u, _, (c, _, _)) g h =
    let first : ltb t s ≡ false = rw (← is_earlier-minutes j.start i.start b a) g in
    let second : ltb u t ≡ false = rw (← is_earlier-minutes k.start j.start c b) h in
    rw (is_earlier-minutes k.start i.start c a) (ground (arith, first, second))

IsApart-after :
    (i j : WorkingInterval)
    → IsProper i
    → IsProper j
    → is_earlier j.start i.end ≡ false
    → IsApart i j
unfolding overlaps
IsApart-after i j p q h s e t f (_, a, _) (b, _, _) =
    let less : ltb t e ≡ false = rw (← is_earlier-minutes j.start i.end b a) h in
    ground (arith, less)

IsApart-later :
    (i j k : WorkingInterval)
    → IsProper i
    → IsProper j
    → IsProper k
    → is_earlier j.start i.end ≡ false
    → is_earlier k.start j.start ≡ false
    → IsApart i k
IsApart-later i j k p (t, _, (b, _, _)) r h l = IsApart-after i k p r (
    let (s, e, (_, a, _)) = p in
    let (u, _, (c, _, _)) = r in
    let first : ltb t e ≡ false = rw (← is_earlier-minutes j.start i.end b a) h in
    let second : ltb u t ≡ false = rw (← is_earlier-minutes k.start j.start c b) l in
    rw (is_earlier-minutes k.start i.end c a) (ground (arith, first, second)))

-- Of two intervals that are apart, the one that does not start earlier starts after the other's end.
ends_late :
    (i j : WorkingInterval)
    → IsProper i
    → IsProper j
    → is_earlier j.start i.start ≡ false
    → is_earlier j.start i.end ≡ true
    → IsApart i j
    → ⊥
unfolding overlaps
ends_late i j (s, e, (a, b, c)) (t, f, (x, y, z)) g h apart =
    let first : ltb t s ≡ false = rw (← is_earlier-minutes j.start i.start x a) g in
    let second : ltb t e ≡ true = rw (← is_earlier-minutes j.start i.end x b) h in
    let never = apart s e t f (a, b, c) (x, y, z) in ground (arith, first, second, never)

IsApart-sym : (i j : WorkingInterval) → IsApart i j → IsApart j i
IsApart-sym i j h s e t f p q = rw (overlaps_comm s e t f) (h t f s e q p)

module _ (P : WorkingInterval → Type 0) where
  All-insert :
      (i : WorkingInterval) (is : List WorkingInterval)
      → All P (insert_interval i is) ↔ (P i × All P is)
  unfolding insert_interval
  All-insert i [] = (λ h. h, λ h. h)
  All-insert i (j ∷ js) = elim (Bool-cases (is_earlier j.start i.start)) [
    | inl e ↦ rw e (
        let (to, from) = All-insert i js in
        ((λ h. ((to h.1).0, (h.0, (to h.1).1))), (λ h. (h.1.0, from (h.0, h.1.1)))))
    | inr e ↦ rw e (λ h. h, λ h. h)
  ]

  All-sort : (is : List WorkingInterval) → All P (sort_intervals is) ↔ All P is
  unfolding sort_intervals
  All-sort [] = (λ h. h, λ h. h)
  All-sort (i ∷ is) =
      let (split, join) = All-insert i (sort_intervals is) in
      let (to, from) = All-sort is in
      ((λ h. ((split h).0, to (split h).1)), (λ h. join (h.0, from h.1)))

IsDisjoint-insert :
    (i : WorkingInterval) (is : List WorkingInterval)
    → IsDisjoint (insert_interval i is) ↔ (All (IsApart i) is × IsDisjoint is)
unfolding insert_interval
IsDisjoint-insert i [] = (λ h. h, λ h. h)
IsDisjoint-insert i (j ∷ js) = elim (Bool-cases (is_earlier j.start i.start)) [
  | inl e ↦ rw e (
      let (to, from) = IsDisjoint-insert i js in
      let (split, join) = All-insert (IsApart j) i js in
      (
        (λ h. ((IsApart-sym j i (split h.0).0, (to h.1).0), ((split h.0).1, (to h.1).1))),
        (λ h. (join (IsApart-sym i j h.0.0, h.1.0), from (h.0.1, h.1.1))),
      ))
  | inr e ↦ rw e (λ h. h, λ h. h)
]

IsDisjoint-sort : (is : List WorkingInterval) → IsDisjoint (sort_intervals is) ↔ IsDisjoint is
unfolding sort_intervals
IsDisjoint-sort [] = (λ h. h, λ h. h)
IsDisjoint-sort (i ∷ is) =
    let (split, join) = IsDisjoint-insert i (sort_intervals is) in
    let (all_to, all_from) = All-sort (IsApart i) is in
    let (to, from) = IsDisjoint-sort is in
    ((λ h. (all_to (split h).0, to (split h).1)), (λ h. join (all_from h.0, from h.1)))

insert-IsSorted :
    (i : WorkingInterval) (is : List WorkingInterval)
    → IsProper i
    → All IsProper is
    → IsSorted is
    → IsSorted (insert_interval i is)
unfolding insert_interval
insert-IsSorted i [] p q h = (tt, tt)
insert-IsSorted i (j ∷ js) p q h = elim (Bool-cases (is_earlier j.start i.start)) [
  | inl e ↦ rw e (
    (All-insert (λ k. is_earlier k.start j.start ≡ false) i js).1 (flip i j p q.0 e, h.0),
    insert-IsSorted i js p q.1 h.1,
  )
  | inr e ↦ rw e ((e, later i j js p q.0 q.1 e h.0), h)
]
  where
    flip :
        (i j : WorkingInterval)
        → IsProper i
        → IsProper j
        → is_earlier j.start i.start ≡ true
        → is_earlier i.start j.start ≡ false
    flip i j (s, e, (a, b, c)) (t, f, (x, y, z)) h =
        let less : ltb t s ≡ true = rw (← is_earlier-minutes j.start i.start x a) h in
        rw (is_earlier-minutes i.start j.start a x) (ground (arith, less))

    later :
        (i j : WorkingInterval) (js : List WorkingInterval)
        → IsProper i
        → IsProper j
        → All IsProper js
        → is_earlier j.start i.start ≡ false
        → All (λ k. is_earlier k.start j.start ≡ false) js
        → All (λ k. is_earlier k.start i.start ≡ false) js
    later i j [] p q r e h = tt
    later i j (k ∷ ks) p q r e h = (ahead i j k p q r.0 e h.0, later i j ks p q r.1 e h.1)

sort-IsSorted : (is : List WorkingInterval) → All IsProper is → IsSorted (sort_intervals is)
unfolding sort_intervals
sort-IsSorted [] p = tt
sort-IsSorted (i ∷ is) p =
    insert-IsSorted i (sort_intervals is) p.0 ((All-sort IsProper is).1 p.1) (sort-IsSorted is p.1)

-- An interval that ends before another starts is apart from those after it.
before-all :
    (i j : WorkingInterval) (js : List WorkingInterval)
    → IsProper i
    → IsProper j
    → All IsProper js
    → is_earlier j.start i.end ≡ false
    → All (λ k. is_earlier k.start j.start ≡ false) js
    → All (IsApart i) (j ∷ js)
before-all i j js p q r h k = (IsApart-after i j p q h, rest js r k)
  where
    rest :
        (ks : List WorkingInterval)
        → All IsProper ks
        → All (λ k. is_earlier k.start j.start ≡ false) ks
        → All (IsApart i) ks
    rest [] r l = tt
    rest (k ∷ ks) r l = (IsApart-later i j k p q r.0 h l.0, rest ks r.1 l.1)

has_clash_iff :
    (is : List WorkingInterval)
    → All IsProper is
    → IsSorted is
    → (has_clash is ≡ false) ↔ IsDisjoint is
unfolding has_clash
has_clash_iff [] p h = (λ _. tt, λ _. refl)
has_clash_iff (i ∷ []) p h = (λ _. (tt, tt), λ _. refl)
has_clash_iff (i ∷ j ∷ is) p h =
    let (to, from) = has_clash_iff (j ∷ is) p.1 h.1 in
    elim (Bool-cases (is_earlier j.start i.end)) [
      | inl e ↦ rw e (λ k. ground (arith, k), λ k. absurd (ends_late i j p.0 p.1.0 h.0.0 e k.0.0))
      | inr e ↦ rw e ((λ k. (before-all i j is p.0 p.1.0 p.1.1 e h.1.0, to k)), (λ k. from k.1))
    ]

-- Where every interval of a day has times and ends after it starts, the validator finds overlapping
-- intervals, among neighbours in the order of their starts, exactly if two of the day overlap.
pub has_overlapping_intervals_iff :
    (is : List WorkingInterval)
    → All IsProper is
    → (has_overlapping_intervals is ≡ false) ↔ IsDisjoint is
unfolding has_overlapping_intervals
has_overlapping_intervals_iff is p =
    let (to, from) =
      has_clash_iff (sort_intervals is) ((All-sort IsProper is).1 p) (sort-IsSorted is p) in
    let (unsort, sort) = IsDisjoint-sort is in ((λ h. unsort (to h)), (λ h. from (sort h)))
