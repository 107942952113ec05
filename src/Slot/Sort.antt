-- ===== src/Slot/Sort.antt =====
-- The order in which `generateSlots` returns its slots.
use mathlib.Core.List.Memᴰ
use hr_booking_server.Base.{
  ◌<◌, ◌≡◌, refl, ◌≢◌, ◌⊎◌, inl, inr, false, List, [], ◌∷◌, Memᴰ, arith, leb, Bool-cases, All,
  All-mem, All-of_mem,
}
use hr_booking_server.Slot.{Slot, insert_slot, sort_slots}
use hr_booking_server.Slot.Fill.{HasDistinctStarts}

-- Each slot starts before all that follow it.
abbrev pub IsAscending : List Slot → Type 0
IsAscending [] = Unit
IsAscending (s ∷ ss) = All (λ t. s.start_at < t.start_at) ss × IsAscending ss

mem-insert_slot :
    (s : Slot) (ts : List Slot) {u : Slot} → Memᴰ u (insert_slot s ts) → (u ≡ s) ⊎ Memᴰ u ts
unfolding insert_slot
mem-insert_slot s [] m = inl (Memᴰ.eq_of_singleton m)
mem-insert_slot s (t ∷ ts) m = elim (Bool-cases (leb s.start_at t.start_at)) [
  | inl e ↦ Memᴰ.cases_cons (rw (e, insert_slot) at m)
  | inr e ↦ elim (Memᴰ.cases_cons (rw (e, insert_slot) at m)) [
    | inl q ↦ inr (Memᴰ.head q)
    | inr n ↦ elim (mem-insert_slot s ts n) [ inl q ↦ inl q | inr k ↦ inr (Memᴰ.tail k) ]
  ]
]

insert_slot-self : (s : Slot) (ts : List Slot) → Memᴰ s (insert_slot s ts)
unfolding insert_slot
insert_slot-self s [] = Memᴰ.head refl
insert_slot-self s (t ∷ ts) = elim (Bool-cases (leb s.start_at t.start_at)) [
  | inl e ↦ rw (e, insert_slot) (Memᴰ.head refl)
  | inr e ↦ rw (e, insert_slot) (Memᴰ.tail (insert_slot-self s ts))
]

insert_slot-mem : (s : Slot) (ts : List Slot) {u : Slot} → Memᴰ u ts → Memᴰ u (insert_slot s ts)
unfolding insert_slot
insert_slot-mem s [] m = absurd (Memᴰ.not-nil m)
insert_slot-mem s (t ∷ ts) m = elim (Bool-cases (leb s.start_at t.start_at)) [
  | inl e ↦ rw (e, insert_slot) (Memᴰ.tail m)
  | inr e ↦ elim (Memᴰ.cases_cons m) [
    | inl q ↦ rw (e, insert_slot) (Memᴰ.head q)
    | inr n ↦ rw (e, insert_slot) (Memᴰ.tail (insert_slot-mem s ts n))
  ]
]

pub mem-sort_slots : (ss : List Slot) {u : Slot} → Memᴰ u (sort_slots ss) → Memᴰ u ss
unfolding sort_slots
mem-sort_slots [] m = m
mem-sort_slots (s ∷ ss) m = elim (mem-insert_slot s (sort_slots ss) m) [
  | inl e ↦ Memᴰ.head e
  | inr n ↦ Memᴰ.tail (mem-sort_slots ss n)
]

pub sort_slots-mem : (ss : List Slot) {u : Slot} → Memᴰ u ss → Memᴰ u (sort_slots ss)
unfolding sort_slots
sort_slots-mem [] m = m
sort_slots-mem (s ∷ ss) (Memᴰ.head e) = rw e (insert_slot-self s (sort_slots ss))
sort_slots-mem (s ∷ ss) (Memᴰ.tail m) = insert_slot-mem s (sort_slots ss) (sort_slots-mem ss m)

insert_slot-IsAscending :
    (s : Slot) (ts : List Slot)
    → All (λ t. s.start_at ≢ t.start_at) ts
    → IsAscending ts
    → IsAscending (insert_slot s ts)
unfolding insert_slot
insert_slot-IsAscending s [] d h = (tt, tt)
insert_slot-IsAscending s (t ∷ ts) d h = elim (Bool-cases (leb s.start_at t.start_at)) [
  | inl e ↦
      let less : s.start_at < t.start_at = ground (arith, d.0) in
      rw (e, insert_slot) ((less, All-of_mem _ ts (λ u m. omega (arith, All-mem _ ts h.0 m))), h)
  | inr e ↦
      rw (e, insert_slot)
        (
          All-of_mem _ (insert_slot s ts) (λ u m. above u (mem-insert_slot s ts m) e),
          insert_slot-IsAscending s ts d.1 h.1,
        )
]
  where
    above :
        (u : Slot)
        → (u ≡ s) ⊎ Memᴰ u ts
        → leb s.start_at t.start_at ≡ false
        → t.start_at < u.start_at
    above u (inl q) e = rw q (ground arith)
    above u (inr m) e = All-mem (λ v. t.start_at < v.start_at) ts h.0 m

-- Slots whose starts are distinct come out in strictly ascending order.
pub sort_slots-IsAscending : (ss : List Slot) → HasDistinctStarts ss → IsAscending (sort_slots ss)
unfolding sort_slots
sort_slots-IsAscending [] d = tt
sort_slots-IsAscending (s ∷ ss) d =
    insert_slot-IsAscending s (sort_slots ss)
      (All-of_mem _ (sort_slots ss) (λ u m. All-mem _ ss d.0 (mem-sort_slots ss m)))
      (sort_slots-IsAscending ss d.1)
