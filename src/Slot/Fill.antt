-- ===== src/Slot/Fill.antt =====
-- What `add_slot` keeps when it is applied to a list of starts.
use mathlib.Core.List.Memᴰ
use hr_booking_server.Base.{
  ℕ, ◌≤◌, ◌<◌, ◌≡◌, refl, ◌≢◌, ◌⊎◌, inl, inr, Bool, false, ◌||◌, List, [], ◌∷◌, ◌++◌, Memᴰ, arith,
  ltb, leb, ◌==◌, Bool-cases, any, any-true, any-false, All, All-append, All-mem, All-of_mem,
  ==_iff,
}
use hr_booking_server.DateTime.{Luxon, add_minutes, overlaps}
use hr_booking_server.Slot.{Search, Progress, Slot, add_slot}
use hr_booking_server.Slot.Loop.{add_all}

-- No two slots of the list start together.
abbrev pub HasDistinctStarts : List Slot → Type 0
HasDistinctStarts [] = Unit
HasDistinctStarts (s ∷ ss) = All (λ t. s.start_at ≢ t.start_at) ss × HasDistinctStarts ss

HasDistinctStarts-append :
    (ss : List Slot) (s : Slot)
    → HasDistinctStarts ss
    → All (λ t. t.start_at ≢ s.start_at) ss
    → HasDistinctStarts (ss ++ s ∷ [])
HasDistinctStarts-append [] s d h = (tt, tt)
HasDistinctStarts-append (t ∷ ss) s d h = (
  All-append (λ u. t.start_at ≢ u.start_at) ss (s ∷ []) d.0 (h.0, tt),
  HasDistinctStarts-append ss s d.1 h.1,
)

module _ (lux : Luxon) (w : Search) where
  open w use {config, busy, earliest, latest}

  abbrev pub slot_at : ℕ → Slot
  slot_at t = record { start_at = t; end_at = add_minutes t config.slot_duration_minutes }

  abbrev pub is_busy : ℕ → Bool
  is_busy t =
      any (λ b. overlaps t (add_minutes t config.slot_duration_minutes) b.start_at b.end_at) busy

  -- The start lies in the window, and its slot meets no busy interval.
  pub record IsOpen (t : ℕ) : Type 0 where
    pub after : earliest ≤ t
    pub before : t < latest
    pub free : is_busy t ≡ false

  pub record IsConsistent (p : Progress) : Type 0 where
    pub seen_slots : All (λ t. Memᴰ (slot_at t) p.slots) p.seen
    pub slots_seen : All (λ s. (s ≡ slot_at s.start_at) × Memᴰ s.start_at p.seen) p.slots
    pub distinct : HasDistinctStarts p.slots

  -- A start is dropped, or its slot is appended.
  data Added (t : ℕ) (p : Progress) : Progress → Type 0 where
    closed : (IsOpen t → ⊥) → Added t p p
    seen : Memᴰ t p.seen → Added t p p
    appended :
        IsOpen t
        → any (λ u. u == t) p.seen ≡ false
        → Added t p (record { seen = t ∷ p.seen; slots = p.slots ++ slot_at t ∷ [] })

  add_slot-Added : (t : ℕ) (p : Progress) → Added t p (add_slot lux w t p)
  unfolding add_slot
  add_slot-Added t p = elim (Bool-cases (ltb t earliest || leb latest t)) [
    | inl e ↦ rw e (closed (λ o. ground (arith, o.after, o.before)))
    | inr e ↦ elim (Bool-cases (any (λ u. u == t) p.seen)) [
      | inl k ↦
          let (u, m, q) = any-true (λ u. u == t) p.seen k in
          rw (e, k) (seen (rw ((==_iff u t).0 q) at m))
      | inr k ↦ elim (Bool-cases (is_busy t)) [
        | inl b ↦ rw (e, k, b) (closed (λ o. cc (o.free)))
        | inr b ↦
            rw (e, k, b)
              (appended (record { after = ground arith; before = ground arith; free = b }) k)
      ]
    ]
  ]

  Added-IsConsistent : {t : ℕ} {p q : Progress} → Added t p q → IsConsistent p → IsConsistent q
  Added-IsConsistent (closed o) c = c
  Added-IsConsistent (seen m) c = c
  Added-IsConsistent {t} {p} (appended o k) c = record {
    seen_slots = (
      Memᴰ.append_right p.slots (Memᴰ.head refl),
      All-of_mem _ p.seen λ u m. Memᴰ.append_left _ (All-mem _ p.seen c.seen_slots m),
    );
    slots_seen =
        All-append _ p.slots (slot_at t ∷ [])
          (All-of_mem _ p.slots
            λ s m. let (e, n) = All-mem _ p.slots c.slots_seen m in (e, Memᴰ.tail n))
          ((refl, Memᴰ.head refl), tt);
    distinct = HasDistinctStarts-append p.slots (slot_at t) c.distinct (
        All-of_mem _ p.slots λ s m.
          let (_, n) = All-mem _ p.slots c.slots_seen m in
          ground (arith, any-false (λ u. u == t) p.seen k n));
  }

  Added-keeps : {t : ℕ} {p q : Progress} {s : Slot} → Added t p q → Memᴰ s p.slots → Memᴰ s q.slots
  Added-keeps (closed o) m = m
  Added-keeps (seen n) m = m
  Added-keeps (appended o k) m = Memᴰ.append_left _ m

  Added-mem :
      {t : ℕ} {p q : Progress} → Added t p q → IsConsistent p → IsOpen t → Memᴰ (slot_at t) q.slots
  Added-mem (closed n) c o = absurd (n o)
  Added-mem {p} (seen m) c o = All-mem _ p.seen c.seen_slots m
  Added-mem {p} (appended _ k) c o = Memᴰ.append_right p.slots (Memᴰ.head refl)

  Added-only :
      {t : ℕ} {p q : Progress} {s : Slot}
      → Added t p q
      → Memᴰ s q.slots
      → Memᴰ s p.slots ⊎ ((s ≡ slot_at t) × IsOpen t)
  Added-only (closed n) m = inl m
  Added-only (seen n) m = inl m
  Added-only {t} {p} (appended o k) m = elim (Memᴰ.append_cases p.slots m) [
    | inl old ↦ inl old
    | inr new ↦ inr (Memᴰ.eq_of_singleton new, o)
  ]

  pub add_all-IsConsistent :
      (ts : List ℕ) (p : Progress) → IsConsistent p → IsConsistent (add_all lux w ts p)
  unfolding add_all
  add_all-IsConsistent [] p c = c
  add_all-IsConsistent (t ∷ ts) p c =
      add_all-IsConsistent ts _ (Added-IsConsistent (add_slot-Added t p) c)

  add_all-keeps :
      (ts : List ℕ) (p : Progress) {s : Slot} → Memᴰ s p.slots → Memᴰ s (add_all lux w ts p).slots
  unfolding add_all
  add_all-keeps [] p m = m
  add_all-keeps (t ∷ ts) p m = add_all-keeps ts _ (Added-keeps (add_slot-Added t p) m)

  pub add_all-mem :
      (ts : List ℕ) (p : Progress) (t : ℕ)
      → IsConsistent p
      → Memᴰ t ts
      → IsOpen t
      → Memᴰ (slot_at t) (add_all lux w ts p).slots
  unfolding add_all
  add_all-mem [] p t c m o = absurd (Memᴰ.not-nil m)
  add_all-mem (u ∷ ts) p t c (Memᴰ.head e) o =
      add_all-keeps ts _ (rw e (Added-mem (add_slot-Added u p) c (rw e at o)))
  add_all-mem (u ∷ ts) p t c (Memᴰ.tail m) o =
      add_all-mem ts _ t (Added-IsConsistent (add_slot-Added u p) c) m o

  pub add_all-only :
      (ts : List ℕ) (p : Progress) {s : Slot}
      → Memᴰ s (add_all lux w ts p).slots
      → Memᴰ s p.slots ⊎ ((t : ℕ) × Memᴰ t ts × (s ≡ slot_at t) × IsOpen t)
  unfolding add_all
  add_all-only [] p m = inl m
  add_all-only (t ∷ ts) p m = elim (add_all-only ts _ m) [
    | inl old ↦ elim (Added-only (add_slot-Added t p) old) [
      | inl older ↦ inl older
      | inr (e, o) ↦ inr (t, Memᴰ.head refl, e, o)
    ]
    | inr (u, n, e, o) ↦ inr (u, Memᴰ.tail n, e, o)
  ]
