-- ===== src/Diary/Views.antt =====
-- The diary of a list of bookings that was updated or extended.
use mathlib.Core.List.Memᴰ
use hr_booking_server.Base.{
  ℕ, ◌≡◌, refl, ap, inl, inr, true, false, List, [], ◌∷◌, ◌++◌, map, Memᴰ, keep, change, ltb, ◌==◌,
  arith, mem-keep, keep-mem, sym,
}
use hr_booking_server.Models.{Booking}
use hr_booking_server.Booking.Checks.{is_active}
use hr_booking_server.Lifecycle.{is_over, completed}
use hr_booking_server.Diary.{Appointment, diary, appointment, others}

pub diary-append :
    (bs : List Booking) (n : Booking)
    → is_active n ≡ true
    → diary (bs ++ n ∷ []) ≡ diary bs ++ appointment n ∷ []
unfolding diary keep
diary-append [] n h = ground arith
diary-append (b ∷ bs) n h = ground (arith, diary-append bs n h)

pub diary-release :
    (bs : List Booking) (c : Booking) (id : ℕ)
    → is_active c ≡ false
    → diary (change (λ b. b.id == id) (λ _. c) bs) ≡ others id (diary bs)
unfolding diary keep change
diary-release [] c id h = refl
diary-release (b ∷ bs) c id h = ground (arith, diary-release bs c id h)

pub diary-move :
    (bs : List Booking) (c : Booking) (id : ℕ)
    → is_active c ≡ true
    → ((b : Booking) → Memᴰ b bs → b.id ≡ id → is_active b ≡ true)
    → diary (change (λ b. b.id == id) (λ _. c) bs)
      ≡ change (λ a. a.id == id) (λ _. appointment c) (diary bs)
unfolding diary keep change
diary-move [] c id h act = refl
diary-move (b ∷ bs) c id h act =
    ground (arith, diary-move bs c id h (λ x m e. act x (Memᴰ.tail m) e), act b (Memᴰ.head refl))

pub diary-expire :
    (now : ℕ) (bs : List Booking)
    → diary (change (is_over now) (completed now) bs) ≡ keep (λ a. ltb now a.end_at) (diary bs)
unfolding diary keep change
diary-expire now [] = refl
diary-expire now (b ∷ bs) = ground (arith, diary-expire now bs)

-- An appointment of the diary is that of an active booking.
pub diary-mem :
    (bs : List Booking) {a : Appointment}
    → Memᴰ a (diary bs)
    → (b : Booking) × Memᴰ b bs × (is_active b ≡ true) × (appointment b ≡ a)
unfolding diary
diary-mem bs {a} m =
    let (b, n, e) = mapped (keep is_active bs) m in
    let (old, active) = mem-keep is_active bs n in (b, old, active, e)
  where
    mapped :
        (cs : List Booking)
        → Memᴰ a (map appointment cs)
        → (b : Booking) × Memᴰ b cs × (appointment b ≡ a)
    mapped [] m = absurd (Memᴰ.not-nil m)
    mapped (c ∷ cs) m = elim (Memᴰ.cases_cons m) [
      | inl q ↦ (c, Memᴰ.head refl, sym q)
      | inr n ↦ let (b, k, e) = mapped cs n in (b, Memᴰ.tail k, e)
    ]

pub mem-diary :
    (bs : List Booking) {b : Booking}
    → Memᴰ b bs
    → is_active b ≡ true
    → Memᴰ (appointment b) (diary bs)
unfolding diary
mem-diary bs {b} m h = mapped (keep is_active bs) (keep-mem is_active bs m h)
  where
    mapped : (cs : List Booking) → Memᴰ b cs → Memᴰ (appointment b) (map appointment cs)
    mapped [] m = absurd (Memᴰ.not-nil m)
    mapped (c ∷ cs) (Memᴰ.head e) = Memᴰ.head (ap appointment e)
    mapped (c ∷ cs) (Memᴰ.tail m) = Memᴰ.tail (mapped cs m)
