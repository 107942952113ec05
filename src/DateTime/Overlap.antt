-- ===== src/DateTime/Overlap.antt =====
-- `overlaps` of src/utils/datetime.ts against the instants of two intervals.
use Prim.Native.Nat.{max}
use hr_booking_server.Base.{ℕ, ◌≤◌, ◌<◌, ◌≡◌, ◌↔◌, ◌⊎◌, true, false, arith}
use hr_booking_server.DateTime.{overlaps}

-- The half-open interval from `start` to `end` holds the instant `t`.
abbrev pub Holds : ℕ → ℕ → ℕ → Type 0
Holds start end t = (start ≤ t) × (t < end)

overlaps-Holds :
    (a b c d : ℕ) → a < b → c < d → overlaps a b c d ≡ true → (t : ℕ) × Holds a b t × Holds c d t
unfolding overlaps
overlaps-Holds a b c d p q h = (max a c, ground arith, ground arith)

Holds-overlaps : (a b c d t : ℕ) → Holds a b t → Holds c d t → overlaps a b c d ≡ true
unfolding overlaps
Holds-overlaps a b c d t h k = ground arith

-- Two intervals that are not empty overlap exactly when some instant lies in both, so intervals
-- that only touch at an end do not overlap.
pub overlaps_iff :
    (a b c d : ℕ)
    → a < b
    → c < d
    → (overlaps a b c d ≡ true) ↔ ((t : ℕ) × Holds a b t × Holds c d t)
overlaps_iff a b c d p q = (overlaps-Holds a b c d p q, λ w. Holds-overlaps a b c d w.0 w.1 w.2)

pub overlaps_comm : (a b c d : ℕ) → overlaps a b c d ≡ overlaps c d a b
unfolding overlaps
overlaps_comm a b c d = ground arith

pub overlaps-false : (a b c d : ℕ) → (b ≤ c) ⊎ (d ≤ a) → overlaps a b c d ≡ false
unfolding overlaps
overlaps-false a b c d h = ground arith
