-- ===== src/Slot/Offsets.antt =====
-- The grid of minutes that the innermost loop of `generateSlots` walks.
use mathlib.Core.List.Memᴰ
use hr_booking_server.Base.{
  ℕ, zero, suc, ◌+◌, ◌*◌, ◌≤◌, ◌<◌, ◌≡◌, true, List, [], ◌∷◌, Memᴰ, arith, leb, tests, Bool-cases,
  if◌then◌else◌, inl, inr,
}

module _ (duration step end : ℕ) where
  unfoldable pub offsets : ℕ → ℕ → List ℕ
  offsets zero offset = []
  offsets (suc fuel) offset =
      let rest = offsets fuel (offset + step) in
      if leb (offset + duration) end then offset ∷ rest else []

  -- `o` is a point of the grid from `start`, with room for a slot before the end.
  pub record OnGrid (start o : ℕ) : Type 0 where
    pub index : ℕ
    pub at_index : o ≡ start + index * step
    pub fits : o + duration ≤ end

  OnGrid-next : {start o : ℕ} → OnGrid (start + step) o → OnGrid start o
  OnGrid-next g = record { index = suc g.index; at_index = omega arith; fits = g.fits }

  pub offsets-OnGrid : (fuel start o : ℕ) → Memᴰ o (offsets fuel start) → OnGrid start o
  unfolding offsets
  offsets-OnGrid zero start o m = absurd (Memᴰ.not-nil m)
  offsets-OnGrid (suc fuel) start o m = elim (Bool-cases (leb (start + duration) end)) [
    | inl e ↦ elim (Memᴰ.cases_cons (rw (e, offsets) at m)) [
      | inl here ↦ rw here (record { index = 0; at_index = omega arith; fits = omega tests })
      | inr later ↦ OnGrid-next (offsets-OnGrid fuel (start + step) o later)
    ]
    | inr e ↦ absurd (Memᴰ.not-nil (rw (e, offsets) at m))
  ]

  -- Fuel past the end is enough: the loop reaches every point of the grid.
  pub OnGrid-offsets :
      0 < step
      → (k fuel start o : ℕ) → end < start + fuel
      → o ≡ start + k * step
      → o + duration ≤ end
      → Memᴰ o (offsets fuel start)
  unfolding offsets
  OnGrid-offsets pos k zero start o f e h = absurd (grind arith)
  OnGrid-offsets pos zero (suc fuel) start o f e h =
      let fits : leb (start + duration) end ≡ true = omega tests in
      rw fits (Memᴰ.head (omega arith))
  OnGrid-offsets pos (suc k) (suc fuel) start o f e h =
      let fits : leb (start + duration) end ≡ true = omega tests in
      rw fits (Memᴰ.tail (OnGrid-offsets pos k fuel (start + step) o (omega arith) (omega arith) h))
