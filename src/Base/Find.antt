-- ===== src/Base/Find.antt =====
-- The first entry that passes a test, in a list that was updated or extended.
use mathlib.Core.Path.{◌≡◌}
use mathlib.Core.Logic.{inl, inr}
use mathlib.Core.Bool.{Bool, true}
use mathlib.Core.Option.{none, some}
use mathlib.Core.List.{List, [], ◌∷◌, ◌++◌}
use native.Mathlib.Omega.{arith}
use hr_booking_server.Base.Tests.{Bool-cases}
use hr_booking_server.Base.Lists.{find_first, change}

module _ {ℓ} {A : Type ℓ} (p : A → Bool) where
  -- An update by another test that selects the entry found.
  pub find_first-change-other :
      (q : A → Bool) (b : A) (xs : List A) {a : A}
      → p b ≡ true
      → q a ≡ true
      → find_first p xs ≡ some a
      → find_first p (change q (λ _. b) xs) ≡ some b
  unfolding find_first change
  find_first-change-other q b [] h k e = cc
  find_first-change-other q b (x ∷ xs) {a} h k e = elim (Bool-cases (q x)) [
    | inl s ↦ rw (s, h, s)
    | inr s ↦ elim (Bool-cases (p x)) [
      | inl r ↦ let same : x ≡ a = ground (arith, r) in absurd (ground (arith, same))
      | inr r ↦ rw (s, r) (find_first-change-other q b xs h k (rw (r, find_first) at e))
    ]
  ]

  pub find_first-append :
      (xs ys : List A) {a : A} → find_first p xs ≡ some a → find_first p (xs ++ ys) ≡ some a
  unfolding find_first
  find_first-append [] ys e = cc
  find_first-append (x ∷ xs) ys {a} e = elim (Bool-cases (p x)) [
    | inl r ↦ ground (arith, r)
    | inr r ↦ rw r (find_first-append xs ys (rw (r, find_first) at e))
  ]

  -- The first entry of a list that is extended by it.
  pub find_first-append-none :
      (xs : List A) (n : A)
      → find_first p xs ≡ none
      → p n ≡ true
      → find_first p (xs ++ n ∷ []) ≡ some n
  unfolding find_first
  find_first-append-none [] n e h = rw h
  find_first-append-none (x ∷ xs) n e h = elim (Bool-cases (p x)) [
    | inl r ↦ absurd (ground (arith, r))
    | inr r ↦ rw r (find_first-append-none xs n (rw (r, find_first) at e) h)
  ]
