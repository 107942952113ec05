-- ===== src/Base/Lists.antt =====
-- Lists under Boolean tests: what `find`, `filter`, `some` and an update by query do.
use Prim.Native.Nat.{ℕ, suc}
use mathlib.Core.Path.{◌≡◌, refl}
use mathlib.Core.Logic.{◌⊎◌, inl, inr}
use mathlib.Core.Bool.{Bool, true, false, ◌||◌, ◌&&◌}
use mathlib.Core.Option.{Option, none, some}
use mathlib.Core.List.{List, [], ◌∷◌, ◌++◌, Memᴰ}
use mathlib.Core.List.Memᴰ
use native.Mathlib.Omega.{arith}

module _ {ℓ} {A : Type ℓ} where
  abbrev pub length : List A → ℕ
  length [] = 0
  length (x ∷ xs) = suc (length xs)

  unfoldable pub any : (A → Bool) → List A → Bool
  any p [] = false
  any p (x ∷ xs) = p x || any p xs

  unfoldable pub find_first : (A → Bool) → List A → Option A
  find_first p [] = none
  find_first p (x ∷ xs) = elim (p x) [ true ↦ some x | false ↦ find_first p xs ]

  unfoldable pub keep : (A → Bool) → List A → List A
  keep p [] = []
  keep p (x ∷ xs) = let rest = keep p xs in elim (p x) [ true ↦ x ∷ rest | false ↦ rest ]

  -- An update of every entry that the test selects.
  unfoldable pub change : (A → Bool) → (A → A) → List A → List A
  change p f [] = []
  change p f (x ∷ xs) = elim (p x) [ true ↦ f x | false ↦ x ] ∷ change p f xs

  -- An update of the first entry that the test selects.
  unfoldable pub change_first : (A → Bool) → (A → A) → List A → List A
  change_first p f [] = []
  change_first p f (x ∷ xs) =
      let rest = change_first p f xs in elim (p x) [ true ↦ f x ∷ xs | false ↦ x ∷ rest ]

Bool-split : (b : Bool) → (b ≡ true) ⊎ (b ≡ false)
Bool-split true = inl refl
Bool-split false = inr refl

module _ {ℓ κ} {A : Type ℓ} (P : A → Type κ) where
  -- A predicate that holds of every entry.
  abbrev pub All : List A → Type κ
  All [] = Unit
  All (x ∷ xs) = P x × All xs

  pub All-mem : {a : A} (xs : List A) → All xs → Memᴰ a xs → P a
  All-mem [] h m = absurd (Memᴰ.not-nil m)
  All-mem (x ∷ xs) h (Memᴰ.head e) = rw e h.0
  All-mem (x ∷ xs) h (Memᴰ.tail m) = All-mem xs h.1 m

  pub All-of_mem : (xs : List A) → ((a : A) → Memᴰ a xs → P a) → All xs
  All-of_mem [] h = tt
  All-of_mem (x ∷ xs) h = (h x (Memᴰ.head refl), All-of_mem xs (λ a m. h a (Memᴰ.tail m)))

  pub All-append : (xs ys : List A) → All xs → All ys → All (xs ++ ys)
  All-append [] ys h k = k
  All-append (x ∷ xs) ys h k = (h.0, All-append xs ys h.1 k)

  pub All-keep : (p : A → Bool) (xs : List A) → All xs → All (keep p xs)
  unfolding keep
  All-keep p [] h = tt
  All-keep p (x ∷ xs) h = ground (arith, All-keep p xs h.1)

  pub All-change :
      (p : A → Bool) (f : A → A) (xs : List A)
      → ((x : A) → p x ≡ true → P x → P (f x))
      → All xs
      → All (change p f xs)
  unfolding change
  All-change p f [] k h = tt
  All-change p f (x ∷ xs) k h = ground (arith, k x, All-change p f xs k h.1)

module _ {ℓ} {A : Type ℓ} (p : A → Bool) where
  pub any-true : (xs : List A) → any p xs ≡ true → (a : A) × Memᴰ a xs × (p a ≡ true)
  unfolding any
  any-true (x ∷ xs) h = elim (Bool-split (p x)) [
    | inl e ↦ (x, Memᴰ.head refl, e)
    | inr e ↦ let (a, m, q) = any-true xs (ground arith) in (a, Memᴰ.tail m, q)
  ]
  any-true [] h = cc

  pub any_of_mem : {a : A} (xs : List A) → Memᴰ a xs → p a ≡ true → any p xs ≡ true
  unfolding any
  any_of_mem [] m h = absurd (Memᴰ.not-nil m)
  any_of_mem (x ∷ xs) (Memᴰ.head e) h = rw (← e, h)
  any_of_mem (x ∷ xs) (Memᴰ.tail m) h = ground (arith, any_of_mem xs m h)

  pub any-false : {a : A} (xs : List A) → any p xs ≡ false → Memᴰ a xs → p a ≡ false
  any-false {a} xs h m = elim (Bool-split (p a)) [ inl e ↦ cc (any_of_mem xs m e) | inr e ↦ e ]

  pub any-eq-false : (xs : List A) → All (λ x. p x ≡ false) xs → any p xs ≡ false
  unfolding any
  any-eq-false [] h = refl
  any-eq-false (x ∷ xs) h = ground (arith, any-eq-false xs h.1)

  pub find_first-some : (xs : List A) (a : A) → find_first p xs ≡ some a → Memᴰ a xs × (p a ≡ true)
  unfolding find_first
  find_first-some [] a h = cc
  find_first-some (x ∷ xs) a h = elim (Bool-split (p x)) [
    | inl e ↦ let same : x ≡ a = ground arith in (Memᴰ.head (ground arith), rw (← same) e)
    | inr e ↦ let (m, q) = find_first-some xs a (ground arith) in (Memᴰ.tail m, q)
  ]

  pub find_first-none : (xs : List A) → find_first p xs ≡ none → All (λ x. p x ≡ false) xs
  unfolding find_first
  find_first-none [] h = tt
  find_first-none (x ∷ xs) h = ground (arith, find_first-none xs)

  pub find_first-eq-none : (xs : List A) → All (λ x. p x ≡ false) xs → find_first p xs ≡ none
  unfolding find_first
  find_first-eq-none [] h = refl
  find_first-eq-none (x ∷ xs) h = ground (arith, find_first-eq-none xs h.1)

  pub mem-keep : {a : A} (xs : List A) → Memᴰ a (keep p xs) → Memᴰ a xs × (p a ≡ true)
  unfolding keep
  mem-keep [] m = absurd (Memᴰ.not-nil m)
  mem-keep (x ∷ xs) m = elim (Bool-split (p x)) [
    | inl e ↦ elim (Memᴰ.cases_cons (rw (e, keep) at m)) [
      | inl q ↦ (Memᴰ.head q, rw q e)
      | inr n ↦ let (k, q) = mem-keep xs n in (Memᴰ.tail k, q)
    ]
    | inr e ↦ let (k, q) = mem-keep xs (rw (e, keep) at m) in (Memᴰ.tail k, q)
  ]

  pub keep-mem : {a : A} (xs : List A) → Memᴰ a xs → p a ≡ true → Memᴰ a (keep p xs)
  unfolding keep
  keep-mem [] m h = absurd (Memᴰ.not-nil m)
  keep-mem (x ∷ xs) (Memᴰ.head e) h =
      let h' : p x ≡ true = rw (← e) h in rw (h', keep) (Memᴰ.head e)
  keep-mem (x ∷ xs) (Memᴰ.tail m) h = elim (Bool-split (p x)) [
    | inl e ↦ rw (e, keep) (Memᴰ.tail (keep-mem xs m h))
    | inr e ↦ rw (e, keep) (keep-mem xs m h)
  ]

  pub mem-change :
      (f : A → A) {b : A} (xs : List A)
      → Memᴰ b (change p f xs)
      → (Memᴰ b xs × (p b ≡ false)) ⊎ ((a : A) × Memᴰ a xs × (p a ≡ true) × (b ≡ f a))
  unfolding change
  mem-change f [] m = absurd (Memᴰ.not-nil m)
  mem-change f {b} (x ∷ xs) m = elim (Bool-split (p x)) [
    | inl e ↦ elim (Memᴰ.cases_cons (rw (e, change) at m)) [
      | inl q ↦ inr (x, Memᴰ.head refl, e, q)
      | inr n ↦ later (mem-change f xs n)
    ]
    | inr e ↦ elim (Memᴰ.cases_cons (rw (e, change) at m)) [
      | inl q ↦ inl (Memᴰ.head q, rw q e)
      | inr n ↦ later (mem-change f xs n)
    ]
  ]
    where
      later :
          (Memᴰ b xs × (p b ≡ false)) ⊎ ((a : A) × Memᴰ a xs × (p a ≡ true) × (b ≡ f a))
          → (Memᴰ b (x ∷ xs) × (p b ≡ false))
            ⊎ ((a : A) × Memᴰ a (x ∷ xs) × (p a ≡ true) × (b ≡ f a))
      later (inl (k, q)) = inl (Memᴰ.tail k, q)
      later (inr (a, k, q, e)) = inr (a, Memᴰ.tail k, q, e)

  -- After an update of the selected entries to one value, that value is found.
  pub find_first-change :
      (b : A) (xs : List A) {a : A}
      → p b ≡ true
      → find_first p xs ≡ some a
      → find_first p (change p (λ _. b) xs) ≡ some b
  unfolding find_first change
  find_first-change b [] h e = cc
  find_first-change b (x ∷ xs) h e = elim (Bool-split (p x)) [
    | inl q ↦ rw (q, h, q)
    | inr q ↦ rw (q, q) (find_first-change b xs h (rw (q, find_first) at e))
  ]

  -- The first entry that passes one test is the first to pass two, if it passes both.
  pub find_first-and :
      (q : A → Bool) (xs : List A) {a : A}
      → find_first p xs ≡ some a
      → q a ≡ true
      → find_first (λ x. p x && q x) xs ≡ some a
  unfolding find_first
  find_first-and q [] e h = cc
  find_first-and q (x ∷ xs) {a} e h = elim (Bool-split (p x)) [
    | inl k ↦ let same : x ≡ a = ground arith in ground (arith, k, same, h)
    | inr k ↦ ground (arith, k, find_first-and q xs (rw (k, find_first) at e) h)
  ]
