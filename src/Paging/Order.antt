-- ===== src/Paging/Order.antt =====
-- Rearrangements of a list in the order of a key. Where the keys are distinct there is only one.
use mathlib.Core.List.Memᴰ
use mathlib.Core.List.{Permᴰ}
use mathlib.Core.Path.{subst}
use hr_booking_server.Base.{
  ℕ, suc, ◌≡◌, refl, sym, ap, ◌∙◌, ◌≢◌, List, [], ◌∷◌, Memᴰ, All, All-mem, All-of_mem, length,
}

module _ {ℓ} {A : Type ℓ} where
  pub length-perm : {xs ys : List A} → Permᴰ xs ys → length xs ≡ length ys
  length-perm Permᴰ.nil = refl
  length-perm (Permᴰ.cons e p) = ap suc (length-perm p)
  length-perm (Permᴰ.swap e f) = refl
  length-perm (Permᴰ.trans p q) = length-perm p ∙ length-perm q

  pub mem-perm : {a : A} {xs ys : List A} → Permᴰ xs ys → Memᴰ a xs → Memᴰ a ys
  mem-perm Permᴰ.nil m = m
  mem-perm (Permᴰ.cons e p) (Memᴰ.head k) = Memᴰ.head (k ∙ e)
  mem-perm (Permᴰ.cons e p) (Memᴰ.tail m) = Memᴰ.tail (mem-perm p m)
  mem-perm (Permᴰ.swap e f) (Memᴰ.head k) = Memᴰ.tail (Memᴰ.head (k ∙ e))
  mem-perm (Permᴰ.swap e f) (Memᴰ.tail (Memᴰ.head k)) = Memᴰ.head (k ∙ f)
  mem-perm (Permᴰ.swap e f) (Memᴰ.tail (Memᴰ.tail m)) = Memᴰ.tail (Memᴰ.tail m)
  mem-perm (Permᴰ.trans p q) m = mem-perm q (mem-perm p m)

  pub perm-back : {xs ys : List A} → Permᴰ xs ys → Permᴰ ys xs
  perm-back Permᴰ.nil = Permᴰ.nil
  perm-back (Permᴰ.cons e p) = Permᴰ.cons (sym e) (perm-back p)
  perm-back (Permᴰ.swap e f) = Permᴰ.swap (sym f) (sym e)
  perm-back (Permᴰ.trans p q) = Permᴰ.trans (perm-back q) (perm-back p)

module _ {ℓ} {A : Type ℓ} (key : A → ℕ) where
  -- No two entries have the same key.
  abbrev pub HasOwnKeys : List A → Type 0
  HasOwnKeys [] = Unit
  HasOwnKeys (x ∷ xs) = All (λ y. key x ≢ key y) xs × HasOwnKeys xs

  All-perm :
      (n : ℕ) {xs ys : List A} → Permᴰ xs ys → All (λ y. n ≢ key y) xs → All (λ y. n ≢ key y) ys
  All-perm n {xs} {ys} p h =
      All-of_mem (λ y. n ≢ key y) ys λ a m. All-mem (λ y. n ≢ key y) xs h (mem-perm (perm-back p) m)

  All-key :
      {x y : A} (zs : List A) → x ≡ y → All (λ z. key x ≢ key z) zs → All (λ z. key y ≢ key z) zs
  All-key zs e h = subst (λ w. All (λ z. key w ≢ key z) zs) e h

  pub HasOwnKeys-perm : {xs ys : List A} → Permᴰ xs ys → HasOwnKeys xs → HasOwnKeys ys
  HasOwnKeys-perm Permᴰ.nil h = h
  HasOwnKeys-perm (Permᴰ.cons {a = a} {b = b} e p) h =
      (All-perm (key b) p (rw (← e) h.0), HasOwnKeys-perm p h.1)
  HasOwnKeys-perm (Permᴰ.swap e f) h = (
    ((λ k. h.0.0 (ap key e ∙ (sym k ∙ ap key (sym f)))), All-key _ f h.1.0),
    (All-key _ e h.0.1, h.1.1),
  )
  HasOwnKeys-perm (Permᴰ.trans p q) h = HasOwnKeys-perm q (HasOwnKeys-perm p h)

  module _ (before : ℕ → ℕ → Type 0) where
    abbrev pub IsOrdered : List A → Type 0
    IsOrdered [] = Unit
    IsOrdered (x ∷ xs) = All (λ y. before (key x) (key y)) xs × IsOrdered xs

    module _ (anti : (m n : ℕ) → before m n → before n m → m ≡ n) where
      -- Two ordered lists with the same entries, whose keys are distinct, are the same.
      pub IsOrdered-unique :
          (xs ys : List A)
          → IsOrdered xs
          → IsOrdered ys
          → HasOwnKeys xs
          → HasOwnKeys ys
          → ((a : A) → Memᴰ a xs → Memᴰ a ys)
          → ((a : A) → Memᴰ a ys → Memᴰ a xs)
          → xs ≡ ys
      IsOrdered-unique [] [] o q h k f g = refl
      IsOrdered-unique [] (y ∷ ys) o q h k f g = absurd (Memᴰ.not-nil (g y (Memᴰ.head refl)))
      IsOrdered-unique (x ∷ xs) [] o q h k f g = absurd (Memᴰ.not-nil (f x (Memᴰ.head refl)))
      IsOrdered-unique (x ∷ xs) (y ∷ ys) o q h k f g =
          let same = heads (f x (Memᴰ.head refl)) (g y (Memᴰ.head refl)) in
          let rest : xs ≡ ys =
            IsOrdered-unique xs ys o.1 q.1 h.1 k.1
              (λ a m.
                in_tail a ys (f a (Memᴰ.tail m))
                  (λ e. All-mem (λ z. key x ≢ key z) xs h.0 m (ap key (same ∙ sym e))))
              (λ a m.
                in_tail a xs (g a (Memᴰ.tail m))
                  (λ e. All-mem (λ z. key y ≢ key z) ys k.0 m (ap key (sym same ∙ sym e)))) in
          rw (same, rest) refl
        where
          heads : Memᴰ x (y ∷ ys) → Memᴰ y (x ∷ xs) → x ≡ y
          heads (Memᴰ.head e) n = e
          heads (Memᴰ.tail m) (Memᴰ.head e) = sym e
          heads (Memᴰ.tail m) (Memᴰ.tail n) = absurd (
              All-mem (λ z. key x ≢ key z) xs h.0 n
                (anti (key x) (key y) (All-mem (λ z. before (key x) (key z)) xs o.0 n)
                  (All-mem (λ z. before (key y) (key z)) ys q.0 m)))

          in_tail : {w : A} (a : A) (zs : List A) → Memᴰ a (w ∷ zs) → (a ≡ w → ⊥) → Memᴰ a zs
          in_tail a zs (Memᴰ.head e) d = absurd (d e)
          in_tail a zs (Memᴰ.tail m) d = m
