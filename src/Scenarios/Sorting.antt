-- ===== src/Scenarios/Sorting.antt =====
-- A sort by insertion, as the server may do it.
use mathlib.Core.List.Permᴰ
use mathlib.Core.List.{Permᴰ}
use hr_booking_server.Base.{
  ℕ, ◌≡◌, refl, Bool, true, false, inl, inr, List, [], ◌∷◌, All, All-mem, All-of_mem, leb,
  if◌then◌else◌, arith, Bool-cases,
}
use hr_booking_server.Paging.Order.{IsOrdered, mem-perm, length-perm, perm-back}
use hr_booking_server.Paging.Pages.{Orders, Rearranges}
use hr_booking_server.Listings.{Direction, ascending, descending}
use hr_booking_server.Listings.Scope.{IsSortedBy}

abbrev goes_first : Direction → ℕ → ℕ → Bool
goes_first ascending m n = leb m n
goes_first descending m n = leb n m

goes_first-IsSortedBy : (d : Direction) (m n : ℕ) → goes_first d m n ≡ true → IsSortedBy d m n
goes_first-IsSortedBy ascending m n e = ground (arith, e)
goes_first-IsSortedBy descending m n e = ground (arith, e)

goes_after-IsSortedBy : (d : Direction) (m n : ℕ) → goes_first d m n ≡ false → IsSortedBy d n m
goes_after-IsSortedBy ascending m n e = ground (arith, e)
goes_after-IsSortedBy descending m n e = ground (arith, e)

IsSortedBy-trans :
    (d : Direction) (l m n : ℕ) → IsSortedBy d l m → IsSortedBy d m n → IsSortedBy d l n
IsSortedBy-trans ascending l m n e f = omega (arith, e, f)
IsSortedBy-trans descending l m n e f = omega (arith, e, f)

IsSortedBy-anti : (d : Direction) (m n : ℕ) → IsSortedBy d m n → IsSortedBy d n m → m ≡ n
IsSortedBy-anti ascending m n e f = omega (arith, e, f)
IsSortedBy-anti descending m n e f = omega (arith, e, f)

module _ {ℓ} {A : Type ℓ} (d : Direction) (key : A → ℕ) where
  unfoldable pub inserted_by : A → List A → List A
  inserted_by x [] = x ∷ []
  inserted_by x (y ∷ ys) =
      let rest = inserted_by x ys in if goes_first d (key x) (key y) then x ∷ y ∷ ys else y ∷ rest

  unfoldable pub sorted : List A → List A
  unfolding inserted_by
  sorted [] = []
  sorted (x ∷ xs) = inserted_by x (sorted xs)

  inserted_by-perm : (x : A) (xs : List A) → Permᴰ (inserted_by x xs) (x ∷ xs)
  unfolding inserted_by
  inserted_by-perm x [] = Permᴰ.refl (x ∷ [])
  inserted_by-perm x (y ∷ ys) = elim (Bool-cases (goes_first d (key x) (key y))) [
    | inl e ↦ rw (e) (Permᴰ.refl (x ∷ y ∷ ys))
    | inr e ↦ rw (e) (Permᴰ.trans (Permᴰ.cons refl (inserted_by-perm x ys)) (Permᴰ.swap refl refl))
  ]

  sorted-perm : (xs : List A) → Permᴰ (sorted xs) xs
  unfolding sorted
  sorted-perm [] = Permᴰ.nil
  sorted-perm (x ∷ xs) =
      Permᴰ.trans (inserted_by-perm x (sorted xs)) (Permᴰ.cons refl (sorted-perm xs))

  before_all :
      (x y : A) (ys : List A)
      → IsSortedBy d (key x) (key y)
      → All (λ z. IsSortedBy d (key y) (key z)) ys
      → All (λ z. IsSortedBy d (key x) (key z)) ys
  before_all x y ys e h =
      All-of_mem _ ys λ z m. IsSortedBy-trans d (key x) (key y) (key z) e (All-mem _ ys h m)

  after_one :
      (x y : A) (ys : List A)
      → IsSortedBy d (key y) (key x)
      → All (λ z. IsSortedBy d (key y) (key z)) ys
      → All (λ z. IsSortedBy d (key y) (key z)) (inserted_by x ys)
  after_one x y ys e h = All-of_mem _ (inserted_by x ys) λ z m.
      All-mem (λ z. IsSortedBy d (key y) (key z)) (x ∷ ys) (e, h)
        (mem-perm (inserted_by-perm x ys) m)

  inserted_by-IsOrdered :
      (x : A) (xs : List A)
      → IsOrdered key (IsSortedBy d) xs
      → IsOrdered key (IsSortedBy d) (inserted_by x xs)
  unfolding inserted_by
  inserted_by-IsOrdered x [] h = (tt, tt)
  inserted_by-IsOrdered x (y ∷ ys) h = elim (Bool-cases (goes_first d (key x) (key y))) [
    | inl e ↦ rw (e) (
        let first = goes_first-IsSortedBy d (key x) (key y) e in
        ((first, before_all x y ys first h.0), h))
    | inr e ↦ rw (e) (
      after_one x y ys (goes_after-IsSortedBy d (key x) (key y) e) h.0,
      inserted_by-IsOrdered x ys h.1,
    )
  ]

  sorted-IsOrdered : (xs : List A) → IsOrdered key (IsSortedBy d) (sorted xs)
  unfolding sorted
  sorted-IsOrdered [] = tt
  sorted-IsOrdered (x ∷ xs) = inserted_by-IsOrdered x (sorted xs) (sorted-IsOrdered xs)

  pub sorted-Orders : Orders key (IsSortedBy d) (λ page. sorted)
  sorted-Orders = record {
    permutes = λ page. sorted-perm;
    orders = λ page. sorted-IsOrdered;
    anti = IsSortedBy-anti d;
  }

  pub sorted-Rearranges : Rearranges (λ page. sorted)
  sorted-Rearranges = record {
    same_length = λ page xs. length-perm (sorted-perm xs);
    sort-mem = λ page a xs. mem-perm (perm-back (sorted-perm xs));
    mem-sort = λ page a xs. mem-perm (sorted-perm xs);
  }
