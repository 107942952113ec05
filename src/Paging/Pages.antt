-- ===== src/Paging/Pages.antt =====
-- The pages of a listing together are the whole listing.
use Prim.Native.Nat.{zero}
use native.Mathlib.Nat.{lt-div-mul-add}
use mathlib.Core.List.Memᴰ
use mathlib.Core.List.{Permᴰ}
use hr_booking_server.Base.{
  ℕ, suc, ◌+◌, ◌-◌, ◌*◌, ◌/◌, ◌≤◌, ◌<◌, ◌≡◌, refl, sym, ap, ◌∙◌, inl, inr, Bool, true, List, [],
  ◌++◌, Memᴰ, ltb, ◌==◌, keep, length, arith, Bool-cases, mem-keep, keep-mem,
}
use hr_booking_server.Paging.{Page, find_page, total_pages, clamp, take, drop}
use hr_booking_server.Paging.Order.{
  length-perm, mem-perm, perm-back, HasOwnKeys, HasOwnKeys-perm, IsOrdered, IsOrdered-unique,
}
use hr_booking_server.Paging.Slices.{length-take, take-all, take-add, drop-drop, mem-take, mem-drop}

-- Documented of a sort: it gives the same entries, as many, in every query.
pub record Rearranges {ℓ} {A : Type ℓ} (sort : ℕ → List A → List A) : Type ℓ where
  pub same_length : (page : ℕ) (xs : List A) → length (sort page xs) ≡ length xs
  pub sort-mem : (page : ℕ) (a : A) (xs : List A) → Memᴰ a xs → Memᴰ a (sort page xs)
  pub mem-sort : (page : ℕ) (a : A) (xs : List A) → Memᴰ a (sort page xs) → Memᴰ a xs

-- And it gives them as often, in an order of the key that orders different keys one way. Nothing is said of
-- entries with the same key.
pub record Orders {ℓ} {A : Type ℓ} (key : A → ℕ) (before : ℕ → ℕ → Type 0)
    (sort : ℕ → List A → List A) : Type ℓ where
  pub permutes : (page : ℕ) (xs : List A) → Permᴰ (sort page xs) xs
  pub orders : (page : ℕ) (xs : List A) → IsOrdered key before (sort page xs)
  pub anti : (m n : ℕ) → before m n → before n m → m ≡ n

-- Where no two entries have the same key, every query orders them alike.
Orders-alike {ℓ} :
    {A : Type ℓ} (key : A → ℕ) (before : ℕ → ℕ → Type 0) (sort : ℕ → List A → List A)
    → Orders key before sort
    → (xs : List A) → HasOwnKeys key xs
    → (m n : ℕ) → sort m xs ≡ sort n xs
Orders-alike key before sort o xs own m n =
    let from = o.permutes m xs in
    let to = o.permutes n xs in
    IsOrdered-unique key before o.anti (sort m xs) (sort n xs) (o.orders m xs) (o.orders n xs)
      (HasOwnKeys-perm key (perm-back from) own) (HasOwnKeys-perm key (perm-back to) own)
      (λ a k. mem-perm (perm-back to) (mem-perm from k))
      (λ a k. mem-perm (perm-back from) (mem-perm to k))

total_pages-covers : (total limit : ℕ) → 0 < limit → total ≤ total_pages total limit * limit
unfolding total_pages
total_pages-covers total limit pos =
    let n = total + (limit - 1) in
    let below = lt-div-mul-add {a = n} {b = limit} pos in
    elim (Bool-cases (ltb 1 (n / limit))) [
      | inl e ↦ rw e (omega (arith, below))
      | inr e ↦ elim (Bool-cases (n / limit == 0)) [
        | inl k ↦ rw e (
            let none_full : n / limit ≡ 0 = ground (arith, k) in
            omega (arith, rw none_full at below))
        | inr k ↦ rw e (
            let one_full : n / limit ≡ 1 = ground (arith, e, k) in
            omega (arith, rw one_full at below))
      ]
    ]

total_pages-pos : (total limit : ℕ) → 1 ≤ total_pages total limit
unfolding total_pages
total_pages-pos total limit = ground arith

module _ {ℓ} {A : Type ℓ} (filter : A → Bool) (sort : ℕ → List A → List A)
    (documents : List A) where
  -- The data of `count` pages from the one after `done` on.
  abbrev pub pages_from : ℕ → ℕ → ℕ → List A
  pages_from zero done limit = []
  pages_from (suc count) done limit =
      (find_page filter sort (suc done) limit documents).data_of
      ++ pages_from count (suc done) limit

  abbrev pub last_page : ℕ → ℕ
  last_page limit = total_pages (length (keep filter documents)) limit

  abbrev listed : List A
  listed = sort 1 (keep filter documents)

  -- Every query orders the documents that pass alike.
  abbrev IsAlike : Type ℓ
  IsAlike = (page : ℕ) → sort page (keep filter documents) ≡ listed

  page-slice :
      IsAlike
      → (done limit : ℕ) → done < last_page limit
      → (find_page filter sort (suc done) limit documents).data_of
        ≡ take limit (drop (done * limit) listed)
  unfolding find_page clamp
  page-slice alike done limit h =
      let shown : clamp (suc done) (last_page limit) - 1 ≡ done = ground arith in
      rw (shown, alike (clamp (suc done) (last_page limit)))

  pages_from-slice :
      IsAlike
      → (count done limit : ℕ) → count + done ≤ last_page limit
      → pages_from count done limit ≡ take (count * limit) (drop (done * limit) listed)
  unfolding take
  pages_from-slice alike zero done limit h =
      let no_pages : 0 * limit ≡ 0 = omega arith in rw no_pages refl
  pages_from-slice alike (suc count) done limit h =
      let amount : suc count * limit ≡ limit + count * limit = omega arith in
      let start : suc done * limit ≡ done * limit + limit = omega arith in
      rw
        (
          page-slice alike done limit (omega arith),
          pages_from-slice alike count (suc done) limit (omega arith),
          amount,
          start,
        )
        (sym (
          take-add limit (count * limit) (drop (done * limit) listed)
          ∙ ap (λ ys. take limit (drop (done * limit) listed) ++ take (count * limit) ys)
              (drop-drop (done * limit) limit listed)))

  drop_none :
      (limit : ℕ)
      → take (last_page limit * limit) (drop (0 * limit) listed)
        ≡ take (last_page limit * limit) listed
  unfolding drop
  drop_none limit = let no_pages : 0 * limit ≡ 0 = omega arith in rw no_pages refl

  pages_from-listed :
      (limit : ℕ)
      → 0 < limit
      → Permᴰ listed (keep filter documents)
      → IsAlike
      → pages_from (last_page limit) 0 limit ≡ listed
  unfolding drop
  pages_from-listed limit pos r alike =
      pages_from-slice alike (last_page limit) 0 limit (omega arith)
      ∙ drop_none limit
      ∙ take-all (last_page limit * limit) listed
          (rw (length-perm r) (total_pages-covers (length (keep filter documents)) limit pos))

  -- With a limit that is not zero, where no two documents that pass the filter have the same key, and the
  -- server sorts each query by the key: the data of the pages from the first to the last, one after another, are
  -- the documents that pass the filter, once each and in the order of the key.
  pub find_page_concat :
      (limit : ℕ) (key : A → ℕ) (before : ℕ → ℕ → Type 0)
      → 0 < limit
      → Orders key before sort
      → HasOwnKeys key (keep filter documents)
      → Permᴰ (pages_from (last_page limit) 0 limit) (keep filter documents)
        × IsOrdered key before (pages_from (last_page limit) 0 limit)
  find_page_concat limit key before pos o own =
      let alike : IsAlike =
        λ page. Orders-alike key before sort o (keep filter documents) own page 1 in
      rw (pages_from-listed limit pos (o.permutes 1 (keep filter documents)) alike)
        (o.permutes 1 (keep filter documents), o.orders 1 (keep filter documents))

  -- A page has at most as many entries as its limit, and it is one of the pages there are, whatever
  -- page was asked for.
  pub find_page-bounds :
      (page limit : ℕ)
      → 1 ≤ page
      → (length (find_page filter sort page limit documents).data_of ≤ limit)
        × (1 ≤ (find_page filter sort page limit documents).pagination.page)
        × ((find_page filter sort page limit documents).pagination.page
            ≤ (find_page filter sort page limit documents).pagination.total_pages)
  unfolding find_page clamp
  find_page-bounds page limit h =
      let pos = total_pages-pos (length (keep filter documents)) limit in
      (length-take limit _, ground (arith, pos), ground (arith, pos))

-- What a page shows is among the documents, and passes the filter.
pub page-mem {ℓ} :
    {A : Type ℓ} (filter : A → Bool) (sort : ℕ → List A → List A) (page limit : ℕ)
    (documents : List A)
    → Rearranges sort
    → (shown : Page A) → find_page filter sort page limit documents ≡ shown
    → (a : A) → Memᴰ a shown.data_of
    → Memᴰ a documents × (filter a ≡ true)
unfolding find_page
page-mem filter sort page limit documents r shown answer a m =
    let entries : shown.data_of ≡ (find_page filter sort page limit documents).data_of =
      ap (λ p. p.data_of) (sym answer) in
    mem-keep filter documents
      (r.mem-sort _ a (keep filter documents) (mem-drop _ _ (mem-take limit _ (rw entries at m))))

module _ {ℓ} {A : Type ℓ} (filter : A → Bool) (sort : ℕ → List A → List A)
    (documents : List A) where
  on_some_page :
      (count done limit : ℕ) {a : A}
      → Memᴰ a (pages_from filter sort documents count done limit)
      → (page : ℕ) × (done < page)
        × (page ≤ count + done)
        × Memᴰ a (find_page filter sort page limit documents).data_of
  on_some_page zero done limit m = absurd (Memᴰ.not-nil m)
  on_some_page (suc count) done limit m = elim (Memᴰ.append_cases _ m) [
    | inl now ↦ (suc done, omega arith, omega arith, now)
    | inr later ↦
        let (page, after, last, shown) = on_some_page count (suc done) limit later in
        (page, omega (arith, after), omega (arith, last), shown)
  ]

  -- Where the keys are distinct, every document that passes the filter is on a page.
  pub mem-page :
      (limit : ℕ) (key : A → ℕ) (before : ℕ → ℕ → Type 0)
      → 0 < limit
      → Orders key before sort
      → HasOwnKeys key (keep filter documents)
      → {a : A} → Memᴰ a documents
      → filter a ≡ true
      → (page : ℕ) × (1 ≤ page) × Memᴰ a (find_page filter sort page limit documents).data_of
  mem-page limit key before pos o own {a} m h =
      let all = (find_page_concat filter sort documents limit key before pos o own).0 in
      let (page, first, last, shown) =
        on_some_page (last_page filter sort documents limit) 0 limit
          (mem-perm (perm-back all) (keep-mem filter documents m h)) in
      (page, omega (arith, first), shown)
