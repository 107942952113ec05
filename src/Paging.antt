-- ===== src/Paging.antt =====
-- The pages of a listing: `Pagination` of src/utils/response.ts, and the lines that every listing of
-- src/services repeats. The order of the server's sort is a parameter, which takes the page as well: each
-- page is a query of its own, and the server may order entries of the same key otherwise in each.
pub mod Order
mod Slices
pub mod Pages
use Prim.Native.Nat.{zero}
use hr_booking_server.Base.{
  ℕ, suc, ◌+◌, ◌-◌, ◌*◌, ◌/◌, Bool, List, [], ◌∷◌, ltb, if◌then◌else◌, keep, length,
}

pub record Pagination : Type 0 where
  pub page : ℕ
  pub limit : ℕ
  pub total : ℕ
  pub total_pages : ℕ

pub record Page {ℓ} (A : Type ℓ) : Type ℓ where
  pub data_of : List A
  pub pagination : Pagination

-- `skip` and `limit` of a query.
unfoldable pub drop {ℓ} : {A : Type ℓ} → ℕ → List A → List A
drop zero xs = xs
drop (suc n) [] = []
drop (suc n) (x ∷ xs) = drop n xs

unfoldable pub take {ℓ} : {A : Type ℓ} → ℕ → List A → List A
take zero xs = []
take (suc n) [] = []
take (suc n) (x ∷ xs) = x ∷ take n xs

-- `Math.max(1, Math.ceil(total / limit))`.
unfoldable pub total_pages : ℕ → ℕ → ℕ
total_pages total limit =
    let pages = (total + (limit - 1)) / limit in if ltb 1 pages then pages else 1

-- `Math.min(page, totalPages)`.
unfoldable pub clamp : ℕ → ℕ → ℕ
clamp page pages = if ltb page pages then page else pages

module _ {ℓ} {A : Type ℓ} (filter : A → Bool) (sort : ℕ → List A → List A) where
  unfoldable pub find_page : ℕ → ℕ → List A → Page A
  unfolding total_pages clamp take drop
  find_page page limit documents =
      let total = length (keep filter documents) in
      let pages = total_pages total limit in
      let shown = clamp page pages in
      record {
        data_of = take limit (drop ((shown - 1) * limit) (sort shown (keep filter documents)));
        pagination = record { page = shown; limit = limit; total = total; total_pages = pages };
      }
