-- ===== src/Specializations.antt =====
-- src/services/specialization.service.ts: the taxonomy of the profiles. Slugs are compared as texts.
use hr_booking_server.Base.{
  ℕ, suc, inl, inr, Bool, true, false, ◌&&◌, not, Option, none, some, String, List, [], ◌∷◌, ◌++◌,
  ◌==◌, same_text, if◌then◌else◌, find_first, any, keep, change, ◌≡◌, refl, arith, Memᴰ, All,
  Bool-cases, ◌↔◌, any-false,
}
use hr_booking_server.Errors.{Result, ok, err, validation_error, conflict, not_found}
use hr_booking_server.Models.{Specialization, HrProfile}
use hr_booking_server.Store.{Db, M, returns, ◌>>=◌, ◌>>◌, pure, throw_if, or_throw, get, modify}

abbrev pub is_offered_slug : String → Db → Bool
is_offered_slug slug db = any (λ s. same_text s.slug slug && s.is_active) db.specializations

abbrev invalid_slugs : List String → Db → List String
invalid_slugs slugs db = keep (λ slug. not (is_offered_slug slug db)) slugs

abbrev is_empty {ℓ} : {A : Type ℓ} → List A → Bool
is_empty [] = true
is_empty (x ∷ xs) = false

unfoldable pub assert_active_specializations : List String → Db → Result (Unit {0})
assert_active_specializations slugs db =
    if is_empty (invalid_slugs slugs db)
    then ok tt
    else err (validation_error "One or more specializations are invalid or no longer offered.")

pub record CreateSpecializationInput : Type 0 where
  pub slug : String
  pub name : String
  pub description : Option String

pub record UpdateSpecializationInput : Type 0 where
  pub name : Option String
  pub description : Option String
  pub is_active : Option Bool

abbrev exists_slug : String → Db → Bool
exists_slug slug db = any (λ s. same_text s.slug slug) db.specializations

abbrev new_specialization : (String → String) → CreateSpecializationInput → ℕ → Specialization
new_specialization to_upper_case input id = record {
  id = id;
  slug = to_upper_case input.slug;
  name = input.name;
  description = input.description;
  is_active = true;
}

-- The schema stores a slug in upper case.
unfoldable pub create_specialization :
    (String → String) → CreateSpecializationInput → M Specialization
create_specialization to_upper_case input = do
  existing ← get (exists_slug (to_upper_case input.slug))
  throw_if existing (conflict "A specialization with this slug already exists." none)
  next ← get (λ db. db.next_id)
  modify λ db. record db {
    specializations = db.specializations ++ new_specialization to_upper_case input next ∷ [];
    next_id = suc next;
  }
  pure (new_specialization to_upper_case input next)

abbrev or_kept {ℓ} : {A : Type ℓ} → Option A → A → A
or_kept none a = a
or_kept (some b) a = b

abbrev or_kept_option {ℓ} : {A : Type ℓ} → Option A → Option A → Option A
or_kept_option none a = a
or_kept_option (some b) a = some b

abbrev updated : UpdateSpecializationInput → Specialization → Specialization
updated input s = record s {
  name = or_kept input.name s.name;
  description = or_kept_option input.description s.description;
  is_active = or_kept input.is_active s.is_active;
}

unfoldable pub find_specialization : ℕ → Db → Option Specialization
find_specialization id db = find_first (λ s. s.id == id) db.specializations

unfoldable pub update_specialization : ℕ → UpdateSpecializationInput → M Specialization
unfolding find_specialization
update_specialization id input = do
  found ← get (find_specialization id)
  s ← or_throw found (not_found "Specialization not found.")
  modify λ db. record db {
    specializations = change (λ t. t.id == s.id) (λ _. updated input s) db.specializations;
  }
  pure (updated input s)

abbrev pub uses : String → HrProfile → Bool
uses slug p = any (λ s. same_text s slug) p.specializations

-- The message is without the count.
unfoldable pub delete_specialization : ℕ → M (Unit {0})
unfolding find_specialization
delete_specialization id = do
  found ← get (find_specialization id)
  s ← or_throw found (not_found "Specialization not found.")
  in_use ← get (λ db. any (uses s.slug) db.profiles)
  throw_if in_use (
      conflict "HR profile(s) still use this specialization. Deactivate it instead of deleting."
        none)
  modify λ db. record db { specializations = keep (λ t. not (t.id == s.id)) db.specializations }

-- The gate passes exactly when every slug is that of an active specialization.
pub assert_active_specializations_iff :
    (slugs : List String) (db : Db)
    → (assert_active_specializations slugs db ≡ ok tt)
      ↔ All (λ slug. is_offered_slug slug db ≡ true) slugs
unfolding assert_active_specializations keep
assert_active_specializations_iff [] db = (λ _. tt, λ _. refl)
assert_active_specializations_iff (slug ∷ slugs) db = elim (Bool-cases (is_offered_slug slug db)) [
  | inl e ↦ ground (arith, e, assert_active_specializations_iff slugs db)
  | inr e ↦ ground (arith, e)
]

-- A specialization that a profile uses cannot be deleted.
pub delete_specialization-unused :
    (id : ℕ) (db after : Db) (s : Specialization)
    → find_specialization id db ≡ some s
    → delete_specialization id db ≡ returns tt after
    → (p : HrProfile) → Memᴰ p db.profiles
    → uses s.slug p ≡ false
unfolding delete_specialization
delete_specialization-unused id db after s h e p m =
    any-false (uses s.slug) db.profiles (ground (arith, h, e)) m
