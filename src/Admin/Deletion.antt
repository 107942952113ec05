-- ===== src/Admin/Deletion.antt =====
-- src/services/admin-user.service.ts: what is left after a suspension and after a deletion.
use mathlib.Core.List.Memᴰ
use hr_booking_server.Base.{
  refl, Memᴰ, Option, keep-mem, any-eq-false, ℕ, ◌≡◌, ◌≢◌, inl, inr, Bool, false, ◌&&◌, not, some,
  String, List, [], ◌∷◌, ◌==◌, find_first, any, keep, change, arith, mem-keep, any-false,
  find_first-some, find_first-change, All, All-of_mem, Bool-cases, Option-cases,
}
use hr_booking_server.Constants.{is_hr, is_admin, CancelledBy}
use hr_booking_server.Models.{User, Booking}
use hr_booking_server.Store.{Db, returns, final}
use hr_booking_server.Auth.{find_by_id, save_user, delete_tokens_of}
use hr_booking_server.Booking.Checks.{Actor, is_active, check_cancel, find_booking}
use hr_booking_server.Booking.Invariant.{IsConsistent, HasDistinctIds-eq}
use hr_booking_server.Errors.{Result, ok, err}
use hr_booking_server.Booking.Service.{cancel_booking}
use hr_booking_server.Booking.Cancel.{
  cancel_booking-IsConsistent, check_cancel-refused, check_cancel_iff, cancel_booking-returns,
  audited-bookings, stored, cancelled,
}
use hr_booking_server.Admin.{
  suspended, suspend_user, DeletedUserSummary, is_party, cancel_all, delete_bookings_of,
  delete_records_of, delete_consultant_records_of, delete_user,
}

find_booking-id : (id : ℕ) (db : Db) (b : Booking) → find_booking id db ≡ some b → b.id ≡ id
unfolding find_booking
find_booking-id id db b e = ground (arith, find_first-some _ _ _ e)

module _ (actor : Actor) (id : ℕ) (reason : String) (db after : Db) (r : User)
    (h : suspend_user actor id reason db ≡ returns r after) where
  suspend_user-parts :
      (u : User) × (find_by_id id db ≡ some u)
      × (is_admin u.role ≡ false)
      × (after.users ≡ change (λ v. v.id == u.id) (λ _. suspended u) db.users)
      × (after.refresh_tokens ≡ keep (λ t. not (t.user_id == u.id)) db.refresh_tokens)
  unfolding suspend_user save_user delete_tokens_of
  suspend_user-parts = ground arith

  -- A suspension that returns was of an account that is not an admin's; the account is suspended
  -- afterwards, and no session of it is left.
  pub suspend_user-ends :
      (u : User) × (find_by_id id db ≡ some u)
      × (is_admin u.role ≡ false)
      × (find_by_id u.id after ≡ some (suspended u))
      × All (λ t. t.user_id ≢ u.id) after.refresh_tokens
  unfolding find_by_id
  suspend_user-ends =
      let (u, found, plain, users, tokens) = suspend_user-parts in
      let same : u.id ≡ id = ground (arith, find_first-some (λ v. v.id == id) db.users u found) in
      let stored : find_first (λ v. v.id == u.id) after.users ≡ some (suspended u) = rw users (
        find_first-change (λ v. v.id == u.id) (suspended u) db.users {a = u} (ground arith)
          (rw same found)) in
      (
        u,
        found,
        plain,
        stored,
        rw tokens (
            All-of_mem (λ t. t.user_id ≢ u.id)
              (keep (λ t. not (t.user_id == u.id)) db.refresh_tokens)
              (λ t m.
                let (_, other) = mem-keep (λ s. not (s.user_id == u.id)) db.refresh_tokens m in
                ground arith)),
      )

change-mem-other {ℓ} :
    {A : Type ℓ} (p : A → Bool) (f : A → A) {a : A} (xs : List A)
    → Memᴰ a xs
    → p a ≡ false
    → Memᴰ a (change p f xs)
unfolding change
change-mem-other p f [] m h = absurd (Memᴰ.not-nil m)
change-mem-other p f (x ∷ xs) (Memᴰ.head e) h =
    let other : p x ≡ false = rw (← e) h in rw (other, change) (Memᴰ.head e)
change-mem-other p f (x ∷ xs) (Memᴰ.tail m) h = elim (Bool-cases (p x)) [
  | inl e ↦ rw (e, change) (Memᴰ.tail (change-mem-other p f xs m h))
  | inr e ↦ rw (e, change) (Memᴰ.tail (change-mem-other p f xs m h))
]

-- A cancellation, whether it returns or throws, leaves every other booking as it is.
cancel_booking-others :
    (now : ℕ) (actor : Actor) (id : ℕ) (reason : Option String) (db : Db) (b : Booking)
    → b.id ≢ id
    → Memᴰ b db.bookings
    → Memᴰ b (final (cancel_booking now actor id reason db)).bookings
cancel_booking-others now actor id reason db b differ m = split (check_cancel now actor id db) refl
  where
    split :
        (r : Result (Booking × CancelledBy))
        → check_cancel now actor id db ≡ r
        → Memᴰ b (final (cancel_booking now actor id reason db)).bookings
    split (err x) e = rw (check_cancel-refused now actor id reason db x e) m
    split (ok (c, role)) e =
        let k = (check_cancel_iff now actor id db c role).0 e in
        let same = find_booking-id id db c k.found in
        rw
          (
            cancel_booking-returns now actor id reason db c role k,
            (audited-bookings actor c.id reason role (stored now actor id reason db c role k)).0,
          )
          (change-mem-other (λ (x : Booking). x.id == c.id)
            (λ _. cancelled now actor id reason db c role k) db.bookings m
            (ground (arith, same, differ)))

cancel_all-others :
    (now : ℕ) (actor : Actor) (cs : List Booking) (db : Db) (b : Booking)
    → All (λ c. b.id ≢ c.id) cs
    → Memᴰ b db.bookings
    → Memᴰ b (cancel_all now actor cs db).bookings
unfolding cancel_all
cancel_all-others now actor [] db b h m = m
cancel_all-others now actor (c ∷ cs) db b h m = cancel_all-others now actor cs _ b h.1 (
    cancel_booking-others now actor c.id (some "The other party's account was deleted.") db b h.0 m)

cancel_all-IsConsistent :
    (now : ℕ) (actor : Actor) (bs : List Booking) (db : Db)
    → IsConsistent db.next_id db.bookings
    → IsConsistent (cancel_all now actor bs db).next_id (cancel_all now actor bs db).bookings
unfolding cancel_all
cancel_all-IsConsistent now actor [] db h = h
cancel_all-IsConsistent now actor (b ∷ bs) db h = cancel_all-IsConsistent now actor bs _ (
    cancel_booking-IsConsistent now actor b.id (some "The other party's account was deleted.") db h)

module _ (now : ℕ) (actor : Actor) (id : ℕ) (db after : Db) (s : DeletedUserSummary)
    (h : delete_user now actor id db ≡ returns s after) where
  -- The state when the cancellations are made.
  abbrev mid : User → Db
  mid u = cancel_all now actor (keep (λ b. is_party u.id b && is_active b) db.bookings) db

  delete_user-parts :
      (u : User) × (find_by_id id db ≡ some u)
      × (is_admin u.role ≡ false)
      × (after.bookings
          ≡ keep
              (λ c. not (any (λ b. is_party u.id b && b.id == c.id) (mid u).bookings))
              (mid u).bookings)
      × (after.next_id ≡ (mid u).next_id)
      × (after.refresh_tokens ≡ keep (λ t. not (t.user_id == u.id)) (mid u).refresh_tokens)
      × (after.users ≡ keep (λ v. not (v.id == u.id)) (mid u).users)
  unfolding delete_user delete_bookings_of delete_records_of delete_consultant_records_of
  delete_user-parts = elim (Option-cases (find_by_id id db)) [
    | inl e ↦ absurd (ground (arith, e))
    | inr (u, e) ↦ elim (Bool-cases (is_admin u.role)) [
      | inl a ↦ absurd (ground (arith, e, a))
      | inr a ↦ elim (Bool-cases (is_hr u.role)) [
        | inl k ↦ (
          u,
          e,
          a,
          ground (arith, e, a, k),
          ground (arith, e, a, k),
          ground (arith, e, a, k),
          ground (arith, e, a, k),
        )
        | inr k ↦ (
          u,
          e,
          a,
          ground (arith, e, a, k),
          ground (arith, e, a, k),
          ground (arith, e, a, k),
          ground (arith, e, a, k),
        )
      ]
    ]
  ]

  -- A deletion that returns was of an account that is not an admin's; it leaves no booking with the
  -- account as client or consultant, no session of it and no account with its id.
  pub delete_user-erases :
      (u : User) × (find_by_id id db ≡ some u)
      × (is_admin u.role ≡ false)
      × All (λ b. is_party u.id b ≡ false) after.bookings
      × All (λ t. t.user_id ≢ u.id) after.refresh_tokens
      × All (λ v. v.id ≢ u.id) after.users
  delete_user-erases =
      let (u, found, plain, bookings, _, tokens, users) = delete_user-parts in
      let listed = λ (c : Booking). any (λ b. is_party u.id b && b.id == c.id) (mid u).bookings in
      (
        u,
        found,
        plain,
        rw bookings (
            All-of_mem (λ b. is_party u.id b ≡ false) (keep (λ c. not (listed c)) (mid u).bookings)
              (λ b m.
                let (l, other) = mem-keep (λ c. not (listed c)) (mid u).bookings m in
                let k =
                  any-false (λ c. is_party u.id c && c.id == b.id) (mid u).bookings
                    (ground (arith, other)) l in
                ground (arith, k))),
        rw tokens (
            All-of_mem (λ t. t.user_id ≢ u.id)
              (keep (λ t. not (t.user_id == u.id)) (mid u).refresh_tokens)
              (λ t m.
                let (_, other) = mem-keep (λ s. not (s.user_id == u.id)) (mid u).refresh_tokens m in
                ground arith)),
        rw users (
            All-of_mem (λ v. v.id ≢ u.id) (keep (λ v. not (v.id == u.id)) (mid u).users)
              (λ v m.
                let (_, other) = mem-keep (λ w. not (w.id == u.id)) (mid u).users m in
                ground arith)),
      )

  -- From a consistent state, a deletion that returns keeps every booking in which the account is neither client
  -- nor consultant, as it was.
  pub delete_user-keeps :
      IsConsistent db.next_id db.bookings
      → (b : Booking) → Memᴰ b db.bookings
      → b.user_id ≢ id
      → b.hr_user_id ≢ id
      → Memᴰ b after.bookings
  unfolding find_by_id
  delete_user-keeps k b m not_client not_consultant =
      let (u, found, _, bookings, _, _, _) = delete_user-parts in
      let same : u.id ≡ id = ground (arith, find_first-some (λ v. v.id == id) db.users u found) in
      let stranger : is_party u.id b ≡ false = ground (arith, same, not_client, not_consultant) in
      let mine = λ (c : Booking). is_party u.id c && is_active c in
      let apart : All (λ c. b.id ≢ c.id) (keep mine db.bookings) =
        All-of_mem (λ c. b.id ≢ c.id) (keep mine db.bookings)
          λ c n. λ e.
            let (old, party) = mem-keep mine db.bookings n in
            let one = HasDistinctIds-eq db.bookings k.distinct m old e in
            absurd (ground (arith, rw (← one) at party, stranger)) in
      let there = cancel_all-others now actor (keep mine db.bookings) db b apart m in
      let consistent = cancel_all-IsConsistent now actor (keep mine db.bookings) db k in
      let unlisted : any (λ c. is_party u.id c && c.id == b.id) (mid u).bookings ≡ false =
        any-eq-false (λ c. is_party u.id c && c.id == b.id) (mid u).bookings
          (All-of_mem _ (mid u).bookings λ c n.
            elim (Bool-cases (is_party u.id c && c.id == b.id)) [
              | inr e ↦ e
              | inl e ↦
                  let one =
                    HasDistinctIds-eq (mid u).bookings consistent.distinct n there
                      (ground (arith, e)) in
                  absurd (ground (arith, rw one at e, stranger))
            ]) in
      rw bookings (
        keep-mem (λ c. not (any (λ d. is_party u.id d && d.id == c.id) (mid u).bookings))
          (mid u).bookings there (ground (arith, unlisted)))
