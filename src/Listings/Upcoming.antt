-- ===== src/Listings/Upcoming.antt =====
-- The upcoming bookings of a person, as `listBookings` of src/services/booking.service.ts lists them.
use hr_booking_server.Base.{
  ℕ, ◌<◌, ◌≤◌, ◌≡◌, refl, ◌≢◌, ◌↔◌, inl, inr, Bool, true, none, List, [], ◌∷◌, Memᴰ, keep, mem-keep,
  All-mem, All-of_mem, Bool-cases, arith,
}
use hr_booking_server.DateTime.{overlaps}
use hr_booking_server.Constants.{is_active_status}
use hr_booking_server.Models.{Booking}
use hr_booking_server.Store.{Db, returns}
use hr_booking_server.Booking.Checks.{Actor}
use hr_booking_server.Booking.Invariant.{IsConsistent, HasDistinctIds}
use hr_booking_server.Paging.{Page}
use hr_booking_server.Paging.Order.{HasOwnKeys}
use hr_booking_server.Listings.{
  Mongo, ListBookingsQuery, ScopeRole, as_hr, as_user, upcoming, list_bookings, bookings_filter,
}
use hr_booking_server.Listings.Scope.{
  MongoSorts, OrdersByStart, IsScopeRole, IsPartyAs, list_bookings_iff,
}

keep-HasOwnKeys :
    (p : Booking → Bool) (bs : List Booking)
    → HasDistinctIds bs
    → ((b c : Booking)
        → Memᴰ b bs
        → Memᴰ c bs
        → p b ≡ true
        → p c ≡ true
        → b.id ≢ c.id
        → b.start_at ≢ c.start_at)
    → HasOwnKeys (λ b. b.start_at) (keep p bs)
unfolding keep
keep-HasOwnKeys p [] d h = tt
keep-HasOwnKeys p (x ∷ xs) d h =
    let rest = keep-HasOwnKeys p xs d.1 (λ b c m n. h b c (Memᴰ.tail m) (Memᴰ.tail n)) in
    elim (Bool-cases (p x)) [
      | inr e ↦ rw (e, keep) rest
      | inl e ↦
          rw (e, keep)
            (
              All-of_mem (λ c. x.start_at ≢ c.start_at) (keep p xs)
                  (λ c m.
                    let (n, passes) = mem-keep p xs m in
                    h x c (Memᴰ.head refl) (Memᴰ.tail n) e passes
                      (All-mem (λ y. x.id ≢ y.id) xs d.0 n)),
              rest,
            )
    ]

abbrev upcoming_query : ℕ → ListBookingsQuery → ListBookingsQuery
upcoming_query page query = record query { page = page; scope = upcoming; status = none }

-- No two of a person's upcoming bookings start at the same time.
upcoming-HasOwnKeys :
    (now : ℕ) (role : ScopeRole) (id : ℕ) (query : ListBookingsQuery) (db : Db)
    → IsConsistent db.next_id db.bookings
    → HasOwnKeys
        (λ b. b.start_at)
        (keep (bookings_filter now role id (upcoming_query query.page query)) db.bookings)
unfolding bookings_filter overlaps
upcoming-HasOwnKeys now as_hr id query db h =
    keep-HasOwnKeys _ db.bookings h.distinct λ b c m n p q d. λ same.
      let apart =
        h.compatible b c m n d (ground (arith, p)) (ground (arith, q))
          (inl (ground (arith, p, q))) in
      ground (arith, apart, same, (h.sound b m).spans, (h.sound c n).spans)
upcoming-HasOwnKeys now as_user id query db h =
    keep-HasOwnKeys _ db.bookings h.distinct λ b c m n p q d. λ same.
      let apart =
        h.compatible b c m n d (ground (arith, p)) (ground (arith, q))
          (inr (ground (arith, p, q))) in
      ground (arith, apart, same, (h.sound b m).spans, (h.sound c n).spans)

-- In a consistent state, with a limit that is not zero and a server that sorts each query by the start: the pages
-- of `listBookings` of upcoming bookings show exactly the active bookings from now on that have the actor as
-- consultant or client, as the role granted says.
pub list_bookings-upcoming :
    (mongo : Mongo)
    → MongoSorts mongo
    → OrdersByStart mongo
    → (now : ℕ) (actor : Actor) (query : ListBookingsQuery) (role : ScopeRole) (db : Db)
      (b : Booking)
    → IsConsistent db.next_id db.bookings
    → IsScopeRole actor query.role role
    → 0 < query.limit
    → (Memᴰ b db.bookings
        × IsPartyAs role actor.id b
        × (now ≤ b.start_at)
        × (is_active_status b.status ≡ true))
      ↔ ((page : ℕ) × (1 ≤ page)
          × (shown : Page Booking) × (list_bookings mongo now actor (upcoming_query page query) db
              ≡ returns shown db)
          × Memᴰ b shown.data_of)
list_bookings-upcoming mongo sorts orders now actor query role db b h granted pos =
    list_bookings_iff mongo sorts now actor (upcoming_query query.page query) role db b orders
      granted pos (upcoming-HasOwnKeys now role actor.id query db h)
