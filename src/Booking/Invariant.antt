-- ===== src/Booking/Invariant.antt =====
-- What holds of the bookings between two calls, and the updates that keep it.
use mathlib.Core.List.Memᴰ
use hr_booking_server.Base.{
  ℕ, suc, ◌≤◌, ◌<◌, ◌≡◌, sym, ap, ◌∙◌, ◌≢◌, ◌⊎◌, inl, inr, Bool, true, false, none, some, List, [],
  ◌∷◌, ◌++◌, Memᴰ, arith, Bool-cases, change, mem-change, All, All-mem, All-of_mem, All-append, sym,
  ap, ◌∙◌,
}
use hr_booking_server.DateTime.{overlaps}
use hr_booking_server.DateTime.Overlap.{overlaps_comm}
use hr_booking_server.Constants.{reschedule_max}
use hr_booking_server.Models.{Booking}
use hr_booking_server.Booking.Checks.{is_active}

-- A booking has a slot key, its own, exactly while it is active.
abbrev pub IsKeyed : Booking → Type 0
IsKeyed b =
    ((is_active b ≡ true)
      × (b.slot_key ≡ some (record { hr_user_id = b.hr_user_id; start_at = b.start_at })))
    ⊎ ((is_active b ≡ false) × (b.slot_key ≡ none))

-- Two bookings share the consultant or the client.
abbrev pub Shares : Booking → Booking → Type 0
Shares b c = (b.hr_user_id ≡ c.hr_user_id) ⊎ (b.user_id ≡ c.user_id)

-- Active bookings that share a person do not overlap.
abbrev pub IsCompatible : Booking → Booking → Type 0
IsCompatible b c =
    is_active b ≡ true
    → is_active c ≡ true
    → Shares b c
    → overlaps b.start_at b.end_at c.start_at c.end_at ≡ false

-- What holds of one booking.
pub record IsSound (next_id : ℕ) (b : Booking) : Type 0 where
  pub fresh : b.id < next_id
  pub keyed : IsKeyed b
  pub spans : b.start_at < b.end_at
  pub few_moves : b.reschedule_count ≤ reschedule_max

abbrev pub HasDistinctIds : List Booking → Type 0
HasDistinctIds [] = Unit
HasDistinctIds (b ∷ bs) = All (λ c. b.id ≢ c.id) bs × HasDistinctIds bs

-- Bookings with distinct ids that have the same id are the same.
pub HasDistinctIds-eq :
    (bs : List Booking) {b c : Booking}
    → HasDistinctIds bs
    → Memᴰ b bs
    → Memᴰ c bs
    → b.id ≡ c.id
    → b ≡ c
HasDistinctIds-eq [] d m n s = absurd (Memᴰ.not-nil m)
HasDistinctIds-eq (x ∷ bs) d (Memᴰ.head e) (Memᴰ.head f) s = e ∙ sym f
HasDistinctIds-eq (x ∷ bs) d (Memᴰ.head e) (Memᴰ.tail n) s =
    absurd (All-mem (λ c. x.id ≢ c.id) bs d.0 n (ap (λ y. y.id) (sym e) ∙ s))
HasDistinctIds-eq (x ∷ bs) d (Memᴰ.tail m) (Memᴰ.head f) s =
    absurd (All-mem (λ c. x.id ≢ c.id) bs d.0 m (ap (λ y. y.id) (sym f) ∙ sym s))
HasDistinctIds-eq (x ∷ bs) d (Memᴰ.tail m) (Memᴰ.tail n) s = HasDistinctIds-eq bs d.1 m n s

pub record IsConsistent (next_id : ℕ) (bookings : List Booking) : Type 0 where
  pub sound : (b : Booking) → Memᴰ b bookings → IsSound next_id b
  pub distinct : HasDistinctIds bookings
  pub compatible :
      (b c : Booking) → Memᴰ b bookings → Memᴰ c bookings → b.id ≢ c.id → IsCompatible b c

IsCompatible-sym : (b c : Booking) → IsCompatible b c → IsCompatible c b
IsCompatible-sym b c h p q (inl e) =
    overlaps_comm c.start_at c.end_at b.start_at b.end_at ∙ h q p (inl (sym e))
IsCompatible-sym b c h p q (inr e) =
    overlaps_comm c.start_at c.end_at b.start_at b.end_at ∙ h q p (inr (sym e))

HasDistinctIds-append :
    (bs : List Booking) (n : Booking)
    → HasDistinctIds bs
    → All (λ c. c.id ≢ n.id) bs
    → HasDistinctIds (bs ++ n ∷ [])
HasDistinctIds-append [] n d h = (tt, tt)
HasDistinctIds-append (b ∷ bs) n d h =
    (All-append (λ c. b.id ≢ c.id) bs (n ∷ []) d.0 (h.0, tt), HasDistinctIds-append bs n d.1 h.1)

-- A new booking that is compatible with all the others may be appended.
pub IsConsistent-append :
    (next_id : ℕ) (bs : List Booking) (n : Booking)
    → IsConsistent next_id bs
    → n.id ≡ next_id
    → IsSound (suc next_id) n
    → ((c : Booking) → Memᴰ c bs → IsCompatible n c)
    → IsConsistent (suc next_id) (bs ++ n ∷ [])
IsConsistent-append next_id bs n h e s k = record {
  sound = λ b m. elim (Memᴰ.append_cases bs m) [
    | inl old ↦ weaken b (h.sound b old)
    | inr new ↦ rw (Memᴰ.eq_of_singleton new) s
  ];
  distinct =
      HasDistinctIds-append bs n h.distinct (All-of_mem _ bs (λ c m. omega (arith, h.sound c m)));
  compatible = λ b c m l d. pair b c (Memᴰ.append_cases bs m) (Memᴰ.append_cases bs l) d;
}
  where
    weaken : (b : Booking) → IsSound next_id b → IsSound (suc next_id) b
    weaken b t = record {
      fresh = omega (arith, t.fresh);
      keyed = t.keyed;
      spans = t.spans;
      few_moves = t.few_moves;
    }

    pair :
        (b c : Booking)
        → Memᴰ b bs ⊎ Memᴰ b (n ∷ [])
        → Memᴰ c bs ⊎ Memᴰ c (n ∷ [])
        → b.id ≢ c.id
        → IsCompatible b c
    pair b c (inl m) (inl l) d = h.compatible b c m l d
    pair b c (inl m) (inr l) d =
        let same = Memᴰ.eq_of_singleton l in rw same (IsCompatible-sym n b (k b m))
    pair b c (inr m) (inl l) d = let same = Memᴰ.eq_of_singleton m in rw same (k c l)
    pair b c (inr m) (inr l) d =
        absurd
          (d (ap (λ (x : Booking). x.id) (Memᴰ.eq_of_singleton m ∙ sym (Memᴰ.eq_of_singleton l))))

module _ (p : Booking → Bool) (f : Booking → Booking)
    (same_id : (b : Booking) → p b ≡ true → (f b).id ≡ b.id) where
  change-ids :
      (id : ℕ) (bs : List Booking) → All (λ c. id ≢ c.id) bs → All (λ c. id ≢ c.id) (change p f bs)
  unfolding change
  change-ids id [] h = tt
  change-ids id (b ∷ bs) h = ground (arith, same_id b, change-ids id bs h.1)

  change-HasDistinctIds : (bs : List Booking) → HasDistinctIds bs → HasDistinctIds (change p f bs)
  unfolding change
  change-HasDistinctIds [] d = tt
  change-HasDistinctIds (b ∷ bs) d = elim (Bool-cases (p b)) [
    | inl e ↦ rw (e, same_id b e) (change-ids b.id bs d.0, change-HasDistinctIds bs d.1)
    | inr e ↦ rw e (change-ids b.id bs d.0, change-HasDistinctIds bs d.1)
  ]

  -- Where an entry of the updated list comes from.
  abbrev IsFrom : List Booking → Booking → Type 0
  IsFrom bs b = (Memᴰ b bs × (p b ≡ false)) ⊎ ((a : Booking) × Memᴰ a bs × (p a ≡ true) × (b ≡ f a))

  -- An update of the bookings that a test selects may be made if it keeps the ids, each new booking
  -- is sound and compatible with those left alone, and the new ones are compatible.
  pub IsConsistent-change :
      (next_id : ℕ) (bs : List Booking)
      → IsConsistent next_id bs
      → ((b : Booking) → Memᴰ b bs → p b ≡ true → IsSound next_id (f b))
      → ((b c : Booking)
          → Memᴰ b bs
          → Memᴰ c bs
          → p b ≡ true
          → p c ≡ false
          → b.id ≢ c.id
          → IsCompatible (f b) c)
      → ((b c : Booking)
          → Memᴰ b bs
          → Memᴰ c bs
          → p b ≡ true
          → p c ≡ true
          → b.id ≢ c.id
          → IsCompatible (f b) (f c))
      → IsConsistent next_id (change p f bs)
  IsConsistent-change next_id bs h s one two = record {
    sound = λ b m. elim (mem-change p f bs m) [
      | inl (old, q) ↦ h.sound b old
      | inr (a, old, q, e) ↦ rw e (s a old q)
    ];
    distinct = change-HasDistinctIds bs h.distinct;
    compatible = λ b c m l d. pair b c (mem-change p f bs m) (mem-change p f bs l) d;
  }
    where
      pair : (b c : Booking) → IsFrom bs b → IsFrom bs c → b.id ≢ c.id → IsCompatible b c
      pair b c (inl (m, q)) (inl (l, r)) d = h.compatible b c m l d
      pair b c (inl (m, q)) (inr (a, l, r, e)) d = rw e (
          IsCompatible-sym (f a) b
            (one a b l m r q (λ k. d (sym k ∙ sym (ap (λ (x : Booking). x.id) e ∙ same_id a r)))))
      pair b c (inr (a, m, q, e)) (inl (l, r)) d =
          rw e (one a c m l q r (λ k. d (ap (λ (x : Booking). x.id) e ∙ same_id a q ∙ k)))
      pair b c (inr (a, m, q, e)) (inr (a', l, r, e')) d =
          rw (e, e')
            (two a a' m l q r (λ k. d (
              ap (λ (x : Booking). x.id) e
              ∙ same_id a q
              ∙ k
              ∙ sym (ap (λ (x : Booking). x.id) e' ∙ same_id a' r))))
