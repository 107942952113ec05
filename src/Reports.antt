-- ===== src/Reports.antt =====
-- src/services/report.service.ts: reports on profiles and their resolution. `resolve_report` reads the
-- clock once, as its argument `now`.
use mathlib.Core.List.Memᴰ
use hr_booking_server.Base.{
  ℕ, suc, ◌≡◌, refl, sym, ◌∙◌, ◌⊎◌, inl, inr, Bool, true, false, ◌&&◌, not, Option, none, some,
  String, List, [], ◌∷◌, ◌++◌, ◌==◌, find_first, any, change, Memᴰ, mem-change, any-false, arith,
  Bool-cases, Option-cases,
}
use hr_booking_server.Constants.{ReportStatus, AuditAction, AuditResourceType}
use hr_booking_server.Errors.{bad_request, conflict, not_found}
use hr_booking_server.Models.{words, reference, Report, HrProfile}
use hr_booking_server.Store.{Db, M, ◌>>=◌, ◌>>◌, final, pure, throw_if, or_throw, get, modify}
use hr_booking_server.Profile.{find_profile}
use hr_booking_server.Booking.Checks.{Actor}
use hr_booking_server.Booking.Service.{record_audit_log}

pub record CreateReportInput : Type 0 where
  pub hr_profile_id : ℕ
  pub reason : String
  pub details : Option String

-- The validator admits these two outcomes.
pub data Resolution : Type 0 where
  dismiss action : Resolution

pub record ResolveReportInput : Type 0 where
  pub resolution : Resolution
  pub notes : Option String

abbrev pub status_of : Resolution → ReportStatus
status_of dismiss = ReportStatus.dismissed
status_of action = ReportStatus.actioned

abbrev text_of : Resolution → String
text_of dismiss = "DISMISSED"
text_of action = "ACTIONED"

abbrev pub is_pending : ReportStatus → Bool
is_pending ReportStatus.pending = true
is_pending _ = false

abbrev pub new_report : ℕ → CreateReportInput → HrProfile → ℕ → Report
new_report actor_id input p id = record {
  id = id;
  reporter_id = actor_id;
  hr_profile_id = input.hr_profile_id;
  hr_user_id = p.user_id;
  reason = input.reason;
  details = input.details;
  status = ReportStatus.pending;
  resolved_by = none;
  resolved_at = none;
  resolution_notes = none;
}

-- The query for a pending report of the same profile by the same person.
abbrev pub is_pending_by : ℕ → ℕ → Report → Bool
is_pending_by reporter_id profile_id r =
    r.reporter_id == reporter_id && r.hr_profile_id == profile_id && is_pending r.status

unfoldable pub create_report : ℕ → CreateReportInput → M Report
unfolding find_profile
create_report actor_id input = do
  found ← get (find_profile input.hr_profile_id)
  profile ← or_throw found (not_found "Profile not found.")
  throw_if (profile.user_id == actor_id) (bad_request "You cannot report your own profile.")
  existing ← get (λ db. any (is_pending_by actor_id input.hr_profile_id) db.reports)
  throw_if existing (conflict "You already have a pending report for this profile." none)
  next ← get (λ db. db.next_id)
  modify λ db. record db {
    reports = db.reports ++ new_report actor_id input profile next ∷ [];
    next_id = suc next;
  }
  pure (new_report actor_id input profile next)

unfoldable pub find_report : ℕ → Db → Option Report
find_report id db = find_first (λ r. r.id == id) db.reports

module _ (now : ℕ) where
  abbrev pub resolved : Actor → ResolveReportInput → Report → Report
  resolved actor input r = record r {
    status = status_of input.resolution;
    resolved_by = some actor.id;
    resolved_at = some now;
    resolution_notes = input.notes;
  }

  unfoldable pub resolve_report : Actor → ℕ → ResolveReportInput → M Report
  unfolding find_report
  resolve_report actor report_id input = do
    found ← get (find_report report_id)
    report ← or_throw found (not_found "Report not found.")
    throw_if (not (is_pending report.status))
        (conflict "This report has already been resolved." none)
    modify λ db. record db {
      reports = change (λ r. r.id == report.id) (λ _. resolved actor input report) db.reports;
    }
    record_audit_log (record {
      actor_id = actor.id;
      actor_role = actor.role;
      action = AuditAction.report_resolved;
      resource_type = some AuditResourceType.report;
      resource_id = some report.id;
      metadata =
          ("status", words (text_of input.resolution))
          ∷ ("hrProfileId", reference report.hr_profile_id)
          ∷ [];
    })
    pure (resolved actor input report)

-- A person has at most one pending report of a profile.
abbrev pub HasOnePending : List Report → Type 0
HasOnePending rs =
    (a b : Report)
    → Memᴰ a rs
    → Memᴰ b rs
    → is_pending a.status ≡ true
    → is_pending b.status ≡ true
    → a.reporter_id ≡ b.reporter_id
    → a.hr_profile_id ≡ b.hr_profile_id
    → a ≡ b

append-HasOnePending :
    (rs : List Report) (n : Report)
    → any (is_pending_by n.reporter_id n.hr_profile_id) rs ≡ false
    → HasOnePending rs
    → HasOnePending (rs ++ n ∷ [])
append-HasOnePending rs n free h a b m l p q s t =
    split (Memᴰ.append_cases rs m) (Memᴰ.append_cases rs l)
  where
    split : Memᴰ a rs ⊎ Memᴰ a (n ∷ []) → Memᴰ b rs ⊎ Memᴰ b (n ∷ []) → a ≡ b
    split (inl x) (inl y) = h a b x y p q s t
    split (inl x) (inr y) =
        let same = Memᴰ.eq_of_singleton y in
        absurd (ground (arith, any-false (is_pending_by n.reporter_id n.hr_profile_id) rs free x))
    split (inr x) (inl y) =
        let same = Memᴰ.eq_of_singleton x in
        absurd (ground (arith, any-false (is_pending_by n.reporter_id n.hr_profile_id) rs free y))
    split (inr x) (inr y) = Memᴰ.eq_of_singleton x ∙ sym (Memᴰ.eq_of_singleton y)

-- Creating a report, whether it returns or throws, keeps at most one pending report for each person and
-- profile.
pub create_report-HasOnePending :
    (actor_id : ℕ) (input : CreateReportInput) (db : Db)
    → HasOnePending db.reports
    → HasOnePending (final (create_report actor_id input db)).reports
unfolding create_report
create_report-HasOnePending actor_id input db h =
    elim (Option-cases (find_profile input.hr_profile_id db)) [
      | inl e ↦ rw e h
      | inr (p, e) ↦ elim (Bool-cases (p.user_id == actor_id)) [
        | inl o ↦ rw (e, o) h
        | inr o ↦ elim (Bool-cases (any (is_pending_by actor_id input.hr_profile_id) db.reports)) [
          | inl k ↦ rw (e, o, k) h
          | inr k ↦
              rw (e, o, k)
                (append-HasOnePending db.reports (new_report actor_id input p db.next_id) k h)
        ]
      ]
    ]

-- Resolving a report keeps at most one pending report for each person and profile.
pub resolve_report-HasOnePending :
    (now : ℕ) (actor : Actor) (id : ℕ) (input : ResolveReportInput) (db : Db)
    → HasOnePending db.reports
    → HasOnePending (final (resolve_report now actor id input db)).reports
unfolding resolve_report
resolve_report-HasOnePending now actor id input db h = elim (Option-cases (find_report id db)) [
  | inl e ↦ rw e h
  | inr (r, e) ↦ elim (Bool-cases (is_pending r.status)) [
    | inl k ↦ rw (e, k) (changed r input.resolution refl)
    | inr k ↦ rw (e, k) h
  ]
]
  where
    closed :
        (r : Report) (s : Resolution)
        → input.resolution ≡ s
        → (b : Report) → b ≡ resolved now actor input r
        → is_pending b.status ≡ true
        → ⊥
    closed r dismiss e b k q = ground arith
    closed r action e b k q = ground arith

    changed :
        (r : Report) (s : Resolution)
        → input.resolution ≡ s
        → HasOnePending (change (λ c. c.id == r.id) (λ _. resolved now actor input r) db.reports)
    changed r s e a b m l p q t u =
        elim (mem-change (λ c. c.id == r.id) (λ _. resolved now actor input r) db.reports m) [
          | inl (x, _) ↦
              elim (mem-change (λ c. c.id == r.id) (λ _. resolved now actor input r) db.reports l) [
                | inl (y, _) ↦ h a b x y p q t u
                | inr (_, _, _, k) ↦ absurd (closed r s e b k q)
              ]
          | inr (_, _, _, k) ↦ absurd (closed r s e a k p)
        ]
