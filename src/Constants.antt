-- ===== src/Constants.antt =====
-- src/config/constants.ts: the enumerations and the limits that the services use.
use hr_booking_server.Base.{ℕ, Bool, true, false, String, ◌||◌, ◌==◌}

pub data UserRole : Type 0 where
  user hr admin super_admin : UserRole

pub data UserStatus : Type 0 where
  active suspended : UserStatus

pub data TokenType : Type 0 where
  access refresh verify_email reset_password oauth_state : TokenType

pub data ProfileStatus : Type 0 where
  draft pending_review published rejected : ProfileStatus

pub data MeetingProvider : Type 0 where
  google_meet zoom : MeetingProvider

pub data MeetingStatus : Type 0 where
  pending created failed cancelled : MeetingStatus

pub data BookingStatus : Type 0 where
  pending confirmed cancelled completed no_show : BookingStatus

pub data CancelledBy : Type 0 where
  user hr admin system : CancelledBy

pub data ReportStatus : Type 0 where
  pending dismissed actioned : ReportStatus

pub data AuditAction : Type 0 where
  user_suspended user_reactivated user_deleted : AuditAction
  hr_profile_approved hr_profile_rejected : AuditAction
  booking_cancelled : AuditAction
  specialization_created specialization_updated specialization_deleted : AuditAction
  report_resolved : AuditAction

pub data AuditResourceType : Type 0 where
  user hr_profile booking specialization report : AuditResourceType

-- `ACTIVE_BOOKING_STATUSES.includes(status)`.
abbrev pub is_active_status : BookingStatus → Bool
is_active_status BookingStatus.pending = true
is_active_status BookingStatus.confirmed = true
is_active_status _ = false

-- `SUPPORTED_MEETING_PROVIDERS.includes(provider)`.
abbrev pub is_supported : MeetingProvider → Bool
is_supported google_meet = true
is_supported _ = false

abbrev pub is_hr : UserRole → Bool
is_hr UserRole.hr = true
is_hr _ = false

-- `role === ADMIN || role === SUPER_ADMIN`.
abbrev pub is_admin : UserRole → Bool
is_admin UserRole.admin = true
is_admin UserRole.super_admin = true
is_admin _ = false

abbrev pub max_failed_attempts : ℕ
max_failed_attempts = 5

abbrev pub lockout_ms : ℕ
lockout_ms = 900_000

abbrev pub cancel_notice_minutes : ℕ
cancel_notice_minutes = 60

abbrev pub reschedule_max : ℕ
reschedule_max = 3

abbrev pub slot_range_days_max : ℕ
slot_range_days_max = 31

abbrev pub default_timezone : String
default_timezone = "UTC"

abbrev pub default_slot_duration_minutes : ℕ
default_slot_duration_minutes = 30

abbrev pub default_buffer_minutes : ℕ
default_buffer_minutes = 0

abbrev pub default_min_notice_minutes : ℕ
default_min_notice_minutes = 120

abbrev pub default_max_advance_days : ℕ
default_max_advance_days = 60

abbrev pub is_slot_duration : ℕ → Bool
is_slot_duration n = n == 15 || n == 30 || n == 45 || n == 60 || n == 90
