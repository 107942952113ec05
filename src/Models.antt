-- ===== src/Models.antt =====
-- src/models: the documents of the collections. An ObjectId is a number, in the order of its
-- hexadecimal text; a date is in milliseconds. `createdAt` and `updatedAt` are left out.
use hr_booking_server.Base.{ℕ, String, Bool, Option, List}
use hr_booking_server.DateTime.{TimeText}
use hr_booking_server.Constants.{
  UserRole, UserStatus, ProfileStatus, MeetingProvider, MeetingStatus, BookingStatus, CancelledBy,
  ReportStatus, AuditAction, AuditResourceType,
}

-- models/User.ts
pub record User : Type 0 where
  pub id : ℕ
  pub email : String
  pub password : String
  pub first_name : String
  pub last_name : String
  pub role : UserRole
  pub status : UserStatus
  pub is_email_verified : Bool
  pub email_verified_at : Option ℕ
  pub phone : Option String
  pub profile_image_url : Option String
  pub failed_login_attempts : ℕ
  pub locked_until : Option ℕ

-- models/RefreshToken.ts
pub record RefreshToken : Type 0 where
  pub id : ℕ
  pub user_id : ℕ
  pub token_hash : String
  pub expires_at : ℕ
  pub revoked_at : Option ℕ
  pub replaced_by_token_hash : Option String
  pub user_agent : Option String
  pub ip : Option String

-- models/Availability.ts
pub record WorkingInterval : Type 0 where
  pub start : TimeText
  pub end : TimeText

pub record WorkingDay : Type 0 where
  pub weekday : ℕ
  pub intervals : List WorkingInterval

pub record BlockedDate : Type 0 where
  pub date : String
  pub start_time : Option TimeText
  pub end_time : Option TimeText
  pub reason : Option String

pub record Availability : Type 0 where
  pub hr_user_id : ℕ
  pub timezone : String
  pub slot_duration_minutes : ℕ
  pub buffer_minutes : ℕ
  pub min_notice_minutes : ℕ
  pub max_advance_days : ℕ
  pub weekly_hours : List WorkingDay
  pub blocked_dates : List BlockedDate

-- models/HRProfile.ts; the fields that the owner edits are the record `ProfileInput`.
pub record Certification : Type 0 where
  pub name : String
  pub issuer : Option String
  pub year : Option ℕ

pub record WorkHistoryEntry : Type 0 where
  pub company : String
  pub role : String
  pub start_year : ℕ
  pub end_year : Option ℕ
  pub description : Option String

pub record ProfileInput : Type 0 where
  pub headline : String
  pub bio : String
  pub specializations : List String
  pub years_of_experience : ℕ
  pub company_name : Option String
  pub hourly_rate_cents : ℕ
  pub currency : String
  pub languages : List String
  pub city : Option String
  pub country : Option String
  pub profile_image_url : Option String
  pub certifications : Option (List Certification)
  pub work_history : Option (List WorkHistoryEntry)

pub record HrProfile : Type 0 where
  pub id : ℕ
  pub user_id : ℕ
  pub headline : String
  pub bio : String
  pub specializations : List String
  pub years_of_experience : ℕ
  pub company_name : Option String
  pub hourly_rate_cents : ℕ
  pub currency : String
  pub languages : List String
  pub city : Option String
  pub country : Option String
  pub profile_image_url : Option String
  pub certifications : List Certification
  pub work_history : List WorkHistoryEntry
  pub status : ProfileStatus
  pub rejection_reason : Option String
  pub reviewed_by : Option ℕ
  pub reviewed_at : Option ℕ
  pub is_available : Bool

-- models/Booking.ts. A slot key is the pair that `buildSlotKey` writes as a text.
pub record SlotKey : Type 0 where
  pub hr_user_id : ℕ
  pub start_at : ℕ

pub record Booking : Type 0 where
  pub id : ℕ
  pub user_id : ℕ
  pub hr_user_id : ℕ
  pub hr_profile_id : ℕ
  pub start_at : ℕ
  pub end_at : ℕ
  pub duration_minutes : ℕ
  pub hr_timezone : String
  pub user_timezone : String
  pub status : BookingStatus
  pub price_cents : ℕ
  pub currency : String
  pub meeting_provider : MeetingProvider
  pub notes : Option String
  pub slot_key : Option SlotKey
  pub cancelled_at : Option ℕ
  pub cancelled_by : Option CancelledBy
  pub cancellation_reason : Option String
  pub previous_start_at : Option ℕ
  pub reschedule_count : ℕ

-- models/Meeting.ts
pub record Meeting : Type 0 where
  pub id : ℕ
  pub booking_id : ℕ
  pub provider : MeetingProvider
  pub status : MeetingStatus
  pub external_meeting_id : Option String
  pub external_calendar_id : Option String
  pub meeting_url : Option String
  pub start_time : ℕ
  pub end_time : ℕ
  pub last_error : Option String
  pub attempts : ℕ

-- models/Report.ts
pub record Report : Type 0 where
  pub id : ℕ
  pub reporter_id : ℕ
  pub hr_profile_id : ℕ
  pub hr_user_id : ℕ
  pub reason : String
  pub details : Option String
  pub status : ReportStatus
  pub resolved_by : Option ℕ
  pub resolved_at : Option ℕ
  pub resolution_notes : Option String

-- models/Specialization.ts
pub record Specialization : Type 0 where
  pub id : ℕ
  pub slug : String
  pub name : String
  pub description : Option String
  pub is_active : Bool

-- models/AuditLog.ts; a value of the metadata is a text or an id.
pub data Metadatum : Type 0 where
  words : String → Metadatum
  reference : ℕ → Metadatum

pub record AuditLog : Type 0 where
  pub actor_id : ℕ
  pub actor_role : UserRole
  pub action : AuditAction
  pub resource_type : Option AuditResourceType
  pub resource_id : Option ℕ
  pub metadata : List (String × Metadatum)

-- models/OAuthAccount.ts, whose only provider is Google.
pub record OauthAccount : Type 0 where
  pub user_id : ℕ
  pub provider_account_id : String
  pub account_email : Option String
  pub refresh_token : String
  pub access_token : Option String
  pub access_token_expires_at : Option ℕ
  pub scopes : List String
  pub calendar_id : String
  pub last_error : Option String
