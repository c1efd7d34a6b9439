-- ===== src/Store/Rows.antt =====
-- The models of api/prisma/schema.prisma that the booking services read and write. An id is a
-- number, an instant a number of milliseconds; `?` of the schema is `Option`.
use room_booking.Base.{ℕ, ◌+◌, Bool, true, false, Option, List, Text, ◌==◌}
use room_booking.Json.{Metadata, Fields}
use room_booking.BangkokTime.{DayOfWeek}

-- the role names that the code compares with, and any other text
pub data Role : Type 0 where
  user_role teacher_role admin_role : Role
  other_role : ℕ → Role

abbrev role_code : Role → ℕ
role_code user_role = 0
role_code teacher_role = 1
role_code admin_role = 2
role_code (other_role n) = n + 3

abbrev pub role_eq : Role → Role → Bool
role_eq r s = role_code r == role_code s

pub data Plan : Type 0 where
  free pro : Plan

abbrev pub is_pro : Plan → Bool
is_pro free = false
is_pro pro = true

pub record User : Type 0 where
  pub id : ℕ
  pub name : Text
  pub email : Text
  pub role : Option Role
  pub plan : Plan
  pub plan_expires_at : Option ℕ
  pub stripe_customer_id : Option ℕ

pub record Room : Type 0 where
  pub id : ℕ
  pub name : Text
  pub is_active : Bool
  pub capacity : ℕ
  pub allowed_roles : List Role
  pub auto_approve : Bool
  pub amenities : List ℕ

pub record TimeSlot : Type 0 where
  pub room_id : ℕ
  pub day_of_week : DayOfWeek
  pub open_time : Text
  pub close_time : Text
  pub is_active : Bool

pub record RoomClosure : Type 0 where
  pub room_id : ℕ
  pub date : ℕ
  pub reason : Option Text
  pub all_day : Bool
  pub start_time : Option Text
  pub end_time : Option Text

pub data BookingStatus : Type 0 where
  pending confirmed checked_in completed cancelled rejected expired : BookingStatus

abbrev status_code : BookingStatus → ℕ
status_code pending = 0
status_code confirmed = 1
status_code checked_in = 2
status_code completed = 3
status_code cancelled = 4
status_code rejected = 5
status_code expired = 6

abbrev pub status_eq : BookingStatus → BookingStatus → Bool
status_eq s t = status_code s == status_code t

pub record Booking : Type 0 where
  pub id : ℕ
  pub user_id : ℕ
  pub room_id : ℕ
  pub series_id : Option ℕ
  pub occurrence_date : Option ℕ
  pub is_series_exception : Bool
  pub start_time : ℕ
  pub end_time : ℕ
  pub attendees : ℕ
  pub purpose : Option Text
  pub status : BookingStatus
  pub rejected_reason : Option Text
  pub approved_at : Option ℕ
  pub approved_by : Option ℕ
  pub qr_token_hash : Option ℕ
  pub qr_expires_at : Option ℕ
  pub walk_in_requester_name : Option Text
  pub walk_in_requester_reference : Option Text
  pub checked_in_at : Option ℕ
  pub checked_out_at : Option ℕ
  pub cancelled_at : Option ℕ
  pub cancel_reason : Option Text
  pub reminder_30_sent_at : Option ℕ
  pub reminder_checkin_sent_at : Option ℕ
  pub created_at : ℕ

pub data ActorType : Type 0 where
  user admin device system : ActorType

pub data EventType : Type 0 where
  created approved rejected cancelled checked_in completed expired : EventType

pub record BookingEvent : Type 0 where
  pub id : ℕ
  pub booking_id : ℕ
  pub room_id : ℕ
  pub actor_type : ActorType
  pub actor_id : Option ℕ
  pub event_type : EventType
  pub previous_status : Option BookingStatus
  pub new_status : BookingStatus
  pub metadata : Metadata
  pub correlation_id : Option ℕ
  pub created_at : ℕ

pub data TargetType : Type 0 where
  booking booking_series device room job waitlist : TargetType

-- `eventType` of an audit row, a text in the schema
pub data AuditEventType : Type 0 where
  of_booking : EventType → AuditEventType
  qr_issued waitlist_joined waitlist_cancelled waitlist_promoted : AuditEventType
  waitlist_expired booking_series_cancelled_pro_expired booking_series_created : AuditEventType
  booking_series_occurrence_edited booking_series_cancelled : AuditEventType
  booking_series_future_cancelled booking_series_edited booking_series_split : AuditEventType
  background_job_failed background_job_completed background_job_retry_scheduled : AuditEventType

pub data WaitlistStatus : Type 0 where
  waiting promoted cancelled expired : WaitlistStatus

abbrev pub is_waiting : WaitlistStatus → Bool
is_waiting waiting = true
is_waiting _ = false

pub data SeriesStatus : Type 0 where
  active cancelled : SeriesStatus

abbrev pub is_active_series : SeriesStatus → Bool
is_active_series active = true
is_active_series cancelled = false

pub data JobStatus : Type 0 where
  pending processing retry completed failed : JobStatus

-- a status text of an audit row
pub data AuditStatus : Type 0 where
  booking : BookingStatus → AuditStatus
  waitlist : WaitlistStatus → AuditStatus
  series : SeriesStatus → AuditStatus
  job : JobStatus → AuditStatus

pub record AuditLog : Type 0 where
  pub id : ℕ
  pub source_event_id : Option ℕ
  pub actor_type : ActorType
  pub actor_id : Option ℕ
  pub target_type : TargetType
  pub target_id : ℕ
  pub booking_id : Option ℕ
  pub room_id : Option ℕ
  pub event_type : AuditEventType
  pub previous_status : Option AuditStatus
  pub new_status : Option AuditStatus
  pub metadata : Metadata
  pub correlation_id : Option ℕ
  pub created_at : ℕ

pub record Device : Type 0 where
  pub id : ℕ
  pub room_id : Option ℕ
  pub is_active : Bool
  pub revoked_at : Option ℕ
  pub credential_version : ℕ
  pub walk_in_principal_id : ℕ

pub record WaitlistEntry : Type 0 where
  pub id : ℕ
  pub user_id : ℕ
  pub room_id : ℕ
  pub start_time : ℕ
  pub end_time : ℕ
  pub attendees : ℕ
  pub purpose : Option Text
  pub status : WaitlistStatus
  pub notified_at : Option ℕ
  pub created_at : ℕ

pub record BookingSeries : Type 0 where
  pub id : ℕ
  pub user_id : ℕ
  pub room_id : ℕ
  pub start_date : ℕ
  pub end_date : ℕ
  pub weekdays : List (Option DayOfWeek)
  pub start_time : Text
  pub end_time : Text
  pub attendees : ℕ
  pub purpose : Option Text
  pub status : SeriesStatus
  pub cancelled_at : Option ℕ

-- a processed event of the payment provider, by its id
pub record StripeWebhookEvent : Type 0 where
  pub id : ℕ
  pub event_type : ℕ

pub data JobType : Type 0 where
  expire_bookings expire_pro_access auto_checkout enqueue_reminders : JobType
  promote_waitlist purge_job_history : JobType

-- `job_key` is a text of the type and the time it is scheduled for: the two fields stand for it.
pub record BackgroundJob : Type 0 where
  pub id : ℕ
  pub job_type : JobType
  pub status : JobStatus
  pub scheduled_for : ℕ
  pub attempts : ℕ
  pub max_attempts : ℕ
  pub available_at : ℕ
  pub locked_at : Option ℕ
  pub locked_by : Option ℕ
  pub started_at : Option ℕ
  pub completed_at : Option ℕ
  pub last_error : Option Text
  pub result : Option Fields
  pub created_at : ℕ
  pub updated_at : ℕ

-- `next_id` stands for the generator of row ids, which gives no id twice; `clock` is the time that
-- `new Date()` and the column default `now()` read.
pub record Db : Type 0 where
  pub users : List User
  pub rooms : List Room
  pub time_slots : List TimeSlot
  pub room_closures : List RoomClosure
  pub bookings : List Booking
  pub booking_events : List BookingEvent
  pub audit_logs : List AuditLog
  pub devices : List Device
  pub waitlist : List WaitlistEntry
  pub series : List BookingSeries
  pub stripe_events : List StripeWebhookEvent
  pub jobs : List BackgroundJob
  pub next_id : ℕ
  pub clock : ℕ
