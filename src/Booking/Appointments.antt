-- ===== src/Booking/Appointments.antt =====
-- The documents of an appointment (src/database/models/booking.models.ts, appointment-lifecycle.models.ts) and
-- the events of its life (src/appointments/appointment-effects.service.ts).
use panalbee_clock_backend.Base.{ℕ, String, List, Option, none, some}
use panalbee_clock_backend.Booking.Locks.{IntervalLock}
use panalbee_clock_backend.Booking.Catalog.{Catalog}
use panalbee_clock_backend.Affiliate.Store.{AffiliateStore}

pub data AppointmentStatus : Type 0 where
  pending confirmed in_progress cancelled completed no_show : AppointmentStatus

abbrev pub status_name : AppointmentStatus → String
status_name pending = "PENDING"
status_name confirmed = "CONFIRMED"
status_name in_progress = "IN_PROGRESS"
status_name cancelled = "CANCELLED"
status_name completed = "COMPLETED"
status_name no_show = "NO_SHOW"

pub data NoShowReason : Type 0 where
  did_not_arrive cancelled_too_late could_not_contact other : NoShowReason

abbrev pub reason_name : NoShowReason → String
reason_name did_not_arrive = "CUSTOMER_DID_NOT_ARRIVE"
reason_name cancelled_too_late = "CUSTOMER_CANCELLED_TOO_LATE"
reason_name could_not_contact = "COULD_NOT_CONTACT_CUSTOMER"
reason_name other = "OTHER"

pub data AppointmentSource : Type 0 where
  admin web whatsapp other_source : AppointmentSource

pub record Appointment : Type 0 where
  pub id : String
  pub tenant_id : String
  pub location_id : String
  pub service_id : String
  pub staff_id : String
  pub customer_id : String
  pub status : AppointmentStatus
  pub starts_at : ℕ
  pub ends_at : ℕ
  pub source_channel : AppointmentSource
  pub idempotency_key : String
  pub request_fingerprint : String
  pub management_token_hash : Option String
  pub notes : Option String
  pub cancelled_at : Option ℕ
  pub cancellation_reason : Option String
  pub started_at : Option ℕ
  pub completed_at : Option ℕ
  pub no_show_at : Option ℕ
  pub no_show_reason : Option NoShowReason
  pub outcome_note : Option String

pub record TimelineEvent : Type 0 where
  pub tenant_id : String
  pub appointment_id : String
  pub actor_user_id : Option String
  pub event_type : String
  pub from_status : Option AppointmentStatus
  pub to_status : AppointmentStatus
  pub reason_code : Option String
  pub note : Option String
  pub previous_starts_at : Option ℕ
  pub previous_ends_at : Option ℕ
  pub starts_at : ℕ
  pub ends_at : ℕ
  pub idempotency_key : String
  pub request_fingerprint : String

pub record AppointmentAudit : Type 0 where
  pub tenant_id : String
  pub actor_user_id : Option String
  pub action : String
  pub entity_id : String

pub data NotificationType : Type 0 where
  booking_confirmation booking_reminder booking_rescheduled booking_cancelled : NotificationType

pub data NotificationStatus : Type 0 where
  pending_notification processing_notification sent_notification : NotificationStatus
  failed_notification cancelled_notification : NotificationStatus

pub record Notification : Type 0 where
  pub tenant_id : String
  pub appointment_id : String
  pub customer_id : String
  pub type : NotificationType
  pub scheduled_for : ℕ
  pub status : NotificationStatus
  pub attempts : ℕ
  pub change_reason : Option String
  pub appointment_starts_at : Option ℕ
  pub idempotency_key : String

pub record AppointmentStore : Type 0 where
  pub catalog : Catalog
  pub appointments : List Appointment
  pub notifications : List Notification
  pub timeline : List TimelineEvent
  pub locks : List IntervalLock
  pub audits : List AppointmentAudit
  pub affiliates : AffiliateStore

pub record LifecycleActor : Type 0 where
  pub tenant_id : String
  pub actor_user_id : Option String

-- StatusEventType, with what the fingerprint of a request is taken of.
pub data StatusEvent : Type 0 where
  to_started : StatusEvent
  to_completed : Option String → StatusEvent
  to_no_show : NoShowReason → Option String → StatusEvent

abbrev pub event_name : StatusEvent → String
event_name to_started = "STARTED"
event_name (to_completed _) = "COMPLETED"
event_name (to_no_show _ _) = "NO_SHOW"

abbrev pub reason_of : StatusEvent → Option String
reason_of (to_no_show reason _) = some (reason_name reason)
reason_of to_started = none
reason_of (to_completed _) = none

abbrev pub note_of : StatusEvent → Option String
note_of to_started = none
note_of (to_completed note) = note
note_of (to_no_show _ note) = note
