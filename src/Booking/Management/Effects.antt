-- ===== src/Booking/Management/Effects.antt =====
-- What a cancellation and a change record (src/appointments/appointment-effects.service.ts).
use panalbee_clock_backend.Base.{
  ℕ, String, ◌∷◌, any, Option, none, some, if◌then◌else◌, Action, modify, ◌>>◌, ◌==◌,
}
use panalbee_clock_backend.Base.Text.{concat}
use panalbee_clock_backend.Base.Dates.{to_iso_string}
use panalbee_clock_backend.Booking.Appointments.{
  Appointment, AppointmentStore, Notification, TimelineEvent, NotificationType, booking_cancelled,
  booking_rescheduled, pending_notification,
}
use panalbee_clock_backend.Booking.Lifecycle.{create_event}
use panalbee_clock_backend.Booking.Intents.{Hashes}
use panalbee_clock_backend.Booking.Creation.Writes.{
  appointment_key, audit_appointment, has_notification_key,
}
use panalbee_clock_backend.Booking.Management.{ManagementAccess}

-- The two life cycle changes that are recorded here, with the texts that they have.
pub data ManagementEvent : Type 0 where
  was_cancelled was_rescheduled : ManagementEvent

abbrev notification_type : ManagementEvent → NotificationType
notification_type was_cancelled = booking_cancelled
notification_type was_rescheduled = booking_rescheduled

abbrev notification_name : ManagementEvent → String
notification_name was_cancelled = "BOOKING_CANCELLED"
notification_name was_rescheduled = "BOOKING_RESCHEDULED"

abbrev pub management_action : ManagementEvent → String
management_action was_cancelled = "APPOINTMENT_CANCELLED"
management_action was_rescheduled = "APPOINTMENT_RESCHEDULED"

abbrev management_type : ManagementEvent → String
management_type was_cancelled = "CANCELLED"
management_type was_rescheduled = "RESCHEDULED"

-- `eventType.toLowerCase()`
abbrev management_suffix : ManagementEvent → String
management_suffix was_cancelled = "cancelled"
management_suffix was_rescheduled = "rescheduled"

-- A cancelled appointment has its time; the effect of a change is the new start.
abbrev effect_time : ManagementEvent → ℕ → Appointment → ℕ
effect_time was_cancelled cancelled_at a = cancelled_at
effect_time was_rescheduled cancelled_at a = a.starts_at

-- `reason ? … : {}`
abbrev pub given : Option String → Option String
given none = none
given (some reason) = if reason == "" then none else some reason

-- The upsert of a notification: it stays as it is where the key is in use.
unfoldable pub upsert_notification : Notification → Action AppointmentStore (Unit {0})
upsert_notification n = modify (λ s.
    if any (has_notification_key n.tenant_id n.idempotency_key) s.notifications
    then s
    else record s { notifications = n ∷ s.notifications })

-- `:` and the time of the effect
abbrev effect_suffix : ℕ → ManagementEvent → Appointment → String
effect_suffix now event a = concat ":" (to_iso_string (effect_time event now a))

abbrev pub lifecycle_notification :
    ℕ → ManagementAccess → Appointment → ManagementEvent → Option String → Notification
lifecycle_notification now access a event reason = record {
  tenant_id = access.tenant_id;
  appointment_id = a.id;
  customer_id = a.customer_id;
  type = notification_type event;
  scheduled_for = now;
  status = pending_notification;
  attempts = 0;
  change_reason = given reason;
  appointment_starts_at = some a.starts_at;
  idempotency_key =
      appointment_key a.id (concat (notification_name event) (effect_suffix now event a));
}

abbrev pub lifecycle_event :
    Hashes
    → ℕ
    → ManagementAccess
    → Appointment
    → ManagementEvent
    → Option String
    → Appointment
    → TimelineEvent
lifecycle_event hashes now access a event reason previous = record {
  tenant_id = access.tenant_id;
  appointment_id = a.id;
  actor_user_id = access.actor_user_id;
  event_type = management_type event;
  from_status = some previous.status;
  to_status = a.status;
  reason_code = none;
  note = given reason;
  previous_starts_at = some previous.starts_at;
  previous_ends_at = some previous.ends_at;
  starts_at = a.starts_at;
  ends_at = a.ends_at;
  idempotency_key =
      appointment_key a.id (concat (management_suffix event) (effect_suffix now event a));
  request_fingerprint = hashes.timeline_fingerprint (record {
    type = management_type event;
    reason = reason;
    starts_at = a.starts_at;
    ends_at = a.ends_at;
    previous_starts_at = some previous.starts_at;
    previous_ends_at = some previous.ends_at;
  });
}

module _ (hashes : Hashes) (now : ℕ) where
  unfoldable pub record_lifecycle :
      ManagementAccess
      → Appointment
      → ManagementEvent
      → Option String
      → Appointment
      → Action AppointmentStore (Unit {0})
  unfolding upsert_notification create_event to_iso_string
  record_lifecycle access a event reason previous = do
    upsert_notification (lifecycle_notification now access a event reason)
    audit_appointment access.tenant_id access.actor_user_id (management_action event) a.id
    create_event (lifecycle_event hashes now access a event reason previous)
