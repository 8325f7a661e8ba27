-- ===== src/Booking/Creation/Writes.antt =====
-- What the creation of an appointment writes and answers (src/appointments/appointments.service.ts,
-- appointment-effects.service.ts, appointment-result.service.ts).
use panalbee_clock_backend.Base.{
  ℕ, String, Bool, ◌&&◌, ◌∷◌, any, leb, Option, none, some, is_some, if◌then◌else◌, fault, Action,
  pure, modify, throw_if, insert_unique, ◌>>=◌, ◌>>◌, ◌==◌,
}
use panalbee_clock_backend.Base.Text.{concat}
use panalbee_clock_backend.Affiliate.Referrals.{ReferralReceipt, find_receipt}
use panalbee_clock_backend.Booking.Appointments.{
  Appointment, AppointmentStore, Notification, TimelineEvent, booking_confirmation,
  pending_notification,
}
use panalbee_clock_backend.Booking.Lifecycle.{create_event, on_affiliates}
use panalbee_clock_backend.Booking.Intents.{Hashes, CreateIntent, management_token}
use panalbee_clock_backend.Booking.Creation.{PublicAppointmentResult, has_idempotency_key}

-- `create` of an appointment: the schema's order of the times and its unique indexes, then the write.
unfoldable pub insert_appointment : Appointment → Action AppointmentStore (Unit {0})
insert_appointment a = do
  throw_if (leb a.ends_at a.starts_at) (fault "ValidationError")
  insert_unique (λ s. any (λ b. b.id == a.id) s.appointments) "_id_" (λ s. s)
  insert_unique (λ s. any (has_idempotency_key a.tenant_id a.idempotency_key) s.appointments)
      "appointment_idempotency_unique" (λ s. record s { appointments = a ∷ s.appointments })

abbrev pub has_notification_key : String → String → Notification → Bool
has_notification_key tenant_id key n = n.tenant_id == tenant_id && n.idempotency_key == key

unfoldable pub create_notification : Notification → Action AppointmentStore (Unit {0})
create_notification n =
    insert_unique (λ s. any (has_notification_key n.tenant_id n.idempotency_key) s.notifications)
      "notification_idempotency_unique" (λ s. record s { notifications = n ∷ s.notifications })

abbrev pub audit_appointment :
    String → Option String → String → String → Action AppointmentStore (Unit {0})
audit_appointment tenant_id actor_user_id action appointment_id = modify (λ s. record s {
  audits =
      record {
        tenant_id = tenant_id;
        actor_user_id = actor_user_id;
        action = action;
        entity_id = appointment_id;
      }
      ∷ s.audits;
})

-- `appointment:${appointment._id}:…`
abbrev pub appointment_key : String → String → String
appointment_key appointment_id suffix =
    concat "appointment:" (concat appointment_id (concat ":" suffix))

abbrev pub created_notification : ℕ → String → Appointment → Notification
created_notification now tenant_id a = record {
  tenant_id = tenant_id;
  appointment_id = a.id;
  customer_id = a.customer_id;
  type = booking_confirmation;
  scheduled_for = now;
  status = pending_notification;
  attempts = 0;
  change_reason = none;
  appointment_starts_at = none;
  idempotency_key = appointment_key a.id "confirmation";
}

abbrev pub created_event : Hashes → String → Option String → Appointment → TimelineEvent
created_event hashes tenant_id actor_user_id a = record {
  tenant_id = tenant_id;
  appointment_id = a.id;
  actor_user_id = actor_user_id;
  event_type = "CREATED";
  from_status = none;
  to_status = a.status;
  reason_code = none;
  note = none;
  previous_starts_at = none;
  previous_ends_at = none;
  starts_at = a.starts_at;
  ends_at = a.ends_at;
  idempotency_key = appointment_key a.id "created";
  request_fingerprint = hashes.timeline_fingerprint (record {
    type = "CREATED";
    reason = none;
    starts_at = a.starts_at;
    ends_at = a.ends_at;
    previous_starts_at = none;
    previous_ends_at = none;
  });
}

unfoldable pub record_created :
    Hashes → ℕ → String → Option String → Appointment → Action AppointmentStore (Unit {0})
unfolding create_notification create_event
record_created hashes now tenant_id actor_user_id a = do
  create_notification (created_notification now tenant_id a)
  audit_appointment tenant_id actor_user_id "APPOINTMENT_CREATED" a.id
  create_event (created_event hashes tenant_id actor_user_id a)

-- The token of a public booking, and no other.
abbrev pub token_of : Hashes → CreateIntent → String → Option String
token_of hashes intent appointment_id =
    if is_some intent.public_customer then some (management_token hashes appointment_id) else none

abbrev pub result_of :
    Hashes → CreateIntent → Appointment → Option ReferralReceipt → PublicAppointmentResult
result_of hashes intent a referral = record {
  appointment = a;
  management_token = token_of hashes intent a.id;
  referral = referral;
}

abbrev pub token_hash_of : Hashes → Option String → Option String
token_hash_of hashes none = none
token_hash_of hashes (some token) = some (hashes.token_hash token)

-- `results.replay`
unfoldable pub replay_result :
    Hashes → CreateIntent → Appointment → Action AppointmentStore PublicAppointmentResult
unfolding find_receipt
replay_result hashes intent a = do
  referral ← on_affiliates (find_receipt intent.tenant_id a.id)
  pure (result_of hashes intent a referral)
