-- ===== src/Booking/Management.antt =====
-- The cancellation and the change of an appointment (src/appointments/appointment-management.service.ts,
-- appointment-management-access.service.ts, appointment-reschedule-relation.service.ts,
-- appointment-effects.service.ts). The clock does not move within a call.
pub mod Effects
pub mod Cancel
pub mod Reschedule
pub mod Returns
use panalbee_clock_backend.Base.{
  ℕ, ◌+◌, ◌*◌, String, Bool, true, false, ◌&&◌, ◌||◌, not, ◌∷◌, any, find, update_first, beq,
  Option, none, some, is_some, if◌then◌else◌, Result, ok, err, app, Exception, Action, pure,
  inspect, gets, modify, or_throw, throw_if, with_transaction, ◌>>=◌, ◌>>◌, ◌==◌,
}
use panalbee_clock_backend.Base.Text.{trim, concat}
use panalbee_clock_backend.Base.Dates.{to_iso_string}
use panalbee_clock_backend.Affiliate.Store.{is_text}
use panalbee_clock_backend.Booking.Locks
use panalbee_clock_backend.Booking.Availability.{Calendar}
use panalbee_clock_backend.Booking.Catalog.{
  Tenant, Location, Service, StaffService, assert_tenant_booking_enabled, is_tenant, is_slug,
  is_location, is_service, is_staff, is_staff_service,
}
use panalbee_clock_backend.Booking.Appointments.{
  Appointment, AppointmentStore, Notification, TimelineEvent, NotificationType, cancelled,
  booking_cancelled, booking_rescheduled, pending_notification, status_name,
}
use panalbee_clock_backend.Booking.Openings.{
  AvailabilityQuery, ComputeOptions, override_or, timezone_invalid,
}
use panalbee_clock_backend.Booking.Openings.Requests.{assert_slot_available}
use panalbee_clock_backend.Booking.Lifecycle.{
  create_event, on_locks, is_appointment, is_upcoming, appointment_not_found,
}
use panalbee_clock_backend.Booking.Intents.{Hashes, CreateActorType, customer}
use panalbee_clock_backend.Booking.Creation.Writes.{
  appointment_key, audit_appointment, has_notification_key,
}

pub record ManagementAccess : Type 0 where
  pub tenant_id : String
  pub appointment_id : String
  pub actor_user_id : Option String
  pub actor_type : CreateActorType
  pub public_only : Bool
  pub token : Option String
  pub customer_id : Option String

-- `customer`
abbrev pub customer_access : String → String → String → ManagementAccess
customer_access tenant_id customer_id appointment_id = record {
  tenant_id = tenant_id;
  appointment_id = appointment_id;
  actor_user_id = none;
  actor_type = customer;
  public_only = true;
  token = none;
  customer_id = some customer_id;
}

abbrev pub public_access_of : Tenant → String → String → ManagementAccess
public_access_of tenant appointment_id token = record {
  tenant_id = tenant.id;
  appointment_id = appointment_id;
  actor_user_id = none;
  actor_type = customer;
  public_only = true;
  token = some token;
  customer_id = none;
}

-- `public`
unfoldable pub public_access : String → String → String → Action AppointmentStore ManagementAccess
public_access tenant_slug appointment_id token = do
  found ← gets (λ s. find (is_slug tenant_slug) s.catalog.tenants)
  tenant ← or_throw found appointment_not_found
  pure (public_access_of tenant appointment_id token)

abbrev pub not_active : Exception
not_active = app 409 "APPOINTMENT_NOT_ACTIVE"

-- `access.token ? { managementTokenHash: … } : {}`: an empty token is no condition.
abbrev token_fits : Hashes → Option String → Option String → Bool
token_fits hashes none stored = true
token_fits hashes (some token) stored =
    if token == "" then true else is_text stored (hashes.token_hash token)

abbrev customer_fits : Option String → String → Bool
customer_fits none id = true
customer_fits (some wanted) id = wanted == "" || id == wanted

abbrev pub is_accessible : Hashes → ManagementAccess → Appointment → Bool
is_accessible hashes access a =
    is_appointment access.tenant_id access.appointment_id a
    && token_fits hashes access.token a.management_token_hash
    && customer_fits access.customer_id a.customer_id

unfoldable pub load : Hashes → ManagementAccess → Action AppointmentStore Appointment
load hashes access = do
  inspect (λ s.
      if access.public_only && not (is_some (find (is_tenant access.tenant_id) s.catalog.tenants))
      then err appointment_not_found
      else ok tt)
  found ← gets (λ s. find (is_accessible hashes access) s.appointments)
  or_throw found appointment_not_found

-- The filter of the conditional writes.
abbrev pub is_upcoming_of : String → String → Appointment → Bool
is_upcoming_of tenant_id appointment_id a =
    is_appointment tenant_id appointment_id a && is_upcoming a.status

-- `findOneAndUpdate`, which gives back the document as it is after the write.
unfoldable pub update_upcoming :
    String → String → (Appointment → Appointment) → Action AppointmentStore Appointment
update_upcoming tenant_id appointment_id change = do
  found ← gets (λ s. find (is_upcoming_of tenant_id appointment_id) s.appointments)
  previous ← or_throw found not_active
  modify (λ s. record s {
    appointments = update_first (is_upcoming_of tenant_id appointment_id) change s.appointments;
  })
  pure (change previous)
