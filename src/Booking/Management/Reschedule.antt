-- ===== src/Booking/Management/Reschedule.antt =====
-- The change of an appointment (src/appointments/appointment-management.service.ts,
-- appointment-reschedule-relation.service.ts).
use panalbee_clock_backend.Base.{
  ℕ, ◌+◌, ◌*◌, String, Bool, true, false, ◌&&◌, ◌||◌, not, find, beq, Option, none, some, is_some,
  if◌then◌else◌, Result, ok, err, Action, pure, inspect, throw_if, with_transaction, ◌>>=◌, ◌>>◌,
}
use panalbee_clock_backend.Base.Text.{trim}
use panalbee_clock_backend.Booking.Locks
use panalbee_clock_backend.Booking.Availability.{Calendar}
use panalbee_clock_backend.Booking.Catalog.{
  Location, Service, StaffService, assert_tenant_booking_enabled, is_location, is_service, is_staff,
  is_staff_service,
}
use panalbee_clock_backend.Booking.Appointments.{Appointment, AppointmentStore}
use panalbee_clock_backend.Booking.Openings.{
  AvailabilityQuery, ComputeOptions, override_or, timezone_invalid,
}
use panalbee_clock_backend.Booking.Openings.Requests.{assert_slot_available}
use panalbee_clock_backend.Booking.Lifecycle.{on_locks, is_upcoming, appointment_not_found}
use panalbee_clock_backend.Booking.Intents.{Hashes}
use panalbee_clock_backend.Booking.Management.{
  ManagementAccess, customer_access, public_access, not_active, load, update_upcoming,
}
use panalbee_clock_backend.Booking.Management.Effects.{record_lifecycle, was_rescheduled}

pub record RescheduleRelation : Type 0 where
  pub duration_minutes : ℕ
  pub local_date : String

abbrev is_bookable_location : String → Bool → String → Location → Bool
is_bookable_location tenant_id public_only location_id l =
    is_location tenant_id location_id l && (not public_only || l.public_booking_enabled)

abbrev pub reschedule_query : Appointment → String → AvailabilityQuery
reschedule_query a date = record {
  location_id = a.location_id;
  service_id = a.service_id;
  staff_id = some a.staff_id;
  date = date;
}

abbrev pub reschedule_options : Bool → Appointment → ComputeOptions
reschedule_options public_only a = record {
  public_only = public_only;
  exclude_appointment_id = some a.id;
  appointment_conflict = true;
  ignore_appointments = false;
}

abbrev pub moved : ℕ → ℕ → Appointment → Appointment
moved starts_at ends_at a = record a { starts_at = starts_at; ends_at = ends_at }

abbrev pub trim_optional : Option String → Option String
trim_optional none = none
trim_optional (some reason) = some (trim reason)

module _ (hashes : Hashes) (now : ℕ) where
  -- From the replacement of the locks on.
  unfoldable pub write_reschedule :
      ManagementAccess → ℕ → ℕ → Option String → Appointment → Action AppointmentStore Appointment
  unfolding update_upcoming record_lifecycle
  write_reschedule access starts_at ends_at reason a = do
    on_locks (Locks.replace access.tenant_id a.staff_id a.id starts_at ends_at)
    updated ← update_upcoming access.tenant_id a.id (moved starts_at ends_at)
    record_lifecycle hashes now access updated was_rescheduled reason a
    pure updated

module _ (calendar : Calendar) where
  -- The conditions of `resolve` on the documents that it loads.
  abbrev check_reschedule :
      ℕ → Bool → Option Location → Option Service → Option StaffService → Result RescheduleRelation
  check_reschedule starts_at present none service staff_service = err appointment_not_found
  check_reschedule starts_at present (some location) none staff_service = err appointment_not_found
  check_reschedule starts_at present (some location) (some service) none = err appointment_not_found
  check_reschedule starts_at present (some location) (some service) (some staff_service) =
      if not present
      then err appointment_not_found
      else if not (calendar.is_zone location.timezone)
      then err timezone_invalid
      else ok (record {
        duration_minutes =
            override_or staff_service.duration_override_minutes service.duration_minutes;
        local_date = calendar.local_date location.timezone starts_at;
      })

  unfoldable pub resolve_reschedule :
      String → Bool → Appointment → ℕ → AppointmentStore → Result RescheduleRelation
  resolve_reschedule tenant_id public_only a starts_at s =
      check_reschedule starts_at
        (is_some (find (is_staff tenant_id a.location_id a.staff_id) s.catalog.staff))
        (find (is_bookable_location tenant_id public_only a.location_id) s.catalog.locations)
        (find (is_service tenant_id a.service_id) s.catalog.services)
        (find (is_staff_service tenant_id a.staff_id a.service_id) s.catalog.staff_services)

module _ (calendar : Calendar) (hashes : Hashes) (now : ℕ) where
  unfoldable pub reschedule_moved :
      ManagementAccess → ℕ → Option String → Appointment → Action AppointmentStore Appointment
  unfolding resolve_reschedule write_reschedule
  reschedule_moved access starts_at reason a = do
    relation ← inspect (resolve_reschedule calendar access.tenant_id access.public_only a starts_at)
    inspect (λ s.
        assert_slot_available calendar now s access.tenant_id
          (reschedule_query a relation.local_date) starts_at
          (reschedule_options access.public_only a))
    write_reschedule hashes now access starts_at (starts_at + relation.duration_minutes * 60_000)
        reason a

  abbrev pub reschedule_loaded :
      ManagementAccess → ℕ → Option String → Appointment → Action AppointmentStore Appointment
  reschedule_loaded access starts_at reason a =
      throw_if (not (is_upcoming a.status)) not_active
      >> (if beq a.starts_at starts_at then pure a else reschedule_moved access starts_at reason a)

  unfoldable pub reschedule :
      ManagementAccess → ℕ → Option String → Action AppointmentStore Appointment
  unfolding load reschedule_moved
  reschedule access starts_at reason = with_transaction do
    inspect (λ s.
        if access.public_only
        then assert_tenant_booking_enabled access.tenant_id s.catalog
        else ok tt)
    appointment ← load hashes access
    reschedule_loaded access starts_at (trim_optional reason) appointment

  unfoldable reschedule_public : String → String → String → ℕ → Action AppointmentStore Appointment
  unfolding public_access reschedule
  reschedule_public tenant_slug appointment_id token starts_at =
      public_access tenant_slug appointment_id token >>= λ access. reschedule access starts_at none

  unfoldable reschedule_customer :
      String → String → String → ℕ → Action AppointmentStore Appointment
  unfolding reschedule
  reschedule_customer tenant_id customer_id appointment_id starts_at =
      reschedule (customer_access tenant_id customer_id appointment_id) starts_at none
