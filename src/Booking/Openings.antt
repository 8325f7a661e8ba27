-- ===== src/Booking/Openings.antt =====
-- The check that a slot may be booked (src/availability/availability.service.ts). The clock is an argument,
-- and does not move within a call.
pub mod Requests
use panalbee_clock_backend.Base.{
  ℕ, ◌%◌, String, Bool, true, false, ◌&&◌, not, List, [], ◌∷◌, map, any, find, keep, beq, ltb, leb,
  Option, none, some, is_some, Result, ok, err, app, Exception, if◌then◌else◌, ◌==◌,
}
use panalbee_clock_backend.Booking.Availability.{
  Calendar, AvailabilitySlot, EligibleStaff, Schedule, AvailabilityException, BusyAppointment,
  AvailabilityInput, build_availability_slots,
}
use panalbee_clock_backend.Booking.Catalog.{
  Tenant, Location, Service, Staff, StaffService, resolve, is_tenant, is_location, is_service,
}
use panalbee_clock_backend.Booking.Appointments.{
  Appointment, AppointmentStatus, AppointmentStore, pending, confirmed, in_progress, cancelled,
  completed, no_show,
}

pub record AvailabilityQuery : Type 0 where
  pub location_id : String
  pub service_id : String
  pub staff_id : Option String
  pub date : String

pub record ComputeOptions : Type 0 where
  pub public_only : Bool
  pub exclude_appointment_id : Option String
  pub appointment_conflict : Bool
  pub ignore_appointments : Bool

abbrev context_not_found : Exception
context_not_found = app 404 "AVAILABILITY_CONTEXT_NOT_FOUND"

abbrev pub timezone_invalid : Exception
timezone_invalid = app 422 "LOCATION_TIMEZONE_INVALID"

-- `$in: ['PENDING', 'CONFIRMED', 'IN_PROGRESS']`
abbrev pub is_active : AppointmentStatus → Bool
is_active pending = true
is_active confirmed = true
is_active in_progress = true
is_active cancelled = false
is_active completed = false
is_active no_show = false

-- A condition of a filter that is there only if the query has the value.
abbrev asks_for : Option String → String → Bool
asks_for none id = true
asks_for (some wanted) id = id == wanted

abbrev is_excluded : Option String → String → Bool
is_excluded none id = false
is_excluded (some excluded) id = id == excluded

abbrev pub override_or : Option ℕ → ℕ → ℕ
override_or none duration = duration
override_or (some override) duration = override

abbrev is_member : String → List EligibleStaff → Bool
is_member staff_id eligible = any (λ e. staff_id == e.id) eligible

-- The staff that is found for one of the services of the staff.
abbrev is_candidate : String → String → StaffService → Staff → Bool
is_candidate tenant_id location_id item s =
    s.id == item.staff_id && s.tenant_id == tenant_id && s.location_id == location_id && s.active

abbrev with_member : Service → StaffService → Option Staff → List EligibleStaff → List EligibleStaff
with_member service item none rest = rest
with_member service item (some member) rest =
    record {
      id = member.id;
      name = member.display_name;
      duration_minutes = override_or item.duration_override_minutes service.duration_minutes;
    }
    ∷ rest

-- The `flatMap` over the services of the staff; an id is unique.
unfoldable eligible_of :
    String → String → Service → List Staff → List StaffService → List EligibleStaff
eligible_of tenant_id location_id service staff [] = []
eligible_of tenant_id location_id service staff (item ∷ items) =
    with_member service item (find (is_candidate tenant_id location_id item) staff)
      (eligible_of tenant_id location_id service staff items)

abbrev busy_of : Appointment → BusyAppointment
busy_of a = record { staff_id = a.staff_id; starts_at = a.starts_at; ends_at = a.ends_at }

-- The tenant, the location and the service of a query, where they are there together.
pub record Context : Type 0 where
  pub location : Location
  pub service : Service

abbrev check_context :
    Calendar → Bool → Option Tenant → Option Location → Option Service → Result Context
check_context calendar public_only none location service = err context_not_found
check_context calendar public_only (some tenant) none service = err context_not_found
check_context calendar public_only (some tenant) (some location) none = err context_not_found
check_context calendar public_only (some tenant) (some location) (some service) =
    if public_only && not location.public_booking_enabled
    then err context_not_found
    else if not (calendar.is_zone location.timezone)
    then err timezone_invalid
    else ok (record { location = location; service = service })

module _ (calendar : Calendar) (now : ℕ) (s : AppointmentStore) (tenant_id : String) where
  -- The documents of the day that is asked for.
  module _ (date : String) (location : Location) (eligible : List EligibleStaff) where
    abbrev day_start : ℕ
    day_start = calendar.day_start date location.timezone

    abbrev day_end : ℕ
    day_end = calendar.day_end date location.timezone

    -- `startsAt: { $lt: dayEnd }, endsAt: { $gt: dayStart }`
    abbrev pub is_on_day : ℕ → ℕ → Bool
    is_on_day starts_at ends_at = ltb starts_at day_end && ltb day_start ends_at

    abbrev pub schedules_of : List Schedule
    schedules_of =
        map (λ e. e.schedule)
          (keep
            (λ e.
              e.tenant_id == tenant_id
              && e.location_id == location.id
              && is_member e.schedule.staff_id eligible
              && beq e.day_of_week (calendar.weekday date location.timezone % 7))
            s.catalog.schedules)

    abbrev pub exceptions_of : List AvailabilityException
    exceptions_of =
        map (λ e. e.exception)
          (keep
            (λ e.
              e.tenant_id == tenant_id
              && e.location_id == location.id
              && is_member e.exception.staff_id eligible
              && is_on_day e.exception.starts_at e.exception.ends_at)
            s.catalog.exceptions)

    abbrev pub is_busy : Option String → Appointment → Bool
    is_busy excluded a =
        a.tenant_id == tenant_id
        && a.location_id == location.id
        && is_member a.staff_id eligible
        && is_active a.status
        && is_on_day a.starts_at a.ends_at
        && not (is_excluded excluded a.id)

    abbrev pub appointments_of : ComputeOptions → List BusyAppointment
    appointments_of options =
        if options.ignore_appointments
        then []
        else map busy_of (keep (is_busy options.exclude_appointment_id) s.appointments)

    abbrev pub input_of : ComputeOptions → AvailabilityInput
    input_of options = record {
      date = date;
      timezone = location.timezone;
      eligible = eligible;
      schedules = schedules_of;
      exceptions = exceptions_of;
      appointments = appointments_of options;
    }

  -- `compute`, once the staff is known. Where there is none the slots of the day are none too, as
  -- the early return has it.
  abbrev slots_of :
      AvailabilityQuery
      → ComputeOptions
      → Location
      → List EligibleStaff
      → Result (List AvailabilitySlot)
  slots_of query options location [] =
      if is_some query.staff_id then err (app 404 "STAFF_SERVICE_NOT_FOUND") else ok []
  slots_of query options location (e ∷ es) = ok (
      keep (λ slot. ltb now slot.starts_at)
        (build_availability_slots calendar (input_of query.date location (e ∷ es) options)))

  abbrev eligible_for : AvailabilityQuery → Context → List EligibleStaff
  eligible_for query c = eligible_of tenant_id c.location.id c.service s.catalog.staff (
      keep
        (λ item.
          item.tenant_id == tenant_id
          && item.service_id == c.service.id
          && asks_for query.staff_id item.staff_id)
        s.catalog.staff_services)

  abbrev slots_in :
      AvailabilityQuery → ComputeOptions → Result Context → Result (List AvailabilitySlot)
  slots_in query options (err e) = err e
  slots_in query options (ok c) = slots_of query options c.location (eligible_for query c)

  abbrev context_of : AvailabilityQuery → Bool → Result Context
  context_of query public_only =
      check_context calendar public_only (find (is_tenant tenant_id) s.catalog.tenants)
        (find (is_location tenant_id query.location_id) s.catalog.locations)
        (find (is_service tenant_id query.service_id) s.catalog.services)

  unfoldable pub compute : AvailabilityQuery → ComputeOptions → Result (List AvailabilitySlot)
  unfolding eligible_of
  compute query options = slots_in query options (context_of query options.public_only)
