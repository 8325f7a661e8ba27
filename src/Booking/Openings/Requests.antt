-- ===== src/Booking/Openings/Requests.antt =====
-- The requests for slots (src/availability/availability.service.ts).
use panalbee_clock_backend.Base.{
  ℕ, String, Bool, true, false, List, any, beq, leb, none, Result, ok, err, app, Exception,
  if◌then◌else◌,
}
use panalbee_clock_backend.Booking.Availability.{Calendar, AvailabilitySlot}
use panalbee_clock_backend.Booking.Catalog.{Tenant, resolve}
use panalbee_clock_backend.Booking.Appointments.{AppointmentStore}
use panalbee_clock_backend.Booking.Openings.{AvailabilityQuery, ComputeOptions, compute}

module _ (calendar : Calendar) (now : ℕ) (s : AppointmentStore) (tenant_id : String) where
  abbrev has_requested_slot : ℕ → List AvailabilitySlot → Bool
  has_requested_slot requested slots = any (λ slot. beq slot.starts_at requested) slots

  abbrev pub slot_conflict : Exception
  slot_conflict = app 409 "APPOINTMENT_SLOT_CONFLICT"

  abbrev slot_unavailable : Exception
  slot_unavailable = app 409 "APPOINTMENT_SLOT_UNAVAILABLE"

  abbrev potential_slot : ℕ → Result (List AvailabilitySlot) → Result (Unit {0})
  potential_slot requested (err e) = err e
  potential_slot requested (ok slots) =
      if has_requested_slot requested slots then err slot_conflict else err slot_unavailable

  abbrev offered_slot :
      AvailabilityQuery → ComputeOptions → ℕ → Result (List AvailabilitySlot) → Result (Unit {0})
  offered_slot query options requested (err e) = err e
  offered_slot query options requested (ok slots) =
      let potential =
        compute calendar now s tenant_id query
          (record options { appointment_conflict = false; ignore_appointments = true }) in
      if has_requested_slot requested slots
      then ok tt
      else if options.appointment_conflict
      then potential_slot requested potential
      else err slot_unavailable

  unfoldable pub assert_slot_available : AvailabilityQuery → ℕ → ComputeOptions → Result (Unit {0})
  unfolding compute
  assert_slot_available query requested options =
      if leb requested now
      then err (app 409 "APPOINTMENT_STARTS_AT_PAST")
      else offered_slot query options requested (compute calendar now s tenant_id query options)

-- `listForTenant` and `listPublic`
module _ (calendar : Calendar) (now : ℕ) (s : AppointmentStore) where
  abbrev no_options : ComputeOptions
  no_options = record {
    public_only = false;
    exclude_appointment_id = none;
    appointment_conflict = false;
    ignore_appointments = false;
  }

  unfoldable list_for_tenant : String → AvailabilityQuery → Result (List AvailabilitySlot)
  unfolding compute
  list_for_tenant tenant_id query = compute calendar now s tenant_id query no_options

  abbrev list_resolved : AvailabilityQuery → Result Tenant → Result (List AvailabilitySlot)
  list_resolved query (err e) = err e
  list_resolved query (ok tenant) =
      compute calendar now s tenant.id query (record no_options { public_only = true })

  unfoldable list_public : String → AvailabilityQuery → Result (List AvailabilitySlot)
  unfolding compute resolve
  list_public tenant_slug query = list_resolved query (resolve true tenant_slug s.catalog)
