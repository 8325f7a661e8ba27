-- ===== src/Booking/Management/Cancel.antt =====
-- The cancellation of an appointment (src/appointments/appointment-management.service.ts).
use panalbee_clock_backend.Base.{
  ℕ, String, Bool, ◌&&◌, not, some, if◌then◌else◌, Action, pure, throw_if, with_transaction, ◌>>=◌,
  ◌>>◌, ◌==◌,
}
use panalbee_clock_backend.Base.Text.{trim}
use panalbee_clock_backend.Affiliate.Store.{is_text}
use panalbee_clock_backend.Booking.Locks
use panalbee_clock_backend.Booking.Appointments.{
  Appointment, AppointmentStore, cancelled, status_name,
}
use panalbee_clock_backend.Booking.Lifecycle.{on_locks, is_upcoming}
use panalbee_clock_backend.Booking.Intents.{Hashes}
use panalbee_clock_backend.Booking.Management.{
  ManagementAccess, customer_access, public_access, not_active, load, update_upcoming,
}
use panalbee_clock_backend.Booking.Management.Effects.{record_lifecycle, was_cancelled}

abbrev pub is_cancelled_with : String → Appointment → Bool
is_cancelled_with reason a =
    status_name a.status == "CANCELLED" && is_text a.cancellation_reason reason

abbrev pub as_cancelled : ℕ → String → Appointment → Appointment
as_cancelled now reason a = record a {
  status = cancelled;
  cancelled_at = some now;
  cancellation_reason = some reason;
}

module _ (hashes : Hashes) (now : ℕ) where
  -- The rest of `cancel` where the appointment is not cancelled with the same reason.
  unfoldable pub cancel_active :
      ManagementAccess → String → Appointment → Action AppointmentStore Appointment
  unfolding update_upcoming record_lifecycle
  cancel_active access reason a = do
    throw_if (not (is_upcoming a.status)) not_active
    updated ← update_upcoming access.tenant_id a.id (as_cancelled now reason)
    on_locks (Locks.release access.tenant_id a.id)
    record_lifecycle hashes now access updated was_cancelled (some reason) a
    pure updated

  abbrev pub cancel_loaded :
      ManagementAccess → String → Appointment → Action AppointmentStore Appointment
  cancel_loaded access reason a =
      if is_cancelled_with reason a then pure a else cancel_active access reason a

  unfoldable pub cancel : ManagementAccess → String → Action AppointmentStore Appointment
  unfolding load cancel_active
  cancel access reason =
      with_transaction
        do appointment ← load hashes access; cancel_loaded access (trim reason) appointment

  unfoldable cancel_public : String → String → String → String → Action AppointmentStore Appointment
  unfolding public_access cancel
  cancel_public tenant_slug appointment_id token reason =
      public_access tenant_slug appointment_id token >>= λ access. cancel access reason

  unfoldable cancel_customer :
      String → String → String → String → Action AppointmentStore Appointment
  unfolding cancel
  cancel_customer tenant_id customer_id appointment_id reason =
      cancel (customer_access tenant_id customer_id appointment_id) reason
