-- ===== src/Booking/Lifecycle/Histories.antt =====
-- Sequences of calls that start, complete and close appointments
-- (src/appointments/appointment-lifecycle.service.ts).
use panalbee_clock_backend.Base.{
  ℕ, String, true, List, [], ◌∷◌, Option, ◌≡◌, >>-Keeps, throw_if-Keeps, is_some, not, ◌&&◌, ◌==◌,
  app,
}
use panalbee_clock_backend.Booking.Appointments.{
  Appointment, AppointmentStore, LifecycleActor, StatusEvent, to_started, to_completed, to_no_show,
  NoShowReason, reason_name,
}
use panalbee_clock_backend.Booking.Lifecycle.{start, complete, mark_no_show, normalized_note}
use panalbee_clock_backend.Booking.Lifecycle.Ended.{HasAppointment, transition-Keeps}
use panalbee_clock_backend.Booking.Lifecycle.Updates.{is_ended}

pub data LifecycleCall : Type 0 where
  start_call : LifecycleActor → String → String → String → ℕ → LifecycleCall
  complete_call : LifecycleActor → String → String → Option String → String → ℕ → LifecycleCall
  no_show_call :
      LifecycleActor → String → String → NoShowReason → Option String → String → ℕ → LifecycleCall

module _ (fingerprint : StatusEvent → String) where
  unfoldable pub execute : LifecycleCall → AppointmentStore → AppointmentStore
  execute (start_call actor i key new_id now) s = (start fingerprint actor i key new_id now s).1
  execute (complete_call actor i key text new_id now) s =
      (complete fingerprint actor i key text new_id now s).1
  execute (no_show_call actor i key reason text new_id now) s =
      (mark_no_show fingerprint actor i key reason text new_id now s).1

  unfoldable pub run : List LifecycleCall → AppointmentStore → AppointmentStore
  unfolding execute
  run [] s = s
  run (call ∷ calls) s = run calls (execute call s)

  execute-HasAppointment :
      (call : LifecycleCall) (tenant_id appointment_id : String) (a : Appointment)
      (s : AppointmentStore)
      → is_ended a.status ≡ true
      → HasAppointment tenant_id appointment_id a s
      → HasAppointment tenant_id appointment_id a (execute call s)
  unfolding execute start complete mark_no_show
  execute-HasAppointment (start_call actor i key new_id now) t j a s ended h =
      (transition-Keeps t j a fingerprint actor i to_started key new_id now ended).on s h
  execute-HasAppointment (complete_call actor i key text new_id now) t j a s ended h =
      (transition-Keeps t j a fingerprint actor i (to_completed (normalized_note text)) key new_id
          now ended).on
        s h
  execute-HasAppointment (no_show_call actor i key reason text new_id now) t j a s ended h =
      (>>-Keeps
          (throw_if-Keeps (reason_name reason == "OTHER" && not (is_some (normalized_note text)))
            (app 400 "APPOINTMENT_NO_SHOW_NOTE_REQUIRED"))
          (transition-Keeps t j a fingerprint actor i (to_no_show reason (normalized_note text)) key
            new_id now ended)).on
        s h

-- An appointment that is cancelled, completed or marked as a no-show stays as it is, every field of
-- it, whatever calls to start, complete or close appointments follow, of whichever actor.
pub run-HasAppointment :
    (fingerprint : StatusEvent → String) (calls : List LifecycleCall)
    (tenant_id appointment_id : String) (a : Appointment) (s : AppointmentStore)
    → is_ended a.status ≡ true
    → HasAppointment tenant_id appointment_id a s
    → HasAppointment tenant_id appointment_id a (run fingerprint calls s)
unfolding run
run-HasAppointment fingerprint [] t i a s ended h = h
run-HasAppointment fingerprint (call ∷ calls) t i a s ended h =
    run-HasAppointment fingerprint calls t i a (execute fingerprint call s) ended
      (execute-HasAppointment fingerprint call t i a s ended h)
