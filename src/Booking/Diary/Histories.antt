-- ===== src/Booking/Diary/Histories.antt =====
-- Sequences of calls of the booking services (src/appointments). `creates` stands for createTenant and
-- createPublic, whose intents it takes, and the accesses of `cancels` and `reschedules` for the staff, the
-- holder of a management token and the customer.
use panalbee_clock_backend.Base.{ℕ, String, Bool, true, List, [], ◌∷◌, find, Option, some, ◌≡◌, ◌≢◌}
use panalbee_clock_backend.Booking.Availability.{Calendar}
use panalbee_clock_backend.Booking.Locks.Agenda.{AreInConflict}
use panalbee_clock_backend.Booking.Openings.{is_active}
use panalbee_clock_backend.Booking.Appointments.{
  Appointment, AppointmentStore, LifecycleActor, StatusEvent, to_started, to_completed,
  NoShowReason,
}
use panalbee_clock_backend.Booking.Lifecycle.{start, complete, mark_no_show, normalized_note}
use panalbee_clock_backend.Booking.Intents.{Hashes, CreateIntent}
use panalbee_clock_backend.Booking.Creation.{CreateIds}
use panalbee_clock_backend.Booking.Creation.Create.{create}
use panalbee_clock_backend.Booking.Management.{ManagementAccess}
use panalbee_clock_backend.Booking.Management.Cancel.{cancel}
use panalbee_clock_backend.Booking.Management.Reschedule.{reschedule}
use panalbee_clock_backend.Booking.Diary.{slot_of, IsDiary, Refines}
use panalbee_clock_backend.Booking.Diary.Bookings.{create-Refines}
use panalbee_clock_backend.Booking.Diary.Changes.{cancel-Refines, reschedule-Refines}
use panalbee_clock_backend.Booking.Diary.Closings.{transition-Refines, mark_no_show-Refines}
use panalbee_clock_backend.Booking.Diary.Apart.{agenda-apart}

pub data BookingCall : Type 0 where
  creates : CreateIntent → CreateIds → CreateIds → BookingCall
  cancels : ManagementAccess → String → BookingCall
  reschedules : ManagementAccess → ℕ → Option String → BookingCall
  starts : LifecycleActor → String → String → String → BookingCall
  completes : LifecycleActor → String → String → Option String → String → BookingCall
  misses : LifecycleActor → String → String → NoShowReason → Option String → String → BookingCall

-- What stands for the libraries that the services call.
pub record Environment : Type 0 where
  pub calendar : Calendar
  pub hashes : Hashes
  pub fingerprint : StatusEvent → String

module _ (env : Environment) where
  -- A call, at the time of the clock.
  unfoldable pub run_booking : ℕ × BookingCall → AppointmentStore → AppointmentStore
  unfolding create cancel reschedule start complete mark_no_show
  run_booking (now, creates intent ids ids_again) s =
      (create env.calendar env.hashes now intent ids ids_again s).1
  run_booking (now, cancels access reason) s = (cancel env.hashes now access reason s).1
  run_booking (now, reschedules access starts_at reason) s =
      (reschedule env.calendar env.hashes now access starts_at reason s).1
  run_booking (now, starts actor i key new_id) s =
      (start env.fingerprint actor i key new_id now s).1
  run_booking (now, completes actor i key text new_id) s =
      (complete env.fingerprint actor i key text new_id now s).1
  run_booking (now, misses actor i key reason text new_id) s =
      (mark_no_show env.fingerprint actor i key reason text new_id now s).1

  unfoldable pub run_bookings : List (ℕ × BookingCall) → AppointmentStore → AppointmentStore
  unfolding run_booking
  run_bookings [] s = s
  run_bookings (call ∷ calls) s = run_bookings calls (run_booking call s)

  -- Every call, whether it ends well or throws, does to the diary of the active appointments one of
  -- the steps of its specification: nothing, a slot booked that is in conflict with none, a slot
  -- freed, or the slot of an appointment moved to where it is in conflict with no other. And the
  -- store stands for a diary again. The store before the call must stand for one.
  pub run_booking-Refines :
      (call : ℕ × BookingCall) (s : AppointmentStore) → IsDiary s → Refines s (run_booking call s)
  unfolding run_booking start complete
  run_booking-Refines (now, creates intent ids ids_again) s diary =
      create-Refines env.calendar env.hashes now s diary intent ids ids_again
  run_booking-Refines (now, cancels access reason) s diary =
      cancel-Refines s diary env.hashes now access reason
  run_booking-Refines (now, reschedules access starts_at reason) s diary =
      reschedule-Refines s diary env.hashes now access env.calendar starts_at reason
  run_booking-Refines (now, starts actor i key new_id) s diary =
      transition-Refines s diary env.fingerprint actor i to_started key new_id now
  run_booking-Refines (now, completes actor i key text new_id) s diary =
      transition-Refines s diary env.fingerprint actor i (to_completed (normalized_note text)) key
        new_id now
  run_booking-Refines (now, misses actor i key reason text new_id) s diary =
      mark_no_show-Refines s diary env.fingerprint actor i key reason text new_id now

  run_bookings-IsDiary :
      (calls : List (ℕ × BookingCall)) (s : AppointmentStore)
      → IsDiary s
      → IsDiary (run_bookings calls s)
  unfolding run_bookings
  run_bookings-IsDiary [] s diary = diary
  run_bookings-IsDiary (call ∷ calls) s diary =
      run_bookings-IsDiary calls (run_booking call s) (run_booking-Refines call s diary).diary

-- After any sequence of creations, cancellations, changes, starts, completions and no-shows, at
-- whatever times and by whomever, two appointments of the store with different ids that are pending,
-- confirmed or in progress never share time where they are of one tenant and one member of the staff.
-- The store at the start must stand for a diary.
pub run_bookings_apart :
    (env : Environment) (calls : List (ℕ × BookingCall)) (s : AppointmentStore)
    → IsDiary s
    → (p q : Appointment → Bool) (a b : Appointment)
    → find p (run_bookings env calls s).appointments ≡ some a
    → find q (run_bookings env calls s).appointments ≡ some b
    → is_active a.status ≡ true
    → is_active b.status ≡ true
    → a.id ≢ b.id
    → ¬ AreInConflict (slot_of a) (slot_of b)
run_bookings_apart env calls s diary p q a b =
    let after = run_bookings-IsDiary env calls s diary in
    agenda-apart (run_bookings env calls s).locks p q a b (run_bookings env calls s).appointments
      after.agenda
