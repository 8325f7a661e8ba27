-- ===== src/Booking/Diary/Frames.antt =====
-- The steps of the booking services that touch neither the appointments nor the locks, and the
-- transactions around the others (src/appointments, src/affiliates).
use panalbee_clock_backend.Base.{
  String, List, Option, Result, ok, err, Exception, Action, ◌≡◌, refl, arith, Keeps, Leads,
  modify-Keeps, settle, with_transaction, handle, try_catch,
}
use panalbee_clock_backend.Affiliate.Store.{AffiliateStore}
use panalbee_clock_backend.Booking.Locks.{IntervalLock}
use panalbee_clock_backend.Booking.Appointments.{
  Appointment, AppointmentStore, TimelineEvent, Notification,
}
use panalbee_clock_backend.Booking.Lifecycle.{create_event, on_affiliates}
use panalbee_clock_backend.Booking.Creation.Writes.{audit_appointment, create_notification}
use panalbee_clock_backend.Booking.Management.Effects.{upsert_notification}
use panalbee_clock_backend.Booking.Diary.{stays, IsDiary, Refines}

-- A condition on the appointments and the locks.
abbrev pub Holds : (List Appointment → List IntervalLock → Type 0) → AppointmentStore → Type 0
Holds Q s = Q s.appointments s.locks

module _ (Q : List Appointment → List IntervalLock → Type 0) where
  pub on_affiliates-Holds :
      {A : Type 0} (m : Action AffiliateStore A) → Keeps (Holds Q) (on_affiliates m)
  on_affiliates-Holds m = record { on = λ s h. h }

  pub create_event-Holds : (e : TimelineEvent) → Keeps (Holds Q) (create_event e)
  unfolding create_event
  create_event-Holds e = record { on = λ s h. ground arith }

  pub create_notification-Holds : (n : Notification) → Keeps (Holds Q) (create_notification n)
  unfolding create_notification
  create_notification-Holds n = record { on = λ s h. ground arith }

  pub upsert_notification-Holds : (n : Notification) → Keeps (Holds Q) (upsert_notification n)
  unfolding upsert_notification
  upsert_notification-Holds n = record { on = λ s h. ground arith }

  pub audit_appointment-Holds :
      (tenant_id : String) (actor_user_id : Option String) (action appointment_id : String)
      → Keeps (Holds Q) (audit_appointment tenant_id actor_user_id action appointment_id)
  audit_appointment-Holds tenant_id actor_user_id action appointment_id = modify-Keeps _ (λ s h. h)

-- The start of a transaction, as far as the diary goes.
abbrev pub IsSame : AppointmentStore → AppointmentStore → Type 0
IsSame before =
    Holds (λ appointments locks. (appointments ≡ before.appointments) × (locks ≡ before.locks))

pub Refines-refl : (s : AppointmentStore) → IsDiary s → Refines s s
Refines-refl s h = record { step = stays; diary = h }

module _ {A : Type 0} (s : AppointmentStore) (diary : IsDiary s) where
  settled-Refines :
      (r : Result A × AppointmentStore)
      → ((a : A) → r.0 ≡ ok a → Refines s r.1)
      → Refines s (settle s r).1
  settled-Refines (ok a, s') h = h a refl
  settled-Refines (err e, s') h = Refines-refl s diary

  -- A transaction that ends well leads to a diary; otherwise nothing has happened.
  pub transaction-Refines :
      (m : Action AppointmentStore A)
      → Leads (IsSame s) m (λ a s'. Refines s s')
      → Refines s (with_transaction m s).1
  transaction-Refines m h = settled-Refines (m s) (h.on s (refl, refl))

  caught-Refines :
      (handler : Exception → Action AppointmentStore A) (r : Result A × AppointmentStore)
      → ((a : A) → r.0 ≡ ok a → Refines s r.1)
      → ((e : Exception) → Refines s (handler e s).1)
      → Refines s (handle handler (settle s r)).1
  caught-Refines handler (ok a, s') h k = h a refl
  caught-Refines handler (err e, s') h k = k e

  pub try-Refines :
      (m : Action AppointmentStore A) (handler : Exception → Action AppointmentStore A)
      → Leads (IsSame s) m (λ a s'. Refines s s')
      → ((e : Exception) → Refines s (handler e s).1)
      → Refines s (try_catch (with_transaction m) handler s).1
  try-Refines m handler h k = caught-Refines handler (m s) (h.on s (refl, refl)) k

-- Where the appointments and the locks are as they were.
pub IsSame-Refines : (s s' : AppointmentStore) → IsDiary s → IsSame s s' → Refines s s'
IsSame-Refines s s' diary (same_appointments, same_locks) = record {
  step = rw same_appointments stays;
  diary = record {
    distinct = rw same_appointments diary.distinct;
    agenda = rw (same_appointments, same_locks) diary.agenda;
  };
}
