-- ===== src/Booking/Diary/Loading.antt =====
-- The appointment that a call loads, and its conditional write
-- (src/appointments/appointment-management.service.ts).
use panalbee_clock_backend.Base.{
  ℕ, String, true, List, find, find-holds, update_first, Option, some, ◌≡◌, refl, arith, Keeps,
  Leads, >>-Keeps, Option-cases, inl, inr, eq_iff,
}
use panalbee_clock_backend.Booking.Locks.{IntervalLock}
use panalbee_clock_backend.Booking.Openings.{is_active}
use panalbee_clock_backend.Booking.Appointments.{
  Appointment, AppointmentStatus, AppointmentStore, pending, confirmed, in_progress, cancelled,
  completed, no_show,
}
use panalbee_clock_backend.Booking.Lifecycle.{is_appointment, is_upcoming}
use panalbee_clock_backend.Booking.Intents.{Hashes}
use panalbee_clock_backend.Booking.Management.{
  ManagementAccess, load, is_accessible, is_upcoming_of, update_upcoming,
}
use panalbee_clock_backend.Booking.Management.Effects.{
  ManagementEvent, record_lifecycle, lifecycle_notification, lifecycle_event, management_action,
}
use panalbee_clock_backend.Booking.Diary.Frames.{
  Holds, create_event-Holds, upsert_notification-Holds, audit_appointment-Holds, IsSame,
}

pub upcoming-active :
    (status : AppointmentStatus) → is_upcoming status ≡ true → is_active status ≡ true
upcoming-active pending h = refl
upcoming-active confirmed h = refl
upcoming-active in_progress h = refl
upcoming-active cancelled h = cc
upcoming-active completed h = cc
upcoming-active no_show h = cc

pub upcoming-about :
    (tenant_id id : String) (x : Appointment)
    → is_upcoming_of tenant_id id x ≡ true
    → is_appointment tenant_id id x ≡ true
upcoming-about tenant_id id x h = ground arith

pub record_lifecycle-Holds :
    (Q : List Appointment → List IntervalLock → Type 0) (hashes : Hashes) (now : ℕ)
    (access : ManagementAccess) (a : Appointment) (event : ManagementEvent) (reason : Option String)
    (previous : Appointment)
    → Keeps (Holds Q) (record_lifecycle hashes now access a event reason previous)
unfolding record_lifecycle
record_lifecycle-Holds Q hashes now access a event reason previous =
    >>-Keeps (upsert_notification-Holds Q (lifecycle_notification now access a event reason)) (
      >>-Keeps
        (audit_appointment-Holds Q access.tenant_id access.actor_user_id (management_action event)
          a.id)
        (create_event-Holds Q (lifecycle_event hashes now access a event reason previous)))

-- The appointment that a call loads.
module _ (before : AppointmentStore) (hashes : Hashes) (access : ManagementAccess) where
  abbrev pub Loaded : Appointment → AppointmentStore → Type 0
  Loaded a s = IsSame before s × (find (is_accessible hashes access) before.appointments ≡ some a)

  pub load-Leads : Leads (IsSame before) (load hashes access) Loaded
  unfolding load
  load-Leads = record { on = λ s same a e. ground arith }

  pub loaded-ids :
      (a : Appointment)
      → find (is_accessible hashes access) before.appointments ≡ some a
      → a.tenant_id ≡ access.tenant_id
  loaded-ids a found =
      let holds = find-holds (is_accessible hashes access) before.appointments found in
      (eq_iff a.tenant_id access.tenant_id).0 (ground arith)

module _ (before : AppointmentStore) (tenant_id id : String)
    (change : Appointment → Appointment) where
  -- The conditional write, where the locks are as `Locks` says.
  abbrev pub Updated :
      (List IntervalLock → Type 0) → Appointment → List Appointment → List IntervalLock → Type 0
  Updated L u appointments locks =
      ((a : Appointment) × (find (is_upcoming_of tenant_id id) before.appointments ≡ some a)
        × (u ≡ change a))
      × (appointments ≡ update_first (is_upcoming_of tenant_id id) change before.appointments)
      × L locks

  pub update_upcoming-Leads :
      (L : List IntervalLock → Type 0)
      → Leads
          (λ s. (s.appointments ≡ before.appointments) × L s.locks)
          (update_upcoming tenant_id id change)
          (λ u. Holds (Updated L u))
  unfolding update_upcoming
  update_upcoming-Leads L = record {
    on = λ s (same, locks) u e.
        elim (Option-cases (find (is_upcoming_of tenant_id id) s.appointments)) [
          | inl missing ↦ cc (rw missing at e)
          | inr (a, found) ↦
              let there : find (is_upcoming_of tenant_id id) before.appointments ≡ some a =
                rw same at found in
              let answer = rw found at e in rw (found, same) (((a, there, cc), refl, locks))
        ];
  }
