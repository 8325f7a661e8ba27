-- ===== src/Booking/Diary/Changes.antt =====
-- The cancellation frees a slot of the diary, and a change moves it
-- (src/appointments/appointment-management.service.ts).
use panalbee_clock_backend.Base.{
  ℕ, String, Bool, not, List, keep, find, find-holds, update_first, beq, Option, some, ok, ◌≡◌,
  refl, ◌∙◌, ap, arith, Leads, kept-Leads, >>=-Leads, branch-Leads, weaken-Leads, ◌>>=◌, ◌+◌, ◌*◌,
  inspect-Keeps, throw_if-Keeps, if◌then◌else◌, eq_iff,
}
use panalbee_clock_backend.Booking.Locks.{IntervalLock, is_owned, release, acquire, replace}
use panalbee_clock_backend.Booking.Locks
use panalbee_clock_backend.Booking.Locks.Acquire.{IsGranted, acquire-IsGranted}
use panalbee_clock_backend.Booking.Availability.{Calendar}
use panalbee_clock_backend.Booking.Catalog.{assert_tenant_booking_enabled}
use panalbee_clock_backend.Booking.Openings.Requests.{assert_slot_available}
use panalbee_clock_backend.Booking.Appointments.{Appointment, AppointmentStore}
use panalbee_clock_backend.Booking.Lifecycle.{on_locks, is_upcoming}
use panalbee_clock_backend.Booking.Intents.{Hashes}
use panalbee_clock_backend.Booking.Management.{
  ManagementAccess, load, is_accessible, is_upcoming_of, not_active,
}
use panalbee_clock_backend.Booking.Management.Effects.{was_cancelled, was_rescheduled}
use panalbee_clock_backend.Booking.Management.Cancel.{
  as_cancelled, is_cancelled_with, cancel_active, cancel_loaded, cancel,
}
use panalbee_clock_backend.Booking.Management.Reschedule.{
  resolve_reschedule, reschedule_query, reschedule_options, moved, write_reschedule,
  reschedule_moved, reschedule, trim_optional,
}
use panalbee_clock_backend.Base.Text.{trim}
use panalbee_clock_backend.Booking.Diary.{IsDiary, Refines}
use panalbee_clock_backend.Booking.Diary.Views.{update-found}
use panalbee_clock_backend.Booking.Diary.Writes.{freed-Refines, moved-Refines, found-same}
use panalbee_clock_backend.Booking.Diary.Frames.{Holds, IsSame, IsSame-Refines, transaction-Refines}
use panalbee_clock_backend.Booking.Diary.Loading.{
  record_lifecycle-Holds, upcoming-active, upcoming-about, Loaded, load-Leads, loaded-ids, Updated,
  update_upcoming-Leads,
}

module _ (before : AppointmentStore) (diary : IsDiary before) (hashes : Hashes) (now : ℕ)
    (access : ManagementAccess) (a : Appointment) where
  abbrev without_locks : List IntervalLock
  without_locks = keep (λ l. not (is_owned access.tenant_id a.id l)) before.locks

  abbrev upcoming : Appointment → Bool
  upcoming = is_upcoming_of access.tenant_id a.id

  release-Leads :
      (change : Appointment → Appointment) (u : Appointment)
      → Leads
          (Holds (Updated before access.tenant_id a.id change (λ locks. locks ≡ before.locks) u))
          (on_locks (Locks.release access.tenant_id a.id))
          (λ done.
            Holds (Updated before access.tenant_id a.id change (λ locks. locks ≡ without_locks) u))
  unfolding release
  release-Leads change u = record {
    on = λ s (found, written, locks) done e. (found, written, rw locks refl);
  }

  cancel_active-Leads :
      (reason : String)
      → Leads (IsSame before) (cancel_active hashes now access reason a) (λ u. Refines before)
  unfolding cancel_active
  cancel_active-Leads reason =
      let change = as_cancelled now reason in
      let Same = λ (locks : List IntervalLock). locks ≡ before.locks in
      let Freed = λ (locks : List IntervalLock). locks ≡ without_locks in
      kept-Leads (throw_if-Keeps (not (is_upcoming a.status)) not_active) (λ active.
        >>=-Leads (λ u. Holds (Updated before access.tenant_id a.id change Same u))
          (update_upcoming-Leads before access.tenant_id a.id change Same)
          (λ u.
            >>=-Leads (λ done. Holds (Updated before access.tenant_id a.id change Freed u))
              (release-Leads change u)
              (λ done.
                kept-Leads
                  (record_lifecycle-Holds (Updated before access.tenant_id a.id change Freed u)
                    hashes now access u was_cancelled (some reason) a)
                  (λ recorded. record {
                    on = λ s ((b, found, u_b), written, locks) r e.
                        freed-Refines before s upcoming access.tenant_id a.id b (change b)
                          (upcoming-about access.tenant_id a.id) diary found refl
                          (written ∙ update-found upcoming change b before.appointments found) refl
                          locks;
                  }))))

  replace-Leads :
      (starts_at ends_at : ℕ)
      → Leads
          (IsSame before)
          (on_locks (Locks.replace access.tenant_id a.staff_id a.id starts_at ends_at))
          (λ done s.
            (s.appointments ≡ before.appointments)
            × IsGranted access.tenant_id a.staff_id a.id starts_at ends_at without_locks s.locks)
  unfolding replace release
  replace-Leads starts_at ends_at = record {
    on = λ s (appointments, locks) done e. (
      appointments,
      rw (← locks) (
          acquire-IsGranted access.tenant_id a.staff_id a.id starts_at ends_at
            (keep (λ l. not (is_owned access.tenant_id a.id l)) s.locks) e),
    );
  }

  -- The appointment that the conditional write finds is the one that was loaded.
  upcoming-loaded :
      (b : Appointment)
      → find (is_accessible hashes access) before.appointments ≡ some a
      → find upcoming before.appointments ≡ some b
      → b ≡ a
  upcoming-loaded b loaded found =
      let holds = find-holds upcoming before.appointments found in
      found-same upcoming (is_accessible hashes access) b a diary.distinct found loaded
        ((eq_iff b.id a.id).0 (ground arith))

  rescheduled-Refines :
      (starts_at ends_at : ℕ) (s : AppointmentStore) (b : Appointment)
      → find (is_accessible hashes access) before.appointments ≡ some a
      → find upcoming before.appointments ≡ some b
      → s.appointments ≡ update_first upcoming (moved starts_at ends_at) before.appointments
      → IsGranted access.tenant_id a.staff_id a.id starts_at ends_at without_locks s.locks
      → Refines before s
  rescheduled-Refines starts_at ends_at s b loaded found written granted =
      let same = upcoming-loaded b loaded found in
      let here : find upcoming before.appointments ≡ some a = found ∙ ap some same in
      let holds = find-holds upcoming before.appointments here in
      let active = upcoming-active a.status (ground arith) in
      moved-Refines before s upcoming access.tenant_id a.id a (moved starts_at ends_at a)
        (upcoming-about access.tenant_id a.id) diary here refl
        (written ∙ update-found upcoming (moved starts_at ends_at) a before.appointments here)
        active active (refl, loaded-ids before hashes access a loaded) granted

  write_reschedule-Leads :
      (starts_at ends_at : ℕ) (reason : Option String)
      → find (is_accessible hashes access) before.appointments ≡ some a
      → Leads
          (IsSame before)
          (write_reschedule hashes now access starts_at ends_at reason a)
          (λ u. Refines before)
  unfolding write_reschedule
  write_reschedule-Leads starts_at ends_at reason loaded =
      let change = moved starts_at ends_at in
      let Given = λ (locks : List IntervalLock).
        IsGranted access.tenant_id a.staff_id a.id starts_at ends_at without_locks locks in
      >>=-Leads (λ done s. (s.appointments ≡ before.appointments) × Given s.locks)
        (replace-Leads starts_at ends_at)
        (λ done.
          >>=-Leads (λ u. Holds (Updated before access.tenant_id a.id change Given u))
            (update_upcoming-Leads before access.tenant_id a.id change Given)
            (λ u.
              kept-Leads
                (record_lifecycle-Holds (Updated before access.tenant_id a.id change Given u) hashes
                  now access u was_rescheduled reason a)
                (λ recorded. record {
                  on = λ s ((b, found, u_b), written, granted) r e.
                      rescheduled-Refines starts_at ends_at s b loaded found written granted;
                })))

module _ (before : AppointmentStore) (diary : IsDiary before) (hashes : Hashes) (now : ℕ)
    (access : ManagementAccess) where
  unchanged-Leads :
      (a : Appointment)
      → Leads (Loaded before hashes access a) (λ s. (ok a, s)) (λ u. Refines before)
  unchanged-Leads a = record { on = λ s (same, found) u e. IsSame-Refines before s diary same }

  -- A cancellation frees the slot of its appointment, or leaves the diary as it is.
  pub cancel-Refines : (reason : String) → Refines before (cancel hashes now access reason before).1
  unfolding cancel
  cancel-Refines reason =
      transaction-Refines before diary
        (load hashes access >>= cancel_loaded hashes now access (trim reason))
        (>>=-Leads (Loaded before hashes access) (load-Leads before hashes access) (λ a.
          branch-Leads (is_cancelled_with (trim reason) a) (λ again. unchanged-Leads a)
            (λ open_one.
              weaken-Leads (λ s loaded. loaded.0)
                (cancel_active-Leads before diary hashes now access a (trim reason)))))

  -- A change moves the slot of its appointment, or leaves the diary as it is.
  pub reschedule-Refines :
      (calendar : Calendar) (starts_at : ℕ) (reason : Option String)
      → Refines before (reschedule calendar hashes now access starts_at reason before).1
  unfolding reschedule reschedule_moved
  reschedule-Refines calendar starts_at reason = transaction-Refines before diary _ (
      kept-Leads
        (inspect-Keeps (λ s.
          if access.public_only
          then assert_tenant_booking_enabled access.tenant_id s.catalog
          else ok tt))
        (λ enabled. >>=-Leads (Loaded before hashes access) (load-Leads before hashes access) (λ a.
          kept-Leads (throw_if-Keeps (not (is_upcoming a.status)) not_active) (λ active.
            branch-Leads (beq a.starts_at starts_at) (λ same. unchanged-Leads a)
              (λ other. reschedule_moved-Leads a)))))
    where
      reschedule_moved-Leads :
          (a : Appointment)
          → Leads
              (Loaded before hashes access a)
              (reschedule_moved calendar hashes now access starts_at (trim_optional reason) a)
              (λ u. Refines before)
      reschedule_moved-Leads a =
          kept-Leads
            (inspect-Keeps
              (resolve_reschedule calendar access.tenant_id access.public_only a starts_at))
            (λ relation.
              kept-Leads
                (inspect-Keeps (λ s.
                  assert_slot_available calendar now s access.tenant_id
                    (reschedule_query a relation.local_date) starts_at
                    (reschedule_options access.public_only a)))
                (λ free. record {
                  on = λ s (same, found) u e.
                      (write_reschedule-Leads before diary hashes now access a starts_at
                          (starts_at + relation.duration_minutes * 60_000) (trim_optional reason)
                          found).on
                        s same u e;
                }))
