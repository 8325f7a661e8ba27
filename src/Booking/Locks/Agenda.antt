-- ===== src/Booking/Locks/Agenda.antt =====
-- The agenda that the locks stand for (src/appointments/appointment-interval-lock.service.ts): each
-- call is a transaction of its own.
use panalbee_clock_backend.Base.{
  ℕ, ◌%◌, ◌≤◌, ◌<◌, String, Bool, true, ◌&&◌, not, List, [], ◌∷◌, any, keep, Result, ok, err, ◌≡◌,
  ◌==◌, with_transaction,
}
use panalbee_clock_backend.Booking.Locks.{IntervalLock, acquire, release, replace}
use panalbee_clock_backend.Booking.Locks.Minutes.{IsAligned}
use panalbee_clock_backend.Booking.Locks.Acquire.{is_lock}

-- An appointment in the agenda.
pub record Slot : Type 0 where
  pub tenant_id : String
  pub staff_id : String
  pub appointment_id : String
  pub starts_at : ℕ
  pub ends_at : ℕ

pub data LockCall : Type 0 where
  acquire_call replace_call : Slot → LockCall
  release_call : String → String → LockCall

-- The locks, and the agenda: the slots of the calls that were granted and not given back.
pub record Agenda : Type 0 where
  pub locks : List IntervalLock
  pub slots : List Slot

abbrev pub is_slot_of : String → String → Slot → Bool
is_slot_of tenant_id appointment_id s =
    s.tenant_id == tenant_id && s.appointment_id == appointment_id

abbrev pub without : String → String → List Slot → List Slot
without tenant_id appointment_id slots =
    keep (λ s. not (is_slot_of tenant_id appointment_id s)) slots

-- The agenda takes a slot only where the call ended well.
abbrev pub booked : Agenda → List Slot → Result (Unit {0}) × List IntervalLock → Agenda
booked before slots (ok _, locks) = record { locks = locks; slots = slots }
booked before slots (err _, _) = before

unfoldable pub run_lock : LockCall → Agenda → Agenda
run_lock (acquire_call s) a = booked a (s ∷ a.slots) (
    with_transaction (acquire s.tenant_id s.staff_id s.appointment_id s.starts_at s.ends_at)
      a.locks)
run_lock (replace_call s) a = booked a (s ∷ without s.tenant_id s.appointment_id a.slots) (
    with_transaction (replace s.tenant_id s.staff_id s.appointment_id s.starts_at s.ends_at)
      a.locks)
run_lock (release_call tenant_id appointment_id) a =
    booked a (without tenant_id appointment_id a.slots)
      (with_transaction (release tenant_id appointment_id) a.locks)

unfoldable pub run_locks : List LockCall → Agenda → Agenda
unfolding run_lock
run_locks [] a = a
run_locks (call ∷ calls) a = run_locks calls (run_lock call a)

-- Two slots of one member of the staff that share time.
pub record AreInConflict (s t : Slot) : Type 0 where
  pub tenant : s.tenant_id ≡ t.tenant_id
  pub staff : s.staff_id ≡ t.staff_id
  pub before : s.starts_at < t.ends_at
  pub after : t.starts_at < s.ends_at

-- A slot has a lock on each of its minutes.
pub record IsLocked (locks : List IntervalLock) (s : Slot) : Type 0 where
  pub aligned : IsAligned s.starts_at s.ends_at
  pub locked :
      (m : ℕ)
      → s.starts_at ≤ m
      → m < s.ends_at
      → m % 60_000 ≡ 0
      → any (is_lock s.tenant_id s.staff_id s.appointment_id m) locks ≡ true

-- No slot of the list is in conflict with `s`.
pub data IsClear (s : Slot) : List Slot → Type 0 where
  clear_none : IsClear s []
  clear_next : {t : Slot} {ts : List Slot} → ¬ AreInConflict s t → IsClear s ts → IsClear s (t ∷ ts)

-- No two slots of an agenda are in conflict, and all have their locks.
pub data IsAgenda (locks : List IntervalLock) : List Slot → Type 0 where
  empty_agenda : IsAgenda locks []
  next_slot :
      {s : Slot} {ss : List Slot}
      → IsLocked locks s
      → IsClear s ss
      → IsAgenda locks ss
      → IsAgenda locks (s ∷ ss)
