-- ===== src/Booking/Locks.antt =====
-- The minute locks that keep the agenda of a member of the staff free of conflicts
-- (src/appointments/appointment-interval-lock.service.ts). A `Date` is its milliseconds since the
-- epoch, and the dates are after it.
mod Minutes
pub mod Acquire
pub mod Agenda
pub mod Overlaps
mod Conflicts
mod Amounts
mod Tests
use panalbee_clock_backend.Base.{
  ℕ, zero, suc, ◌+◌, ◌-◌, ◌/◌, ◌%◌, String, Bool, true, false, ◌&&◌, ◌||◌, not, List, [], ◌∷◌, map,
  any, keep, beq, ltb, leb, if◌then◌else◌, Result, ok, err, fault, app, Exception, Action, pure,
  throw, lift, modify, insert_unique, try_catch, ◌>>=◌, ◌>>◌, is_named_duplicate_key, ◌==◌,
}

pub record IntervalLock : Type 0 where
  pub tenant_id : String
  pub staff_id : String
  pub appointment_id : String
  pub interval_start : ℕ

abbrev pub slot_conflict : Exception
slot_conflict = app 409 "APPOINTMENT_SLOT_CONFLICT"

abbrev pub not_aligned : Exception
not_aligned = fault "Appointment lock intervals must be ordered and minute-aligned"

-- `getUTCSeconds() !== 0 || getUTCMilliseconds() !== 0`
abbrev pub has_seconds : ℕ → Bool
has_seconds t = not (beq (t / 1000 % 60) 0) || not (beq (t % 1000) 0)

-- The loop over the cursor, on fuel.
unfoldable pub starts_from : ℕ → ℕ → ℕ → List ℕ
starts_from zero cursor ends_at = []
starts_from (suc fuel) cursor ends_at =
    let rest = starts_from fuel (cursor + 60_000) ends_at in
    if ltb cursor ends_at then cursor ∷ rest else []

-- `minuteStarts`; the length of the interval is fuel enough.
unfoldable pub minute_starts : ℕ → ℕ → Result (List ℕ)
unfolding starts_from
minute_starts starts_at ends_at =
    if leb ends_at starts_at || has_seconds starts_at || has_seconds ends_at
    then err not_aligned
    else ok (starts_from (ends_at - starts_at) starts_at ends_at)

abbrev pub interval_index : String
interval_index = "appointment_interval_lock_unique"

-- The unique index on the tenant, the member of the staff and the minute.
abbrev pub is_at : String → String → ℕ → IntervalLock → Bool
is_at tenant_id staff_id start l =
    l.tenant_id == tenant_id && l.staff_id == staff_id && beq l.interval_start start

-- `insertMany` in order.
unfoldable pub insert_locks :
    String → String → String → List ℕ → Action (List IntervalLock) (Unit {0})
insert_locks tenant_id staff_id appointment_id [] = pure tt
insert_locks tenant_id staff_id appointment_id (start ∷ starts) =
    insert_unique (any (is_at tenant_id staff_id start)) interval_index (λ locks.
      record {
        tenant_id = tenant_id;
        staff_id = staff_id;
        appointment_id = appointment_id;
        interval_start = start;
      }
      ∷ locks)
    >> insert_locks tenant_id staff_id appointment_id starts

abbrev pub conflict_or : Exception → Action (List IntervalLock) (Unit {0})
conflict_or error =
    if is_named_duplicate_key error interval_index then throw slot_conflict else throw error

unfoldable pub acquire : String → String → String → ℕ → ℕ → Action (List IntervalLock) (Unit {0})
unfolding minute_starts insert_locks
acquire tenant_id staff_id appointment_id starts_at ends_at = do
  interval_starts ← lift (minute_starts starts_at ends_at)
  try_catch (insert_locks tenant_id staff_id appointment_id interval_starts) conflict_or

abbrev pub is_owned : String → String → IntervalLock → Bool
is_owned tenant_id appointment_id l = l.tenant_id == tenant_id && l.appointment_id == appointment_id

unfoldable pub release : String → String → Action (List IntervalLock) (Unit {0})
release tenant_id appointment_id = modify (keep (λ l. not (is_owned tenant_id appointment_id l)))

unfoldable pub replace : String → String → String → ℕ → ℕ → Action (List IntervalLock) (Unit {0})
unfolding acquire release
replace tenant_id staff_id appointment_id starts_at ends_at =
    release tenant_id appointment_id >> acquire tenant_id staff_id appointment_id starts_at ends_at
