-- ===== src/Booking/Locks/Tests.antt =====
-- Locks on a small agenda.
use panalbee_clock_backend.Base.{
  ℕ, ◌+◌, ◌*◌, ◌>>◌, ◌++◌, String, List, [], ◌∷◌, ◌≡◌, refl, ◌⊎◌, ok, err,
}
use panalbee_clock_backend.Booking.Locks.{
  IntervalLock, acquire, release, minute_starts, slot_conflict, not_aligned,
}
use panalbee_clock_backend.Booking.Locks.Minutes.{IsAligned}
use panalbee_clock_backend.Booking.Locks.Amounts.{
  minute_locks, acquire-minute_locks, acquire-release,
}
use panalbee_clock_backend.Booking.Locks.Conflicts.{IsTaken, acquire-decides}
use panalbee_clock_backend.Booking.Locks.Agenda.{
  Slot, LockCall, acquire_call, replace_call, Agenda, run_locks, IsAgenda, empty_agenda,
}
use panalbee_clock_backend.Booking.Locks.Overlaps.{run_locks-IsAgenda}

abbrev slot : String → ℕ → ℕ → Slot
slot id starts_at ends_at = record {
  tenant_id = "t1";
  staff_id = "ana";
  appointment_id = id;
  starts_at = starts_at;
  ends_at = ends_at;
}

abbrev empty : Agenda
empty = record { locks = []; slots = [] }

-- The second appointment overlaps the first and is refused; the first moves and leaves its minutes.
abbrev calls : List LockCall
calls =
    acquire_call (slot "a1" 600_000 720_000)
    ∷ acquire_call (slot "a2" 660_000 780_000)
    ∷ replace_call (slot "a1" 720_000 780_000)
    ∷ acquire_call (slot "a3" 600_000 720_000)
    ∷ []

calls_slots :
    (run_locks calls empty).slots ≡ slot "a3" 600_000 720_000 ∷ slot "a1" 720_000 780_000 ∷ []
unfolding run_locks acquire panalbee_clock_backend.Booking.Locks.replace
    panalbee_clock_backend.Booking.Locks.release
calls_slots = refl

run_locks-IsAgenda_example : IsAgenda (run_locks calls empty).locks (run_locks calls empty).slots
run_locks-IsAgenda_example = run_locks-IsAgenda calls empty empty_agenda

abbrev held : List IntervalLock
held =
    record { tenant_id = "t1"; staff_id = "ana"; appointment_id = "a1"; interval_start = 660_000 }
    ∷ []

acquire-decides_example :
    let r = acquire "t1" "ana" "a2" 600_000 720_000 held in
    ((¬ IsAligned 600_000 720_000) × (r.0 ≡ err not_aligned))
    ⊎ ((IsAligned 600_000 720_000 × (¬ IsTaken "t1" "ana" 600_000 720_000 held) × (r.0 ≡ ok tt))
        ⊎ (IsAligned 600_000 720_000
            × IsTaken "t1" "ana" 600_000 720_000 held
            × (r.0 ≡ err slot_conflict)))
acquire-decides_example = acquire-decides "t1" "ana" "a2" 600_000 720_000 held

before_held : (acquire "t1" "ana" "a2" 540_000 660_000 held).0 ≡ ok tt
unfolding acquire
before_held = refl

acquire-minute_locks_example :
    (n : ℕ) × (540_000 + n * 60_000 ≡ 660_000)
    × ((acquire "t1" "ana" "a2" 540_000 660_000 held).1
        ≡ minute_locks "t1" "ana" "a2" 540_000 n ++ held)
acquire-minute_locks_example = acquire-minute_locks "t1" "ana" "a2" 540_000 660_000 held before_held

acquire-release_example :
    (acquire "t1" "ana" "a2" 540_000 660_000 >> release "t1" "a2") held ≡ (ok tt, held)
acquire-release_example = acquire-release "t1" "ana" "a2" 540_000 660_000 held before_held refl
