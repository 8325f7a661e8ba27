-- ===== src/Booking/Diary/Moves.antt =====
-- The agenda when one appointment is given other minutes
-- (src/appointments/appointment-interval-lock.service.ts).
use panalbee_clock_backend.Base.{List, [], ◌∷◌, ◌≡◌, Bool-cases, inl, inr, arith, eq_iff, sym}
use panalbee_clock_backend.Booking.Locks.{IntervalLock}
use panalbee_clock_backend.Booking.Locks.Acquire.{IsGranted}
use panalbee_clock_backend.Booking.Locks.Agenda.{
  Slot, is_slot_of, without, AreInConflict, IsClear, clear_none, clear_next, IsAgenda, empty_agenda,
  next_slot,
}
use panalbee_clock_backend.Booking.Locks.Overlaps.{
  granted-clear, granted-IsLocked, granted-IsClear, kept-IsLocked, kept-IsAgenda,
}
use panalbee_clock_backend.Booking.Appointments.{Appointment}
use panalbee_clock_backend.Booking.Openings.{is_active}
use panalbee_clock_backend.Booking.Diary.{
  slot_of, active_slots, move_slot, AreDistinct, no_appointments, next_appointment,
}
use panalbee_clock_backend.Booking.Diary.Views.{without-others, move_slot-others}

pub AreInConflict-sym : (s t : Slot) → AreInConflict s t → AreInConflict t s
AreInConflict-sym s t c = record {
  tenant = sym c.tenant;
  staff = sym c.staff;
  before = c.after;
  after = c.before;
}

module _ (s : Slot) (locks locks' : List IntervalLock)
    (granted : IsGranted s.tenant_id s.staff_id s.appointment_id s.starts_at s.ends_at locks
      locks') where
  both-IsClear :
      (x y : Slot) (slots slots' : List Slot)
      → (IsClear x slots → IsClear x slots')
      → IsClear x (y ∷ slots)
      → IsClear x (y ∷ slots')
  both-IsClear x y slots slots' later (clear_next first rest) = clear_next first (later rest)

  move-IsClear :
      (x : Slot) (slots : List Slot)
      → ¬ AreInConflict x s
      → IsClear x (without s.tenant_id s.appointment_id slots)
      → IsClear x (move_slot s slots)
  move-IsClear x [] apart h = clear_none
  move-IsClear x (y ∷ ys) apart h =
      let later = move-IsClear x ys apart in
      elim (Bool-cases (is_slot_of s.tenant_id s.appointment_id y)) [
        | inl same ↦ rw same (clear_next apart (later (rw same at h)))
        | inr other ↦ rw other (
            both-IsClear x y (without s.tenant_id s.appointment_id ys) (move_slot s ys) later
              (rw other at h))
      ]

  next_moved :
      (x : Slot) (slots : List Slot)
      → (IsAgenda locks (without s.tenant_id s.appointment_id slots)
          → IsAgenda locks' (move_slot s slots))
      → IsAgenda locks (x ∷ without s.tenant_id s.appointment_id slots)
      → IsAgenda locks' (x ∷ move_slot s slots)
  next_moved x slots later (next_slot locked clear rest) =
      next_slot (kept-IsLocked locks locks' x granted.kept locked)
        (move-IsClear x slots
          (λ c. granted-clear s x locks locks' granted locked (AreInConflict-sym x s c)) clear)
        (later rest)

  -- The minutes of the others stay locked, and the new ones are.
  pub moved-IsAgenda :
      {xs : List Appointment}
      → AreDistinct xs
      → IsAgenda locks (without s.tenant_id s.appointment_id (active_slots xs))
      → IsAgenda locks' (move_slot s (active_slots xs))
  unfolding active_slots
  moved-IsAgenda no_appointments h = empty_agenda
  moved-IsAgenda (next_appointment {a = x} {xs} fresh rest) h =
      elim (Bool-cases (is_active x.status)) [
        | inr over ↦ rw over (moved-IsAgenda rest (rw over at h))
        | inl active ↦ elim (Bool-cases (is_slot_of s.tenant_id s.appointment_id (slot_of x))) [
          | inr other ↦
              rw (active, other)
                (next_moved (slot_of x) (active_slots xs) (moved-IsAgenda rest)
                  (rw (active, other) at h))
          | inl same ↦
              let e : x.id ≡ s.appointment_id = (eq_iff x.id s.appointment_id).0 (ground arith) in
              let unmoved = move_slot-others s xs (rw e at fresh) in
              let others = without-others s.tenant_id s.appointment_id xs (rw e at fresh) in
              let before : IsAgenda locks (active_slots xs) =
                rw others at (rw (active, same) at h) in
              rw (active, same, unmoved)
                (next_slot (granted-IsLocked s locks locks' granted)
                  (granted-IsClear s locks locks' granted before)
                  (kept-IsAgenda locks locks' granted.kept before))
        ]
      ]
