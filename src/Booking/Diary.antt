-- ===== src/Booking/Diary.antt =====
-- What the booking of appointments promises: a diary of the active appointments, in which a member of
-- the staff is never in two at once (src/appointments).
mod Views
mod Moves
mod Frames
mod Writes
mod Grants
pub mod Bookings
mod Loading
pub mod Changes
pub mod Tokens
mod Registered
pub mod Twice
mod Events
pub mod Closings
mod Apart
pub mod Histories
use panalbee_clock_backend.Base.{
  ℕ, String, Bool, true, false, List, [], ◌∷◌, any, map, ◌≡◌, ◌==◌, if◌then◌else◌,
}
use panalbee_clock_backend.Booking.Locks.{IntervalLock}
use panalbee_clock_backend.Booking.Locks.Agenda.{Slot, is_slot_of, without, IsClear, IsAgenda}
use panalbee_clock_backend.Booking.Appointments.{Appointment, AppointmentStore}
use panalbee_clock_backend.Booking.Openings.{is_active}

abbrev pub slot_of : Appointment → Slot
slot_of a = record {
  tenant_id = a.tenant_id;
  staff_id = a.staff_id;
  appointment_id = a.id;
  starts_at = a.starts_at;
  ends_at = a.ends_at;
}

-- The view: the slots of the appointments that are pending, confirmed or in progress.
unfoldable pub active_slots : List Appointment → List Slot
active_slots [] = []
active_slots (a ∷ xs) =
    let rest = active_slots xs in if is_active a.status then slot_of a ∷ rest else rest

-- The slot of the same appointment gives way to `s`.
abbrev pub move_slot : Slot → List Slot → List Slot
move_slot s = map (λ x. if is_slot_of s.tenant_id s.appointment_id x then s else x)

-- What may happen to a diary: a slot that is in conflict with none is booked, the slot of an
-- appointment is freed, or is moved to where it is in conflict with none of the others.
pub data DiaryStep : List Slot → List Slot → Type 0 where
  stays : {slots : List Slot} → DiaryStep slots slots
  books : {s : Slot} {slots : List Slot} → IsClear s slots → DiaryStep slots (s ∷ slots)
  frees :
      {slots : List Slot} (tenant_id appointment_id : String)
      → DiaryStep slots (without tenant_id appointment_id slots)
  moves :
      {s : Slot} {slots : List Slot}
      → IsClear s (without s.tenant_id s.appointment_id slots)
      → DiaryStep slots (move_slot s slots)

abbrev pub has_appointment_id : String → Appointment → Bool
has_appointment_id id a = a.id == id

-- No two appointments have one id.
pub data AreDistinct : List Appointment → Type 0 where
  no_appointments : AreDistinct []
  next_appointment :
      {a : Appointment} {xs : List Appointment}
      → any (has_appointment_id a.id) xs ≡ false
      → AreDistinct xs
      → AreDistinct (a ∷ xs)

-- The store stands for a diary: the active appointments have all their minutes locked, and no two
-- of them are in conflict.
pub record IsDiary (s : AppointmentStore) : Type 0 where
  pub distinct : AreDistinct s.appointments
  pub agenda : IsAgenda s.locks (active_slots s.appointments)

pub record Refines (s s' : AppointmentStore) : Type 0 where
  pub step : DiaryStep (active_slots s.appointments) (active_slots s'.appointments)
  pub diary : IsDiary s'
