-- ===== src/Booking/Lifecycle/Updates.antt =====
-- What the updates of the life cycle leave as it is (src/appointments/appointment-lifecycle.service.ts).
use panalbee_clock_backend.Base.{
  ℕ, String, Bool, true, false, ◌&&◌, List, [], ◌∷◌, find, update_first, ok, err, ◌≡◌, refl,
  Bool-cases, inl, inr, arith, ◌==◌, eq_iff,
}
use panalbee_clock_backend.Booking.Appointments.{
  AppointmentStatus, pending, confirmed, in_progress, cancelled, completed, no_show, Appointment,
  StatusEvent, to_started, to_completed, to_no_show,
}
use panalbee_clock_backend.Booking.Lifecycle.{
  update_started, update_completed, update_no_show, update_of, is_appointment, has_status,
  transition_invalid, is_upcoming, is_in_progress,
}

abbrev pub is_ended : AppointmentStatus → Bool
is_ended pending = false
is_ended confirmed = false
is_ended in_progress = false
is_ended cancelled = true
is_ended completed = true
is_ended no_show = true

is_ended-others :
    (status : AppointmentStatus)
    → is_ended status ≡ true
    → (is_upcoming status ≡ false) × (is_in_progress status ≡ false)
is_ended-others pending h = cc
is_ended-others confirmed h = cc
is_ended-others in_progress h = cc
is_ended-others cancelled h = (refl, refl)
is_ended-others completed h = (refl, refl)
is_ended-others no_show h = (refl, refl)

-- No operation goes on from an appointment that has ended.
pub update_of-ended :
    (event : StatusEvent) (now : ℕ) (a : Appointment)
    → is_ended a.status ≡ true
    → update_of event now a ≡ err transition_invalid
unfolding update_of update_started update_completed update_no_show
update_of-ended to_started now a h =
    let (upcoming, started) = is_ended-others a.status h in rw upcoming refl
update_of-ended (to_completed text) now a h =
    let (upcoming, started) = is_ended-others a.status h in rw (upcoming, started) refl
update_of-ended (to_no_show reason text) now a h =
    let (upcoming, started) = is_ended-others a.status h in rw (upcoming, started) refl

-- An update keeps whose appointment it is.
pub update_of-identity :
    (event : StatusEvent) (now : ℕ) (a u : Appointment)
    → update_of event now a ≡ ok u
    → (u.id ≡ a.id) × (u.tenant_id ≡ a.tenant_id)
unfolding update_of update_started update_completed update_no_show
update_of-identity to_started now a u h = ground arith
update_of-identity (to_completed text) now a u h = ground arith
update_of-identity (to_no_show reason text) now a u h = ground arith

pub find-update_other :
    (p q : Appointment → Bool) (u : Appointment) (xs : List Appointment)
    → ((x : Appointment) → q x ≡ true → p x ≡ false)
    → p u ≡ false
    → find p (update_first q (λ _. u) xs) ≡ find p xs
find-update_other p q u [] apart other = refl
find-update_other p q u (x ∷ xs) apart other = elim (Bool-cases (q x)) [
  | inl hit ↦ rw (hit, other, apart x hit) refl
  | inr miss ↦ rw (miss, find-update_other p q u xs apart other) refl
]

-- The appointment that a call is about is not the one that has ended.
abbrev pub is_same : String → String → String → String → Bool
is_same t i tenant_id appointment_id = i == appointment_id && t == tenant_id

pub same_ids :
    (t i tenant_id appointment_id : String)
    → is_same t i tenant_id appointment_id ≡ true
    → (i ≡ appointment_id) × (t ≡ tenant_id)
same_ids t i tenant_id appointment_id h =
    ground (arith, eq_iff i appointment_id, eq_iff t tenant_id)

pub other_ids :
    (t i tenant_id appointment_id : String) (x : Appointment)
    → is_same t i tenant_id appointment_id ≡ false
    → is_appointment t i x ≡ true
    → is_appointment tenant_id appointment_id x ≡ false
other_ids t i tenant_id appointment_id x apart h =
    ground (arith, eq_iff x.id i, eq_iff x.tenant_id t, eq_iff i appointment_id, eq_iff t tenant_id)

pub has_status-is_appointment :
    (t i : String) (status : AppointmentStatus) (x : Appointment)
    → has_status t i status x ≡ true
    → is_appointment t i x ≡ true
has_status-is_appointment t i status x h = ground arith

pub updated_ids :
    (t i : String) (found updated : Appointment)
    → (updated.id ≡ found.id) × (updated.tenant_id ≡ found.tenant_id)
    → is_appointment t i found ≡ true
    → is_appointment t i updated ≡ true
updated_ids t i found updated (id, tenant) h = rw (id, tenant) h
