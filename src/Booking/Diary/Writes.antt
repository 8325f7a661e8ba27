-- ===== src/Booking/Diary/Writes.antt =====
-- The writes that free or move a slot of the diary, once an appointment is found (src/appointments).
use panalbee_clock_backend.Base.{
  String, Bool, true, false, not, List, [], ◌∷◌, any, keep, find, update_first, some, ◌≡◌, refl,
  sym, ◌∙◌, ap, Bool-cases, inl, inr, arith, ◌==◌, eq_refl,
}
use panalbee_clock_backend.Booking.Locks.{is_owned}
use panalbee_clock_backend.Booking.Locks.Acquire.{IsGranted}
use panalbee_clock_backend.Booking.Locks.Agenda.{without, IsClear, IsAgenda}
use panalbee_clock_backend.Booking.Locks.Overlaps.{without-IsAgenda, granted-IsClear}
use panalbee_clock_backend.Booking.Appointments.{Appointment, AppointmentStore}
use panalbee_clock_backend.Booking.Openings.{is_active}
use panalbee_clock_backend.Booking.Lifecycle.{is_appointment}
use panalbee_clock_backend.Booking.Diary.{
  slot_of, has_appointment_id, AreDistinct, no_appointments, next_appointment, frees, moves,
  IsDiary, Refines, stays, active_slots,
}
use panalbee_clock_backend.Booking.Diary.Views.{
  update-AreDistinct, view-freed, view-moved, view-same,
}
use panalbee_clock_backend.Booking.Diary.Moves.{moved-IsAgenda}

found-any :
    (p : Appointment → Bool) (a : Appointment) (xs : List Appointment)
    → find p xs ≡ some a
    → any (has_appointment_id a.id) xs ≡ true
found-any p a [] found = cc
found-any p a (x ∷ xs) found = elim (Bool-cases (p x)) [
  | inl hit ↦
      let head : some x ≡ some a = rw hit at found in
      let same : x ≡ a = cc in let id : x.id == a.id ≡ true = rw same (eq_refl a.id) in rw id refl
  | inr miss ↦ let later = found-any p a xs (rw miss at found) in ground arith
]

absent :
    (x a : Appointment) (xs : List Appointment)
    → any (has_appointment_id x.id) xs ≡ false
    → any (has_appointment_id a.id) xs ≡ true
    → x.id ≡ a.id
    → ⊥
absent x a xs fresh there same = cc (rw same at fresh)

-- Two searches that find documents of one id find one document.
pub found-same :
    (p q : Appointment → Bool) (a b : Appointment) {xs : List Appointment}
    → AreDistinct xs
    → find p xs ≡ some a
    → find q xs ≡ some b
    → a.id ≡ b.id
    → a ≡ b
found-same p q a b no_appointments fa fb id = cc
found-same p q a b (next_appointment {a = x} {xs} fresh rest) fa fb id = elim (Bool-cases (p x)) [
  | inl hit ↦
      let head : some x ≡ some a = rw hit at fa in
      let x_a : x ≡ a = cc in
      elim (Bool-cases (q x)) [
        | inl also ↦ let head_b : some x ≡ some b = rw also at fb in cc
        | inr miss ↦
            absurd
              (absent x b xs fresh (found-any q b xs (rw miss at fb)) (ap (λ d. d.id) x_a ∙ id))
      ]
  | inr miss ↦ elim (Bool-cases (q x)) [
    | inl hit ↦
        let head : some x ≡ some b = rw hit at fb in
        let x_b : x ≡ b = cc in
        absurd
          (absent x a xs fresh (found-any p a xs (rw miss at fa)) (ap (λ d. d.id) x_b ∙ sym id))
    | inr also ↦ found-same p q a b rest (rw miss at fa) (rw also at fb) id
  ]
]

module _ (before after : AppointmentStore) (p : Appointment → Bool) (tenant_id id : String)
    (a u : Appointment)
    (about : (x : Appointment) → p x ≡ true → is_appointment tenant_id id x ≡ true)
    (diary : IsDiary before) (found : find p before.appointments ≡ some a) (identity : u.id ≡ a.id)
    (written : after.appointments ≡ update_first p (λ _. u) before.appointments) where
  -- The new document ends the appointment, and the locks are given back.
  pub freed-Refines :
      is_active u.status ≡ false
      → after.locks ≡ keep (λ l. not (is_owned tenant_id id l)) before.locks
      → Refines before after
  freed-Refines over released =
      let view = view-freed p tenant_id id a u about identity over found diary.distinct in
      record {
        step = rw (written, view) (frees tenant_id id);
        diary = record {
          distinct =
              rw written
                (update-AreDistinct p tenant_id id a u about identity found diary.distinct);
          agenda =
              rw (written, view, released)
                (without-IsAgenda tenant_id id before.locks diary.agenda);
        };
      }

  -- The new document has other times, and the locks of them.
  pub moved-Refines :
      is_active a.status ≡ true
      → is_active u.status ≡ true
      → (u.id ≡ id) × (u.tenant_id ≡ tenant_id)
      → IsGranted tenant_id u.staff_id id u.starts_at u.ends_at
          (keep (λ l. not (is_owned tenant_id id l)) before.locks)
          after.locks
      → Refines before after
  moved-Refines was is same granted =
      let view = view-moved p tenant_id id a u about identity was is same found diary.distinct in
      let (same_id, same_tenant) = same in
      let released = keep (λ l. not (is_owned tenant_id id l)) before.locks in
      let new_slot : IsGranted u.tenant_id u.staff_id u.id u.starts_at u.ends_at released
          after.locks =
        rw (same_id, same_tenant) granted in
      let rest : IsAgenda released (without u.tenant_id u.id (active_slots before.appointments)) =
        rw (same_id, same_tenant) (without-IsAgenda tenant_id id before.locks diary.agenda) in
      let clear : IsClear (slot_of u)
          (without u.tenant_id u.id (active_slots before.appointments)) =
        granted-IsClear (slot_of u) released after.locks new_slot rest in
      record {
        step = rw (written, view) (moves clear);
        diary = record {
          distinct =
              rw written
                (update-AreDistinct p tenant_id id a u about identity found diary.distinct);
          agenda =
              rw (written, view)
                (moved-IsAgenda (slot_of u) released after.locks new_slot diary.distinct rest);
        };
      }

  -- The new document is in the diary as the old one.
  pub same-Refines :
      is_active u.status ≡ is_active a.status
      → slot_of u ≡ slot_of a
      → after.locks ≡ before.locks
      → Refines before after
  same-Refines status slot locks =
      let view = view-same p a u before.appointments status slot found in
      record {
        step = rw (written, view) stays;
        diary = record {
          distinct =
              rw written
                (update-AreDistinct p tenant_id id a u about identity found diary.distinct);
          agenda = rw (written, view, locks) diary.agenda;
        };
      }
