-- ===== src/Booking/Diary/Views.antt =====
-- The view of the active appointments under the writes of src/appointments: what happens to the slots
-- when one document is replaced.
use panalbee_clock_backend.Base.{
  String, Bool, true, false, ◌&&◌, List, [], ◌∷◌, any, find, update_first, some, ◌≡◌, refl,
  Bool-cases, inl, inr, arith, ◌==◌, eq_iff,
}
use panalbee_clock_backend.Booking.Locks.Agenda.{Slot, without}
use panalbee_clock_backend.Booking.Appointments.{Appointment}
use panalbee_clock_backend.Booking.Openings.{is_active}
use panalbee_clock_backend.Booking.Lifecycle.{is_appointment}
use panalbee_clock_backend.Booking.Diary.{
  slot_of, active_slots, move_slot, has_appointment_id, AreDistinct, no_appointments,
  next_appointment,
}

-- The slots of the other appointments are left alone.
pub without-others :
    (tenant_id appointment_id : String) (xs : List Appointment)
    → any (has_appointment_id appointment_id) xs ≡ false
    → without tenant_id appointment_id (active_slots xs) ≡ active_slots xs
unfolding active_slots
without-others tenant_id appointment_id [] h = refl
without-others tenant_id appointment_id (a ∷ xs) h =
    let later = without-others tenant_id appointment_id xs (ground arith) in
    let other : a.id == appointment_id ≡ false = ground arith in
    elim (Bool-cases (is_active a.status)) [
      | inl active ↦ rw (active, other) (ground arith)
      | inr over ↦ rw over later
    ]

pub move_slot-others :
    (s : Slot) (xs : List Appointment)
    → any (has_appointment_id s.appointment_id) xs ≡ false
    → move_slot s (active_slots xs) ≡ active_slots xs
unfolding active_slots
move_slot-others s [] h = refl
move_slot-others s (a ∷ xs) h =
    let later = move_slot-others s xs (ground arith) in
    let other : a.id == s.appointment_id ≡ false = ground arith in
    elim (Bool-cases (is_active a.status)) [
      | inl active ↦ rw (active, other) (ground arith)
      | inr over ↦ rw over later
    ]

-- The document that is found later has its id there.
found-id :
    (p : Appointment → Bool) (tenant_id id : String) (a : Appointment) (xs : List Appointment)
    → ((x : Appointment) → p x ≡ true → is_appointment tenant_id id x ≡ true)
    → find p xs ≡ some a
    → any (has_appointment_id id) xs ≡ true
found-id p tenant_id id a [] about found = cc
found-id p tenant_id id a (x ∷ xs) about found = elim (Bool-cases (p x)) [
  | inl hit ↦ let here = about x hit in ground arith
  | inr miss ↦ let later = found-id p tenant_id id a xs about (rw miss at found) in ground arith
]

other-id :
    (id : String) (x : Appointment) (xs : List Appointment)
    → any (has_appointment_id x.id) xs ≡ false
    → any (has_appointment_id id) xs ≡ true
    → x.id == id ≡ false
other-id id x xs fresh found = elim (Bool-cases (x.id == id)) [
  | inl same ↦ let e : x.id ≡ id = (eq_iff x.id id).0 same in cc (rw e at fresh)
  | inr apart ↦ apart
]

module _ (p : Appointment → Bool) (tenant_id id : String) (a u : Appointment)
    (about : (x : Appointment) → p x ≡ true → is_appointment tenant_id id x ≡ true)
    (identity : u.id ≡ a.id) where
  update-any :
      (k : String) (xs : List Appointment)
      → find p xs ≡ some a
      → any (has_appointment_id k) (update_first p (λ _. u) xs) ≡ any (has_appointment_id k) xs
  update-any k [] found = cc
  update-any k (x ∷ xs) found = elim (Bool-cases (p x)) [
    | inl hit ↦
        let head : some x ≡ some a = rw hit at found in
        let same : x ≡ a = cc in rw (hit, same, identity) refl
    | inr miss ↦ rw (miss, update-any k xs (rw miss at found)) refl
  ]

  pub update-AreDistinct :
      {xs : List Appointment}
      → find p xs ≡ some a
      → AreDistinct xs
      → AreDistinct (update_first p (λ _. u) xs)
  update-AreDistinct found no_appointments = cc
  update-AreDistinct found (next_appointment {a = x} {xs = xs} fresh rest) =
      elim (Bool-cases (p x)) [
        | inl hit ↦
            let head : some x ≡ some a = rw hit at found in
            let same : x ≡ a = cc in rw hit (next_appointment (rw (identity, ← same) fresh) rest)
        | inr miss ↦
            let later : find p xs ≡ some a = rw miss at found in
            rw miss (
              next_appointment (rw (update-any x.id xs later) fresh)
                (update-AreDistinct later rest))
      ]

  -- The new document ends the appointment.
  pub view-freed :
      {xs : List Appointment}
      → is_active u.status ≡ false
      → find p xs ≡ some a
      → AreDistinct xs
      → active_slots (update_first p (λ _. u) xs) ≡ without tenant_id id (active_slots xs)
  unfolding active_slots
  view-freed over found no_appointments = cc
  view-freed over found (next_appointment {a = x} {xs = xs} fresh rest) = elim (Bool-cases (p x)) [
    | inl hit ↦
        let here = about x hit in
        let e : x.id ≡ id = (eq_iff x.id id).0 (ground arith) in
        let others = without-others tenant_id id xs (rw e at fresh) in
        elim (Bool-cases (is_active x.status)) [
          | inl active ↦ rw (hit, over, active) (ground arith)
          | inr ended ↦ rw (hit, over, ended, others) refl
        ]
    | inr miss ↦
        let later : find p xs ≡ some a = rw miss at found in
        let apart = other-id id x xs fresh (found-id p tenant_id id a xs about later) in
        let tail = view-freed over later rest in
        elim (Bool-cases (is_active x.status)) [
          | inl active ↦ rw (miss, active, apart, tail) (ground arith)
          | inr ended ↦ rw (miss, ended, tail) refl
        ]
  ]

  -- The new document has the appointment active at another time.
  pub view-moved :
      {xs : List Appointment}
      → is_active a.status ≡ true
      → is_active u.status ≡ true
      → (u.id ≡ id) × (u.tenant_id ≡ tenant_id)
      → find p xs ≡ some a
      → AreDistinct xs
      → active_slots (update_first p (λ _. u) xs) ≡ move_slot (slot_of u) (active_slots xs)
  unfolding active_slots
  view-moved was is (same_id, same_tenant) found no_appointments = cc
  view-moved was is (same_id, same_tenant) found (next_appointment {a = x} {xs = xs} fresh rest) =
      elim (Bool-cases (p x)) [
        | inl hit ↦
            let head : some x ≡ some a = rw hit at found in
            let same : x ≡ a = cc in
            let here = about x hit in
            let e : x.id ≡ id = (eq_iff x.id id).0 (ground arith) in
            let others = move_slot-others (slot_of u) xs (rw (same_id, ← e) fresh) in
            let active : is_active x.status ≡ true = rw same was in
            let this : x.tenant_id == u.tenant_id && x.id == u.id ≡ true =
              rw (same_id, same_tenant) (ground arith) in
            rw (hit, is, active, this, others) refl
        | inr miss ↦
            let later : find p xs ≡ some a = rw miss at found in
            let apart = other-id id x xs fresh (found-id p tenant_id id a xs about later) in
            let tail = view-moved was is (same_id, same_tenant) later rest in
            elim (Bool-cases (is_active x.status)) [
              | inl active ↦
                  let other : x.tenant_id == u.tenant_id && x.id == u.id ≡ false =
                    rw same_id (ground arith) in
                  rw (miss, active, other, tail) refl
              | inr ended ↦ rw (miss, ended, tail) refl
            ]
      ]

-- The new document is in the diary as the old one.
pub view-same :
    (p : Appointment → Bool) (a u : Appointment) (xs : List Appointment)
    → is_active u.status ≡ is_active a.status
    → slot_of u ≡ slot_of a
    → find p xs ≡ some a
    → active_slots (update_first p (λ _. u) xs) ≡ active_slots xs
unfolding active_slots
view-same p a u [] status slot found = refl
view-same p a u (x ∷ xs) status slot found = elim (Bool-cases (p x)) [
  | inl hit ↦
      let head : some x ≡ some a = rw hit at found in
      let same : x ≡ a = cc in rw (hit, status, slot, same) refl
  | inr miss ↦ rw (miss, view-same p a u xs status slot (rw miss at found)) refl
]

-- A write that computes from the document that it finds.
pub update-found :
    (p : Appointment → Bool) (f : Appointment → Appointment) (a : Appointment)
    (xs : List Appointment)
    → find p xs ≡ some a
    → update_first p f xs ≡ update_first p (λ _. f a) xs
update-found p f a [] found = refl
update-found p f a (x ∷ xs) found = elim (Bool-cases (p x)) [
  | inl hit ↦
      let head : some x ≡ some a = rw hit at found in let same : x ≡ a = cc in rw (hit, same) refl
  | inr miss ↦ rw (miss, update-found p f a xs (rw miss at found)) refl
]
