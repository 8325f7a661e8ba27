-- ===== src/Booking/Diary/Apart.antt =====
-- Two appointments of a diary (src/appointments).
use panalbee_clock_backend.Base.{
  Bool, true, List, [], ◌∷◌, find, some, ◌≡◌, ◌≢◌, sym, ap, Bool-cases, inl, inr, ◌∙◌,
}
use panalbee_clock_backend.Booking.Locks.Agenda.{
  AreInConflict, IsClear, clear_next, IsAgenda, next_slot, Slot,
}
use panalbee_clock_backend.Booking.Locks.{IntervalLock}
use panalbee_clock_backend.Booking.Openings.{is_active}
use panalbee_clock_backend.Booking.Appointments.{Appointment}
use panalbee_clock_backend.Booking.Diary.Moves.{AreInConflict-sym}
use panalbee_clock_backend.Booking.Diary.{slot_of, active_slots}

clear-apart :
    (s : Slot) (q : Appointment → Bool) (b : Appointment) (xs : List Appointment)
    → IsClear s (active_slots xs)
    → find q xs ≡ some b
    → is_active b.status ≡ true
    → ¬ AreInConflict s (slot_of b)
unfolding active_slots
clear-apart s q b [] clear found active = cc
clear-apart s q b (x ∷ xs) clear found active = elim (Bool-cases (is_active x.status)) [
  | inr over ↦ elim (Bool-cases (q x)) [
    | inl hit ↦
        let head : some x ≡ some b = rw hit at found in
        let same : x ≡ b = cc in cc (rw same at over)
    | inr miss ↦ clear-apart s q b xs (rw over at clear) (rw miss at found) active
  ]
  | inl here ↦ elim (Bool-cases (q x)) [
    | inl hit ↦
        let head : some x ≡ some b = rw hit at found in
        let same : x ≡ b = cc in rw (← same) (first_apart (rw here at clear))
    | inr miss ↦ clear-apart s q b xs (rest_clear (rw here at clear)) (rw miss at found) active
  ]
]
  where
    first_apart : IsClear s (slot_of x ∷ active_slots xs) → ¬ AreInConflict s (slot_of x)
    first_apart (clear_next apart rest) = apart

    rest_clear : IsClear s (slot_of x ∷ active_slots xs) → IsClear s (active_slots xs)
    rest_clear (clear_next apart rest) = rest

-- What an agenda says of its first slot, and of the others.
first-IsClear :
    (locks : List IntervalLock) (s : Slot) (slots : List Slot)
    → IsAgenda locks (s ∷ slots)
    → IsClear s slots
first-IsClear locks s slots (next_slot locked clear rest) = clear

rest-IsAgenda :
    (locks : List IntervalLock) (s : Slot) (slots : List Slot)
    → IsAgenda locks (s ∷ slots)
    → IsAgenda locks slots
rest-IsAgenda locks s slots (next_slot locked clear rest) = rest

tail-IsAgenda :
    (locks : List IntervalLock) (x : Appointment) (xs : List Appointment)
    → IsAgenda locks (active_slots (x ∷ xs))
    → IsAgenda locks (active_slots xs)
unfolding active_slots
tail-IsAgenda locks x xs h = elim (Bool-cases (is_active x.status)) [
  | inl here ↦ rest-IsAgenda locks (slot_of x) (active_slots xs) (rw here at h)
  | inr over ↦ rw over at h
]

head-IsClear :
    (locks : List IntervalLock) (x : Appointment) (xs : List Appointment)
    → is_active x.status ≡ true
    → IsAgenda locks (active_slots (x ∷ xs))
    → IsClear (slot_of x) (active_slots xs)
unfolding active_slots
head-IsClear locks x xs here h = first-IsClear locks (slot_of x) (active_slots xs) (rw here at h)

found_head :
    (p : Appointment → Bool) (a x : Appointment) (xs : List Appointment)
    → p x ≡ true
    → find p (x ∷ xs) ≡ some a
    → x ≡ a
found_head p a x xs hit found = let head : some x ≡ some a = rw hit at found in cc

pub agenda-apart :
    (locks : List IntervalLock) (p q : Appointment → Bool) (a b : Appointment)
    (xs : List Appointment)
    → IsAgenda locks (active_slots xs)
    → find p xs ≡ some a
    → find q xs ≡ some b
    → is_active a.status ≡ true
    → is_active b.status ≡ true
    → a.id ≢ b.id
    → ¬ AreInConflict (slot_of a) (slot_of b)
agenda-apart locks p q a b [] h fa fb act_a act_b apart = cc
agenda-apart locks p q a b (x ∷ xs) h fa fb act_a act_b apart = elim (Bool-cases (p x)) [
  | inl hit ↦
      let x_a = found_head p a x xs hit fa in
      elim (Bool-cases (q x)) [
        | inl also ↦
            let x_b = found_head q b x xs also fb in absurd (apart (ap (λ d. d.id) (sym x_a ∙ x_b)))
        | inr miss ↦
            let clear = head-IsClear locks x xs (rw x_a act_a) h in
            clear-apart (slot_of a) q b xs (rw x_a at clear) (rw miss at fb) act_b
      ]
  | inr miss ↦ elim (Bool-cases (q x)) [
    | inl hit ↦
        let x_b = found_head q b x xs hit fb in
        let clear = head-IsClear locks x xs (rw x_b act_b) h in
        λ c.
          clear-apart (slot_of b) p a xs (rw x_b at clear) (rw miss at fa) act_a
            (AreInConflict-sym (slot_of a) (slot_of b) c)
    | inr also ↦
        agenda-apart locks p q a b xs (tail-IsAgenda locks x xs h) (rw miss at fa) (rw also at fb)
          act_a act_b apart
  ]
]
