-- ===== src/Booking/Availability/Offered.antt =====
-- The slots that are offered, without the loops (src/availability/availability-calculator.ts).
use panalbee_clock_backend.Base.{
  ℕ, zero, suc, ◌+◌, ◌-◌, ◌*◌, ◌<◌, String, Bool, true, false, ◌&&◌, ◌||◌, not, List, [], ◌∷◌, any,
  ◌≡◌, refl, ◌∙◌, beq, leb, ◌==◌, Bool-cases, inl, inr, arith, beq→eq, if◌then◌else◌,
}
use panalbee_clock_backend.Booking.Availability.{
  AvailabilitySlot, Calendar, AvailabilityInput, EligibleStaff, Interval, set_slot, slot_at,
  is_blocked, add_starts, add_intervals, add_staff, working_intervals, build_availability_slots,
}
use panalbee_clock_backend.Booking.Availability.Grid.{
  in_grid, in_grid-full, in_grid-here, in_grid-past, in_grid-next,
}
use panalbee_clock_backend.Booking.Availability.Slots.{
  has_slot, has_slot-set_slot, has_slot-sort_slots,
}

abbrev duration_of : EligibleStaff → ℕ
duration_of staff = staff.duration_minutes * 60_000

module _ (calendar : Calendar) (input : AvailabilityInput) where
  -- A working interval of the member of the staff has the start in its grid, and nothing is in the way.
  unfoldable pub is_offered : EligibleStaff → ℕ → Bool
  is_offered staff t =
      any (λ i. in_grid i.starts_at i.ends_at (duration_of staff) t)
        (working_intervals calendar input staff.id)
      && not (is_blocked calendar input staff t)

  is_set :
      (staff_id : String) (t : ℕ) (staff : EligibleStaff) (c : ℕ) (slots : List AvailabilitySlot)
      → has_slot staff_id t (
          if is_blocked calendar input staff c
          then slots
          else set_slot (slot_at calendar input staff c) slots)
        ≡ (staff.id == staff_id && beq c t && not (is_blocked calendar input staff c))
          || has_slot staff_id t slots
  is_set staff_id t staff c slots = elim (Bool-cases (is_blocked calendar input staff c)) [
    | inl blocked ↦ rw blocked (ground arith)
    | inr free ↦
        let added = has_slot-set_slot staff_id t (slot_at calendar input staff c) slots in
        rw (free, added) (ground arith)
  ]

  has_slot-add_starts :
      (staff_id : String) (t : ℕ) (staff : EligibleStaff) (fuel c e : ℕ)
      (slots : List AvailabilitySlot)
      → e < c + fuel
      → has_slot staff_id t (add_starts calendar input staff fuel c e slots)
        ≡ (staff.id == staff_id
            && (in_grid c e (duration_of staff) t && not (is_blocked calendar input staff t)))
          || has_slot staff_id t slots
  unfolding add_starts
  has_slot-add_starts staff_id t staff zero c e slots enough =
      let full = in_grid-full c e (duration_of staff) t (ground arith) in rw full (ground arith)
  has_slot-add_starts staff_id t staff (suc fuel) c e slots enough =
      elim (Bool-cases (leb (c + duration_of staff) e)) [
        | inr full ↦
            let none_left = in_grid-full c e (duration_of staff) t full in
            rw (full, none_left) (ground arith)
        | inl room ↦
            let next =
              has_slot-add_starts staff_id t staff fuel (c + 900_000) e
                (if is_blocked calendar input staff c
                  then slots
                  else set_slot (slot_at calendar input staff c) slots)
                (omega arith) in
            let set = is_set staff_id t staff c slots in
            elim (Bool-cases (beq c t)) [
              | inl here ↦
                  let same = beq→eq c t here in
                  let first : in_grid c e (duration_of staff) t ≡ true =
                    rw (← same) (in_grid-here c e (duration_of staff) room) in
                  let past : in_grid (c + 900_000) e (duration_of staff) t ≡ false =
                    rw (← same) (in_grid-past c e (duration_of staff)) in
                  rw (room, next, set, past, first, here, same) (ground arith)
              | inr there ↦
                  let grid = in_grid-next c e (duration_of staff) t there in
                  rw (room, next, set, grid, there) (ground arith)
            ]
      ]

  has_slot-add_intervals :
      (staff_id : String) (t : ℕ) (staff : EligibleStaff) (intervals : List Interval)
      (slots : List AvailabilitySlot)
      → has_slot staff_id t (add_intervals calendar input staff intervals slots)
        ≡ (staff.id == staff_id
            && (any (λ i. in_grid i.starts_at i.ends_at (duration_of staff) t) intervals
                && not (is_blocked calendar input staff t)))
          || has_slot staff_id t slots
  unfolding add_intervals
  has_slot-add_intervals staff_id t staff [] slots = ground arith
  has_slot-add_intervals staff_id t staff (i ∷ intervals) slots =
      let fuel = suc (i.ends_at - i.starts_at) in
      let first =
        has_slot-add_starts staff_id t staff fuel i.starts_at i.ends_at slots (omega arith) in
      let rest =
        has_slot-add_intervals staff_id t staff intervals
          (add_starts calendar input staff fuel i.starts_at i.ends_at slots) in
      rw (rest, first) (ground arith)

  has_slot-add_staff :
      (staff_id : String) (t : ℕ) (eligible : List EligibleStaff) (slots : List AvailabilitySlot)
      → has_slot staff_id t (add_staff calendar input eligible slots)
        ≡ any (λ staff. staff.id == staff_id && is_offered staff t) eligible
          || has_slot staff_id t slots
  unfolding add_staff is_offered
  has_slot-add_staff staff_id t [] slots = refl
  has_slot-add_staff staff_id t (staff ∷ others) slots =
      let first =
        has_slot-add_intervals staff_id t staff (working_intervals calendar input staff.id) slots in
      let rest =
        has_slot-add_staff staff_id t others
          (add_intervals calendar input staff (working_intervals calendar input staff.id) slots) in
      rw (rest, first) (ground arith)

-- A member of the staff has a slot at a time exactly where an eligible one of that id has a working
-- interval whose grid of quarters of an hour has the time and leaves room for the service, and no
-- absence and no appointment of theirs overlaps the slot.
pub build_availability_slots-eq :
    (calendar : Calendar) (input : AvailabilityInput) (staff_id : String) (t : ℕ)
    → has_slot staff_id t (build_availability_slots calendar input)
      ≡ any (λ staff. staff.id == staff_id && is_offered calendar input staff t) input.eligible
unfolding build_availability_slots
build_availability_slots-eq calendar input staff_id t =
    has_slot-sort_slots calendar input staff_id t (add_staff calendar input input.eligible [])
    ∙ (has_slot-add_staff calendar input staff_id t input.eligible [] ∙ ground arith)
