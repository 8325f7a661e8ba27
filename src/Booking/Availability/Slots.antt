-- ===== src/Booking/Availability/Slots.antt =====
-- Which slots a list of them has (src/availability/availability-calculator.ts).
use panalbee_clock_backend.Base.{
  ℕ, String, Bool, true, ◌||◌, List, [], ◌∷◌, any, ◌≡◌, refl, ◌∙◌, eq_iff, Bool-cases, inl, inr,
  arith,
}
use panalbee_clock_backend.Booking.Availability.{
  AvailabilitySlot, Calendar, AvailabilityInput, is_slot, set_slot, insert_slot, sort_slots,
  sorts_before,
}

abbrev pub has_slot : String → ℕ → List AvailabilitySlot → Bool
has_slot staff_id t slots = any (is_slot staff_id t) slots

same_key :
    (staff_id : String) (t : ℕ) (x y : AvailabilitySlot)
    → is_slot x.staff_id x.starts_at y ≡ true
    → is_slot staff_id t y ≡ is_slot staff_id t x
same_key staff_id t x y h =
    ground
      (arith, eq_iff y.staff_id x.staff_id, eq_iff y.staff_id staff_id, eq_iff x.staff_id staff_id)

pub has_slot-set_slot :
    (staff_id : String) (t : ℕ) (slot : AvailabilitySlot) (slots : List AvailabilitySlot)
    → has_slot staff_id t (set_slot slot slots)
      ≡ is_slot staff_id t slot || has_slot staff_id t slots
unfolding set_slot
has_slot-set_slot staff_id t slot [] = refl
has_slot-set_slot staff_id t slot (s ∷ ss) =
    elim (Bool-cases (is_slot slot.staff_id slot.starts_at s)) [
      | inl same ↦ let keys = same_key staff_id t slot s same in rw same (ground arith)
      | inr other ↦
          let later = has_slot-set_slot staff_id t slot ss in rw (other, later) (ground arith)
    ]

module _ (calendar : Calendar) (input : AvailabilityInput) where
  has_slot-insert_slot :
      (staff_id : String) (t : ℕ) (slot : AvailabilitySlot) (slots : List AvailabilitySlot)
      → has_slot staff_id t (insert_slot calendar input slot slots)
        ≡ is_slot staff_id t slot || has_slot staff_id t slots
  unfolding insert_slot
  has_slot-insert_slot staff_id t slot [] = refl
  has_slot-insert_slot staff_id t slot (s ∷ ss) =
      elim (Bool-cases (sorts_before calendar input s slot)) [
        | inl later ↦
            let rest = has_slot-insert_slot staff_id t slot ss in rw (later, rest) (ground arith)
        | inr here ↦ rw here refl
      ]

  pub has_slot-sort_slots :
      (staff_id : String) (t : ℕ) (slots : List AvailabilitySlot)
      → has_slot staff_id t (sort_slots calendar input slots) ≡ has_slot staff_id t slots
  unfolding sort_slots
  has_slot-sort_slots staff_id t [] = refl
  has_slot-sort_slots staff_id t (s ∷ ss) =
      has_slot-insert_slot staff_id t s (sort_slots calendar input ss)
      ∙ rw (has_slot-sort_slots staff_id t ss) refl
