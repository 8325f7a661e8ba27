-- ===== src/Booking/Availability.antt =====
-- The free slots of a day (src/availability/availability-calculator.ts). Times are milliseconds since the
-- epoch. What luxon and the runtime's collation compute is a record of functions, and a slot has its
-- times as numbers: the ISO texts that the code sorts by are in the same order.
mod Grid
mod Slots
mod Offered
mod Tests
use panalbee_clock_backend.Base.{
  ℕ, zero, suc, ◌+◌, ◌-◌, ◌*◌, min, max, String, Bool, true, false, ◌&&◌, ◌||◌, not, List, [], ◌∷◌,
  ◌++◌, map, any, keep, beq, ltb, leb, if◌then◌else◌, Option, none, some, ◌==◌,
}

-- luxon's reading of a local time of a date, the bounds of the date, the label of an instant, all in a
-- time zone, `localeCompare(…) < 0`, whether a zone is known, the date of an instant in it, and the
-- day of the week of a date, from 1 for Monday to 7.
pub record Calendar : Type 0 where
  pub local_time : String → String → String → Option ℕ
  pub day_start : String → String → ℕ
  pub day_end : String → String → ℕ
  pub local_label : String → ℕ → String
  pub comes_before : String → String → Bool
  pub is_zone : String → Bool
  pub local_date : String → ℕ → String
  pub weekday : String → String → ℕ

pub record AvailabilitySlot : Type 0 where
  pub staff_id : String
  pub staff_name : String
  pub starts_at : ℕ
  pub ends_at : ℕ
  pub local_starts_at : String
  pub local_ends_at : String
  pub timezone : String
  pub duration_minutes : ℕ

pub record EligibleStaff : Type 0 where
  pub id : String
  pub name : String
  pub duration_minutes : ℕ

-- ScheduleEntity
pub record Schedule : Type 0 where
  pub staff_id : String
  pub starts_at : String
  pub ends_at : String

pub data ExceptionKind : Type 0 where
  available unavailable : ExceptionKind

pub record AvailabilityException : Type 0 where
  pub staff_id : String
  pub kind : ExceptionKind
  pub starts_at : ℕ
  pub ends_at : ℕ

pub record BusyAppointment : Type 0 where
  pub staff_id : String
  pub starts_at : ℕ
  pub ends_at : ℕ

pub record AvailabilityInput : Type 0 where
  pub date : String
  pub timezone : String
  pub eligible : List EligibleStaff
  pub schedules : List Schedule
  pub exceptions : List AvailabilityException
  pub appointments : List BusyAppointment

pub record Interval : Type 0 where
  pub starts_at : ℕ
  pub ends_at : ℕ

abbrev step_milliseconds : ℕ
step_milliseconds = 900_000

abbrev overlaps : ℕ → ℕ → ℕ → ℕ → Bool
overlaps starts_at ends_at other_starts_at other_ends_at =
    ltb other_starts_at ends_at && ltb starts_at other_ends_at

abbrev is_available : ExceptionKind → Bool
is_available available = true
is_available unavailable = false

abbrev ordered_interval : Option ℕ → Option ℕ → List Interval
ordered_interval (some s) (some e) =
    if ltb s e then record { starts_at = s; ends_at = e } ∷ [] else []
ordered_interval (some s) none = []
ordered_interval none e = []

-- `slots.set`, where the key is the member of the staff and the start.
abbrev pub is_slot : String → ℕ → AvailabilitySlot → Bool
is_slot staff_id starts_at s = s.staff_id == staff_id && beq s.starts_at starts_at

unfoldable pub set_slot : AvailabilitySlot → List AvailabilitySlot → List AvailabilitySlot
set_slot slot [] = slot ∷ []
set_slot slot (s ∷ ss) =
    let rest = set_slot slot ss in
    if is_slot slot.staff_id slot.starts_at s then slot ∷ ss else s ∷ rest

module _ (calendar : Calendar) (input : AvailabilityInput) where
  scheduled_intervals : String → List Schedule → List Interval
  scheduled_intervals staff_id [] = []
  scheduled_intervals staff_id (item ∷ items) =
      let rest = scheduled_intervals staff_id items in
      if item.staff_id == staff_id
      then ordered_interval (calendar.local_time input.date item.starts_at input.timezone)
          (calendar.local_time input.date item.ends_at input.timezone)
        ++ rest
      else rest

  abbrev clipped : AvailabilityException → Interval
  clipped item = record {
    starts_at = max item.starts_at (calendar.day_start input.date input.timezone);
    ends_at = min item.ends_at (calendar.day_end input.date input.timezone);
  }

  unfoldable pub working_intervals : String → List Interval
  unfolding scheduled_intervals
  working_intervals staff_id =
      scheduled_intervals staff_id input.schedules
      ++ keep (λ item. ltb item.starts_at item.ends_at)
          (map clipped
            (keep (λ item. item.staff_id == staff_id && is_available item.kind) input.exceptions))

  -- The slot from `starts_at` on meets an absence or an appointment of the member of the staff.
  unfoldable pub is_blocked : EligibleStaff → ℕ → Bool
  is_blocked staff starts_at =
      let ends_at = starts_at + staff.duration_minutes * 60_000 in
      any (λ item. overlaps starts_at ends_at item.starts_at item.ends_at)
        (keep (λ item. item.staff_id == staff.id && not (is_available item.kind)) input.exceptions)
      || any (λ item. overlaps starts_at ends_at item.starts_at item.ends_at)
          (keep (λ item. item.staff_id == staff.id) input.appointments)

  abbrev pub slot_at : EligibleStaff → ℕ → AvailabilitySlot
  slot_at staff starts_at = record {
    staff_id = staff.id;
    staff_name = staff.name;
    starts_at = starts_at;
    ends_at = starts_at + staff.duration_minutes * 60_000;
    local_starts_at = calendar.local_label input.timezone starts_at;
    local_ends_at =
        calendar.local_label input.timezone (starts_at + staff.duration_minutes * 60_000);
    timezone = input.timezone;
    duration_minutes = staff.duration_minutes;
  }

  -- The innermost loop, on fuel.
  unfoldable pub add_starts :
      EligibleStaff → ℕ → ℕ → ℕ → List AvailabilitySlot → List AvailabilitySlot
  unfolding is_blocked set_slot
  add_starts staff zero starts_at ends_at slots = slots
  add_starts staff (suc fuel) starts_at ends_at slots =
      let next =
        add_starts staff fuel (starts_at + step_milliseconds) ends_at (
          if is_blocked staff starts_at then slots else set_slot (slot_at staff starts_at) slots) in
      if leb (starts_at + staff.duration_minutes * 60_000) ends_at then next else slots

  -- The loop over the working intervals; the length of an interval, and one more, is fuel enough.
  unfoldable pub add_intervals :
      EligibleStaff → List Interval → List AvailabilitySlot → List AvailabilitySlot
  unfolding add_starts
  add_intervals staff [] slots = slots
  add_intervals staff (interval ∷ intervals) slots = add_intervals staff intervals (
      add_starts staff (suc (interval.ends_at - interval.starts_at)) interval.starts_at
        interval.ends_at slots)

  unfoldable pub add_staff : List EligibleStaff → List AvailabilitySlot → List AvailabilitySlot
  unfolding working_intervals add_intervals
  add_staff [] slots = slots
  add_staff (staff ∷ others) slots =
      add_staff others (add_intervals staff (working_intervals staff.id) slots)

  -- The comparison of the final sort is negative.
  abbrev pub sorts_before : AvailabilitySlot → AvailabilitySlot → Bool
  sorts_before l r =
      ltb l.starts_at r.starts_at
      || (beq l.starts_at r.starts_at
          && (calendar.comes_before l.staff_name r.staff_name
              || (not (calendar.comes_before r.staff_name l.staff_name)
                  && calendar.comes_before l.staff_id r.staff_id)))

  insert_slot : AvailabilitySlot → List AvailabilitySlot → List AvailabilitySlot
  insert_slot x [] = x ∷ []
  insert_slot x (y ∷ ys) =
      let rest = insert_slot x ys in if sorts_before y x then y ∷ rest else x ∷ y ∷ ys

  -- A stable sort.
  unfoldable pub sort_slots : List AvailabilitySlot → List AvailabilitySlot
  unfolding insert_slot
  sort_slots [] = []
  sort_slots (x ∷ xs) = insert_slot x (sort_slots xs)

  unfoldable pub build_availability_slots : List AvailabilitySlot
  unfolding add_staff sort_slots
  build_availability_slots = sort_slots (add_staff input.eligible [])
