-- ===== src/Booking/Availability/Tests.antt =====
-- The slots of a small day.
use panalbee_clock_backend.Base.{
  true, false, [], ◌∷◌, ◌≡◌, refl, some, any, ◌==◌, ◌&&◌, map, if◌then◌else◌,
}
use panalbee_clock_backend.Booking.Availability.{
  Calendar, AvailabilityInput, build_availability_slots,
}
use panalbee_clock_backend.Booking.Availability.Slots.{has_slot}
use panalbee_clock_backend.Booking.Availability.Offered.{is_offered, build_availability_slots-eq}

-- Nine o'clock and ten o'clock of a day that starts at 0.
abbrev clock : Calendar
clock = record {
  local_time = λ date time zone. some (if time == "09:00" then 32_400_000 else 36_000_000);
  day_start = λ date zone. 0;
  day_end = λ date zone. 86_400_000;
  local_label = λ zone t. "";
  comes_before = λ a b. false;
  is_zone = λ zone. true;
  local_date = λ zone t. "1970-01-01";
  weekday = λ date zone. 4;
}

abbrev day : AvailabilityInput
day = record {
  date = "1970-01-01";
  timezone = "UTC";
  eligible = record { id = "ana"; name = "Ana"; duration_minutes = 30 } ∷ [];
  schedules = record { staff_id = "ana"; starts_at = "09:00"; ends_at = "10:00" } ∷ [];
  exceptions = [];
  appointments = record { staff_id = "ana"; starts_at = 32_400_000; ends_at = 33_300_000 } ∷ [];
}

-- The appointment until a quarter past nine leaves two starts.
day_slots :
    map (λ s. s.starts_at) (build_availability_slots clock day) ≡ 33_300_000 ∷ 34_200_000 ∷ []
unfolding build_availability_slots
day_slots = refl

build_availability_slots-eq_example :
    has_slot "ana" 34_200_000 (build_availability_slots clock day)
    ≡ any (λ staff. staff.id == "ana" && is_offered clock day staff 34_200_000) day.eligible
build_availability_slots-eq_example = build_availability_slots-eq clock day "ana" 34_200_000
