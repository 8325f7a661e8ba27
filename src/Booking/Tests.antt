-- ===== src/Booking/Tests.antt =====
-- Two bookings of a small business, which opens from nine to ten.
mod Answers
use panalbee_clock_backend.Base.{
  any, err, Exception, ◌>>=◌, ℕ, String, Bool, true, false, List, [], ◌∷◌, find, Option, none, some,
  ok, ◌≡◌, ◌≢◌, refl, ◌==◌, if◌then◌else◌, map, ◌+◌, eq_iff,
}
use panalbee_clock_backend.Base.Text.{concat, length_utf16}
use panalbee_clock_backend.Booking.Openings.Requests.{assert_slot_available}
use panalbee_clock_backend.Booking.Availability.{build_availability_slots}
use panalbee_clock_backend.Booking.Locks.{acquire, replace}
use panalbee_clock_backend.Booking.Intents.{management_token}
use panalbee_clock_backend.Affiliate.Store.{AffiliateStore}
use panalbee_clock_backend.Affiliate.Referrals.{ReferralReceipt}
use panalbee_clock_backend.Booking.Availability.{Calendar}
use panalbee_clock_backend.Booking.Catalog.{Catalog, TenantStatus, assert_tenant_booking_enabled}
use panalbee_clock_backend.Booking.Locks.Agenda.{AreInConflict, empty_agenda}
use panalbee_clock_backend.Booking.Appointments.{Appointment, AppointmentStore, confirmed, web}
use panalbee_clock_backend.Booking.Intents.{Hashes, CreateIntent, CreatePublicDto, public_intent}
use panalbee_clock_backend.Booking.Creation.{CreateIds, PublicAppointmentResult}
use panalbee_clock_backend.Booking.Creation.Create.{create}
use panalbee_clock_backend.Booking.Diary.{
  slot_of, IsDiary, Refines, no_appointments, active_slots, has_appointment_id,
}
use panalbee_clock_backend.Booking.Diary.Histories.{
  BookingCall, creates, reschedules, Environment, run_booking, run_bookings, run_booking-Refines,
  run_bookings_apart,
}
use panalbee_clock_backend.Booking.Diary.Twice.{booking_twice}
use panalbee_clock_backend.Booking.Diary.Tokens.{token_opens}
use panalbee_clock_backend.Booking.Management.{
  ManagementAccess, customer_access, public_access, load,
}
use panalbee_clock_backend.Booking.Management.Returns.{is_move_to, reschedule_never_again}
use panalbee_clock_backend.Booking.Management.Reschedule.{reschedule}

abbrev pub clock : Calendar
clock = record {
  local_time = λ date time zone. some (if time == "09:00" then 32_400_000 else 36_000_000);
  day_start = λ date zone. 0;
  day_end = λ date zone. 86_400_000;
  local_label = λ zone t. "";
  comes_before = λ a b. false;
  is_zone = λ zone. true;
  local_date = λ zone t. "1970-01-01";
  weekday = λ date zone. 4;
}

abbrev pub hashes : Hashes
hashes = record {
  appointment_fingerprint = λ request. request.input.idempotency_key;
  timeline_fingerprint = λ payload. payload.type;
  hmac = λ text. text;
  token_hash = λ token. token;
}

abbrev pub env : Environment
env = record { calendar = clock; hashes = hashes; fingerprint = λ event. "" }

abbrev pub catalog : Catalog
catalog = record {
  tenants = record { id = "t1"; slug = "shop"; status = TenantStatus.active } ∷ [];
  locations =
      record { id = "l1"; tenant_id = "t1"; timezone = "UTC"; public_booking_enabled = true } ∷ [];
  services =
      record {
        id = "s1";
        tenant_id = "t1";
        duration_minutes = 30;
        price = record { price_minor = 10_000; currency = "COP" };
        active = true;
      }
      ∷ [];
  staff =
      record {
        id = "ana";
        tenant_id = "t1";
        location_id = "l1";
        display_name = "Ana";
        active = true;
      }
      ∷ [];
  staff_services =
      record {
        tenant_id = "t1";
        staff_id = "ana";
        service_id = "s1";
        duration_override_minutes = none;
      }
      ∷ [];
  schedules =
      record {
        tenant_id = "t1";
        location_id = "l1";
        day_of_week = 4;
        schedule = record { staff_id = "ana"; starts_at = "09:00"; ends_at = "10:00" };
      }
      ∷ [];
  exceptions = [];
  accounts = [];
  profiles = [];
}

abbrev no_affiliates : AffiliateStore
no_affiliates = record {
  customers = [];
  codes = [];
  conversions = [];
  entries = [];
  payouts = [];
  balance_locks = [];
  capacity_locks = [];
  audits = [];
}

abbrev pub opened : AppointmentStore
opened = record {
  catalog = catalog;
  appointments = [];
  notifications = [];
  timeline = [];
  locks = [];
  audits = [];
  affiliates = no_affiliates;
}

abbrev pub dto : String → ℕ → CreatePublicDto
dto key starts_at = record {
  base = record {
    location_id = "l1";
    service_id = "s1";
    staff_id = "ana";
    starts_at = starts_at;
    idempotency_key = key;
    notes = none;
  };
  customer_name = " Eva ";
  customer_phone = "+573000000";
  customer_email = none;
  referral_code = none;
}

abbrev pub ids : String → CreateIds
ids appointment = record { customer = "c1"; appointment = appointment; conversion = "r1" }

abbrev pub intent : String → ℕ → CreateIntent
intent key starts_at = public_intent hashes "t1" (dto key starts_at)

-- The appointment of half past nine is asked for twice, and the second customer is refused it.
abbrev calls : List (ℕ × BookingCall)
calls =
    (0, creates (intent "key-0001" 32_400_000) (ids "a1") (ids "a1"))
    ∷ (0, creates (intent "key-0002" 34_200_000) (ids "a2") (ids "a2"))
    ∷ (0, creates (intent "key-0003" 34_200_000) (ids "a3") (ids "a3"))
    ∷ []

abbrev pub booked : String → String → ℕ → Appointment
booked id key starts_at = record {
  id = id;
  tenant_id = "t1";
  location_id = "l1";
  service_id = "s1";
  staff_id = "ana";
  customer_id = "c1";
  status = confirmed;
  starts_at = starts_at;
  ends_at = starts_at + 1_800_000;
  source_channel = web;
  idempotency_key = key;
  request_fingerprint = key;
  management_token_hash = some (concat "appointment:" id);
  notes = none;
  cancelled_at = none;
  cancellation_reason = none;
  started_at = none;
  completed_at = none;
  no_show_at = none;
  no_show_reason = none;
  outcome_note = none;
}

opened-IsDiary : IsDiary opened
unfolding active_slots
opened-IsDiary = record { distinct = no_appointments; agenda = empty_agenda }

run_booking-Refines_example :
    Refines opened
      (run_booking env (0, creates (intent "key-0001" 32_400_000) (ids "a1") (ids "a1")) opened)
run_booking-Refines_example =
    run_booking-Refines env (0, creates (intent "key-0001" 32_400_000) (ids "a1") (ids "a1")) opened
      opened-IsDiary

first_found :
    find (has_appointment_id "a1") (run_bookings env calls opened).appointments
    ≡ some (booked "a1" "key-0001" 32_400_000)
unfolding run_bookings public_intent assert_tenant_booking_enabled assert_slot_available
    build_availability_slots acquire length_utf16 management_token
first_found = refl

second_found :
    find (has_appointment_id "a2") (run_bookings env calls opened).appointments
    ≡ some (booked "a2" "key-0002" 34_200_000)
unfolding run_bookings public_intent assert_tenant_booking_enabled assert_slot_available
    build_availability_slots acquire length_utf16 management_token
second_found = refl

third_refused : map (λ a. a.id) (run_bookings env calls opened).appointments ≡ "a2" ∷ "a1" ∷ []
unfolding run_bookings public_intent assert_tenant_booking_enabled assert_slot_available
    build_availability_slots acquire length_utf16 management_token
third_refused = refl

ids_apart : ◌≢◌ {A = String} "a1" "a2"
ids_apart e = let same : "a1" == "a2" ≡ true = (eq_iff "a1" "a2").1 e in cc

run_bookings_apart_example :
    ¬ AreInConflict
      (slot_of (booked "a1" "key-0001" 32_400_000))
      (slot_of (booked "a2" "key-0002" 34_200_000))
run_bookings_apart_example =
    run_bookings_apart env calls opened opened-IsDiary (has_appointment_id "a1")
      (has_appointment_id "a2") (booked "a1" "key-0001" 32_400_000)
      (booked "a2" "key-0002" 34_200_000) first_found second_found refl refl ids_apart
