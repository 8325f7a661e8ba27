-- ===== src/Booking/Lifecycle/Tests.antt =====
-- The life of one appointment.
use panalbee_clock_backend.Base.{
  ℕ, String, Bool, true, List, [], ◌∷◌, Option, none, some, ◌≡◌, refl, ok, any, keep, false, not,
  find, map,
}
use panalbee_clock_backend.Affiliate.Store.{AffiliateStore}
use panalbee_clock_backend.Booking.Appointments.{
  Appointment, AppointmentStore, LifecycleActor, confirmed, cancelled, in_progress, completed,
  to_started, to_completed, other, event_name, status_name, web,
}
use panalbee_clock_backend.Booking.Catalog.{empty_catalog}
use panalbee_clock_backend.Booking.Lifecycle.{transition}
use panalbee_clock_backend.Booking.Lifecycle.Replay.{transition_twice}
use panalbee_clock_backend.Booking.Locks.{is_owned}
use panalbee_clock_backend.Booking.Lifecycle.Closing.{closing-locks}
use panalbee_clock_backend.Booking.Lifecycle.Ended.{HasAppointment}
use panalbee_clock_backend.Booking.Lifecycle.Histories.{
  LifecycleCall, start_call, complete_call, no_show_call, run, run-HasAppointment,
}

abbrev booked : Appointment
booked = record {
  id = "a1";
  tenant_id = "t1";
  location_id = "l1";
  service_id = "s1";
  staff_id = "ana";
  customer_id = "c1";
  status = confirmed;
  starts_at = 7_200_000;
  ends_at = 9_000_000;
  source_channel = web;
  idempotency_key = "key-0000";
  request_fingerprint = "";
  management_token_hash = none;
  notes = none;
  cancelled_at = none;
  cancellation_reason = none;
  started_at = none;
  completed_at = none;
  no_show_at = none;
  no_show_reason = none;
  outcome_note = none;
}

abbrev gone : Appointment
gone = record {
  id = "a2";
  tenant_id = "t1";
  location_id = "l1";
  service_id = "s1";
  staff_id = "ana";
  customer_id = "c1";
  status = cancelled;
  starts_at = 7_200_000;
  ends_at = 9_000_000;
  source_channel = web;
  idempotency_key = "key-0000";
  request_fingerprint = "";
  management_token_hash = none;
  notes = none;
  cancelled_at = none;
  cancellation_reason = none;
  started_at = none;
  completed_at = none;
  no_show_at = none;
  no_show_reason = none;
  outcome_note = none;
}

abbrev no_affiliates : AffiliateStore
no_affiliates = record {
  customers = [];
  codes = [];
  conversions = [];
  entries = [];
  payouts = [];
  balance_locks = [];
  capacity_locks = [];
  audits = [];
}

abbrev opened : AppointmentStore
opened = record {
  catalog = empty_catalog;
  appointments = booked ∷ gone ∷ [];
  notifications = [];
  timeline = [];
  locks =
      record {
        tenant_id = "t1";
        staff_id = "ana";
        appointment_id = "a1";
        interval_start = 7_200_000;
      }
      ∷ [];
  audits = [];
  affiliates = no_affiliates;
}

abbrev ana : LifecycleActor
ana = record { tenant_id = "t1"; actor_user_id = some "ana" }

-- The first start is too early; the cancelled appointment cannot be started.
abbrev calls : List LifecycleCall
calls =
    start_call ana "a1" "key-0001" "e1" 5_399_999
    ∷ start_call ana "a1" "key-0002" "e2" 5_400_000
    ∷ start_call ana "a2" "key-0003" "e3" 7_200_000
    ∷ complete_call ana "a1" "key-0004" (some " done ") "e4" 8_000_000
    ∷ no_show_call ana "a1" "key-0005" other none "e5" 9_000_000
    ∷ []

calls_statuses :
    let s = run event_name calls opened in
    (map (λ a. status_name a.status) s.appointments ≡ "COMPLETED" ∷ "CANCELLED" ∷ [])
    × (s.locks ≡ [])
    × (map (λ e. e.event_type) s.timeline ≡ "COMPLETED" ∷ "STARTED" ∷ [])
unfolding run panalbee_clock_backend.Booking.Lifecycle.Histories.execute
    panalbee_clock_backend.Booking.Lifecycle.start panalbee_clock_backend.Booking.Lifecycle.complete
    panalbee_clock_backend.Booking.Lifecycle.mark_no_show
    panalbee_clock_backend.Booking.Lifecycle.transition panalbee_clock_backend.Booking.Locks.release
    panalbee_clock_backend.Base.Text.trim panalbee_clock_backend.Base.Text.length_utf16
    panalbee_clock_backend.Affiliate.Ledger.earn_completed_commission
calls_statuses = (refl, refl, refl)

gone_there : HasAppointment "t1" "a2" gone opened
unfolding HasAppointment
gone_there = refl

run-HasAppointment_example : HasAppointment "t1" "a2" gone (run event_name calls opened)
run-HasAppointment_example =
    run-HasAppointment event_name calls "t1" "a2" gone opened refl gone_there

-- The appointment, started ten minutes early.
abbrev started : Appointment
started = record {
  id = "a1";
  tenant_id = "t1";
  location_id = "l1";
  service_id = "s1";
  staff_id = "ana";
  customer_id = "c1";
  status = in_progress;
  starts_at = 7_200_000;
  ends_at = 9_000_000;
  source_channel = web;
  idempotency_key = "key-0000";
  request_fingerprint = "";
  management_token_hash = none;
  notes = none;
  cancelled_at = none;
  cancellation_reason = none;
  started_at = some 6_600_000;
  completed_at = none;
  no_show_at = none;
  no_show_reason = none;
  outcome_note = none;
}

start_answered :
    (transition event_name ana "a1" to_started "key-0001" "e1" 6_600_000 opened).0 ≡ ok started
unfolding transition panalbee_clock_backend.Base.Text.length_utf16
start_answered = refl

transition_twice_example :
    transition event_name ana "a1" to_started "key-0001" "e9" 7_000_000
      (transition event_name ana "a1" to_started "key-0001" "e1" 6_600_000 opened).1
    ≡ (ok started, (transition event_name ana "a1" to_started "key-0001" "e1" 6_600_000 opened).1)
transition_twice_example =
    transition_twice event_name ana "a1" to_started "key-0001" "e1" "e9" 6_600_000 7_000_000 started
      opened start_answered

-- The appointment, completed at its end without a start.
abbrev finished : Appointment
finished = record {
  id = "a1";
  tenant_id = "t1";
  location_id = "l1";
  service_id = "s1";
  staff_id = "ana";
  customer_id = "c1";
  status = completed;
  starts_at = 7_200_000;
  ends_at = 9_000_000;
  source_channel = web;
  idempotency_key = "key-0000";
  request_fingerprint = "";
  management_token_hash = none;
  notes = none;
  cancelled_at = none;
  cancellation_reason = none;
  started_at = none;
  completed_at = some 9_000_000;
  no_show_at = none;
  no_show_reason = none;
  outcome_note = none;
}

finish_answered :
    (transition event_name ana "a1" (to_completed none) "key-0001" "e1" 9_000_000 opened).0
    ≡ ok finished
unfolding transition panalbee_clock_backend.Base.Text.length_utf16
    panalbee_clock_backend.Affiliate.Ledger.earn_completed_commission
    panalbee_clock_backend.Booking.Locks.release
finish_answered = refl

closing-locks_example :
    let s' =
      (transition event_name ana "a1" (to_completed none) "key-0001" "e1" 9_000_000 opened).1 in
    (any (is_owned "t1" "a1") s'.locks ≡ false)
    × (s'.locks ≡ keep (λ l. not (is_owned "t1" "a1" l)) opened.locks)
closing-locks_example =
    closing-locks event_name ana "a1" (to_completed none) "key-0001" "e1" 9_000_000 finished opened
      refl refl finish_answered
