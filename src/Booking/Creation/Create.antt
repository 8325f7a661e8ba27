-- ===== src/Booking/Creation/Create.antt =====
-- The creation of an appointment (src/appointments/appointments.service.ts). The clock does not move within
-- a call, and the ids that a call draws are arguments.
use panalbee_clock_backend.Base.{
  ℕ, ◌+◌, ◌*◌, String, true, false, Option, none, some, if◌then◌else◌, ok, Exception, Action, pure,
  throw, inspect, with_transaction, try_catch, ◌>>=◌, ◌>>◌, is_named_duplicate_key,
}
use panalbee_clock_backend.Affiliate.Economics.{ServicePrice}
use panalbee_clock_backend.Affiliate.Payout.{ActorType}
use panalbee_clock_backend.Affiliate.Referrals.{
  ResolvedReferral, ReferralReceipt, prepare, record_conversion,
}
use panalbee_clock_backend.Booking.Locks.{IntervalLock}
use panalbee_clock_backend.Booking.Locks
use panalbee_clock_backend.Booking.Availability.{Calendar}
use panalbee_clock_backend.Booking.Catalog.{resolve, assert_tenant_booking_enabled}
use panalbee_clock_backend.Booking.Appointments.{Appointment, AppointmentStore, confirmed}
use panalbee_clock_backend.Booking.Openings.{AvailabilityQuery, ComputeOptions}
use panalbee_clock_backend.Booking.Openings.Requests.{assert_slot_available}
use panalbee_clock_backend.Booking.Lifecycle.{on_locks, on_affiliates}
use panalbee_clock_backend.Booking.Intents.{
  PublicCustomer, Hashes, CreateIntent, CreateDto, CreatePublicDto, tenant_intent, public_intent,
}
use panalbee_clock_backend.Booking.Creation.{
  PublicAppointmentResult, CreateIds, AppointmentRelation, find_replay, upsert_public_customer,
  validate_relations,
}
use panalbee_clock_backend.Booking.Creation.Writes.{
  insert_appointment, record_created, token_of, result_of, token_hash_of, replay_result,
}

-- The customer of an intent: the one given, or the one that the phone finds or makes.
unfoldable pub customer_of :
    CreateIntent → String → Option PublicCustomer → Action AppointmentStore String
unfolding upsert_public_customer
customer_of intent new_id none = pure intent.customer_id
customer_of intent new_id (some input) =
    on_affiliates (upsert_public_customer intent.tenant_id input new_id)

unfoldable pub attribution_of :
    CreateIntent
    → String
    → ServicePrice
    → ℕ
    → Option String
    → Action AppointmentStore (Option ResolvedReferral)
unfolding prepare
attribution_of intent customer_id price now none = pure none
attribution_of intent customer_id price now (some code) =
    on_affiliates (prepare intent.tenant_id code customer_id price now) >>= λ r. pure (some r)

unfoldable pub record_attribution :
    CreateIntent
    → String
    → String
    → String
    → Option ResolvedReferral
    → Action AppointmentStore (Option ReferralReceipt)
unfolding record_conversion
record_attribution intent appointment_id customer_id new_id none = pure none
record_attribution intent appointment_id customer_id new_id (some resolved) =
    on_affiliates (
      record_conversion intent.tenant_id appointment_id customer_id intent.input.service_id resolved
        new_id)
    >>= λ r. pure (some r)

abbrev pub query_of : CreateIntent → String → AvailabilityQuery
query_of intent date = record {
  location_id = intent.input.location_id;
  service_id = intent.input.service_id;
  staff_id = some intent.input.staff_id;
  date = date;
}

abbrev pub options_of : CreateIntent → ComputeOptions
options_of intent = record {
  public_only = intent.public_only;
  exclude_appointment_id = none;
  appointment_conflict = true;
  ignore_appointments = false;
}

module _ (hashes : Hashes) where
  -- The document that `create` writes, with the schema's default of the status.
  abbrev pub appointment_of : CreateIntent → String → String → AppointmentRelation → Appointment
  appointment_of intent customer_id appointment_id relation = record {
    id = appointment_id;
    tenant_id = intent.tenant_id;
    location_id = intent.input.location_id;
    service_id = intent.input.service_id;
    staff_id = intent.input.staff_id;
    customer_id = customer_id;
    status = confirmed;
    starts_at = intent.input.starts_at;
    ends_at = intent.input.starts_at + relation.duration_minutes * 60_000;
    source_channel = intent.source;
    idempotency_key = intent.input.idempotency_key;
    request_fingerprint = intent.fingerprint;
    management_token_hash = token_hash_of hashes (token_of hashes intent appointment_id);
    notes = intent.input.notes;
    cancelled_at = none;
    cancellation_reason = none;
    started_at = none;
    completed_at = none;
    no_show_at = none;
    no_show_reason = none;
    outcome_note = none;
  }

  abbrev pub replay_or_throw :
      CreateIntent
      → Exception
      → Option Appointment
      → Action AppointmentStore PublicAppointmentResult
  replay_or_throw intent e none = throw e
  replay_or_throw intent e (some a) = replay_result hashes intent a

  -- The catch block, but for the retry.
  unfoldable pub create_recover :
      CreateIntent → Exception → Action AppointmentStore PublicAppointmentResult
  unfolding find_replay replay_result
  create_recover intent e =
      if is_named_duplicate_key e "appointment_idempotency_unique"
      then find_replay intent >>= replay_or_throw intent e
      else throw e

module _ (hashes : Hashes) (now : ℕ) where
  -- From the write of the appointment on.
  unfoldable pub write_appointment :
      CreateIntent
      → CreateIds
      → String
      → Option ResolvedReferral
      → Appointment
      → Action AppointmentStore PublicAppointmentResult
  unfolding insert_appointment record_attribution record_created
  write_appointment intent ids customer_id attribution a = do
    insert_appointment a
    referral ← record_attribution intent a.id customer_id ids.conversion attribution
    on_locks (Locks.acquire intent.tenant_id intent.input.staff_id a.id a.starts_at a.ends_at)
    record_created hashes now intent.tenant_id intent.actor_user_id a
    pure (result_of hashes intent a referral)

module _ (calendar : Calendar) (hashes : Hashes) (now : ℕ) where
  unfoldable pub create_new :
      CreateIntent → CreateIds → Action AppointmentStore PublicAppointmentResult
  unfolding customer_of validate_relations attribution_of write_appointment
  create_new intent ids = do
    customer_id ← customer_of intent ids.customer intent.public_customer
    relation ← inspect (validate_relations calendar intent customer_id)
    attribution ← attribution_of intent customer_id relation.price now intent.referral_code
    inspect (λ s.
        assert_slot_available calendar now s intent.tenant_id (query_of intent relation.local_date)
          intent.input.starts_at (options_of intent))
    write_appointment hashes now intent ids customer_id attribution
        (appointment_of hashes intent customer_id ids.appointment relation)

  abbrev pub replay_or_create :
      CreateIntent
      → CreateIds
      → Option Appointment
      → Action AppointmentStore PublicAppointmentResult
  replay_or_create intent ids (some a) = replay_result hashes intent a
  replay_or_create intent ids none = create_new intent ids

  -- The transaction of `create`.
  unfoldable pub create_work :
      CreateIntent → CreateIds → Action AppointmentStore PublicAppointmentResult
  unfolding find_replay create_new replay_result
  create_work intent ids = do
    inspect (λ s.
        if intent.public_only
        then assert_tenant_booking_enabled intent.tenant_id s.catalog
        else ok tt)
    replay ← find_replay intent
    replay_or_create intent ids replay

  -- `create` with `retryCustomerConflict = false`
  unfoldable pub create_again :
      CreateIntent → CreateIds → Action AppointmentStore PublicAppointmentResult
  unfolding create_work create_recover
  create_again intent ids =
      try_catch (with_transaction (create_work intent ids)) (create_recover hashes intent)

  abbrev pub retry_or_recover :
      CreateIntent → CreateIds → Exception → Action AppointmentStore PublicAppointmentResult
  retry_or_recover intent ids e =
      if is_named_duplicate_key e "customer_phone_unique"
      then create_again intent ids
      else create_recover hashes intent e

  -- `create`; each of the two attempts draws its ids.
  unfoldable pub create :
      CreateIntent → CreateIds → CreateIds → Action AppointmentStore PublicAppointmentResult
  unfolding create_again create_work create_recover
  create intent ids ids_again =
      try_catch (with_transaction (create_work intent ids)) (retry_or_recover intent ids_again)

  unfoldable create_tenant :
      String
      → String
      → ActorType
      → String
      → CreateDto
      → CreateIds
      → CreateIds
      → Action AppointmentStore PublicAppointmentResult
  unfolding create tenant_intent
  create_tenant tenant_id user_id actor_type customer_id dto ids ids_again =
      create (tenant_intent hashes tenant_id user_id actor_type customer_id dto) ids ids_again

  unfoldable create_public :
      String
      → CreatePublicDto
      → CreateIds
      → CreateIds
      → Action AppointmentStore PublicAppointmentResult
  unfolding create public_intent resolve
  create_public tenant_slug dto ids ids_again = do
    tenant ← inspect (λ s. resolve true tenant_slug s.catalog)
    create (public_intent hashes tenant.id dto) ids ids_again
