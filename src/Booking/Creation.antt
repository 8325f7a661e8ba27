-- ===== src/Booking/Creation.antt =====
-- The creation of an appointment (src/appointments/appointments.service.ts, appointment-creation.store.ts,
-- appointment-result.service.ts, appointment-effects.service.ts). The clock does not move within a call,
-- and the ids that a call draws are arguments.
pub mod Writes
pub mod Create
use panalbee_clock_backend.Base.{
  ℕ, ◌+◌, ◌*◌, String, Bool, true, false, ◌&&◌, ◌||◌, not, ◌∷◌, any, find, update_first, leb,
  Option, none, some, is_some, if◌then◌else◌, Result, ok, err, app, fault, Exception, Action, pure,
  throw, inspect, gets, modify, throw_if, insert_unique, with_transaction, try_catch, ◌>>=◌, ◌>>◌,
  is_named_duplicate_key, ◌==◌,
}
use panalbee_clock_backend.Base.Text.{concat}
use panalbee_clock_backend.Affiliate.Economics.{ServicePrice}
use panalbee_clock_backend.Affiliate.Store.{AffiliateStore, Customer, is_text}
use panalbee_clock_backend.Affiliate.Payout.{ActorType}
use panalbee_clock_backend.Affiliate.Referrals.{
  ResolvedReferral, ReferralReceipt, prepare, record_conversion, find_receipt,
}
use panalbee_clock_backend.Booking.Locks.{IntervalLock}
use panalbee_clock_backend.Booking.Locks
use panalbee_clock_backend.Booking.Availability.{Calendar}
use panalbee_clock_backend.Booking.Catalog.{
  Location, Service, StaffService, resolve, assert_tenant_booking_enabled, is_tenant, is_location,
  is_service, is_staff, is_staff_service,
}
use panalbee_clock_backend.Booking.Appointments.{
  Appointment, AppointmentStore, Notification, TimelineEvent, confirmed, booking_confirmation,
  pending_notification,
}
use panalbee_clock_backend.Booking.Openings.{
  AvailabilityQuery, ComputeOptions, override_or, timezone_invalid,
}
use panalbee_clock_backend.Booking.Openings.Requests.{assert_slot_available}
use panalbee_clock_backend.Booking.Lifecycle.{create_event, on_locks, on_affiliates}
use panalbee_clock_backend.Booking.Intents.{
  PublicCustomer, Hashes, CreateIntent, CreateDto, CreatePublicDto, tenant_intent, public_intent,
  management_token,
}

-- PublicAppointmentResult; the view of an appointment is the document.
pub record PublicAppointmentResult : Type 0 where
  pub appointment : Appointment
  pub management_token : Option String
  pub referral : Option ReferralReceipt

-- What `randomUUID` and the schema's default draw.
pub record CreateIds : Type 0 where
  pub customer : String
  pub appointment : String
  pub conversion : String

pub record AppointmentRelation : Type 0 where
  pub duration_minutes : ℕ
  pub local_date : String
  pub price : ServicePrice

abbrev pub has_idempotency_key : String → String → Appointment → Bool
has_idempotency_key tenant_id key a = a.tenant_id == tenant_id && a.idempotency_key == key

abbrev idempotency_key_conflict : Exception
idempotency_key_conflict = app 409 "IDEMPOTENCY_KEY_CONFLICT"

abbrev pub same_request : CreateIntent → Option Appointment → Result (Option Appointment)
same_request intent none = ok none
same_request intent (some a) =
    if not (a.request_fingerprint == intent.fingerprint)
    then err idempotency_key_conflict
    else ok (some a)

unfoldable pub find_replay : CreateIntent → Action AppointmentStore (Option Appointment)
find_replay intent = inspect (λ s.
    same_request intent
      (find (has_idempotency_key intent.tenant_id intent.input.idempotency_key) s.appointments))

-- The customer that a phone finds.
abbrev has_phone : String → String → Customer → Bool
has_phone tenant_id phone c = c.tenant_id == tenant_id && is_text c.phone phone

-- `{ email: { $exists: false } }, { email: null }, { email: '' }`
abbrev without_email : Option String → Bool
without_email none = true
without_email (some email) = email == ""

unfoldable insert_customer :
    String → PublicCustomer → String → Option Customer → Action AffiliateStore String
insert_customer tenant_id input new_id (some found) = pure found.id
insert_customer tenant_id input new_id none = do
  insert_unique (λ s. any (λ c. c.id == new_id) s.customers) "_id_" (λ s. s)
  insert_unique (λ s. any (has_phone tenant_id input.phone) s.customers) "customer_phone_unique"
      (λ s. record s {
        customers =
            record {
              id = new_id;
              tenant_id = tenant_id;
              full_name = input.name;
              phone = some input.phone;
              email = none;
            }
            ∷ s.customers;
      })
  pure new_id

-- `if (input.email) { … }`
unfoldable set_email : String → String → Option String → Action AffiliateStore (Unit {0})
set_email tenant_id customer_id none = pure tt
set_email tenant_id customer_id (some email) =
    if email == ""
    then pure tt
    else modify (λ s. record s {
      customers =
          update_first
            (λ c. c.id == customer_id && c.tenant_id == tenant_id && without_email c.email)
            (λ c. record c { email = some email }) s.customers;
    })

unfoldable pub upsert_public_customer :
    String → PublicCustomer → String → Action AffiliateStore String
unfolding insert_customer set_email
upsert_public_customer tenant_id input new_id = do
  found ← gets (λ s. find (has_phone tenant_id input.phone) s.customers)
  customer_id ← insert_customer tenant_id input new_id found
  set_email tenant_id customer_id input.email
  pure customer_id

abbrev relation_not_found : Exception
relation_not_found = app 404 "APPOINTMENT_RELATION_NOT_FOUND"

-- The conditions of `validateRelations` on the documents that it loads.
abbrev check_relations :
    Calendar
    → CreateIntent
    → Bool
    → Option Location
    → Option Service
    → Option StaffService
    → Result AppointmentRelation
check_relations calendar intent present none service staff_service = err relation_not_found
check_relations calendar intent present (some location) none staff_service = err relation_not_found
check_relations calendar intent present (some location) (some service) none = err relation_not_found
check_relations calendar intent present (some location) (some service) (some staff_service) =
    if not present || (intent.public_only && not location.public_booking_enabled)
    then err relation_not_found
    else if not (calendar.is_zone location.timezone)
    then err timezone_invalid
    else ok (record {
      duration_minutes =
          override_or staff_service.duration_override_minutes service.duration_minutes;
      local_date = calendar.local_date location.timezone intent.input.starts_at;
      price = service.price;
    })

unfoldable pub validate_relations :
    Calendar → CreateIntent → String → AppointmentStore → Result AppointmentRelation
validate_relations calendar intent customer_id s =
    check_relations calendar intent
      (is_some (find (is_tenant intent.tenant_id) s.catalog.tenants)
        && is_some (
            find (is_staff intent.tenant_id intent.input.location_id intent.input.staff_id)
              s.catalog.staff)
        && any (λ c. c.id == customer_id && c.tenant_id == intent.tenant_id) s.affiliates.customers)
      (find (is_location intent.tenant_id intent.input.location_id) s.catalog.locations)
      (find (is_service intent.tenant_id intent.input.service_id) s.catalog.services)
      (find (is_staff_service intent.tenant_id intent.input.staff_id intent.input.service_id)
        s.catalog.staff_services)
