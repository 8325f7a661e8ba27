-- ===== src/Booking/Intents.antt =====
-- What an appointment is created from (src/appointments/appointment-create-input.ts,
-- appointment-creation.store.ts, appointments.service.ts). SHA-256 of a JSON text and the HMAC of the
-- management token are a record of functions; an ISO text is its instant.
use panalbee_clock_backend.Base.{
  ℕ, String, Bool, true, false, Option, none, some, if◌then◌else◌, ◌==◌,
}
use panalbee_clock_backend.Base.Text.{trim, concat, lower_case}
use panalbee_clock_backend.Affiliate.Codes.{normalize_affiliate_code}
use panalbee_clock_backend.Affiliate.Payout.{ActorType, tenant, delegated}
use panalbee_clock_backend.Booking.Appointments.{AppointmentSource, admin, web}
use panalbee_clock_backend.Booking.Lifecycle.{normalized_note}

pub record PublicCustomer : Type 0 where
  pub name : String
  pub phone : String
  pub email : Option String

pub record NormalizedInput : Type 0 where
  pub location_id : String
  pub service_id : String
  pub staff_id : String
  pub starts_at : ℕ
  pub idempotency_key : String
  pub notes : Option String

-- The objects whose JSON text is hashed.
pub record CreateFingerprint : Type 0 where
  pub input : NormalizedInput
  pub customer_id : Option String
  pub public_customer : Option PublicCustomer
  pub referral_code : Option String

pub record TimelinePayload : Type 0 where
  pub type : String
  pub reason : Option String
  pub starts_at : ℕ
  pub ends_at : ℕ
  pub previous_starts_at : Option ℕ
  pub previous_ends_at : Option ℕ

pub record Hashes : Type 0 where
  pub appointment_fingerprint : CreateFingerprint → String
  pub timeline_fingerprint : TimelinePayload → String
  -- `createHmac` with the configured secret, of the text that is given.
  pub hmac : String → String
  pub token_hash : String → String

pub data CreateActorType : Type 0 where
  tenant_user internal_user customer : CreateActorType

pub record CreateIntent : Type 0 where
  pub tenant_id : String
  pub input : NormalizedInput
  pub customer_id : String
  pub public_customer : Option PublicCustomer
  pub source : AppointmentSource
  pub actor_user_id : Option String
  pub actor_type : CreateActorType
  pub public_only : Bool
  pub fingerprint : String
  pub referral_code : Option String

-- CreateTenantAppointmentDto and CreatePublicAppointmentDto
pub record CreateDto : Type 0 where
  pub location_id : String
  pub service_id : String
  pub staff_id : String
  pub starts_at : ℕ
  pub idempotency_key : String
  pub notes : Option String

pub record CreatePublicDto : Type 0 where
  pub base : CreateDto
  pub customer_name : String
  pub customer_phone : String
  pub customer_email : Option String
  pub referral_code : Option String

unfoldable normalize_create_input : CreateDto → NormalizedInput
normalize_create_input dto = record {
  location_id = dto.location_id;
  service_id = dto.service_id;
  staff_id = dto.staff_id;
  starts_at = dto.starts_at;
  idempotency_key = dto.idempotency_key;
  notes = normalized_note dto.notes;
}

abbrev actor_type_of : ActorType → CreateActorType
actor_type_of delegated = internal_user
actor_type_of tenant = tenant_user

abbrev lower_optional : Option String → Option String
lower_optional none = none
lower_optional (some text) = some (lower_case text)

-- `dto.referralCode ? normalizeAffiliateCode(dto.referralCode) : undefined`, and the empty text is
-- left out of the intent too.
abbrev present_text : String → Option String
present_text text = if text == "" then none else some text

abbrev code_present : Option String → Option String
code_present none = none
code_present (some code) = if code == "" then none else present_text (normalize_affiliate_code code)

module _ (hashes : Hashes) where
  -- The intent of `createTenant`.
  unfoldable pub tenant_intent : String → String → ActorType → String → CreateDto → CreateIntent
  unfolding normalize_create_input
  tenant_intent tenant_id user_id actor_type customer_id dto = record {
    tenant_id = tenant_id;
    input = normalize_create_input dto;
    customer_id = customer_id;
    public_customer = none;
    source = admin;
    actor_user_id = some user_id;
    actor_type = actor_type_of actor_type;
    public_only = false;
    fingerprint = hashes.appointment_fingerprint (record {
      input = normalize_create_input dto;
      customer_id = some customer_id;
      public_customer = none;
      referral_code = none;
    });
    referral_code = none;
  }

  abbrev public_customer_of : CreatePublicDto → PublicCustomer
  public_customer_of dto = record {
    name = trim dto.customer_name;
    phone = dto.customer_phone;
    email = lower_optional dto.customer_email;
  }

  -- The intent of `createPublic`, once the tenant is resolved.
  unfoldable pub public_intent : String → CreatePublicDto → CreateIntent
  unfolding normalize_create_input
  public_intent tenant_id dto = record {
    tenant_id = tenant_id;
    input = normalize_create_input dto.base;
    customer_id = "";
    public_customer = some (public_customer_of dto);
    source = web;
    actor_user_id = none;
    actor_type = customer;
    public_only = true;
    fingerprint = hashes.appointment_fingerprint (record {
      input = normalize_create_input dto.base;
      customer_id = none;
      public_customer = some (public_customer_of dto);
      referral_code = code_present dto.referral_code;
    });
    referral_code = code_present dto.referral_code;
  }

  unfoldable pub management_token : String → String
  management_token appointment_id = hashes.hmac (concat "appointment:" appointment_id)
