-- ===== src/Booking/Catalog.antt =====
-- What a business offers, and where (src/database/models/core.models.ts, account.models.ts), with the
-- access to it that the public has (src/accounts/account-public-access.service.ts).
use panalbee_clock_backend.Base.{
  ℕ, String, Bool, true, false, ◌&&◌, ◌||◌, not, List, [], find, Option, none, some, is_some,
  Result, ok, err, app, Exception, if◌then◌else◌, ◌==◌,
}
use panalbee_clock_backend.Base.Text.{trim, lower_case}
use panalbee_clock_backend.Affiliate.Economics.{ServicePrice}
use panalbee_clock_backend.Booking.Availability.{Schedule, AvailabilityException}

pub data TenantStatus : Type 0 where
  active suspended : TenantStatus

pub record Tenant : Type 0 where
  pub id : String
  pub slug : String
  pub status : TenantStatus

pub record Location : Type 0 where
  pub id : String
  pub tenant_id : String
  pub timezone : String
  pub public_booking_enabled : Bool

pub record Service : Type 0 where
  pub id : String
  pub tenant_id : String
  pub duration_minutes : ℕ
  pub price : ServicePrice
  pub active : Bool

pub record Staff : Type 0 where
  pub id : String
  pub tenant_id : String
  pub location_id : String
  pub display_name : String
  pub active : Bool

pub record StaffService : Type 0 where
  pub tenant_id : String
  pub staff_id : String
  pub service_id : String
  pub duration_override_minutes : Option ℕ

pub record ScheduleEntry : Type 0 where
  pub tenant_id : String
  pub location_id : String
  pub day_of_week : ℕ
  pub schedule : Schedule

pub record ExceptionEntry : Type 0 where
  pub tenant_id : String
  pub location_id : String
  pub exception : AvailabilityException

pub data AccountStatus : Type 0 where
  trial active suspended cancelled : AccountStatus

pub record Account : Type 0 where
  pub id : String
  pub tenant_id : String
  pub slug : String
  pub status : AccountStatus
  pub public_booking_enabled : Bool

pub record AccountPublicProfile : Type 0 where
  pub account_id : String
  pub booking_enabled : Bool

pub record Catalog : Type 0 where
  pub tenants : List Tenant
  pub locations : List Location
  pub services : List Service
  pub staff : List Staff
  pub staff_services : List StaffService
  pub schedules : List ScheduleEntry
  pub exceptions : List ExceptionEntry
  pub accounts : List Account
  pub profiles : List AccountPublicProfile

abbrev pub empty_catalog : Catalog
empty_catalog = record {
  tenants = [];
  locations = [];
  services = [];
  staff = [];
  staff_services = [];
  schedules = [];
  exceptions = [];
  accounts = [];
  profiles = [];
}

abbrev is_active_tenant : TenantStatus → Bool
is_active_tenant TenantStatus.active = true
is_active_tenant TenantStatus.suspended = false

-- `status === 'TRIAL' || status === 'ACTIVE'`
abbrev is_open_account : AccountStatus → Bool
is_open_account AccountStatus.trial = true
is_open_account AccountStatus.active = true
is_open_account AccountStatus.suspended = false
is_open_account AccountStatus.cancelled = false

abbrev public_account_unavailable : Exception
public_account_unavailable = app 404 "PUBLIC_ACCOUNT_UNAVAILABLE"

-- `findOne({ _id: tenantId, status: 'ACTIVE' })`
abbrev pub is_tenant : String → Tenant → Bool
is_tenant tenant_id t = t.id == tenant_id && is_active_tenant t.status

abbrev pub is_slug : String → Tenant → Bool
is_slug slug t = t.slug == slug && is_active_tenant t.status

abbrev pub is_location : String → String → Location → Bool
is_location tenant_id location_id l = l.id == location_id && l.tenant_id == tenant_id

abbrev pub is_service : String → String → Service → Bool
is_service tenant_id service_id s = s.id == service_id && s.tenant_id == tenant_id && s.active

abbrev pub is_staff : String → String → String → Staff → Bool
is_staff tenant_id location_id staff_id s =
    s.id == staff_id && s.tenant_id == tenant_id && s.location_id == location_id && s.active

abbrev pub is_staff_service : String → String → String → StaffService → Bool
is_staff_service tenant_id staff_id service_id s =
    s.tenant_id == tenant_id && s.staff_id == staff_id && s.service_id == service_id

-- The rest of `resolve` once there is an account.
abbrev resolve_account :
    Account → Bool → Option Tenant → Option AccountPublicProfile → Result Tenant
resolve_account account require_booking none profile = err public_account_unavailable
resolve_account account require_booking (some tenant) none = err public_account_unavailable
resolve_account account require_booking (some tenant) (some profile) =
    if not (is_open_account account.status)
      || (require_booking && not (account.public_booking_enabled && profile.booking_enabled))
    then err public_account_unavailable
    else ok tenant

abbrev tenant_or : Exception → Option Tenant → Result Tenant
tenant_or e none = err e
tenant_or e (some tenant) = ok tenant

abbrev resolve_found : Catalog → Bool → String → Option Account → Result Tenant
resolve_found c require_booking slug none =
    tenant_or (app 404 "TENANT_NOT_FOUND") (find (is_slug slug) c.tenants)
resolve_found c require_booking slug (some account) =
    resolve_account account require_booking
      (find (λ t. is_tenant account.tenant_id t && t.slug == account.slug) c.tenants)
      (find (λ p. p.account_id == account.id) c.profiles)

-- `resolve` without `requireAccount`; of what it returns, the callers here use the tenant.
unfoldable pub resolve : Bool → String → Catalog → Result Tenant
resolve require_booking slug_input c =
    let slug = lower_case (trim slug_input) in
    resolve_found c require_booking slug (find (λ a. a.slug == slug) c.accounts)

abbrev booking_enabled : Catalog → Option Account → Result (Unit {0})
booking_enabled c none = ok tt
booking_enabled c (some account) =
    if not (is_some (find (λ p. p.account_id == account.id && p.booking_enabled) c.profiles))
      || not account.public_booking_enabled
      || not (is_open_account account.status)
    then err public_account_unavailable
    else ok tt

-- `assertTenantBookingEnabled`
unfoldable pub assert_tenant_booking_enabled : String → Catalog → Result (Unit {0})
assert_tenant_booking_enabled tenant_id c =
    booking_enabled c (find (λ a. a.tenant_id == tenant_id) c.accounts)
