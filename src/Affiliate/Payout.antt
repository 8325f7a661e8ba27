-- ===== src/Affiliate/Payout.antt =====
-- Manual payouts to affiliates (src/affiliates/affiliate-payout.service.ts, affiliate-payout.store.ts
-- and affiliate-payout.policy.ts). The clock and the new ids are arguments.
use panalbee_clock_backend.Base.{
  ℕ, ◌+◌, String, Bool, true, false, ◌&&◌, ◌||◌, not, List, [], ◌∷◌, Option, none, some, Exception,
  app, Action, Result, ok, err, pure, throw, gets, lift, throw_if, modify, insert_unique, ◌>>=◌,
  ◌>>◌, with_transaction, try_catch, is_named_duplicate_key, any, find, update_first, ◌==◌, ltb,
  leb, beq, if◌then◌else◌,
}
use panalbee_clock_backend.Base.Int.{pos, ltb_ℤ}
use panalbee_clock_backend.Base.Text.{trim, length_utf16}
use panalbee_clock_backend.Affiliate.Store.{
  AffiliateStore, processing, AffiliatePayout, is_processing, same_text, valid_amount,
  validation_error, AffiliatePayoutCapacityLock,
}
use panalbee_clock_backend.Affiliate.Balance.{is_capacity_lock, acquire_balance_lock, available_in}

pub data ActorType : Type 0 where
  tenant delegated : ActorType

-- TenantOperationAuthContext, as far as the payouts read it.
pub record TenantOperationAuth : Type 0 where
  pub actor_type : ActorType
  pub user_id : String
  pub tenant_id : String

pub record CreatePayout : Type 0 where
  pub idempotency_key : String
  pub amount_minor : ℕ
  pub currency : String
  pub external_reference : Option String

pub data UnpaidStatus : Type 0 where
  as_failed as_cancelled : UnpaidStatus

-- TerminalInput
pub data TerminalInput : Type 0 where
  pay : String → String → TerminalInput
  close : UnpaidStatus → String → String → TerminalInput

abbrev max_processing_affiliate_payouts : ℕ
max_processing_affiliate_payouts = 100

abbrev pub direct_session_required : Exception
direct_session_required = app 403 "AFFILIATE_PAYOUT_DIRECT_SESSION_REQUIRED"

abbrev pub insufficient_balance : Exception
insufficient_balance = app 409 "AFFILIATE_PAYOUT_INSUFFICIENT_AVAILABLE"

abbrev payout_processing_limit : Exception
payout_processing_limit = app 409 "AFFILIATE_PAYOUT_PROCESSING_LIMIT"

abbrev pub payout_not_found : Exception
payout_not_found = app 404 "AFFILIATE_PAYOUT_NOT_FOUND"

abbrev pub payout_conflict : Exception
payout_conflict = app 409 "AFFILIATE_PAYOUT_IDEMPOTENCY_CONFLICT"

abbrev pub customer_not_found : Exception
customer_not_found = app 404 "CUSTOMER_NOT_FOUND"

abbrev pub is_direct : ActorType → Bool
is_direct tenant = true
is_direct delegated = false

abbrev pub assert_direct_tenant : TenantOperationAuth → Action AffiliateStore (Unit {0})
assert_direct_tenant auth = throw_if (not (is_direct auth.actor_type)) direct_session_required

-- `value?.trim() || undefined`
abbrev pub optional_payout_text : Option String → Option String
optional_payout_text none = none
optional_payout_text (some s) = if trim s == "" then none else some (trim s)

abbrev pub required_payout_text : String → ℕ → String → Action AffiliateStore String
required_payout_text value minimum reason_code =
    throw_if (ltb (length_utf16 (trim value)) minimum) (app 400 reason_code) >> pure (trim value)

abbrev pub assert_customer : String → String → Action AffiliateStore (Unit {0})
assert_customer tenant_id customer_id = do
  known ← gets (λ s. any (λ c. c.id == customer_id && c.tenant_id == tenant_id) s.customers)
  throw_if (not known) customer_not_found

abbrev bump_capacity_lock : AffiliatePayoutCapacityLock → AffiliatePayoutCapacityLock
bump_capacity_lock l = record l { version = l.version + 1 }

abbrev is_open_payout : String → String → AffiliatePayout → Bool
is_open_payout tenant_id customer_id p =
    p.tenant_id == tenant_id && p.affiliate_customer_id == customer_id && is_processing p.status

-- `countDocuments` of the payouts in PROCESSING.
abbrev count_open : String → String → List AffiliatePayout → ℕ
count_open tenant_id customer_id [] = 0
count_open tenant_id customer_id (p ∷ ps) =
    (if is_open_payout tenant_id customer_id p then 1 else 0) + count_open tenant_id customer_id ps

abbrev assert_processing_capacity : String → String → Action AffiliateStore (Unit {0})
assert_processing_capacity tenant_id customer_id = do
  locked ← gets (λ s. any (is_capacity_lock tenant_id customer_id) s.capacity_locks)
  throw_if (not locked) insufficient_balance
  modify (λ s. record s {
    capacity_locks =
        update_first (is_capacity_lock tenant_id customer_id) bump_capacity_lock s.capacity_locks;
  })
  count ← gets (λ s. count_open tenant_id customer_id s.payouts)
  throw_if (leb max_processing_affiliate_payouts count) payout_processing_limit

abbrev pub record_audit :
    String → TenantOperationAuth → AffiliatePayout → Action AffiliateStore (Unit {0})
record_audit action auth p = modify (λ s. record s {
  audits =
      record {
        tenant_id = auth.tenant_id;
        actor_user_id = auth.user_id;
        action = action;
        entity_id = p.id;
      }
      ∷ s.audits;
})

abbrev pub has_create_key : String → String → AffiliatePayout → Bool
has_create_key tenant_id key p = p.tenant_id == tenant_id && p.create_idempotency_key == key

-- The document that `create` saves.
abbrev pub new_payout :
    TenantOperationAuth → String → CreatePayout → Option String → String → AffiliatePayout
new_payout auth customer_id dto external_reference new_id = record {
  id = new_id;
  tenant_id = auth.tenant_id;
  affiliate_customer_id = customer_id;
  currency = dto.currency;
  amount_minor = dto.amount_minor;
  status = processing;
  created_by_user_id = auth.user_id;
  create_idempotency_key = dto.idempotency_key;
  create_external_reference = external_reference;
  terminal_idempotency_key = none;
  external_reference = external_reference;
  reason = none;
  paid_at = none;
  failed_at = none;
  cancelled_at = none;
}

-- The first `save` of a payout: the schema's bounds and the unique indexes.
unfoldable save_new_payout : AffiliatePayout → Action AffiliateStore (Unit {0})
save_new_payout p = do
  validation_error (valid_amount p.amount_minor)
  insert_unique (λ s. any (λ q. q.id == p.id) s.payouts) "_id_" (λ s. s)
  insert_unique (λ s. any (has_create_key p.tenant_id p.create_idempotency_key) s.payouts)
      "affiliate_payout_create_idempotency_unique" (λ s. record s { payouts = p ∷ s.payouts })

-- `createReplay`
unfoldable pub create_replay :
    AffiliatePayout → String → CreatePayout → Option String → Result AffiliatePayout
create_replay p customer_id dto external_reference =
    if not (p.affiliate_customer_id == customer_id)
      || not (p.currency == dto.currency)
      || not (beq p.amount_minor dto.amount_minor)
      || not (same_text p.create_external_reference external_reference)
    then err payout_conflict
    else ok p

-- The rest of the transaction when no payout has the key.
unfoldable pub create_fresh :
    TenantOperationAuth
    → String
    → CreatePayout
    → Option String
    → String
    → Action AffiliateStore AffiliatePayout
unfolding available_in save_new_payout
create_fresh auth customer_id dto external_reference new_id = do
  assert_processing_capacity auth.tenant_id customer_id
  acquire_balance_lock insufficient_balance auth.tenant_id customer_id dto.currency
  available ← gets (available_in auth.tenant_id customer_id dto.currency)
  throw_if (ltb_ℤ available (pos dto.amount_minor)) insufficient_balance
  save_new_payout (new_payout auth customer_id dto external_reference new_id)
  record_audit "AFFILIATE_PAYOUT_CREATED" auth
      (new_payout auth customer_id dto external_reference new_id)
  pure (new_payout auth customer_id dto external_reference new_id)

-- `if (replay) return this.createReplay(…)`, and what happens otherwise.
unfoldable pub create_or_replay :
    String
    → CreatePayout
    → Option String
    → Action AffiliateStore AffiliatePayout
    → Option AffiliatePayout
    → Action AffiliateStore AffiliatePayout
unfolding create_replay
create_or_replay customer_id dto external_reference otherwise none = otherwise
create_or_replay customer_id dto external_reference otherwise (some p) =
    lift (create_replay p customer_id dto external_reference)

unfoldable pub create_work :
    TenantOperationAuth
    → String
    → CreatePayout
    → Option String
    → String
    → Action AffiliateStore AffiliatePayout
unfolding create_fresh create_or_replay
create_work auth customer_id dto external_reference new_id = do
  assert_customer auth.tenant_id customer_id
  replay ← gets (λ s. find (has_create_key auth.tenant_id dto.idempotency_key) s.payouts)
  create_or_replay customer_id dto external_reference
      (create_fresh auth customer_id dto external_reference new_id) replay

unfoldable pub create_recover :
    TenantOperationAuth
    → String
    → CreatePayout
    → Option String
    → Exception
    → Action AffiliateStore AffiliatePayout
unfolding create_or_replay
create_recover auth customer_id dto external_reference error =
    if not (is_named_duplicate_key error "affiliate_payout_create_idempotency_unique")
    then throw error
    else do
      replay ← gets (λ s. find (has_create_key auth.tenant_id dto.idempotency_key) s.payouts)
      create_or_replay customer_id dto external_reference (throw payout_conflict) replay

unfoldable pub create :
    TenantOperationAuth → String → CreatePayout → String → Action AffiliateStore AffiliatePayout
unfolding create_work create_recover
create auth customer_id dto new_id =
    assert_direct_tenant auth
    >> try_catch
        (with_transaction
          (create_work auth customer_id dto (optional_payout_text dto.external_reference) new_id))
        (create_recover auth customer_id dto (optional_payout_text dto.external_reference))
