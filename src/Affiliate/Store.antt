-- ===== src/Affiliate/Store.antt =====
-- The collections of the affiliate programme (src/database/models/affiliate.models.ts,
-- affiliate-payout.model.ts, affiliate-lock.model.ts). A collection is a list, newest first; ids,
-- currencies and keys are texts, amounts are whole minor units, dates are milliseconds.
use panalbee_clock_backend.Base.{
  ℕ, String, Bool, ◌&&◌, List, ◌∷◌, Option, none, some, Action, insert_unique, ◌>>◌, throw_if, not,
  fault, any, ◌==◌, leb, is_some, false, true,
}
use panalbee_clock_backend.Affiliate.Economics.{AffiliateTerms, AffiliateCodeStatus}

pub record Customer : Type 0 where
  pub id : String
  pub tenant_id : String
  pub full_name : String
  pub phone : Option String
  pub email : Option String

-- AffiliateCodeEntity; `current_slot` tells whether the slot holds CURRENT.
pub record AffiliateCode : Type 0 where
  pub id : String
  pub tenant_id : String
  pub customer_id : String
  pub normalized_code : String
  pub status : AffiliateCodeStatus
  pub current_slot : Bool
  pub terms : AffiliateTerms
  pub deactivated_at : Option ℕ
  pub reactivated_at : Option ℕ
  pub retired_at : Option ℕ

-- ReferralConversionEntity; `terms` is its copy of the terms of the code, which has no period.
pub record ReferralConversion : Type 0 where
  pub id : String
  pub tenant_id : String
  pub affiliate_code_id : String
  pub affiliate_customer_id : String
  pub referred_customer_id : String
  pub appointment_id : String
  pub service_id : String
  pub code_snapshot : String
  pub terms : AffiliateTerms
  pub gross_amount_minor : ℕ
  pub discount_value_minor : ℕ
  pub final_amount_minor : ℕ
  pub currency : String
  pub commission_value_minor : ℕ

pub data Direction : Type 0 where
  credit debit : Direction

pub data EntryType : Type 0 where
  commission_earned commission_reversal payout_paid : EntryType

pub record AffiliateLedgerEntry : Type 0 where
  pub id : String
  pub tenant_id : String
  pub affiliate_customer_id : String
  pub conversion_id : Option String
  pub appointment_id : Option String
  pub payout_id : Option String
  pub currency : String
  pub direction : Direction
  pub type : EntryType
  pub amount_minor : ℕ
  pub idempotency_key : String
  pub reversal_of_entry_id : Option String
  pub reason : Option String

pub data PayoutStatus : Type 0 where
  processing paid failed cancelled : PayoutStatus

pub record AffiliatePayout : Type 0 where
  pub id : String
  pub tenant_id : String
  pub affiliate_customer_id : String
  pub currency : String
  pub amount_minor : ℕ
  pub status : PayoutStatus
  pub created_by_user_id : String
  pub create_idempotency_key : String
  pub create_external_reference : Option String
  pub terminal_idempotency_key : Option String
  pub external_reference : Option String
  pub reason : Option String
  pub paid_at : Option ℕ
  pub failed_at : Option ℕ
  pub cancelled_at : Option ℕ

pub record AffiliateBalanceLock : Type 0 where
  pub tenant_id : String
  pub affiliate_customer_id : String
  pub currency : String
  pub version : ℕ

pub record AffiliatePayoutCapacityLock : Type 0 where
  pub tenant_id : String
  pub affiliate_customer_id : String
  pub version : ℕ

-- What the affiliate services record of an audit event.
pub record AffiliateAudit : Type 0 where
  pub tenant_id : String
  pub actor_user_id : String
  pub action : String
  pub entity_id : String

pub record AffiliateStore : Type 0 where
  pub customers : List Customer
  pub codes : List AffiliateCode
  pub conversions : List ReferralConversion
  pub entries : List AffiliateLedgerEntry
  pub payouts : List AffiliatePayout
  pub balance_locks : List AffiliateBalanceLock
  pub capacity_locks : List AffiliatePayoutCapacityLock
  pub audits : List AffiliateAudit

abbrev pub is_processing : PayoutStatus → Bool
is_processing PayoutStatus.processing = true
is_processing PayoutStatus.paid = false
is_processing PayoutStatus.failed = false
is_processing PayoutStatus.cancelled = false

-- A stored text that is present and equal to the one that a filter asks for.
abbrev pub is_text : Option String → String → Bool
is_text none s = false
is_text (some t) s = t == s

-- `===` of two texts that may be undefined.
abbrev pub same_text : Option String → Option String → Bool
same_text none none = true
same_text none (some t) = false
same_text (some s) none = false
same_text (some s) (some t) = s == t

-- `min: 1, max: Number.MAX_SAFE_INTEGER`
abbrev pub valid_amount : ℕ → Bool
valid_amount amount = leb 1 amount && leb amount 9_007_199_254_740_991

abbrev pub validation_error : Bool → Action AffiliateStore (Unit {0})
validation_error valid = throw_if (not valid) (fault "ValidationError")

-- The unique index on `reversalOfEntryId`, of the entries that have one.
abbrev pub reverses_same : AffiliateLedgerEntry → AffiliateLedgerEntry → Bool
reverses_same new old =
    is_some new.reversal_of_entry_id
    && old.tenant_id == new.tenant_id
    && same_text old.reversal_of_entry_id new.reversal_of_entry_id

abbrev pub same_entry_key : String → String → AffiliateLedgerEntry → Bool
same_entry_key tenant key e = e.tenant_id == tenant && e.idempotency_key == key

-- `entry.save`: the schema's bounds and its unique indexes, then the write.
unfoldable pub save_entry : AffiliateLedgerEntry → Action AffiliateStore (Unit {0})
save_entry entry = do
  validation_error (valid_amount entry.amount_minor)
  insert_unique (λ s. any (λ e. e.id == entry.id) s.entries) "_id_" (λ s. s)
  insert_unique (λ s. any (same_entry_key entry.tenant_id entry.idempotency_key) s.entries)
      "affiliate_ledger_idempotency_unique" (λ s. s)
  insert_unique (λ s. any (reverses_same entry) s.entries) "affiliate_ledger_reversal_unique"
      (λ s. record s { entries = entry ∷ s.entries })
