-- ===== src/Affiliate/Codes.antt =====
-- The codes of an affiliate (src/affiliates/affiliate-code.service.ts). The texts that are generated from random
-- bytes, the new ids and the clock are arguments; the metadata of an audit event is left out.
pub mod Orderly
pub mod Current
pub mod Attempts
mod Tests
pub mod Create
pub mod Changes
use panalbee_clock_backend.Base.{
  ℕ, zero, suc, ◌-◌, String, Bool, true, false, ◌&&◌, ◌||◌, not, List, [], ◌∷◌, any, find, keep,
  update_first, beq, ltb, leb, Option, none, some, is_some, if◌then◌else◌, Result, ok, err, app,
  fault, Exception, Action, pure, throw, lift, gets, modify, or_throw, throw_if, insert_unique,
  with_transaction, try_catch, ◌>>=◌, ◌>>◌, is_named_duplicate_key, ◌==◌,
}
use panalbee_clock_backend.Base.Text.{trim, upper_case, codes}
use panalbee_clock_backend.Affiliate.Economics.{
  AffiliateTerms, AffiliateCodeStatus, normalize_affiliate_terms,
}
use panalbee_clock_backend.Affiliate.Store.{
  AffiliateStore, AffiliateCode, Customer, validation_error,
}
use panalbee_clock_backend.Affiliate.Payout.{TenantOperationAuth, assert_customer}

unfoldable pub normalize_affiliate_code : String → String
unfolding upper_case
normalize_affiliate_code code = upper_case (trim code)

abbrev pub generated_code_attempts : ℕ
generated_code_attempts = 8

abbrev pub code_text_index : String
code_text_index = "affiliate_code_tenant_text_unique"

abbrev pub code_current_index : String
code_current_index = "affiliate_code_current_customer_unique"

abbrev pub code_conflict : Exception
code_conflict = app 409 "AFFILIATE_CODE_CONFLICT"

abbrev pub code_current_exists : Exception
code_current_exists = app 409 "AFFILIATE_CODE_CURRENT_EXISTS"

abbrev pub code_generation_exhausted : Exception
code_generation_exhausted = app 503 "AFFILIATE_CODE_GENERATION_EXHAUSTED"

-- A bound of the schema on a number that may be left out.
abbrev pub within : ℕ → Option ℕ → Bool
within highest none = true
within highest (some n) = leb 1 n && leb n highest

abbrev pub valid_terms : AffiliateTerms → Bool
valid_terms terms =
    within 10_000 terms.discount_basis_points
    && within 9_007_199_254_740_991 terms.discount_amount_minor
    && within 10_000 terms.commission_basis_points
    && within 9_007_199_254_740_991 terms.commission_amount_minor

abbrev pub same_code_text : String → String → AffiliateCode → Bool
same_code_text tenant_id text c = c.tenant_id == tenant_id && c.normalized_code == text

-- The unique index on the slot, of the codes that have it.
abbrev pub is_current_of : String → String → AffiliateCode → Bool
is_current_of tenant_id customer_id c =
    c.tenant_id == tenant_id && c.customer_id == customer_id && c.current_slot
