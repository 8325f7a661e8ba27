-- ===== src/Affiliate/Referrals.antt =====
-- The use of a code for a booking (src/affiliates/referral.service.ts, referral-attribution.service.ts).
use panalbee_clock_backend.Base.{
  ℕ, String, Bool, ◌&&◌, ◌∷◌, any, find, leb, beq, Option, none, some, if◌then◌else◌, fault, Action,
  pure, lift, gets, or_throw, throw_if, insert_unique, ◌>>=◌, ◌>>◌, ◌==◌,
}
use panalbee_clock_backend.Base.Int.{pos, negsuc}
use panalbee_clock_backend.Affiliate.Economics.{
  AffiliateTerms, AffiliateEconomics, ServicePrice, Number, num, nan, referral_error,
  assert_affiliate_code_usable, calculate_affiliate_economics,
}
use panalbee_clock_backend.Affiliate.Store.{
  AffiliateStore, AffiliateCode, ReferralConversion, validation_error,
}
use panalbee_clock_backend.Affiliate.Codes.{normalize_affiliate_code, same_code_text, valid_terms}

pub record ResolvedReferral : Type 0 where
  pub code : AffiliateCode
  pub economics : AffiliateEconomics

-- ReferralReceiptView
pub record ReferralReceipt : Type 0 where
  pub code : String
  pub gross_amount_minor : ℕ
  pub discount_amount_minor : ℕ
  pub final_amount_minor : ℕ
  pub currency : String

unfoldable resolve_for_booking :
    String → String → ServicePrice → ℕ → Action AffiliateStore ResolvedReferral
unfolding normalize_affiliate_code
resolve_for_booking tenant_id raw_code service now = do
  found ← gets (λ s. find (same_code_text tenant_id (normalize_affiliate_code raw_code)) s.codes)
  code ← or_throw found (referral_error "REFERRAL_CODE_INVALID")
  lift (assert_affiliate_code_usable code.status code.terms.starts_at code.terms.expires_at now)
  economics ← lift (calculate_affiliate_economics code.terms service)
  pure (record { code = code; economics = economics })

unfoldable pub prepare :
    String → String → String → ServicePrice → ℕ → Action AffiliateStore ResolvedReferral
unfolding resolve_for_booking
prepare tenant_id raw_code referred_customer_id service now = do
  resolved ← resolve_for_booking tenant_id raw_code service now
  throw_if (resolved.code.customer_id == referred_customer_id)
      (referral_error "REFERRAL_SELF_REFERRAL")
  pure resolved

-- An amount that the schema takes: a whole number from 0 on. NaN fails to be cast.
abbrev stored_amount : Number → Option ℕ
stored_amount (num (pos n)) = some n
stored_amount (num (negsuc n)) = none
stored_amount nan = none

-- `value ? { key: value } : {}` of a number: 0 is left out.
abbrev nonzero : Option ℕ → Option ℕ
nonzero none = none
nonzero (some n) = if beq n 0 then none else some n

abbrev nonempty : Option String → Option String
nonempty none = none
nonempty (some s) = if s == "" then none else some s

abbrev snapshot : AffiliateTerms → AffiliateTerms
snapshot terms = record {
  discount_type = terms.discount_type;
  discount_basis_points = nonzero terms.discount_basis_points;
  discount_amount_minor = nonzero terms.discount_amount_minor;
  discount_currency = nonempty terms.discount_currency;
  commission_type = terms.commission_type;
  commission_basis_points = nonzero terms.commission_basis_points;
  commission_amount_minor = nonzero terms.commission_amount_minor;
  commission_currency = nonempty terms.commission_currency;
  starts_at = none;
  expires_at = none;
}

-- `referralReceipt`
abbrev receipt_of : ReferralConversion → ReferralReceipt
receipt_of c = record {
  code = c.code_snapshot;
  gross_amount_minor = c.gross_amount_minor;
  discount_amount_minor = c.discount_value_minor;
  final_amount_minor = c.final_amount_minor;
  currency = c.currency;
}

abbrev pub receipt_found : Option ReferralConversion → Option ReferralReceipt
receipt_found none = none
receipt_found (some c) = some (receipt_of c)

abbrev is_amount : ℕ → Bool
is_amount n = leb n 9_007_199_254_740_991

abbrev pub is_conversion_for : String → String → ReferralConversion → Bool
is_conversion_for tenant_id appointment_id c =
    c.tenant_id == tenant_id && c.appointment_id == appointment_id

-- `conversion.save`: the schema's bounds and its unique indexes, then the write.
unfoldable save_conversion : ReferralConversion → Action AffiliateStore ReferralReceipt
save_conversion c = do
  validation_error (
      valid_terms c.terms
      && is_amount c.gross_amount_minor
      && is_amount c.discount_value_minor
      && is_amount c.final_amount_minor
      && leb 1 c.commission_value_minor
      && is_amount c.commission_value_minor)
  insert_unique (λ s. any (λ old. old.id == c.id) s.conversions) "_id_" (λ s. s)
  insert_unique (λ s. any (is_conversion_for c.tenant_id c.appointment_id) s.conversions)
      "referral_conversion_appointment_unique" (λ s. record s { conversions = c ∷ s.conversions })
  pure (receipt_of c)

unfoldable pub record_conversion :
    String
    → String
    → String
    → String
    → ResolvedReferral
    → String
    → Action AffiliateStore ReferralReceipt
unfolding save_conversion
record_conversion tenant_id appointment_id referred_customer_id service_id resolved new_id = do
  let economics = resolved.economics
  let code = resolved.code
  gross ← or_throw (stored_amount economics.gross_amount_minor) (fault "ValidationError")
  discount ← or_throw (stored_amount economics.discount_value_minor) (fault "ValidationError")
  final ← or_throw (stored_amount economics.final_amount_minor) (fault "ValidationError")
  commission ← or_throw (stored_amount economics.commission_value_minor) (fault "ValidationError")
  save_conversion (record {
    id = new_id;
    tenant_id = tenant_id;
    affiliate_code_id = code.id;
    affiliate_customer_id = code.customer_id;
    referred_customer_id = referred_customer_id;
    appointment_id = appointment_id;
    service_id = service_id;
    code_snapshot = code.normalized_code;
    terms = snapshot code.terms;
    gross_amount_minor = gross;
    discount_value_minor = discount;
    final_amount_minor = final;
    currency = economics.currency;
    commission_value_minor = commission;
  })

unfoldable pub find_receipt : String → String → Action AffiliateStore (Option ReferralReceipt)
find_receipt tenant_id appointment_id =
    gets (λ s. receipt_found (find (is_conversion_for tenant_id appointment_id) s.conversions))
