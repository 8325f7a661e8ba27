-- ===== src/Affiliate/Economics.antt =====
-- The terms of an affiliate code and the amounts of a referred booking
-- (src/affiliates/affiliate-economics.ts). A date is its instant in milliseconds.
pub mod Quotes
pub mod Reference
pub mod Terms
use panalbee_clock_backend.Base.{
  ℕ, suc, ◌*◌, ◌/◌, String, Bool, true, false, not, ◌&&◌, ◌||◌, Option, none, some, Exception, app,
  fault, Result, ok, err, ◌==◌, leb, ltb, if◌then◌else◌, is_some,
}
use panalbee_clock_backend.Base.Int.{ℤ, pos, negsuc, ◌-ℤ◌, ltb_ℤ, leb_ℤ}

pub data DiscountType : Type 0 where
  no_discount percent fixed : DiscountType

pub data CommissionType : Type 0 where
  percent fixed : CommissionType

-- The economic fields of AffiliateTermsDto, NormalizedAffiliateTerms and AffiliateCodeEntity; an
-- absent property is `none`.
pub record AffiliateTerms : Type 0 where
  pub discount_type : DiscountType
  pub discount_basis_points : Option ℕ
  pub discount_amount_minor : Option ℕ
  pub discount_currency : Option String
  pub commission_type : CommissionType
  pub commission_basis_points : Option ℕ
  pub commission_amount_minor : Option ℕ
  pub commission_currency : Option String
  pub starts_at : Option ℕ
  pub expires_at : Option ℕ

-- `priceMinor` and `currency` of the service.
pub record ServicePrice : Type 0 where
  pub price_minor : ℕ
  pub currency : String

-- A JavaScript number of this code: an integer, or NaN, which is also how arithmetic and
-- comparisons read `undefined`.
pub data Number : Type 0 where
  num : ℤ → Number
  nan : Number

abbrev of_optional : Option ℕ → Number
of_optional none = nan
of_optional (some n) = num (pos n)

abbrev sub_number : Number → Number → Number
sub_number (num a) (num b) = num (a -ℤ b)
sub_number (num a) nan = nan
sub_number nan b = nan

-- `a > b`, which no NaN satisfies.
abbrev gt_number : Number → Number → Bool
gt_number (num a) (num b) = ltb_ℤ b a
gt_number (num a) nan = false
gt_number nan b = false

-- `a <= b`, which no NaN satisfies.
abbrev le_number : Number → Number → Bool
le_number (num a) (num b) = leb_ℤ a b
le_number (num a) nan = false
le_number nan b = false

pub record AffiliateEconomics : Type 0 where
  pub gross_amount_minor : Number
  pub discount_value_minor : Number
  pub final_amount_minor : Number
  pub commission_value_minor : Number
  pub currency : String

abbrev pub referral_error : String → Exception
referral_error reason_code = app 400 reason_code

abbrev pub terms_invalid : Exception
terms_invalid = app 400 "AFFILIATE_TERMS_INVALID"

-- The chains of `||` over the fields of the discount and of the commission.
abbrev pub discount_fields_valid : DiscountType → AffiliateTerms → Bool
discount_fields_valid DiscountType.no_discount dto =
    not (is_some dto.discount_basis_points)
    && not (is_some dto.discount_amount_minor)
    && not (is_some dto.discount_currency)
discount_fields_valid DiscountType.percent dto =
    is_some dto.discount_basis_points
    && not (is_some dto.discount_amount_minor)
    && not (is_some dto.discount_currency)
discount_fields_valid DiscountType.fixed dto =
    not (is_some dto.discount_basis_points)
    && is_some dto.discount_amount_minor
    && is_some dto.discount_currency

abbrev pub commission_fields_valid : CommissionType → AffiliateTerms → Bool
commission_fields_valid CommissionType.percent dto =
    is_some dto.commission_basis_points
    && not (is_some dto.commission_amount_minor)
    && not (is_some dto.commission_currency)
commission_fields_valid CommissionType.fixed dto =
    not (is_some dto.commission_basis_points)
    && is_some dto.commission_amount_minor
    && is_some dto.commission_currency

-- `startsAt && expiresAt && startsAt >= expiresAt`
abbrev pub period_inverted : Option ℕ → Option ℕ → Bool
period_inverted (some s) (some e) = leb e s
period_inverted (some s) none = false
period_inverted none e = false

-- `value ? { key: value } : {}` of a text: an empty text is left out.
abbrev pub present : Option String → Option String
present none = none
present (some s) = if s == "" then none else some s

unfoldable pub normalize_affiliate_terms : AffiliateTerms → Result AffiliateTerms
normalize_affiliate_terms dto =
    if not (discount_fields_valid dto.discount_type dto)
      || not (commission_fields_valid dto.commission_type dto)
      || period_inverted dto.starts_at dto.expires_at
    then err terms_invalid
    else ok (record dto {
      discount_currency = present dto.discount_currency;
      commission_currency = present dto.commission_currency;
    })

-- BigInt division, which truncates towards zero.
abbrev pub div_bigint : ℤ → ℕ → ℤ
div_bigint (pos n) d = pos (n / d)
div_bigint (negsuc n) d = pos 0 -ℤ pos ((suc n) / d)

abbrev pub mul_bigint : ℤ → ℕ → ℤ
mul_bigint (pos n) k = pos (n * k)
mul_bigint (negsuc n) k = pos 0 -ℤ pos (suc n * k)

-- `BigInt` throws on NaN and on undefined.
unfoldable pub percentage_of : Number → Option ℕ → Result Number
percentage_of nan basis_points = err (fault "RangeError")
percentage_of (num amount_minor) none = err (fault "TypeError")
percentage_of (num amount_minor) (some basis_points) =
    ok (num (div_bigint (mul_bigint amount_minor basis_points) 10_000))

abbrev is_currency : Option String → String → Bool
is_currency none currency = false
is_currency (some c) currency = c == currency

abbrev pub discount_mismatch : DiscountType → Option String → String → Bool
discount_mismatch DiscountType.fixed c currency = not (is_currency c currency)
discount_mismatch DiscountType.percent c currency = false
discount_mismatch DiscountType.no_discount c currency = false

abbrev pub commission_mismatch : CommissionType → Option String → String → Bool
commission_mismatch CommissionType.fixed c currency = not (is_currency c currency)
commission_mismatch CommissionType.percent c currency = false

abbrev pub discount_value : DiscountType → AffiliateTerms → Number → Result Number
discount_value DiscountType.no_discount code gross = ok (num (pos 0))
discount_value DiscountType.percent code gross = percentage_of gross code.discount_basis_points
discount_value DiscountType.fixed code gross = ok (of_optional code.discount_amount_minor)

abbrev pub commission_value : CommissionType → AffiliateTerms → Number → Result Number
commission_value CommissionType.percent code final =
    percentage_of final code.commission_basis_points
commission_value CommissionType.fixed code final = ok (of_optional code.commission_amount_minor)

-- The last guard and the returned amounts.
abbrev pub check_amounts : Number → Number → Number → Number → String → Result AffiliateEconomics
check_amounts gross discount final commission currency =
    if gt_number discount gross || le_number commission (num (pos 0)) || gt_number commission final
    then err (referral_error "REFERRAL_CODE_ECONOMICS_INVALID")
    else ok (record {
      gross_amount_minor = gross;
      discount_value_minor = discount;
      final_amount_minor = final;
      commission_value_minor = commission;
      currency = currency;
    })

-- The commission of the final amount, and the checks.
abbrev pub with_final : AffiliateTerms → ServicePrice → Number → Number → Result AffiliateEconomics
with_final code service discount final = elim (commission_value code.commission_type code final) [
  | ok commission ↦
      check_amounts (num (pos service.price_minor)) discount final commission service.currency
  | err e ↦ err e
]

abbrev pub after_discount : AffiliateTerms → ServicePrice → Number → Result AffiliateEconomics
after_discount code service discount =
    with_final code service discount (sub_number (num (pos service.price_minor)) discount)

unfoldable pub calculate_affiliate_economics :
    AffiliateTerms → ServicePrice → Result AffiliateEconomics
unfolding percentage_of
calculate_affiliate_economics code service =
    if discount_mismatch code.discount_type code.discount_currency service.currency
      || commission_mismatch code.commission_type code.commission_currency service.currency
    then err (referral_error "REFERRAL_CODE_CURRENCY_MISMATCH")
    else elim (discount_value code.discount_type code (num (pos service.price_minor))) [
      | ok discount ↦ after_discount code service discount
      | err e ↦ err e
    ]

pub data AffiliateCodeStatus : Type 0 where
  active inactive retired : AffiliateCodeStatus

-- `date && date > now` and `date && date <= now`
abbrev not_started : Option ℕ → ℕ → Bool
not_started none now = false
not_started (some s) now = ltb now s

abbrev has_expired : Option ℕ → ℕ → Bool
has_expired none now = false
has_expired (some e) now = leb e now

unfoldable pub assert_affiliate_code_usable :
    AffiliateCodeStatus → Option ℕ → Option ℕ → ℕ → Result (Unit {0})
assert_affiliate_code_usable inactive starts_at expires_at now =
    err (referral_error "REFERRAL_CODE_INACTIVE")
assert_affiliate_code_usable retired starts_at expires_at now =
    err (referral_error "REFERRAL_CODE_RETIRED")
assert_affiliate_code_usable active starts_at expires_at now =
    if not_started starts_at now
    then err (referral_error "REFERRAL_CODE_NOT_STARTED")
    else if has_expired expires_at now
    then err (referral_error "REFERRAL_CODE_EXPIRED")
    else ok tt
