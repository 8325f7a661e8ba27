-- ===== src/Affiliate/Economics/Reference.antt =====
-- The amounts of a referred booking over the natural numbers, and that calculateAffiliateEconomics
-- (src/affiliates/affiliate-economics.ts) computes them.
use panalbee_clock_backend.Base.{
  ℕ, ◌*◌, ◌/◌, ◌-◌, ◌≤◌, ◌<◌, ◌≡◌, refl, ◌⊎◌, inl, inr, Option, none, some, Result, ok, err, arith,
  Bool-cases, leb→le, leb→lt, ◌||◌, Bool, ltb, leb, ◌&&◌, ◌∙◌, true, false, eq_iff, String,
}
use panalbee_clock_backend.Base.Int.{pos, ◌-ℤ◌, ℤ, ltb_ℤ}
use panalbee_clock_backend.Affiliate.Economics.{
  AffiliateTerms, AffiliateEconomics, ServicePrice, DiscountType, CommissionType, num,
  calculate_affiliate_economics, commission_value, discount_mismatch, commission_mismatch,
  referral_error, percentage_of, after_discount, with_final, Number, div_bigint, mul_bigint,
}
use panalbee_clock_backend.Affiliate.Economics.Terms.{
  IsWellFormed, DiscountFields, CommissionFields,
}
use panalbee_clock_backend.Affiliate.Economics.Quotes.{
  IsDiscount, IsCommission, IsQuote, economics_of, discount_of, commission_of, same_currency,
  same_commission_currency, after_discount_at, after_discount_ok,
}

-- Every quote in natural numbers is what the code computes.
pub quote_complete :
    (t : AffiliateTerms) (s : ServicePrice) (d f c : ℕ)
    → IsQuote t s d f c
    → calculate_affiliate_economics t s ≡ ok (economics_of s d f c)
unfolding calculate_affiliate_economics
quote_complete t s d f c q =
    rw
      (
        same_currency t.discount_type t.discount_currency s.currency q.discount_currency,
        same_commission_currency t.commission_type t.commission_currency s.currency
            q.commission_currency,
        discount_of t.discount_type t s.price_minor d q.discount,
      )
      (after_discount_ok t s d f c q)

IsDiscount-total :
    (k : DiscountType) (t : AffiliateTerms) (gross : ℕ)
    → DiscountFields k t
    → (d : ℕ) × IsDiscount k t gross d
IsDiscount-total DiscountType.no_discount t gross h = (0, refl)
IsDiscount-total DiscountType.percent t gross h =
    (gross * h.2.0 / 10_000, (h.2.0, h.2.1, (omega arith, omega arith)))
IsDiscount-total DiscountType.fixed t gross h = h.1

IsCommission-total :
    (k : CommissionType) (t : AffiliateTerms) (final : ℕ)
    → CommissionFields k t
    → (c : ℕ) × IsCommission k t final c
IsCommission-total CommissionType.percent t final h =
    (final * h.2.0 / 10_000, (h.2.0, h.2.1, (omega arith, omega arith)))
IsCommission-total CommissionType.fixed t final h = h.1

-- A commission of a negative amount is still a number.
commission_defined :
    (k : CommissionType) (t : AffiliateTerms) (final : ℤ)
    → CommissionFields k t
    → (c : Number) × (commission_value k t (num final) ≡ ok c)
unfolding percentage_of
commission_defined CommissionType.percent t final h =
    (num (div_bigint (mul_bigint final h.2.0) 10_000), rw h.2.1)
commission_defined CommissionType.fixed t final h = (num (pos h.1.0), rw h.1.1)

abbrev economics_invalid : Result AffiliateEconomics
economics_invalid = err (referral_error "REFERRAL_CODE_ECONOMICS_INVALID")

-- A discount above the price is refused, whatever the commission comes to.
discount_above_price :
    (t : AffiliateTerms) (s : ServicePrice) (d : ℕ)
    → CommissionFields t.commission_type t
    → s.price_minor < d
    → after_discount t s (num (pos d)) ≡ economics_invalid
discount_above_price t s d h above =
    let (c, e) = commission_defined t.commission_type t (pos s.price_minor -ℤ pos d) h in
    let over : ltb_ℤ (pos s.price_minor) (pos d) ≡ true = ground arith in
    rw (with_final, e) (rw over)

-- Below it, the amounts are a quote or the commission is refused.
discount_within_price :
    (t : AffiliateTerms) (s : ServicePrice) (d : ℕ)
    → IsWellFormed t
    → IsDiscount t.discount_type t s.price_minor d
    → d ≤ s.price_minor
    → (t.discount_type ≡ DiscountType.fixed → t.discount_currency ≡ some s.currency)
    → (t.commission_type ≡ CommissionType.fixed → t.commission_currency ≡ some s.currency)
    → ((f : ℕ) × (c : ℕ) × IsQuote t s d f c)
      ⊎ (after_discount t s (num (pos d)) ≡ economics_invalid)
discount_within_price t s d w share within discount_fit commission_fit =
    let f : ℕ = s.price_minor - d in
    let (c, earned) = IsCommission-total t.commission_type t f w.commission in
    let at =
      after_discount_at t s d f (num (pos c)) (omega arith)
        (commission_of t.commission_type t f c earned) in
    elim (Bool-cases (ltb 0 c && leb c f)) [
      | inl fits ↦ inl (
        f,
        c,
        record {
          discount = share;
          split = omega arith;
          commission = earned;
          positive = ground arith;
          covered = ground arith;
          discount_currency = discount_fit;
          commission_currency = commission_fit;
        },
      )
      | inr unfit ↦ inr (at ∙ ground (arith, unfit))
    ]

currency_fits :
    (k : DiscountType) (o : Option String) (currency : String)
    → discount_mismatch k o currency ≡ false
    → k ≡ DiscountType.fixed
    → o ≡ some currency
currency_fits DiscountType.no_discount o currency h e = cc
currency_fits DiscountType.percent o currency h e = cc
currency_fits DiscountType.fixed none currency h e = cc
currency_fits DiscountType.fixed (some c) currency h e = ground (arith, eq_iff c currency)

commission_currency_fits :
    (k : CommissionType) (o : Option String) (currency : String)
    → commission_mismatch k o currency ≡ false
    → k ≡ CommissionType.fixed
    → o ≡ some currency
commission_currency_fits CommissionType.percent o currency h e = cc
commission_currency_fits CommissionType.fixed none currency h e = cc
commission_currency_fits CommissionType.fixed (some c) currency h e =
    ground (arith, eq_iff c currency)

abbrev mismatch : AffiliateTerms → ServicePrice → Bool
mismatch t s =
    discount_mismatch t.discount_type t.discount_currency s.currency
    || commission_mismatch t.commission_type t.commission_currency s.currency

-- A result is a quote, or one of the two errors of the referral code.
abbrev pub IsQuoted : AffiliateTerms → ServicePrice → Type 0
IsQuoted t s =
    ((d : ℕ) × (f : ℕ) × (c : ℕ) × IsQuote t s d f c
      × (calculate_affiliate_economics t s ≡ ok (economics_of s d f c)))
    ⊎ (calculate_affiliate_economics t s ≡ err (referral_error "REFERRAL_CODE_CURRENCY_MISMATCH"))
    ⊎ (calculate_affiliate_economics t s ≡ err (referral_error "REFERRAL_CODE_ECONOMICS_INVALID"))

-- Where the currencies agree.
within_currency :
    (t : AffiliateTerms) (s : ServicePrice)
    → IsWellFormed t
    → discount_mismatch t.discount_type t.discount_currency s.currency ≡ false
    → commission_mismatch t.commission_type t.commission_currency s.currency ≡ false
    → IsQuoted t s
unfolding calculate_affiliate_economics
within_currency t s w same same_commission =
    let (d, share) = IsDiscount-total t.discount_type t s.price_minor w.discount in
    let start = discount_of t.discount_type t s.price_minor d share in
    elim (Bool-cases (leb d s.price_minor)) [
      | inr above ↦ inr (
          inr (
            rw (same, same_commission, start)
              (discount_above_price t s d w.commission (leb→lt d s.price_minor above))))
      | inl within ↦
          elim (discount_within_price t s d w share (leb→le d s.price_minor within)
            (currency_fits t.discount_type t.discount_currency s.currency same)
            (commission_currency_fits t.commission_type t.commission_currency s.currency
              same_commission)) [
                | inl (f, c, q) ↦ inl (d, f, c, q, quote_complete t s d f c q)
                | inr invalid ↦ inr (inr (rw (same, same_commission, start) invalid))
              ]
    ]

-- The converse: for well-formed terms the only results are quotes, and the only errors are the two
-- of the referral code.
pub quote_sound : (t : AffiliateTerms) (s : ServicePrice) → IsWellFormed t → IsQuoted t s
unfolding calculate_affiliate_economics
quote_sound t s w = elim (Bool-cases (mismatch t s)) [
  | inl bad ↦ inr (inl (rw bad))
  | inr same ↦ within_currency t s w (ground (arith, same)) (ground (arith, same))
]
