-- ===== src/Affiliate/Economics/Quotes.antt =====
-- A quote over the natural numbers, and what the code computes of it
-- (src/affiliates/affiliate-economics.ts).
use panalbee_clock_backend.Base.{
  ℕ, ◌+◌, ◌*◌, ◌/◌, ◌≤◌, ◌<◌, ◌≡◌, refl, Option, some, ok, arith, ◌∙◌, false, eq_refl, String,
}
use panalbee_clock_backend.Base.Int.{pos, int_laws, ◌-ℤ◌}
use panalbee_clock_backend.Affiliate.Economics.{
  AffiliateTerms, AffiliateEconomics, ServicePrice, DiscountType, CommissionType, num,
  discount_value, commission_value, discount_mismatch, commission_mismatch, check_amounts,
  percentage_of, after_discount, with_final, Number,
}

-- `v` is `b` basis points of `a`, rounded down.
abbrev IsShare : ℕ → ℕ → ℕ → Type 0
IsShare a b v = (v * 10_000 ≤ a * b) × (a * b < (v + 1) * 10_000)

abbrev pub IsDiscount : DiscountType → AffiliateTerms → ℕ → ℕ → Type 0
IsDiscount DiscountType.no_discount t gross d = d ≡ 0
IsDiscount DiscountType.percent t gross d =
    (b : ℕ) × (t.discount_basis_points ≡ some b) × IsShare gross b d
IsDiscount DiscountType.fixed t gross d = t.discount_amount_minor ≡ some d

abbrev pub IsCommission : CommissionType → AffiliateTerms → ℕ → ℕ → Type 0
IsCommission CommissionType.percent t final c =
    (b : ℕ) × (t.commission_basis_points ≡ some b) × IsShare final b c
IsCommission CommissionType.fixed t final c = t.commission_amount_minor ≡ some c

-- The discount `d`, the final amount `f` and the commission `c` of a price.
pub record IsQuote (t : AffiliateTerms) (s : ServicePrice) (d f c : ℕ) : Type 0 where
  pub discount : IsDiscount t.discount_type t s.price_minor d
  pub split : d + f ≡ s.price_minor
  pub commission : IsCommission t.commission_type t f c
  pub positive : 0 < c
  pub covered : c ≤ f
  pub discount_currency :
      t.discount_type ≡ DiscountType.fixed → t.discount_currency ≡ some s.currency
  pub commission_currency :
      t.commission_type ≡ CommissionType.fixed → t.commission_currency ≡ some s.currency

abbrev pub economics_of : ServicePrice → ℕ → ℕ → ℕ → AffiliateEconomics
economics_of s d f c = record {
  gross_amount_minor = num (pos s.price_minor);
  discount_value_minor = num (pos d);
  final_amount_minor = num (pos f);
  commission_value_minor = num (pos c);
  currency = s.currency;
}

sub_pos : (a d f : ℕ) → d + f ≡ a → pos a -ℤ pos d ≡ pos f
sub_pos a d f h = omega int_laws

pub discount_of :
    (k : DiscountType) (t : AffiliateTerms) (gross d : ℕ)
    → IsDiscount k t gross d
    → discount_value k t (num (pos gross)) ≡ ok (num (pos d))
unfolding percentage_of
discount_of DiscountType.no_discount t gross d h = rw h
discount_of DiscountType.percent t gross d (b, e, share) =
    let floor : gross * b / 10_000 ≡ d = omega arith in rw (e, floor)
discount_of DiscountType.fixed t gross d h = rw h

pub commission_of :
    (k : CommissionType) (t : AffiliateTerms) (final c : ℕ)
    → IsCommission k t final c
    → commission_value k t (num (pos final)) ≡ ok (num (pos c))
unfolding percentage_of
commission_of CommissionType.percent t final c (b, e, share) =
    let floor : final * b / 10_000 ≡ c = omega arith in rw (e, floor)
commission_of CommissionType.fixed t final c h = rw h

pub same_currency :
    (k : DiscountType) (o : Option String) (currency : String)
    → (k ≡ DiscountType.fixed → o ≡ some currency)
    → discount_mismatch k o currency ≡ false
same_currency DiscountType.no_discount o currency h = refl
same_currency DiscountType.percent o currency h = refl
same_currency DiscountType.fixed o currency h = rw (h refl, eq_refl currency)

pub same_commission_currency :
    (k : CommissionType) (o : Option String) (currency : String)
    → (k ≡ CommissionType.fixed → o ≡ some currency)
    → commission_mismatch k o currency ≡ false
same_commission_currency CommissionType.percent o currency h = refl
same_commission_currency CommissionType.fixed o currency h = rw (h refl, eq_refl currency)

check_amounts_ok :
    (s : ServicePrice) (d f c : ℕ)
    → d + f ≡ s.price_minor
    → 0 < c
    → c ≤ f
    → check_amounts (num (pos s.price_minor)) (num (pos d)) (num (pos f)) (num (pos c)) s.currency
      ≡ ok (economics_of s d f c)
check_amounts_ok s d f c split positive covered = ground arith

pub after_discount_at :
    (t : AffiliateTerms) (s : ServicePrice) (d f : ℕ) (m : Number)
    → d + f ≡ s.price_minor
    → commission_value t.commission_type t (num (pos f)) ≡ ok m
    → after_discount t s (num (pos d))
      ≡ check_amounts (num (pos s.price_minor)) (num (pos d)) (num (pos f)) m s.currency
after_discount_at t s d f m split e = rw (sub_pos s.price_minor d f split) (rw (with_final, e))

pub after_discount_ok :
    (t : AffiliateTerms) (s : ServicePrice) (d f c : ℕ)
    → IsQuote t s d f c
    → after_discount t s (num (pos d)) ≡ ok (economics_of s d f c)
after_discount_ok t s d f c q =
    after_discount_at t s d f _ q.split (commission_of t.commission_type t f c q.commission)
    ∙ check_amounts_ok s d f c q.split q.positive q.covered
