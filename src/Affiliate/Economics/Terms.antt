-- ===== src/Affiliate/Economics/Terms.antt =====
-- Which terms a code may have (normalizeAffiliateTerms in src/affiliates/affiliate-economics.ts).
use panalbee_clock_backend.Base.{
  ℕ, ◌<◌, ◌≡◌, ◌↔◌, refl, true, false, ◌⊎◌, inl, inr, String, Option, none, some, ok, err, arith,
  Bool-cases,
}
use panalbee_clock_backend.Affiliate.Economics.{
  AffiliateTerms, DiscountType, CommissionType, discount_fields_valid, commission_fields_valid,
  period_inverted, present, terms_invalid, normalize_affiliate_terms,
}

-- Each kind of discount comes with its own fields and no others.
abbrev pub DiscountFields : DiscountType → AffiliateTerms → Type 0
DiscountFields DiscountType.no_discount t =
    (t.discount_basis_points ≡ none)
    × (t.discount_amount_minor ≡ none)
    × (t.discount_currency ≡ none)
DiscountFields DiscountType.percent t =
    (t.discount_amount_minor ≡ none)
    × (t.discount_currency ≡ none)
    × ((b : ℕ) × (t.discount_basis_points ≡ some b))
DiscountFields DiscountType.fixed t =
    (t.discount_basis_points ≡ none)
    × ((a : ℕ) × (t.discount_amount_minor ≡ some a))
    × ((c : String) × (t.discount_currency ≡ some c))

abbrev pub CommissionFields : CommissionType → AffiliateTerms → Type 0
CommissionFields CommissionType.percent t =
    (t.commission_amount_minor ≡ none)
    × (t.commission_currency ≡ none)
    × ((b : ℕ) × (t.commission_basis_points ≡ some b))
CommissionFields CommissionType.fixed t =
    (t.commission_basis_points ≡ none)
    × ((a : ℕ) × (t.commission_amount_minor ≡ some a))
    × ((c : String) × (t.commission_currency ≡ some c))

-- A period that has both ends ends after it starts.
abbrev OrderedPeriod : Option ℕ → Option ℕ → Type 0
OrderedPeriod (some s) (some e) = s < e
OrderedPeriod (some s) none = Unit
OrderedPeriod none e = Unit

pub record IsWellFormed (t : AffiliateTerms) : Type 0 where
  pub discount : DiscountFields t.discount_type t
  pub commission : CommissionFields t.commission_type t
  pub period : OrderedPeriod t.starts_at t.expires_at

DiscountFields-iff :
    (d : DiscountType) (t : AffiliateTerms)
    → (discount_fields_valid d t ≡ true) ↔ DiscountFields d t
DiscountFields-iff DiscountType.no_discount t = ground arith
DiscountFields-iff _ t = ground arith

CommissionFields-iff :
    (d : CommissionType) (t : AffiliateTerms)
    → (commission_fields_valid d t ≡ true) ↔ CommissionFields d t
CommissionFields-iff CommissionType.percent t = ground arith
CommissionFields-iff _ t = ground arith

period_iff : (s e : Option ℕ) → (period_inverted s e ≡ false) ↔ OrderedPeriod s e
period_iff none e = (λ _. tt, λ _. refl)
period_iff (some s) none = (λ _. tt, λ _. refl)
period_iff (some s) (some e) = ground arith

-- For a request whose currencies are not empty texts: terms that are well formed are taken over
-- unchanged, and all others are refused with AFFILIATE_TERMS_INVALID.
pub normalize_decides :
    (dto : AffiliateTerms)
    → present dto.discount_currency ≡ dto.discount_currency
    → present dto.commission_currency ≡ dto.commission_currency
    → (IsWellFormed dto × (normalize_affiliate_terms dto ≡ ok dto))
      ⊎ (¬ IsWellFormed dto × (normalize_affiliate_terms dto ≡ err terms_invalid))
unfolding normalize_affiliate_terms
normalize_decides dto d c = elim (Bool-cases (discount_fields_valid dto.discount_type dto)) [
  | inr bad ↦ inr ((λ w. cc ((DiscountFields-iff dto.discount_type dto).1 w.discount)), rw bad)
  | inl good ↦ elim (Bool-cases (commission_fields_valid dto.commission_type dto)) [
    | inr bad ↦
        inr (
          (λ w. cc ((CommissionFields-iff dto.commission_type dto).1 w.commission)),
          rw (good, bad),
        )
    | inl fine ↦ elim (Bool-cases (period_inverted dto.starts_at dto.expires_at)) [
      | inl bad ↦
          inr
            ((λ w. cc ((period_iff dto.starts_at dto.expires_at).1 w.period)), rw (good, fine, bad))
      | inr straight ↦ inl (
        record {
          discount = (DiscountFields-iff dto.discount_type dto).0 good;
          commission = (CommissionFields-iff dto.commission_type dto).0 fine;
          period = (period_iff dto.starts_at dto.expires_at).0 straight;
        },
        rw (good, fine, straight, d, c),
      )
    ]
  ]
]
