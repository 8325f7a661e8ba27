-- ===== src/Affiliate/Codes/Tests.antt =====
-- Codes of one customer.
use panalbee_clock_backend.Base.{
  ℕ, String, Bool, true, false, ◌==◌, List, [], ◌∷◌, Option, none, some, ok, ◌≡◌, refl, beq,
  if◌then◌else◌, map,
}
use panalbee_clock_backend.Affiliate.Economics.{
  AffiliateTerms, AffiliateCodeStatus, DiscountType, CommissionType,
}
use panalbee_clock_backend.Affiliate.Store.{AffiliateStore}
use panalbee_clock_backend.Affiliate.Payout.{TenantOperationAuth, tenant}
use panalbee_clock_backend.Affiliate.Codes.Create.{create_code_loop}
use panalbee_clock_backend.Affiliate.Codes.Current.{
  CodeCommand, create_command, retire_command, run_codes, run_codes-AreOrderly,
}
use panalbee_clock_backend.Affiliate.Codes.Orderly.{AreOrderly, no_codes}
use panalbee_clock_backend.Affiliate.Codes.Attempts.{
  MayCreate, answer, first_free, create_code_loop-eq,
}

abbrev terms : AffiliateTerms
terms = record {
  discount_type = DiscountType.no_discount;
  discount_basis_points = none;
  discount_amount_minor = none;
  discount_currency = none;
  commission_type = CommissionType.percent;
  commission_basis_points = some 300;
  commission_amount_minor = none;
  commission_currency = none;
  starts_at = none;
  expires_at = none;
}

abbrev shop : AffiliateStore
shop = record {
  customers =
      record { id = "c1"; tenant_id = "t1"; full_name = "Eva"; phone = none; email = none }
      ∷ record { id = "c2"; tenant_id = "t1"; full_name = "Leo"; phone = none; email = none }
      ∷ [];
  codes = [];
  conversions = [];
  entries = [];
  payouts = [];
  balance_locks = [];
  capacity_locks = [];
  audits = [];
}

abbrev owner : TenantOperationAuth
owner = record { actor_type = tenant; user_id = "u1"; tenant_id = "t1" }

-- A text is taken at the first attempt, and free at the second.
abbrev generated : ℕ → String
generated k = if beq k 7 then "PB-1" else "PB-2"

-- A second code of the customer is refused until the first is retired.
abbrev commands : List CodeCommand
commands =
    create_command owner "c1" (record { code = some "eva1"; terms = terms }) generated (λ k. "k1")
    ∷ create_command owner "c1" (record { code = some "eva2"; terms = terms }) generated (λ k. "k2")
    ∷ retire_command owner "c1" "k1" 100
    ∷ create_command owner "c1" (record { code = some "eva3"; terms = terms }) generated (λ k. "k3")
    ∷ []

codes_left : map (λ c. c.normalized_code) (run_codes commands shop).codes ≡ "EVA3" ∷ "EVA1" ∷ []
unfolding run_codes panalbee_clock_backend.Affiliate.Economics.normalize_affiliate_terms
    panalbee_clock_backend.Affiliate.Codes.normalize_affiliate_code
    panalbee_clock_backend.Base.Text.trim
codes_left = refl

run_codes-AreOrderly_example : AreOrderly (run_codes commands shop).codes
run_codes-AreOrderly_example = run_codes-AreOrderly commands shop no_codes

abbrev taken : AffiliateStore
taken = record shop {
  codes =
      record {
        id = "k0";
        tenant_id = "t1";
        customer_id = "c2";
        normalized_code = "PB-1";
        status = AffiliateCodeStatus.active;
        current_slot = true;
        terms = terms;
        deactivated_at = none;
        reactivated_at = none;
        retired_at = none;
      }
      ∷ [];
}

may_create : MayCreate owner "c1" terms (λ k. if beq k 7 then "PB-1" else "PB-2") (λ k. "k9") taken
may_create = record {
  customer = refl;
  valid = refl;
  vacant = refl;
  fresh = λ k. refl;
  filled = λ k. filled_by (beq k 7);
}
  where
    filled_by : (b : Bool) → (if b then "PB-1" else "PB-2") == "" ≡ false
    filled_by true = refl
    filled_by false = refl

create_code_loop-eq_example :
    create_code_loop owner "c1" terms none generated (λ k. "k9") 8 taken
    ≡ answer owner "c1" terms generated
        (λ k. "k9")
        taken
        (first_free owner "c1" terms generated (λ k. "k9") taken 8)
create_code_loop-eq_example =
    create_code_loop-eq owner "c1" terms generated (λ k. "k9") taken may_create 7
