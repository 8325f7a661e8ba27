-- ===== src/Affiliate/Tests.antt =====
-- The affiliate programme on a small store: a commission of 300 is earned, 200 of it are paid out.
use panalbee_clock_backend.Base.{
  ℕ, ◌+◌, ◌≤◌, ◌≡◌, refl, List, [], ◌∷◌, Option, none, some, ok, arith, inl, Result, ◌⊎◌, true, ◌↔◌,
  err,
}
use panalbee_clock_backend.Base.Int.{pos, ◌-ℤ◌}
use panalbee_clock_backend.Affiliate.Store.{AffiliateStore, AffiliatePayout, ReferralConversion}
use panalbee_clock_backend.Affiliate.Economics.{
  AffiliateTerms, DiscountType, CommissionType, ServicePrice, calculate_affiliate_economics,
  normalize_affiliate_terms, terms_invalid,
}
use panalbee_clock_backend.Affiliate.Economics.Terms.{IsWellFormed, normalize_decides}
use panalbee_clock_backend.Affiliate.Economics.Reference.{IsQuoted, quote_complete, quote_sound}
use panalbee_clock_backend.Affiliate.Economics.Quotes.{IsQuote, economics_of}
use panalbee_clock_backend.Affiliate.Balance.{reserved, balances, balance_in}
use panalbee_clock_backend.Affiliate.Balance.Sums.{credits, debits, balances-eq-sums}
use panalbee_clock_backend.Affiliate.Payout.{
  TenantOperationAuth, tenant, CreatePayout, as_failed, new_payout, create,
}
use panalbee_clock_backend.Affiliate.Ledger.{reverse_commission}
use panalbee_clock_backend.Affiliate.Settlement.{mark_paid, mark_unpaid}
use panalbee_clock_backend.Affiliate.Replay.Create.{create_twice}
use panalbee_clock_backend.Affiliate.Commands.{Command, earn, request, settle_paid, run}
use panalbee_clock_backend.Affiliate.Solvency.{IsSolvent}
use panalbee_clock_backend.Affiliate.Solvency.Histories.{run-IsSolvent}

abbrev conversion : ReferralConversion
conversion = record {
  id = "r1";
  tenant_id = "t1";
  affiliate_code_id = "k1";
  affiliate_customer_id = "c1";
  referred_customer_id = "c2";
  appointment_id = "a1";
  service_id = "s1";
  code_snapshot = "EVA";
  terms = record {
    discount_type = DiscountType.no_discount;
    discount_basis_points = none;
    discount_amount_minor = none;
    discount_currency = none;
    commission_type = CommissionType.percent;
    commission_basis_points = some 300;
    commission_amount_minor = none;
    commission_currency = none;
    starts_at = none;
    expires_at = none;
  };
  gross_amount_minor = 10_000;
  discount_value_minor = 0;
  final_amount_minor = 10_000;
  currency = "COP";
  commission_value_minor = 300;
}

abbrev start : AffiliateStore
start = record {
  customers =
      record { id = "c1"; tenant_id = "t1"; full_name = "Eva"; phone = none; email = none } ∷ [];
  codes = [];
  conversions = conversion ∷ [];
  entries = [];
  payouts = [];
  balance_locks = [];
  capacity_locks = [];
  audits = [];
}

abbrev owner : TenantOperationAuth
owner = record { actor_type = tenant; user_id = "u1"; tenant_id = "t1" }

abbrev ask : ℕ → CreatePayout
ask amount = record {
  idempotency_key = "key-0001";
  amount_minor = amount;
  currency = "COP";
  external_reference = none;
}

-- The second request, for more than is left, is refused and changes nothing.
abbrev history : List Command
history =
    earn "t1" "a1" "e1"
    ∷ request owner "c1" (ask 200) "p1"
    ∷ request owner "c1"
        (record {
          idempotency_key = "key-0002";
          amount_minor = 101;
          currency = "COP";
          external_reference = none;
        })
        "p2"
    ∷ settle_paid owner "c1" "p1" "key-0003" " bank-77 " "e2" 1000
    ∷ []

history_sums :
    let s = run history start in
    (credits "t1" "c1" "COP" s.entries ≡ 300)
    × (debits "t1" "c1" "COP" s.entries ≡ 200)
    × (reserved "t1" "c1" "COP" s ≡ 0)
unfolding run panalbee_clock_backend.Affiliate.Commands.execute credits debits
    panalbee_clock_backend.Affiliate.Ledger.earn_completed_commission
    panalbee_clock_backend.Affiliate.Payout.create
    panalbee_clock_backend.Affiliate.Settlement.mark_paid panalbee_clock_backend.Base.Text.trim
    panalbee_clock_backend.Base.Text.length_utf16 ◌-ℤ◌
history_sums = (refl, refl, refl)

start-IsSolvent : IsSolvent start
unfolding credits debits
start-IsSolvent t c r = omega arith

run-IsSolvent_example :
    debits "t1" "c1" "COP" (run history start).entries
      + reserved "t1" "c1" "COP" (run history start)
    ≤ credits "t1" "c1" "COP" (run history start).entries
run-IsSolvent_example = run-IsSolvent history start start-IsSolvent "t1" "c1" "COP"

balances-eq-sums_example :
    balance_in "COP" (balances "t1" "c1" (run history start))
    ≡ pos (credits "t1" "c1" "COP" (run history start).entries)
      -ℤ pos (debits "t1" "c1" "COP" (run history start).entries)
balances-eq-sums_example = balances-eq-sums "t1" "c1" "COP" (run history start)

-- Ten per cent off, and fifteen per cent of the rest for the affiliate.
abbrev terms : AffiliateTerms
terms = record {
  discount_type = DiscountType.percent;
  discount_basis_points = some 1000;
  discount_amount_minor = none;
  discount_currency = none;
  commission_type = CommissionType.percent;
  commission_basis_points = some 1500;
  commission_amount_minor = none;
  commission_currency = none;
  starts_at = some 10;
  expires_at = some 20;
}

abbrev service : ServicePrice
service = record { price_minor = 9999; currency = "COP" }

terms-IsQuote : IsQuote terms service 999 9000 1350
terms-IsQuote = record {
  discount = (1000, refl, (omega arith, omega arith));
  split = omega arith;
  commission = (1500, refl, (omega arith, omega arith));
  positive = omega arith;
  covered = omega arith;
  discount_currency = λ e. cc;
  commission_currency = λ e. cc;
}

quote_complete_example :
    calculate_affiliate_economics terms service ≡ ok (economics_of service 999 9000 1350)
quote_complete_example = quote_complete terms service 999 9000 1350 terms-IsQuote

terms-IsWellFormed : IsWellFormed terms
terms-IsWellFormed = record {
  discount = (refl, refl, (1000, refl));
  commission = (refl, refl, (1500, refl));
  period = omega arith;
}

quote_sound_example : IsQuoted terms service
quote_sound_example = quote_sound terms service terms-IsWellFormed

normalize_decides_example :
    (IsWellFormed terms × (normalize_affiliate_terms terms ≡ ok terms))
    ⊎ (¬ IsWellFormed terms × (normalize_affiliate_terms terms ≡ err terms_invalid))
normalize_decides_example = normalize_decides terms refl refl

abbrev after_commission : AffiliateStore
after_commission = run (earn "t1" "a1" "e1" ∷ []) start

-- The payout that the request for 200 creates.
abbrev asked : AffiliatePayout
asked = new_payout owner "c1" (ask 200) none "p1"

asked-created : (create owner "c1" (ask 200) "p1" after_commission).0 ≡ ok asked
unfolding create run panalbee_clock_backend.Affiliate.Commands.execute
    panalbee_clock_backend.Affiliate.Ledger.earn_completed_commission ◌-ℤ◌
asked-created = refl

create_twice_example :
    create owner "c1" (ask 200) "p9" (create owner "c1" (ask 200) "p1" after_commission).1
    ≡ (ok asked, (create owner "c1" (ask 200) "p1" after_commission).1)
create_twice_example =
    create_twice owner "c1" (ask 200) "p1" "p9" after_commission asked asked-created
