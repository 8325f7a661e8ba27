-- ===== src/Affiliate/Balance.antt =====
-- Locks, balances and reservations of an affiliate (src/affiliates/affiliate-ledger.service.ts and
-- affiliate-payout.store.ts).
pub mod Sums
use Prim.Native.String.{compare}
use Prim.Native.Nat.{Ordering}
use panalbee_clock_backend.Base.{
  ℕ, ◌+◌, String, Bool, ◌&&◌, not, List, [], ◌∷◌, Exception, Action, gets, throw_if, modify, ◌>>=◌,
  ◌>>◌, any, keep, update_first, ◌==◌, if◌then◌else◌,
}
use panalbee_clock_backend.Base.Int.{ℤ, pos, ◌+ℤ◌, ◌-ℤ◌}
use panalbee_clock_backend.Affiliate.Store.{
  AffiliateStore, AffiliateLedgerEntry, Direction, credit, debit, AffiliatePayout,
  AffiliateBalanceLock, AffiliatePayoutCapacityLock, is_processing,
}

abbrev pub is_capacity_lock : String → String → AffiliatePayoutCapacityLock → Bool
is_capacity_lock tenant customer l = l.tenant_id == tenant && l.affiliate_customer_id == customer

abbrev pub is_balance_lock : String → String → String → AffiliateBalanceLock → Bool
is_balance_lock tenant customer currency l =
    l.tenant_id == tenant && l.affiliate_customer_id == customer && l.currency == currency

-- The upserts with `$setOnInsert`: a lock that is there stays as it is.
abbrev pub ensure_capacity_lock : String → String → AffiliateStore → AffiliateStore
ensure_capacity_lock tenant customer s =
    if any (is_capacity_lock tenant customer) s.capacity_locks then s else record s {
      capacity_locks =
          record { tenant_id = tenant; affiliate_customer_id = customer; version = 0 }
          ∷ s.capacity_locks;
    }

abbrev pub ensure_balance_lock : String → String → String → AffiliateStore → AffiliateStore
ensure_balance_lock tenant customer currency s =
    if any (is_balance_lock tenant customer currency) s.balance_locks then s else record s {
      balance_locks =
          record {
            tenant_id = tenant;
            affiliate_customer_id = customer;
            currency = currency;
            version = 0;
          }
          ∷ s.balance_locks;
    }

-- One row of the `$group` stage: `$cond` on the direction.
abbrev pub signed : Direction → ℕ → ℤ
signed credit amount = pos amount
signed debit amount = pos 0 -ℤ pos amount

abbrev pub signed_amount : AffiliateLedgerEntry → ℤ
signed_amount e = signed e.direction e.amount_minor

abbrev pub is_account_entry : String → String → AffiliateLedgerEntry → Bool
is_account_entry tenant customer e = e.tenant_id == tenant && e.affiliate_customer_id == customer

-- `$group` by currency.
abbrev pub add_to_group : String → ℤ → List (String × ℤ) → List (String × ℤ)
add_to_group currency amount [] = (currency, amount) ∷ []
add_to_group currency amount ((c, total) ∷ rows) =
    if c == currency
    then (c, total +ℤ amount) ∷ rows
    else (c, total) ∷ add_to_group currency amount rows

unfoldable pub group_by_currency : List AffiliateLedgerEntry → List (String × ℤ)
group_by_currency [] = []
group_by_currency (e ∷ es) = add_to_group e.currency (signed_amount e) (group_by_currency es)

-- `$sort` by the group's key.
abbrev pub insert_row : String × ℤ → List (String × ℤ) → List (String × ℤ)
insert_row r [] = r ∷ []
insert_row r (q ∷ rows) = elim (compare r.0 q.0) [
  | Ordering.gt ↦ q ∷ insert_row r rows
  | _ ↦ r ∷ q ∷ rows
]

unfoldable pub sort_rows : List (String × ℤ) → List (String × ℤ)
sort_rows [] = []
sort_rows (r ∷ rows) = insert_row r (sort_rows rows)

-- `balances`
unfoldable pub balances : String → String → AffiliateStore → List (String × ℤ)
unfolding group_by_currency sort_rows
balances tenant customer s =
    sort_rows (group_by_currency (keep (is_account_entry tenant customer) s.entries))

-- `balances.find((item) => item.currency === currency)?.balanceMinor ?? 0`
abbrev pub balance_in : String → List (String × ℤ) → ℤ
balance_in currency [] = pos 0
balance_in currency ((c, total) ∷ rows) = if c == currency then total else balance_in currency rows

abbrev pub is_reservation : String → String → String → AffiliatePayout → Bool
is_reservation tenant customer currency p =
    p.tenant_id == tenant
    && p.affiliate_customer_id == customer
    && p.currency == currency
    && is_processing p.status

abbrev pub sum_amounts : List AffiliatePayout → ℕ
sum_amounts [] = 0
sum_amounts (p ∷ ps) = p.amount_minor + sum_amounts ps

-- The `$match` and `$sum` over the payouts in PROCESSING; no row reads as 0.
abbrev pub reserved : String → String → String → AffiliateStore → ℕ
reserved tenant customer currency s =
    sum_amounts (keep (is_reservation tenant customer currency) s.payouts)

abbrev bump_balance_lock : AffiliateBalanceLock → AffiliateBalanceLock
bump_balance_lock l = record l { version = l.version + 1 }

-- `findOneAndUpdate` with `$inc`, and the error where there is no lock.
abbrev pub acquire_balance_lock :
    Exception → String → String → String → Action AffiliateStore (Unit {0})
acquire_balance_lock missing tenant customer currency = do
  throw_if (not (← gets (λ s. any (is_balance_lock tenant customer currency) s.balance_locks)))
      missing
  modify (λ s. record s {
    balance_locks =
        update_first (is_balance_lock tenant customer currency) bump_balance_lock s.balance_locks;
  })

-- What is left of the balance beside the reservations.
unfoldable pub available_in : String → String → String → AffiliateStore → ℤ
unfolding balances
available_in tenant customer currency s =
    balance_in currency (balances tenant customer s) -ℤ pos (reserved tenant customer currency s)
