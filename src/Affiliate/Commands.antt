-- ===== src/Affiliate/Commands.antt =====
-- The calls that change the affiliate store, as data, and histories of calls in any order: each is a
-- transaction, so a history is the sequence in which they commit.
use panalbee_clock_backend.Base.{ℕ, String, List, [], ◌∷◌}
use panalbee_clock_backend.Affiliate.Store.{AffiliateStore}
use panalbee_clock_backend.Affiliate.Ledger.{earn_completed_commission, reverse_commission}
use panalbee_clock_backend.Affiliate.Payout.{
  TenantOperationAuth, CreatePayout, UnpaidStatus, create,
}
use panalbee_clock_backend.Affiliate.Settlement.{mark_paid, mark_unpaid}

pub data Command : Type 0 where
  earn : String → String → String → Command
  reverse : String → String → String → String → String → Command
  request : TenantOperationAuth → String → CreatePayout → String → Command
  settle_paid : TenantOperationAuth → String → String → String → String → String → ℕ → Command
  settle_unpaid :
      TenantOperationAuth → String → String → String → String → UnpaidStatus → String → ℕ → Command

-- The store after a call, whether it answered or threw.
unfoldable pub execute : Command → AffiliateStore → AffiliateStore
execute (earn tenant appointment new_id) s =
    (earn_completed_commission tenant appointment new_id s).1
execute (reverse tenant entry_id reason key new_id) s =
    (reverse_commission tenant entry_id reason key new_id s).1
execute (request auth customer_id dto new_id) s = (create auth customer_id dto new_id s).1
execute (settle_paid auth customer_id payout_id key reference new_id now) s =
    (mark_paid auth customer_id payout_id key reference new_id now s).1
execute (settle_unpaid auth customer_id payout_id key reason status new_id now) s =
    (mark_unpaid auth customer_id payout_id key reason status new_id now s).1

unfoldable pub run : List Command → AffiliateStore → AffiliateStore
run [] s = s
run (c ∷ cs) s = run cs (execute c s)
