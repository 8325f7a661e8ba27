-- ===== src/Affiliate/Solvency/Histories.antt =====
-- Solvency of every history of calls.
use panalbee_clock_backend.Base.{◌+◌, ◌≤◌, String, List, [], ◌∷◌}
use panalbee_clock_backend.Affiliate.Store.{AffiliateStore}
use panalbee_clock_backend.Affiliate.Balance.{reserved}
use panalbee_clock_backend.Affiliate.Balance.Sums.{credits, debits}
use panalbee_clock_backend.Affiliate.Commands.{
  Command, earn, reverse, request, settle_paid, settle_unpaid, execute, run,
}
use panalbee_clock_backend.Affiliate.Solvency.{IsSolvent}
use panalbee_clock_backend.Affiliate.Solvency.Ledger.{
  earn_completed_commission-IsSolvent, reverse_commission-IsSolvent,
}
use panalbee_clock_backend.Affiliate.Solvency.Payout.{create-IsSolvent}
use panalbee_clock_backend.Affiliate.Solvency.Settlement.{
  mark_paid-IsSolvent, mark_unpaid-IsSolvent,
}

execute-IsSolvent : (c : Command) (s : AffiliateStore) → IsSolvent s → IsSolvent (execute c s)
unfolding execute
execute-IsSolvent (earn tenant appointment new_id) s h =
    (earn_completed_commission-IsSolvent tenant appointment new_id).on s h
execute-IsSolvent (reverse tenant entry_id reason key new_id) s h =
    (reverse_commission-IsSolvent tenant entry_id reason key new_id).on s h
execute-IsSolvent (request auth customer_id dto new_id) s h =
    (create-IsSolvent auth customer_id dto new_id).on s h
execute-IsSolvent (settle_paid auth customer_id payout_id key reference new_id now) s h =
    (mark_paid-IsSolvent auth customer_id payout_id key new_id now reference).on s h
execute-IsSolvent (settle_unpaid auth customer_id payout_id key reason status new_id now) s h =
    (mark_unpaid-IsSolvent auth customer_id payout_id key new_id now reason status).on s h

-- After any history of commissions, reversals and payout calls that starts from a store in which every
-- account is covered, the debits and the payouts in process of every tenant, customer and currency
-- together are at most the credits.
pub run-IsSolvent :
    (cs : List Command) (s : AffiliateStore)
    → IsSolvent s
    → (tenant customer currency : String)
    → debits tenant customer currency (run cs s).entries
        + reserved tenant customer currency (run cs s)
      ≤ credits tenant customer currency (run cs s).entries
unfolding run
run-IsSolvent [] s h = h
run-IsSolvent (c ∷ cs) s h = run-IsSolvent cs (execute c s) (execute-IsSolvent c s h)
