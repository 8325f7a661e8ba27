-- ===== src/Affiliate/Settlement.antt =====
-- The end of a payout: markPaid, markUnpaid and their transition
-- (src/affiliates/affiliate-payout.service.ts).
use panalbee_clock_backend.Base.{
  ℕ, String, Bool, ◌&&◌, not, Option, none, some, Exception, Action, Result, ok, err, pure, throw,
  gets, lift, or_throw, insert_unique, ◌>>=◌, ◌>>◌, with_transaction, try_catch,
  is_named_duplicate_key, any, find, update_first, ◌==◌, if◌then◌else◌, false, true,
}
use panalbee_clock_backend.Base.Text.{concat}
use panalbee_clock_backend.Affiliate.Store.{
  AffiliateStore, AffiliateLedgerEntry, debit, payout_paid, PayoutStatus, paid, failed, cancelled,
  AffiliatePayout, is_processing, is_text, save_entry,
}
use panalbee_clock_backend.Affiliate.Balance.{acquire_balance_lock}
use panalbee_clock_backend.Affiliate.Payout.{
  TenantOperationAuth, TerminalInput, pay, close, UnpaidStatus, as_failed, as_cancelled,
  assert_direct_tenant, required_payout_text, record_audit, insufficient_balance, payout_not_found,
  payout_conflict,
}

abbrev pub is_payout : String → String → String → AffiliatePayout → Bool
is_payout tenant_id customer_id payout_id p =
    p.id == payout_id && p.tenant_id == tenant_id && p.affiliate_customer_id == customer_id

abbrev pub payout_entry :
    TenantOperationAuth → String → AffiliatePayout → String → AffiliateLedgerEntry
payout_entry auth customer_id p new_id = record {
  id = new_id;
  tenant_id = auth.tenant_id;
  affiliate_customer_id = customer_id;
  conversion_id = none;
  appointment_id = none;
  payout_id = some p.id;
  currency = p.currency;
  direction = debit;
  type = payout_paid;
  amount_minor = p.amount_minor;
  idempotency_key = concat "payout:" p.id;
  reversal_of_entry_id = none;
  reason = none;
}

abbrev status_of : UnpaidStatus → PayoutStatus
status_of as_failed = failed
status_of as_cancelled = cancelled

abbrev failed_at_of : UnpaidStatus → ℕ → Option ℕ → Option ℕ
failed_at_of as_failed now old = some now
failed_at_of as_cancelled now old = old

abbrev cancelled_at_of : UnpaidStatus → ℕ → Option ℕ → Option ℕ
cancelled_at_of as_failed now old = old
cancelled_at_of as_cancelled now old = some now

-- The assignments to the loaded document.
abbrev pub settled : TerminalInput → ℕ → AffiliatePayout → AffiliatePayout
settled (pay key reference) now p = record p {
  status = paid;
  external_reference = some reference;
  paid_at = some now;
  terminal_idempotency_key = some key;
}
settled (close status key reason) now p = record p {
  status = status_of status;
  reason = some reason;
  failed_at = failed_at_of status now p.failed_at;
  cancelled_at = cancelled_at_of status now p.cancelled_at;
  terminal_idempotency_key = some key;
}

abbrev input_key : TerminalInput → String
input_key (pay key reference) = key
input_key (close status key reason) = key

abbrev audit_action : TerminalInput → String
audit_action (pay key reference) = "AFFILIATE_PAYOUT_PAID"
audit_action (close as_failed key reason) = "AFFILIATE_PAYOUT_FAILED"
audit_action (close as_cancelled key reason) = "AFFILIATE_PAYOUT_CANCELLED"

-- The unique index on the terminal key, against the other payouts.
abbrev has_terminal_key : AffiliatePayout → String → AffiliatePayout → Bool
has_terminal_key p key q =
    q.tenant_id == p.tenant_id && is_text q.terminal_idempotency_key key && not (q.id == p.id)

-- The debit, only for a payout that is paid.
unfoldable save_debit :
    TenantOperationAuth
    → String
    → AffiliatePayout
    → String
    → TerminalInput
    → Action AffiliateStore (Unit {0})
unfolding save_entry
save_debit auth customer_id p new_id (pay key reference) =
    save_entry (payout_entry auth customer_id p new_id)
save_debit auth customer_id p new_id (close status key reason) = pure tt

-- `payout.save`: the index on the terminal key, then the write to the document that was loaded.
unfoldable save_settled :
    TenantOperationAuth
    → String
    → String
    → AffiliatePayout
    → TerminalInput
    → ℕ
    → Action AffiliateStore (Unit {0})
save_settled auth customer_id payout_id p input now =
    insert_unique (λ s. any (has_terminal_key p (input_key input)) s.payouts)
      "affiliate_payout_terminal_idempotency_unique"
      (λ s. record s {
        payouts =
            update_first (is_payout auth.tenant_id customer_id payout_id) (settled input now)
              s.payouts;
      })

unfoldable pub settle_processing :
    TenantOperationAuth
    → String
    → String
    → AffiliatePayout
    → TerminalInput
    → String
    → ℕ
    → Action AffiliateStore AffiliatePayout
unfolding save_debit save_settled
settle_processing auth customer_id payout_id p input new_id now = do
  acquire_balance_lock insufficient_balance auth.tenant_id customer_id p.currency
  save_debit auth customer_id p new_id input
  save_settled auth customer_id payout_id p input now
  record_audit (audit_action input) auth (settled input now p)
  pure (settled input now p)

abbrev is_status : UnpaidStatus → PayoutStatus → Bool
is_status as_failed failed = true
is_status as_failed _ = false
is_status as_cancelled cancelled = true
is_status as_cancelled _ = false

abbrev is_paid : PayoutStatus → Bool
is_paid paid = true
is_paid _ = false

-- The comparison of `terminalReplay`.
abbrev is_exact_input : TerminalInput → AffiliatePayout → Bool
is_exact_input (pay key reference) p =
    is_paid p.status
    && is_text p.terminal_idempotency_key key
    && is_text p.external_reference reference
is_exact_input (close status key reason) p =
    is_status status p.status && is_text p.terminal_idempotency_key key && is_text p.reason reason

unfoldable pub terminal_replay : AffiliatePayout → TerminalInput → Result AffiliatePayout
terminal_replay p input = if is_exact_input input p then ok p else err payout_conflict

-- A payout that has ended is only replayed.
unfoldable pub transition_found :
    TenantOperationAuth
    → String
    → String
    → TerminalInput
    → String
    → ℕ
    → AffiliatePayout
    → Action AffiliateStore AffiliatePayout
unfolding settle_processing terminal_replay
transition_found auth customer_id payout_id input new_id now p =
    if not (is_processing p.status)
    then lift (terminal_replay p input)
    else settle_processing auth customer_id payout_id p input new_id now

unfoldable pub transition_work :
    TenantOperationAuth
    → String
    → String
    → TerminalInput
    → String
    → ℕ
    → Action AffiliateStore AffiliatePayout
unfolding transition_found
transition_work auth customer_id payout_id input new_id now = do
  found ← gets (λ s. find (is_payout auth.tenant_id customer_id payout_id) s.payouts)
  p ← or_throw found payout_not_found
  transition_found auth customer_id payout_id input new_id now p

unfoldable pub replay_or_conflict :
    TerminalInput → Option AffiliatePayout → Action AffiliateStore AffiliatePayout
unfolding terminal_replay
replay_or_conflict input none = throw payout_conflict
replay_or_conflict input (some p) = lift (terminal_replay p input)

unfoldable pub transition_recover :
    TenantOperationAuth
    → String
    → String
    → TerminalInput
    → Exception
    → Action AffiliateStore AffiliatePayout
unfolding replay_or_conflict
transition_recover auth customer_id payout_id input error =
    if not (is_named_duplicate_key error "affiliate_payout_terminal_idempotency_unique")
      && not (is_named_duplicate_key error "affiliate_ledger_idempotency_unique")
    then throw error
    else do
      replay ← gets (λ s. find (is_payout auth.tenant_id customer_id payout_id) s.payouts)
      replay_or_conflict input replay

unfoldable pub transition :
    TenantOperationAuth
    → String
    → String
    → TerminalInput
    → String
    → ℕ
    → Action AffiliateStore AffiliatePayout
unfolding transition_work transition_recover
transition auth customer_id payout_id input new_id now =
    assert_direct_tenant auth
    >> try_catch (with_transaction (transition_work auth customer_id payout_id input new_id now))
        (transition_recover auth customer_id payout_id input)

unfoldable pub mark_paid :
    TenantOperationAuth
    → String
    → String
    → String
    → String
    → String
    → ℕ
    → Action AffiliateStore AffiliatePayout
unfolding transition
mark_paid auth customer_id payout_id key reference new_id now = do
  assert_direct_tenant auth
  external_reference ← required_payout_text reference 2 "AFFILIATE_PAYOUT_REFERENCE_INVALID"
  transition auth customer_id payout_id (pay key external_reference) new_id now

unfoldable pub mark_unpaid :
    TenantOperationAuth
    → String
    → String
    → String
    → String
    → UnpaidStatus
    → String
    → ℕ
    → Action AffiliateStore AffiliatePayout
unfolding transition
mark_unpaid auth customer_id payout_id key reason status new_id now = do
  assert_direct_tenant auth
  normalized ← required_payout_text reason 6 "AFFILIATE_PAYOUT_REASON_INVALID"
  transition auth customer_id payout_id (close status key normalized) new_id now
