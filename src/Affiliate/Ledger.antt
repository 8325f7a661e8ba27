-- ===== src/Affiliate/Ledger.antt =====
-- The commission ledger (src/affiliates/affiliate-ledger.service.ts). The clock and the new ids are
-- arguments.
use panalbee_clock_backend.Base.{
  String, Bool, true, false, ◌&&◌, ◌||◌, not, Option, none, some, Exception, app, Action, pure,
  throw, gets, throw_if, or_throw, modify, ◌>>=◌, ◌>>◌, with_transaction, try_catch,
  is_named_duplicate_key, find, ◌==◌, ltb, if◌then◌else◌,
}
use panalbee_clock_backend.Base.Int.{pos, ltb_ℤ}
use panalbee_clock_backend.Base.Text.{trim, length_utf16, concat}
use panalbee_clock_backend.Affiliate.Balance.{
  ensure_capacity_lock, ensure_balance_lock, acquire_balance_lock, available_in,
}
use panalbee_clock_backend.Affiliate.Store.{
  AffiliateStore, ReferralConversion, AffiliateLedgerEntry, Direction, credit, debit, EntryType,
  commission_earned, commission_reversal, payout_paid, is_text, save_entry,
}

abbrev pub conversion_of : String → String → ReferralConversion → Bool
conversion_of tenant appointment c = c.tenant_id == tenant && c.appointment_id == appointment

abbrev pub commission_entry : String → String → String → ReferralConversion → AffiliateLedgerEntry
commission_entry tenant appointment new_id c = record {
  id = new_id;
  tenant_id = tenant;
  affiliate_customer_id = c.affiliate_customer_id;
  conversion_id = some c.id;
  appointment_id = some appointment;
  payout_id = none;
  currency = c.currency;
  direction = credit;
  type = commission_earned;
  amount_minor = c.commission_value_minor;
  idempotency_key = concat "commission:" c.id;
  reversal_of_entry_id = none;
  reason = none;
}

-- The work of `earnCompletedCommission`, once the conversion has been read.
unfoldable pub earn_from :
    String → String → String → Option ReferralConversion → Action AffiliateStore (Unit {0})
unfolding save_entry
earn_from tenant appointment new_id none = pure tt
earn_from tenant appointment new_id (some c) = do
  modify (ensure_capacity_lock tenant c.affiliate_customer_id)
  modify (ensure_balance_lock tenant c.affiliate_customer_id c.currency)
  save_entry (commission_entry tenant appointment new_id c)

unfoldable pub earn_completed_commission :
    String → String → String → Action AffiliateStore (Unit {0})
unfolding earn_from
earn_completed_commission tenant appointment new_id = do
  conversion ← gets (λ s. find (conversion_of tenant appointment) s.conversions)
  earn_from tenant appointment new_id conversion

abbrev pub reversal_reason_invalid : Exception
reversal_reason_invalid = app 400 "AFFILIATE_REVERSAL_REASON_INVALID"

abbrev pub commission_not_found : Exception
commission_not_found = app 404 "AFFILIATE_COMMISSION_NOT_FOUND"

abbrev insufficient_available_balance : Exception
insufficient_available_balance = app 409 "AFFILIATE_COMMISSION_INSUFFICIENT_AVAILABLE"

abbrev already_reversed : Exception
already_reversed = app 409 "AFFILIATE_COMMISSION_ALREADY_REVERSED"

abbrev is_credit : Direction → Bool
is_credit credit = true
is_credit debit = false

abbrev is_commission : EntryType → Bool
is_commission commission_earned = true
is_commission commission_reversal = false
is_commission payout_paid = false

abbrev pub is_earned_entry : String → String → AffiliateLedgerEntry → Bool
is_earned_entry tenant entry_id e =
    e.id == entry_id && e.tenant_id == tenant && is_credit e.direction && is_commission e.type

-- `$or: [{ reversalOfEntryId: entryId }, { idempotencyKey }]`
abbrev pub is_prior : String → String → String → AffiliateLedgerEntry → Bool
is_prior tenant entry_id key e =
    e.tenant_id == tenant && (is_text e.reversal_of_entry_id entry_id || e.idempotency_key == key)

abbrev is_exact_reversal : String → String → AffiliateLedgerEntry → Bool
is_exact_reversal entry_id key e =
    is_text e.reversal_of_entry_id entry_id && e.idempotency_key == key

abbrev pub reversal_entry :
    AffiliateLedgerEntry → String → String → String → String → AffiliateLedgerEntry
reversal_entry original tenant reason key new_id = record {
  id = new_id;
  tenant_id = tenant;
  affiliate_customer_id = original.affiliate_customer_id;
  conversion_id = original.conversion_id;
  appointment_id = original.appointment_id;
  payout_id = none;
  currency = original.currency;
  direction = debit;
  type = commission_reversal;
  amount_minor = original.amount_minor;
  idempotency_key = key;
  reversal_of_entry_id = some original.id;
  reason = some reason;
}

-- The reversal of an original that no entry has reversed.
unfoldable pub reverse_new :
    String
    → AffiliateLedgerEntry
    → String
    → String
    → String
    → Action AffiliateStore AffiliateLedgerEntry
unfolding available_in save_entry
reverse_new tenant original reason key new_id = do
  acquire_balance_lock insufficient_available_balance tenant original.affiliate_customer_id
      original.currency
  available ← gets (available_in tenant original.affiliate_customer_id original.currency)
  throw_if (ltb_ℤ available (pos original.amount_minor)) insufficient_available_balance
  save_entry (reversal_entry original tenant reason key new_id)
  pure (reversal_entry original tenant reason key new_id)

-- An existing entry is the answer if it is this very reversal.
unfoldable pub replay_reversal :
    String
    → String
    → Action AffiliateStore AffiliateLedgerEntry
    → Option AffiliateLedgerEntry
    → Action AffiliateStore AffiliateLedgerEntry
replay_reversal entry_id key otherwise none = otherwise
replay_reversal entry_id key otherwise (some e) =
    if is_exact_reversal entry_id key e then pure e else throw already_reversed

-- The body of the transaction.
unfoldable pub reverse_work :
    String → String → String → String → String → Action AffiliateStore AffiliateLedgerEntry
unfolding reverse_new replay_reversal
reverse_work tenant entry_id reason key new_id = do
  found ← gets (λ s. find (is_earned_entry tenant entry_id) s.entries)
  original ← or_throw found commission_not_found
  existing ← gets (λ s. find (is_prior tenant entry_id key) s.entries)
  replay_reversal entry_id key (reverse_new tenant original reason key new_id) existing

-- The `catch` block.
unfoldable pub reverse_recover :
    String → String → String → Exception → Action AffiliateStore AffiliateLedgerEntry
unfolding replay_reversal
reverse_recover tenant entry_id key error =
    if not (is_named_duplicate_key error "affiliate_ledger_idempotency_unique")
      && not (is_named_duplicate_key error "affiliate_ledger_reversal_unique")
    then throw error
    else do
      existing ← gets (λ s. find (is_prior tenant entry_id key) s.entries)
      replay_reversal entry_id key (throw already_reversed) existing

abbrev pub reversal_reason_valid : String → Bool
reversal_reason_valid reason = not (ltb (length_utf16 reason) 6 || ltb 500 (length_utf16 reason))

unfoldable pub reverse_commission :
    String → String → String → String → String → Action AffiliateStore AffiliateLedgerEntry
unfolding reverse_work reverse_recover
reverse_commission tenant entry_id reason key new_id =
    throw_if (not (reversal_reason_valid (trim reason))) reversal_reason_invalid
    >> try_catch (with_transaction (reverse_work tenant entry_id (trim reason) key new_id))
        (reverse_recover tenant entry_id key)
