-- ===== src/Affiliate/Solvency/Ledger.antt =====
-- The commands of the ledger keep every account solvent.
use panalbee_clock_backend.Base.{
  ◌≡◌, refl, ◌⊎◌, inl, inr, String, false, ◌∷◌, Option, none, some, Exception, arith, Keeps, keeps,
  not, throw_if-Keeps, try_catch-Keeps, with_transaction-Keeps, pure-Keeps, modify-Keeps,
  or_throw-Keeps, any, gets-Keeps, >>-Keeps, >>=-Keeps, Action, Bool-cases, find,
}
use panalbee_clock_backend.Base.Int.{pos, ltb_ℤ}
use panalbee_clock_backend.Affiliate.Store.{
  AffiliateStore, AffiliateLedgerEntry, credit, ReferralConversion, save_entry,
}
use panalbee_clock_backend.Affiliate.Balance.{
  available_in, is_capacity_lock, is_balance_lock, ensure_capacity_lock, ensure_balance_lock,
}
use panalbee_clock_backend.Base.Text.{trim}
use panalbee_clock_backend.Affiliate.Ledger.{
  earn_from, earn_completed_commission, conversion_of, commission_entry, reverse_new,
  reversal_entry, replay_reversal, reverse_work, reverse_recover, reverse_commission,
  reversal_reason_valid, reversal_reason_invalid, is_earned_entry, is_prior, commission_not_found,
}
use panalbee_clock_backend.Affiliate.Solvency.{
  Unmoved, moved-Solvent, IsSolvent, available_room, save_entry_cases, credit-Solvent,
  debit-Solvent,
}

save_credit-IsSolvent :
    (e : AffiliateLedgerEntry) → e.direction ≡ credit → Keeps IsSolvent (save_entry e)
save_credit-IsSolvent e d = record {
  on = λ s h. elim (save_entry_cases e s) [
    | inl saved ↦ rw saved (credit-Solvent s.entries s.payouts h e d)
    | inr (x, refused) ↦ rw refused h
  ];
}

module _ (tenant appointment new_id : String) where
  ensure_capacity_lock-IsSolvent :
      (customer : String) (s : AffiliateStore)
      → IsSolvent s
      → IsSolvent (ensure_capacity_lock tenant customer s)
  ensure_capacity_lock-IsSolvent customer s h =
      elim (Bool-cases (any (is_capacity_lock tenant customer) s.capacity_locks)) [
        | inl e ↦ rw e h
        | inr e ↦ rw e h
      ]

  ensure_balance_lock-IsSolvent :
      (customer currency : String) (s : AffiliateStore)
      → IsSolvent s
      → IsSolvent (ensure_balance_lock tenant customer currency s)
  ensure_balance_lock-IsSolvent customer currency s h =
      elim (Bool-cases (any (is_balance_lock tenant customer currency) s.balance_locks)) [
        | inl e ↦ rw e h
        | inr e ↦ rw e h
      ]

  earn_from-IsSolvent :
      (found : Option ReferralConversion)
      → Keeps IsSolvent (earn_from tenant appointment new_id found)
  unfolding earn_from
  earn_from-IsSolvent none = pure-Keeps tt
  earn_from-IsSolvent (some c) =
      >>-Keeps
        (modify-Keeps (ensure_capacity_lock tenant c.affiliate_customer_id)
          (ensure_capacity_lock-IsSolvent c.affiliate_customer_id))
        (>>-Keeps
          (modify-Keeps (ensure_balance_lock tenant c.affiliate_customer_id c.currency)
            (ensure_balance_lock-IsSolvent c.affiliate_customer_id c.currency))
          (save_credit-IsSolvent (commission_entry tenant appointment new_id c) refl))

  pub earn_completed_commission-IsSolvent :
      Keeps IsSolvent (earn_completed_commission tenant appointment new_id)
  unfolding earn_completed_commission
  earn_completed_commission-IsSolvent =
      >>=-Keeps (gets-Keeps (λ s. find (conversion_of tenant appointment) s.conversions))
        earn_from-IsSolvent

reverse_new_cases :
    (tenant : String) (original : AffiliateLedgerEntry) (reason key new_id : String)
    (s : AffiliateStore)
    → let s' = (reverse_new tenant original reason key new_id s).1 in
      Unmoved s s'
      ⊎ ((ltb_ℤ
              (available_in tenant original.affiliate_customer_id original.currency s)
              (pos original.amount_minor)
            ≡ false)
          × (s'.entries ≡ reversal_entry original tenant reason key new_id ∷ s.entries)
          × (s'.payouts ≡ s.payouts))
unfolding reverse_new
reverse_new_cases tenant original reason key new_id s = ground arith

module _ (tenant entry_id : String) (reason key new_id : String) where
  reverse_new-IsSolvent :
      (original : AffiliateLedgerEntry)
      → Keeps IsSolvent (reverse_new tenant original reason key new_id)
  reverse_new-IsSolvent original = record {
    on = λ s h. elim (reverse_new_cases tenant original reason key new_id s) [
      | inl (p, q) ↦ moved-Solvent p q h
      | inr (room, p, q) ↦ moved-Solvent p q (
          debit-Solvent s.entries s.payouts h (reversal_entry original tenant reason key new_id)
            refl
            (available_room tenant original.affiliate_customer_id original.currency
              original.amount_minor s room))
    ];
  }

  replay_reversal-IsSolvent :
      {otherwise : Action AffiliateStore AffiliateLedgerEntry}
      → Keeps IsSolvent otherwise
      → (found : Option AffiliateLedgerEntry)
      → Keeps IsSolvent (replay_reversal entry_id key otherwise found)
  unfolding replay_reversal
  replay_reversal-IsSolvent h none = h
  replay_reversal-IsSolvent h (some e) = search keeps

  reverse_work-IsSolvent : Keeps IsSolvent (reverse_work tenant entry_id reason key new_id)
  unfolding reverse_work
  reverse_work-IsSolvent =
      >>=-Keeps (gets-Keeps (λ s. find (is_earned_entry tenant entry_id) s.entries)) λ found.
        >>=-Keeps (or_throw-Keeps found commission_not_found) λ original.
          >>=-Keeps (gets-Keeps (λ s. find (is_prior tenant entry_id key) s.entries))
            (replay_reversal-IsSolvent (reverse_new-IsSolvent original))

  reverse_recover-IsSolvent :
      (error : Exception) → Keeps IsSolvent (reverse_recover tenant entry_id key error)
  unfolding reverse_recover
  reverse_recover-IsSolvent error = search (keeps, replay_reversal-IsSolvent) depth 8

pub reverse_commission-IsSolvent :
    (tenant entry_id reason key new_id : String)
    → Keeps IsSolvent (reverse_commission tenant entry_id reason key new_id)
unfolding reverse_commission
reverse_commission-IsSolvent tenant entry_id reason key new_id =
    >>-Keeps (throw_if-Keeps (not (reversal_reason_valid (trim reason))) reversal_reason_invalid) (
      try_catch-Keeps
        (with_transaction-Keeps (reverse_work-IsSolvent tenant entry_id (trim reason) key new_id))
        (reverse_recover-IsSolvent tenant entry_id reason key new_id))
