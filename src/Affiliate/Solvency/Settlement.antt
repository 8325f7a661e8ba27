-- ===== src/Affiliate/Solvency/Settlement.antt =====
-- The end of a payout keeps every account solvent.
use panalbee_clock_backend.Base.{
  ℕ, ◌≡◌, inl, inr, String, true, List, ◌∷◌, Option, none, some, Exception, ok, arith, find-holds,
  if-Keeps, throw-Keeps, Keeps, Commits, transaction-Keeps, eq_iff, keeps, not, throw_if-Keeps,
  try_catch-Keeps, lift-Keeps, gets-Keeps, >>-Keeps, >>=-Keeps, Bool-cases, Option-cases, find,
  update_first,
}
use panalbee_clock_backend.Affiliate.Store.{
  AffiliateStore, AffiliatePayout, AffiliateLedgerEntry, is_processing,
}
use panalbee_clock_backend.Affiliate.Balance.Sums.{credits, debits, debit_of}
use panalbee_clock_backend.Affiliate.Settlement.{
  settled, settle_processing, is_payout, payout_entry, transition_found, transition_work,
  transition_recover, replay_or_conflict, terminal_replay, transition, mark_paid, mark_unpaid,
}
use panalbee_clock_backend.Affiliate.Payout.{
  is_direct, direct_session_required, payout_conflict, required_payout_text, TerminalInput, pay,
  close, UnpaidStatus, as_failed, as_cancelled, TenantOperationAuth,
}
use panalbee_clock_backend.Affiliate.Solvency.{
  moved-Solvent, IsSolvent, Solvent, reserved_of, reserved-update_first,
}

-- What the assignments leave alone, and that the payout is no longer reserved.
settled-reserved :
    (tenant customer currency : String) (input : TerminalInput) (now : ℕ) (p : AffiliatePayout)
    → reserved_of tenant customer currency (settled input now p) ≡ 0
settled-reserved tenant customer currency (pay key reference) now p = ground arith
settled-reserved tenant customer currency (close as_failed key reason) now p = ground arith
settled-reserved tenant customer currency (close as_cancelled key reason) now p = ground arith

-- The ledger after a payout has ended.
abbrev ledger_after :
    TenantOperationAuth
    → String
    → AffiliatePayout
    → String
    → TerminalInput
    → List AffiliateLedgerEntry
    → List AffiliateLedgerEntry
ledger_after auth customer_id p new_id (pay key reference) es =
    payout_entry auth customer_id p new_id ∷ es
ledger_after auth customer_id p new_id (close status key reason) es = es

settle_processing_ok :
    (auth : TenantOperationAuth) (customer_id payout_id : String) (input : TerminalInput)
    (new_id : String) (now : ℕ) (p : AffiliatePayout) (s : AffiliateStore) {a : AffiliatePayout}
    → let (r, s') = settle_processing auth customer_id payout_id p input new_id now s in
      r ≡ ok a
      → (s'.entries ≡ ledger_after auth customer_id p new_id input s.entries)
        × (s'.payouts
            ≡ update_first
                (is_payout auth.tenant_id customer_id payout_id)
                (settled input now)
                s.payouts)
unfolding settle_processing
settle_processing_ok auth customer_id payout_id (pay key reference) new_id now p s h = ground arith
settle_processing_ok auth customer_id payout_id (close status key reason) new_id now p s h =
    ground arith

-- A payout that is paid is debited for as much as it was reserved for.
debit_of-payout_entry :
    (auth : TenantOperationAuth) (customer_id payout_id new_id tenant customer currency : String)
    (p : AffiliatePayout)
    → is_payout auth.tenant_id customer_id payout_id p ≡ true
    → is_processing p.status ≡ true
    → debit_of tenant customer currency (payout_entry auth customer_id p new_id)
      ≡ reserved_of tenant customer currency p
debit_of-payout_entry auth customer_id payout_id new_id tenant customer currency p own open_yet =
    let same_tenant : p.tenant_id ≡ auth.tenant_id =
      ground (arith, eq_iff p.tenant_id auth.tenant_id) in
    let same_customer : p.affiliate_customer_id ≡ customer_id =
      ground (arith, eq_iff p.affiliate_customer_id customer_id) in
    rw (← same_tenant, ← same_customer) (ground (arith, open_yet))

-- Ending a payout moves its amount from the reservations to the debits, or frees it.
settled-Solvent :
    (auth : TenantOperationAuth) (customer_id payout_id : String) (input : TerminalInput)
    (new_id : String) (now : ℕ) (p : AffiliatePayout) (es : List AffiliateLedgerEntry)
    (ps : List AffiliatePayout)
    → Solvent es ps
    → find (is_payout auth.tenant_id customer_id payout_id) ps ≡ some p
    → is_processing p.status ≡ true
    → Solvent
        (ledger_after auth customer_id p new_id input es)
        (update_first (is_payout auth.tenant_id customer_id payout_id) (settled input now) ps)
unfolding credits debits
settled-Solvent auth customer_id payout_id (close status key reason) new_id now p es ps h found
      open_yet tenant customer currency =
    omega (
      arith,
      h tenant customer currency,
      settled-reserved tenant customer currency (close status key reason) now p,
      reserved-update_first tenant customer currency
          (is_payout auth.tenant_id customer_id payout_id) (settled (close status key reason) now)
          ps p found,
    )
settled-Solvent auth customer_id payout_id (pay key reference) new_id now p es ps h found open_yet
      tenant customer currency =
    omega (
      arith,
      h tenant customer currency,
      debit_of-payout_entry auth customer_id payout_id new_id tenant customer currency p
          (find-holds (is_payout auth.tenant_id customer_id payout_id) ps found) open_yet,
      settled-reserved tenant customer currency (pay key reference) now p,
      reserved-update_first tenant customer currency
          (is_payout auth.tenant_id customer_id payout_id) (settled (pay key reference) now) ps p
          found,
    )

replay_or_conflict-Keeps :
    (input : TerminalInput) (found : Option AffiliatePayout)
    → Keeps IsSolvent (replay_or_conflict input found)
unfolding replay_or_conflict
replay_or_conflict-Keeps input none = throw-Keeps payout_conflict
replay_or_conflict-Keeps input (some p) = lift-Keeps (terminal_replay p input)

module _ (auth : TenantOperationAuth) (customer_id payout_id : String) (input : TerminalInput)
    (new_id : String) (now : ℕ) where
  transition_found-IsSolvent :
      (s : AffiliateStore) (p a : AffiliatePayout)
      → IsSolvent s
      → find (is_payout auth.tenant_id customer_id payout_id) s.payouts ≡ some p
      → (transition_found auth customer_id payout_id input new_id now p s).0 ≡ ok a
      → IsSolvent (transition_found auth customer_id payout_id input new_id now p s).1
  unfolding transition_found
  transition_found-IsSolvent s p a h found e = elim (Bool-cases (is_processing p.status)) [
    | inr ended ↦ rw ended h
    | inl open_yet ↦
        let (q, r) =
          settle_processing_ok auth customer_id payout_id input new_id now p s (rw open_yet at e) in
        rw open_yet (
          moved-Solvent q r (
            settled-Solvent auth customer_id payout_id input new_id now p s.entries s.payouts h
              found open_yet))
  ]

  transition_work-IsSolvent :
      Commits IsSolvent (transition_work auth customer_id payout_id input new_id now)
  unfolding transition_work
  transition_work-IsSolvent = record {
    on = λ s h a e.
        elim (Option-cases (find (is_payout auth.tenant_id customer_id payout_id) s.payouts)) [
          | inl missing ↦ rw missing h
          | inr (p, found) ↦ rw found (transition_found-IsSolvent s p a h found (rw found at e))
        ];
  }

  transition_recover-IsSolvent :
      (error : Exception)
      → Keeps IsSolvent (transition_recover auth customer_id payout_id input error)
  unfolding transition_recover
  transition_recover-IsSolvent error = if-Keeps _ (throw-Keeps error) (
      >>=-Keeps (gets-Keeps (λ s. find (is_payout auth.tenant_id customer_id payout_id) s.payouts))
        (replay_or_conflict-Keeps input))

  transition-IsSolvent : Keeps IsSolvent (transition auth customer_id payout_id input new_id now)
  unfolding transition
  transition-IsSolvent =
      >>-Keeps (throw_if-Keeps (not (is_direct auth.actor_type)) direct_session_required)
        (try_catch-Keeps (transaction-Keeps transition_work-IsSolvent) transition_recover-IsSolvent)

module _ (auth : TenantOperationAuth) (customer_id payout_id key : String) (new_id : String)
    (now : ℕ) where
  pub mark_paid-IsSolvent :
      (reference : String)
      → Keeps IsSolvent (mark_paid auth customer_id payout_id key reference new_id now)
  unfolding mark_paid
  mark_paid-IsSolvent reference =
      >>-Keeps (throw_if-Keeps (not (is_direct auth.actor_type)) direct_session_required) (
        >>=-Keeps {m = required_payout_text reference 2 "AFFILIATE_PAYOUT_REFERENCE_INVALID"}
          (search keeps)
          (λ text. transition-IsSolvent auth customer_id payout_id (pay key text) new_id now))

  pub mark_unpaid-IsSolvent :
      (reason : String) (status : UnpaidStatus)
      → Keeps IsSolvent (mark_unpaid auth customer_id payout_id key reason status new_id now)
  unfolding mark_unpaid
  mark_unpaid-IsSolvent reason status =
      >>-Keeps (throw_if-Keeps (not (is_direct auth.actor_type)) direct_session_required) (
        >>=-Keeps {m = required_payout_text reason 6 "AFFILIATE_PAYOUT_REASON_INVALID"}
          (search keeps)
          (λ text.
            transition-IsSolvent auth customer_id payout_id (close status key text) new_id now))
