-- ===== src/Affiliate/Solvency.antt =====
-- That no affiliate is ever owed less than what is paid out and reserved, and the lemmas on one write
-- to the ledger or to the payouts.
pub mod Ledger
pub mod Payout
pub mod Settlement
pub mod Histories
use panalbee_clock_backend.Base.{
  ℕ, ◌+◌, ◌≤◌, ◌≡◌, refl, ◌∙◌, ◌⊎◌, inl, inr, String, Bool, true, false, ◌&&◌, List, [], ◌∷◌,
  Option, none, some, Exception, fault, duplicate_key, Result, ok, err, any, keep, find,
  update_first, ◌==◌, eq_iff, if◌then◌else◌, arith, Bool-cases, leb, ltb, not,
}
use mathlib.Core.Path.{subst₂, sym}
use panalbee_clock_backend.Base.Int.{ℤ, pos, ◌-ℤ◌, ltb_ℤ, int_laws}
use panalbee_clock_backend.Affiliate.Store.{
  AffiliateStore, AffiliateLedgerEntry, Direction, credit, debit, AffiliatePayout, save_entry,
  valid_amount, same_entry_key, reverses_same,
}
use panalbee_clock_backend.Affiliate.Balance.{available_in, reserved, sum_amounts, is_reservation}
use panalbee_clock_backend.Affiliate.Balance.Sums.{
  credits, debits, credit_of, debit_of, in_account, balances-eq-sums,
}

-- For every account the debits and the reservations are covered by the credits.
abbrev pub Solvent : List AffiliateLedgerEntry → List AffiliatePayout → Type 0
Solvent es ps =
    (tenant customer currency : String)
    → debits tenant customer currency es
        + sum_amounts (keep (is_reservation tenant customer currency) ps)
      ≤ credits tenant customer currency es

abbrev pub IsSolvent : AffiliateStore → Type 0
IsSolvent s = Solvent s.entries s.payouts

-- What the service calls available.
available_in-eq :
    (tenant customer currency : String) (s : AffiliateStore)
    → available_in tenant customer currency s
      ≡ pos (credits tenant customer currency s.entries)
        -ℤ pos (debits tenant customer currency s.entries)
        -ℤ pos (reserved tenant customer currency s)
unfolding available_in
available_in-eq tenant customer currency s = rw (balances-eq-sums tenant customer currency s)

-- The guard before a reservation or a reversal leaves room for its amount.
pub available_room :
    (tenant customer currency : String) (amount : ℕ) (s : AffiliateStore)
    → ltb_ℤ (available_in tenant customer currency s) (pos amount) ≡ false
    → debits tenant customer currency s.entries + reserved tenant customer currency s + amount
      ≤ credits tenant customer currency s.entries
available_room tenant customer currency amount s h =
    let enough = rw (available_in-eq tenant customer currency s) at h in grind (int_laws, enough)

-- A save of an entry adds it, or throws and writes nothing.
pub save_entry_cases :
    (e : AffiliateLedgerEntry) (s : AffiliateStore)
    → (save_entry e s ≡ (ok tt, record s { entries = e ∷ s.entries }))
      ⊎ ((x : Exception) × (save_entry e s ≡ (err x, s)))
unfolding save_entry
save_entry_cases e s = elim (Bool-cases (valid_amount e.amount_minor)) [
  | inr bad ↦ inr (fault "ValidationError", rw bad)
  | inl fine ↦ elim (Bool-cases (any (λ q. q.id == e.id) s.entries)) [
    | inl taken ↦ inr (duplicate_key "_id_", ground arith)
    | inr free ↦ elim (Bool-cases (any (same_entry_key e.tenant_id e.idempotency_key) s.entries)) [
      | inl taken ↦ inr (duplicate_key "affiliate_ledger_idempotency_unique", ground arith)
      | inr fresh ↦ elim (Bool-cases (any (reverses_same e) s.entries)) [
        | inl taken ↦ inr (duplicate_key "affiliate_ledger_reversal_unique", ground arith)
        | inr new ↦ inl (ground arith)
      ]
    ]
  ]
]

-- The texts that two tests have found equal.
account_of :
    (tenant customer currency t c r : String)
    → ((t == tenant && c == customer) && r == currency) ≡ true
    → (t ≡ tenant) × (c ≡ customer) × (r ≡ currency)
account_of tenant customer currency t c r h =
    ground (arith, eq_iff t tenant, eq_iff c customer, eq_iff r currency)

module _ (es : List AffiliateLedgerEntry) (ps : List AffiliatePayout) (h : Solvent es ps) where
  -- A credit can only help.
  pub credit-Solvent : (e : AffiliateLedgerEntry) → e.direction ≡ credit → Solvent (e ∷ es) ps
  unfolding credits debits
  credit-Solvent e d tenant customer currency = rw d (grind (arith, h tenant customer currency))

  -- A debit that its own account has room for.
  pub debit-Solvent :
      (e : AffiliateLedgerEntry)
      → e.direction ≡ debit
      → debits e.tenant_id e.affiliate_customer_id e.currency es
          + sum_amounts (keep (is_reservation e.tenant_id e.affiliate_customer_id e.currency) ps)
          + e.amount_minor
        ≤ credits e.tenant_id e.affiliate_customer_id e.currency es
      → Solvent (e ∷ es) ps
  unfolding credits debits
  debit-Solvent e d room tenant customer currency =
      elim (Bool-cases (in_account tenant customer currency e)) [
        | inr other ↦ rw other (omega (arith, h tenant customer currency))
        | inl own ↦
            let (p, q, r) =
              account_of tenant customer currency e.tenant_id e.affiliate_customer_id e.currency
                own in
            let here = rw (p, q, r) at room in rw (own, d) (omega (arith, here))
      ]

  -- A reservation that its own account has room for.
  pub reservation-Solvent :
      (p : AffiliatePayout)
      → debits p.tenant_id p.affiliate_customer_id p.currency es
          + sum_amounts (keep (is_reservation p.tenant_id p.affiliate_customer_id p.currency) ps)
          + p.amount_minor
        ≤ credits p.tenant_id p.affiliate_customer_id p.currency es
      → Solvent es (p ∷ ps)
  reservation-Solvent p room tenant customer currency =
      elim (Bool-cases (is_reservation tenant customer currency p)) [
        | inr other ↦ rw other (h tenant customer currency)
        | inl own ↦
            let (a, b, c) =
              account_of tenant customer currency p.tenant_id p.affiliate_customer_id p.currency
                (ground (arith, own)) in
            let here = rw (a, b, c) at room in rw own (omega (arith, here))
      ]

-- What a payout counts among the reservations of an account.
abbrev pub reserved_of : String → String → String → AffiliatePayout → ℕ
reserved_of tenant customer currency p =
    if is_reservation tenant customer currency p then p.amount_minor else 0

module _ (tenant customer currency : String) where
  reserved-cons :
      (p : AffiliatePayout) (ps : List AffiliatePayout)
      → sum_amounts (keep (is_reservation tenant customer currency) (p ∷ ps))
        ≡ reserved_of tenant customer currency p
          + sum_amounts (keep (is_reservation tenant customer currency) ps)
  reserved-cons p ps = elim (Bool-cases (is_reservation tenant customer currency p)) [
    | inl own ↦ rw own
    | inr other ↦ rw other (omega arith)
  ]

  -- Writing back a loaded payout changes the reservations by what that payout counts.
  pub reserved-update_first :
      (f : AffiliatePayout → Bool) (g : AffiliatePayout → AffiliatePayout)
      (ps : List AffiliatePayout) (p : AffiliatePayout)
      → find f ps ≡ some p
      → sum_amounts (keep (is_reservation tenant customer currency) (update_first f g ps))
          + reserved_of tenant customer currency p
        ≡ sum_amounts (keep (is_reservation tenant customer currency) ps)
          + reserved_of tenant customer currency (g p)
  reserved-update_first f g [] p e = cc
  reserved-update_first f g (q ∷ ps) p e = elim (Bool-cases (f q)) [
    | inl hit ↦
        let found : some q ≡ some p = rw hit at e in
        let same : q ≡ p = cc in
        rw (hit, ← same) (omega (arith, reserved-cons (g q) ps, reserved-cons q ps))
    | inr miss ↦
        let ih = reserved-update_first f g ps p (rw miss at e) in
        rw miss (omega (arith, ih, reserved-cons q (update_first f g ps), reserved-cons q ps))
  ]

-- Entries and payouts are as they were.
abbrev pub Unmoved : AffiliateStore → AffiliateStore → Type 0
Unmoved s s' = (s'.entries ≡ s.entries) × (s'.payouts ≡ s.payouts)

pub moved-Solvent :
    {es es' : List AffiliateLedgerEntry} {ps ps' : List AffiliatePayout}
    → es' ≡ es
    → ps' ≡ ps
    → Solvent es ps
    → Solvent es' ps'
moved-Solvent p q h = subst₂ Solvent (sym p) (sym q) h
