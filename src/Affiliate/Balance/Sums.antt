-- ===== src/Affiliate/Balance/Sums.antt =====
-- The balance of an account as a difference of two sums, and that `balances`
-- (src/affiliates/affiliate-ledger.service.ts) computes it. An account is a tenant, a customer and a
-- currency.
use panalbee_clock_backend.Base.{
  ℕ, ◌+◌, ◌≡◌, refl, ◌∙◌, String, Bool, false, ◌&&◌, List, [], ◌∷◌, keep, ◌==◌, eq_iff,
  if◌then◌else◌, arith, Bool-cases, inl, inr,
}
use panalbee_clock_backend.Base.Int.{ℤ, pos, ◌+ℤ◌, ◌-ℤ◌, int_laws}
use panalbee_clock_backend.Affiliate.Store.{
  AffiliateStore, AffiliateLedgerEntry, Direction, credit, debit,
}
use panalbee_clock_backend.Affiliate.Balance.{
  is_account_entry, signed, signed_amount, add_to_group, group_by_currency, insert_row, sort_rows,
  balances, balance_in,
}

abbrev credit_amount : Direction → ℕ → ℕ
credit_amount credit amount = amount
credit_amount debit amount = 0

abbrev debit_amount : Direction → ℕ → ℕ
debit_amount credit amount = 0
debit_amount debit amount = amount

abbrev pub in_account : String → String → String → AffiliateLedgerEntry → Bool
in_account tenant customer currency e = is_account_entry tenant customer e && e.currency == currency

-- What an entry adds to the credits and to the debits of an account.
abbrev pub credit_of : String → String → String → AffiliateLedgerEntry → ℕ
credit_of tenant customer currency e =
    if in_account tenant customer currency e then credit_amount e.direction e.amount_minor else 0

abbrev pub debit_of : String → String → String → AffiliateLedgerEntry → ℕ
debit_of tenant customer currency e =
    if in_account tenant customer currency e then debit_amount e.direction e.amount_minor else 0

unfoldable pub credits : String → String → String → List AffiliateLedgerEntry → ℕ
credits tenant customer currency [] = 0
credits tenant customer currency (e ∷ es) =
    credit_of tenant customer currency e + credits tenant customer currency es

unfoldable pub debits : String → String → String → List AffiliateLedgerEntry → ℕ
debits tenant customer currency [] = 0
debits tenant customer currency (e ∷ es) =
    debit_of tenant customer currency e + debits tenant customer currency es

balance_in-add_to_group :
    (currency c : String) (amount : ℤ) (rows : List (String × ℤ))
    → balance_in currency (add_to_group c amount rows)
      ≡ (if c == currency then balance_in currency rows +ℤ amount else balance_in currency rows)
balance_in-add_to_group currency c amount [] = elim (Bool-cases (c == currency)) [
  | inl e ↦ rw e (omega int_laws)
  | inr e ↦ rw e
]
balance_in-add_to_group currency c amount ((d, total) ∷ rows) = ground (
  arith,
  eq_iff d c,
  eq_iff d currency,
  eq_iff c currency,
  balance_in-add_to_group currency c amount rows,
)

-- No row has the key.
abbrev Absent : String → List (String × ℤ) → Type 0
Absent k [] = Unit
Absent k (r ∷ rows) = ((r.0 == k) ≡ false) × Absent k rows

abbrev Distinct : List (String × ℤ) → Type 0
Distinct [] = Unit
Distinct (r ∷ rows) = Absent r.0 rows × Distinct rows

Absent-add_to_group :
    (k c : String) (amount : ℤ) (rows : List (String × ℤ))
    → (c == k) ≡ false
    → Absent k rows
    → Absent k (add_to_group c amount rows)
Absent-add_to_group k c amount [] ne h = (ne, tt)
Absent-add_to_group k c amount ((d, total) ∷ rows) ne h =
    ground (arith, Absent-add_to_group k c amount rows ne h.1)

Distinct-add_to_group :
    (c : String) (amount : ℤ) (rows : List (String × ℤ))
    → Distinct rows
    → Distinct (add_to_group c amount rows)
Distinct-add_to_group c amount [] h = (tt, tt)
Distinct-add_to_group c amount ((d, total) ∷ rows) h = ground (
  arith,
  eq_iff d c,
  eq_iff c d,
  Absent-add_to_group d c amount rows,
  Distinct-add_to_group c amount rows h.1,
)

Distinct-group_by_currency : (es : List AffiliateLedgerEntry) → Distinct (group_by_currency es)
unfolding group_by_currency
Distinct-group_by_currency [] = tt
Distinct-group_by_currency (e ∷ es) =
    Distinct-add_to_group e.currency (signed_amount e) (group_by_currency es)
      (Distinct-group_by_currency es)

Absent-insert_row :
    (k : String) (r : String × ℤ) (rows : List (String × ℤ))
    → (r.0 == k) ≡ false
    → Absent k rows
    → Absent k (insert_row r rows)
Absent-insert_row k r [] ne h = (ne, tt)
Absent-insert_row k r (q ∷ rows) ne h = ground (arith, Absent-insert_row k r rows ne h.1)

Absent-sort_rows :
    (k : String) (rows : List (String × ℤ)) → Absent k rows → Absent k (sort_rows rows)
unfolding sort_rows
Absent-sort_rows k [] h = tt
Absent-sort_rows k (r ∷ rows) h =
    Absent-insert_row k r (sort_rows rows) h.0 (Absent-sort_rows k rows h.1)

balance_in-insert_row :
    (currency : String) (r : String × ℤ) (rows : List (String × ℤ))
    → Absent r.0 rows
    → balance_in currency (insert_row r rows)
      ≡ (if r.0 == currency then r.1 else balance_in currency rows)
balance_in-insert_row currency r [] h = refl
balance_in-insert_row currency r (q ∷ rows) h = ground (
  arith,
  eq_iff q.0 r.0,
  eq_iff r.0 currency,
  eq_iff q.0 currency,
  balance_in-insert_row currency r rows h.1,
)

balance_in-sort_rows :
    (currency : String) (rows : List (String × ℤ))
    → Distinct rows
    → balance_in currency (sort_rows rows) ≡ balance_in currency rows
unfolding sort_rows
balance_in-sort_rows currency [] h = refl
balance_in-sort_rows currency (r ∷ rows) h =
    balance_in-insert_row currency r (sort_rows rows) (Absent-sort_rows r.0 rows h.0)
    ∙ rw (balance_in-sort_rows currency rows h.1)

signed_amount-eq :
    (d : Direction) (amount : ℕ)
    → signed d amount ≡ pos (credit_amount d amount) -ℤ pos (debit_amount d amount)
signed_amount-eq credit amount = omega int_laws
signed_amount-eq debit amount = refl

balance_in-group :
    (tenant customer currency : String) (es : List AffiliateLedgerEntry)
    → balance_in currency (group_by_currency (keep (is_account_entry tenant customer) es))
      ≡ pos (credits tenant customer currency es) -ℤ pos (debits tenant customer currency es)
unfolding group_by_currency credits debits
balance_in-group tenant customer currency [] = omega int_laws
balance_in-group tenant customer currency (e ∷ es) =
    let ih = balance_in-group tenant customer currency es in
    let rows = group_by_currency (keep (is_account_entry tenant customer) es) in
    elim (Bool-cases (is_account_entry tenant customer e)) [
      | inr other ↦ rw other (ih ∙ omega int_laws)
      | inl own ↦
          rw (own, balance_in-add_to_group currency e.currency (signed_amount e) rows, ih)
            (elim (Bool-cases (e.currency == currency)) [
              | inr other ↦ rw other (omega int_laws)
              | inl same ↦ rw (same, signed_amount-eq e.direction e.amount_minor) (omega int_laws)
            ])
    ]

-- The balance that the service reads for a currency is the account's credits less its debits.
pub balances-eq-sums :
    (tenant customer currency : String) (s : AffiliateStore)
    → balance_in currency (balances tenant customer s)
      ≡ pos (credits tenant customer currency s.entries)
        -ℤ pos (debits tenant customer currency s.entries)
unfolding balances
balances-eq-sums tenant customer currency s =
    balance_in-sort_rows currency
      (group_by_currency (keep (is_account_entry tenant customer) s.entries))
      (Distinct-group_by_currency (keep (is_account_entry tenant customer) s.entries))
    ∙ balance_in-group tenant customer currency s.entries
