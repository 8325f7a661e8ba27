-- ===== src/Affiliate/Solvency/Payout.antt =====
-- The creation of a payout keeps every account solvent.
use panalbee_clock_backend.Base.{
  ◌≡◌, ◌⊎◌, inl, inr, String, false, ◌∷◌, Option, none, some, Exception, arith, Keeps, keeps,
  lift-Keeps, gets-Keeps, >>-Keeps, >>=-Keeps, Action, find,
}
use panalbee_clock_backend.Base.Int.{pos, ltb_ℤ}
use panalbee_clock_backend.Affiliate.Store.{AffiliateStore, AffiliatePayout}
use panalbee_clock_backend.Affiliate.Balance.{available_in}
use panalbee_clock_backend.Affiliate.Payout.{
  TenantOperationAuth, CreatePayout, new_payout, assert_customer, has_create_key, create_fresh,
  create_or_replay, create_work, create_recover, create,
}
use panalbee_clock_backend.Affiliate.Solvency.{
  Unmoved, moved-Solvent, IsSolvent, available_room, reservation-Solvent,
}

create_fresh_cases :
    (auth : TenantOperationAuth) (customer_id : String) (dto : CreatePayout)
    (external_reference : Option String) (new_id : String) (s : AffiliateStore)
    → let s' = (create_fresh auth customer_id dto external_reference new_id s).1 in
      Unmoved s s'
      ⊎ ((ltb_ℤ (available_in auth.tenant_id customer_id dto.currency s) (pos dto.amount_minor)
            ≡ false)
          × (s'.entries ≡ s.entries)
          × (s'.payouts ≡ new_payout auth customer_id dto external_reference new_id ∷ s.payouts))
unfolding create_fresh
create_fresh_cases auth customer_id dto external_reference new_id s = ground arith

module _ (auth : TenantOperationAuth) (customer_id : String) (dto : CreatePayout)
    (new_id : String) where
  create_fresh-IsSolvent :
      (external_reference : Option String)
      → Keeps IsSolvent (create_fresh auth customer_id dto external_reference new_id)
  create_fresh-IsSolvent external_reference = record {
    on = λ s h. elim (create_fresh_cases auth customer_id dto external_reference new_id s) [
      | inl (p, q) ↦ moved-Solvent p q h
      | inr (room, p, q) ↦ moved-Solvent p q (
          reservation-Solvent s.entries s.payouts h
            (new_payout auth customer_id dto external_reference new_id)
            (available_room auth.tenant_id customer_id dto.currency dto.amount_minor s room))
    ];
  }

  create_or_replay-IsSolvent :
      (external_reference : Option String) {otherwise : Action AffiliateStore AffiliatePayout}
      → Keeps IsSolvent otherwise
      → (found : Option AffiliatePayout)
      → Keeps IsSolvent (create_or_replay customer_id dto external_reference otherwise found)
  unfolding create_or_replay
  create_or_replay-IsSolvent external_reference h none = h
  create_or_replay-IsSolvent external_reference h (some p) = lift-Keeps _

  create_work-IsSolvent :
      (external_reference : Option String)
      → Keeps IsSolvent (create_work auth customer_id dto external_reference new_id)
  unfolding create_work
  create_work-IsSolvent external_reference =
      >>-Keeps {m = assert_customer auth.tenant_id customer_id} (search keeps) (
        >>=-Keeps
          (gets-Keeps (λ s. find (has_create_key auth.tenant_id dto.idempotency_key) s.payouts))
          (create_or_replay-IsSolvent external_reference
            (create_fresh-IsSolvent external_reference)))

  create_recover-IsSolvent :
      (external_reference : Option String) (error : Exception)
      → Keeps IsSolvent (create_recover auth customer_id dto external_reference error)
  unfolding create_recover
  create_recover-IsSolvent external_reference error =
      search (keeps, create_or_replay-IsSolvent) depth 8

  pub create-IsSolvent : Keeps IsSolvent (create auth customer_id dto new_id)
  unfolding create
  create-IsSolvent = search (keeps, create_work-IsSolvent, create_recover-IsSolvent) depth 8
