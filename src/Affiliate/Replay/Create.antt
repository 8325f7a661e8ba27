-- ===== src/Affiliate/Replay/Create.antt =====
-- The idempotency of `create` (src/affiliates/affiliate-payout.service.ts).
use panalbee_clock_backend.Base.{
  ℕ, String, Bool, true, false, ◌∷◌, Option, none, some, any, find, ◌&&◌, ◌≡◌, refl, inl, inr, ◌==◌,
  eq_refl, beq, Exception, ok, err, arith, answered, ◌∙◌, Bool-cases, Option-cases,
  is_named_duplicate_key, try_catch, with_transaction, Result,
}
use panalbee_clock_backend.Affiliate.Store.{AffiliateStore, AffiliatePayout, same_text}
use panalbee_clock_backend.Affiliate.Payout.{
  TenantOperationAuth, CreatePayout, is_direct, optional_payout_text, has_create_key, new_payout,
  create_replay, create_fresh, create_work, create_recover, create, customer_not_found,
}

abbrev is_known : TenantOperationAuth → String → AffiliateStore → Bool
is_known auth customer_id s =
    any (λ c. c.id == customer_id && c.tenant_id == auth.tenant_id) s.customers

abbrev by_key : TenantOperationAuth → CreatePayout → AffiliateStore → Option AffiliatePayout
by_key auth dto s = find (has_create_key auth.tenant_id dto.idempotency_key) s.payouts

same_text_refl : (o : Option String) → same_text o o ≡ true
same_text_refl none = refl
same_text_refl (some s) = eq_refl s

beq_refl : (n : ℕ) → beq n n ≡ true
beq_refl n = ground arith

module _ (auth : TenantOperationAuth) (customer_id : String) (dto : CreatePayout)
    (external_reference : Option String) where
  -- The store holds `p` as the payout of this request.
  record IsRegistered (p : AffiliatePayout) (s : AffiliateStore) : Type 0 where
    known : is_known auth customer_id s ≡ true
    found : by_key auth dto s ≡ some p
    exact : create_replay p customer_id dto external_reference ≡ ok p

  new_payout-replay :
      (new_id : String)
      → create_replay
          (new_payout auth customer_id dto external_reference new_id)
          customer_id
          dto
          external_reference
        ≡ ok (new_payout auth customer_id dto external_reference new_id)
  unfolding create_replay
  new_payout-replay new_id = rw (
    eq_refl customer_id,
    eq_refl dto.currency,
    beq_refl dto.amount_minor,
    same_text_refl external_reference,
  )

  create_replay-eq :
      (q p : AffiliatePayout) → create_replay q customer_id dto external_reference ≡ ok p → q ≡ p
  unfolding create_replay
  create_replay-eq q p h = ground arith

  create_fresh_ok :
      (new_id : String) (s : AffiliateStore) {p : AffiliatePayout}
      → let (r, s') = create_fresh auth customer_id dto external_reference new_id s in
        r ≡ ok p
        → (p ≡ new_payout auth customer_id dto external_reference new_id)
          × (s'.payouts ≡ p ∷ s.payouts)
          × (s'.customers ≡ s.customers)
  unfolding create_fresh
  create_fresh_ok new_id s h = ground arith

  create_work-unknown :
      (new_id : String) (s : AffiliateStore)
      → is_known auth customer_id s ≡ false
      → create_work auth customer_id dto external_reference new_id s ≡ (err customer_not_found, s)
  unfolding create_work
  create_work-unknown new_id s unknown = rw unknown

  create_work-found :
      (new_id : String) (s : AffiliateStore) (q : AffiliatePayout)
      → is_known auth customer_id s ≡ true
      → by_key auth dto s ≡ some q
      → create_work auth customer_id dto external_reference new_id s
        ≡ (create_replay q customer_id dto external_reference, s)
  unfolding create_work
  create_work-found new_id s q known found = rw (known, found)

  create_work-fresh :
      (new_id : String) (s : AffiliateStore)
      → is_known auth customer_id s ≡ true
      → by_key auth dto s ≡ none
      → create_work auth customer_id dto external_reference new_id s
        ≡ create_fresh auth customer_id dto external_reference new_id s
  unfolding create_work
  create_work-fresh new_id s known fresh = rw (known, fresh)

  create_fresh_registers :
      (new_id : String) (s : AffiliateStore) (p : AffiliatePayout)
      → is_known auth customer_id s ≡ true
      → (create_fresh auth customer_id dto external_reference new_id s).0 ≡ ok p
      → IsRegistered p (create_fresh auth customer_id dto external_reference new_id s).1
  create_fresh_registers new_id s p known h =
      let (made, payouts, customers) = create_fresh_ok new_id s h in
      record {
        known = rw customers known;
        found = rw (payouts, made, eq_refl auth.tenant_id, eq_refl dto.idempotency_key);
        exact = rw made (new_payout-replay new_id);
      }

  create_work_registers :
      (new_id : String) (s : AffiliateStore) (p : AffiliatePayout)
      → (create_work auth customer_id dto external_reference new_id s).0 ≡ ok p
      → IsRegistered p (create_work auth customer_id dto external_reference new_id s).1
  create_work_registers new_id s p h = elim (Bool-cases (is_known auth customer_id s)) [
    | inr unknown ↦ cc (rw (create_work-unknown new_id s unknown) at h)
    | inl known ↦ elim (Option-cases (by_key auth dto s)) [
      | inl fresh ↦ rw (create_work-fresh new_id s known fresh) (
          create_fresh_registers new_id s p known
            (rw (create_work-fresh new_id s known fresh) at h))
      | inr (q, found) ↦
          let exact = rw (create_work-found new_id s q known found) at h in
          let same = create_replay-eq q p exact in
          rw (create_work-found new_id s q known found)
            (record { known = known; found = rw (← same) found; exact = rw same at exact })
    ]
  ]

  -- Where the catch block answers, it has found the payout and written nothing.
  create_recover_registers :
      (s : AffiliateStore) (e : Exception) (p : AffiliatePayout)
      → is_known auth customer_id s ≡ true
      → (create_recover auth customer_id dto external_reference e s).0 ≡ ok p
      → IsRegistered p (create_recover auth customer_id dto external_reference e s).1
  unfolding create_recover
  create_recover_registers s e p known h =
      elim (Bool-cases (is_named_duplicate_key e "affiliate_payout_create_idempotency_unique")) [
        | inr other ↦ cc (rw other at h)
        | inl duplicate ↦ elim (Option-cases (by_key auth dto s)) [
          | inl fresh ↦ cc (rw (duplicate, fresh) at h)
          | inr (q, found) ↦
              let exact = rw (duplicate, found) at h in
              let same = create_replay-eq q p exact in
              rw (duplicate, found)
                (record { known = known; found = rw (← same) found; exact = rw same at exact })
        ]
      ]

  not_found_thrown :
      (s : AffiliateStore) (p : AffiliatePayout)
      → (create_recover auth customer_id dto external_reference customer_not_found s).0 ≡ ok p
      → ⊥
  unfolding create_recover
  not_found_thrown s p h = cc

  -- The catch block answers only for a known customer.
  caught_registers :
      (new_id : String) (s : AffiliateStore) (p : AffiliatePayout) (e : Exception)
      → (create_work auth customer_id dto external_reference new_id s).0 ≡ err e
      → (create_recover auth customer_id dto external_reference e s).0 ≡ ok p
      → IsRegistered p (create_recover auth customer_id dto external_reference e s).1
  caught_registers new_id s p e failed h = elim (Bool-cases (is_known auth customer_id s)) [
    | inl known ↦ create_recover_registers s e p known h
    | inr unknown ↦
        let thrown : ◌≡◌ {A = Result AffiliatePayout} (err customer_not_found) (err e) =
          rw (create_work-unknown new_id s unknown) at failed in
        let same : e ≡ customer_not_found = cc in absurd (not_found_thrown s p (rw same at h))
  ]

  -- A registered request is answered by its payout, and nothing is written.
  registered_again :
      (new_id : String) (s : AffiliateStore) (p : AffiliatePayout)
      → IsRegistered p s
      → create_work auth customer_id dto external_reference new_id s ≡ (ok p, s)
  registered_again new_id s p r = create_work-found new_id s p r.known r.found ∙ rw r.exact

  answers_again :
      (new_id : String) (s : AffiliateStore) (p : AffiliatePayout)
      → create_work auth customer_id dto external_reference new_id s ≡ (ok p, s)
      → try_catch
          (with_transaction (create_work auth customer_id dto external_reference new_id))
          (create_recover auth customer_id dto external_reference)
          s
        ≡ (ok p, s)
  answers_again new_id s p h = rw h

-- A create call that succeeds can be repeated, with any new id: the answer is the same payout, and the
-- store stays as the first call left it.
pub create_twice :
    (auth : TenantOperationAuth) (customer_id : String) (dto : CreatePayout)
    (new_id new_id' : String) (s : AffiliateStore) (p : AffiliatePayout)
    → (create auth customer_id dto new_id s).0 ≡ ok p
    → create auth customer_id dto new_id' (create auth customer_id dto new_id s).1
      ≡ (ok p, (create auth customer_id dto new_id s).1)
unfolding create
create_twice auth customer_id dto new_id new_id' s p h =
    elim (Bool-cases (is_direct auth.actor_type)) [
      | inr delegated ↦ cc (rw delegated at h)
      | inl direct ↦
          let reference = optional_payout_text dto.external_reference in
          let there =
            answered (IsRegistered auth customer_id dto reference p)
              (create_recover auth customer_id dto reference) s
              (create_work auth customer_id dto reference new_id s) p
              (create_work_registers auth customer_id dto reference new_id s p)
              (caught_registers auth customer_id dto reference new_id s p) (rw direct at h) in
          let again = registered_again auth customer_id dto reference new_id' _ p there in
          rw direct (answers_again auth customer_id dto reference new_id' _ p again)
    ]
