-- ===== src/Affiliate/Codes/Current.antt =====
-- The codes of a customer over time (src/affiliates/affiliate-code.service.ts).
use panalbee_clock_backend.Base.{
  ℕ, zero, suc, String, Bool, false, ◌&&◌, not, List, [], ◌∷◌, any, find, update_first, Option,
  some, ok, Result, Exception, Action, ◌≡◌, refl, inl, inr, arith, ◌⊎◌, Keeps, >>=-Keeps, >>-Keeps,
  gets-Keeps, throw_if-Keeps, lift-Keeps, modify-Keeps, pure-Keeps, throw-Keeps,
  with_transaction-Keeps, try_catch-Keeps, if-Keeps, Option-cases, Result-cases, if◌then◌else◌,
  is_some,
}
use panalbee_clock_backend.Affiliate.Economics.{AffiliateTerms, normalize_affiliate_terms}
use panalbee_clock_backend.Affiliate.Store.{AffiliateStore, AffiliateCode}
use panalbee_clock_backend.Affiliate.Payout.{
  TenantOperationAuth, assert_customer, customer_not_found,
}
use panalbee_clock_backend.Affiliate.Codes.Create.{
  CreateAffiliateCode, save_new_code, new_code, create_code_work, create_code_loop, create_code,
  create_code_recover, audit_code, custom_code,
}
use panalbee_clock_backend.Affiliate.Codes.Changes.{
  mutate_code, is_code, change_terms, change_activate, change_deactivate, change_retire,
  update_terms, activate, deactivate, retire,
}
use panalbee_clock_backend.Affiliate.Codes.{same_code_text, is_current_of, generated_code_attempts}
use panalbee_clock_backend.Affiliate.Codes.Orderly.{
  has_id, AreOrderly, next_code, slots-open, Orderly, IsChange, changed-AreOrderly, change_terms_ok,
  change_activate_ok, change_deactivate_ok, change_retire_ok,
}

audit_code-Keeps :
    (action : String) (auth : TenantOperationAuth) (code_id : String)
    → Keeps Orderly (audit_code action auth code_id)
audit_code-Keeps action auth code_id = modify-Keeps _ (λ s h. h)

module _ (auth : TenantOperationAuth) (customer_id code_id action : String)
    (change : AffiliateCode → Result AffiliateCode)
    (changes : (c u : AffiliateCode) → change c ≡ ok u → IsChange c u) where
  mutate_code_stores :
      (s : AffiliateStore)
      → let s' = (mutate_code auth customer_id code_id action change s).1 in
        (s'.codes ≡ s.codes)
        ⊎ ((c u : AffiliateCode) × (find (is_code auth.tenant_id customer_id code_id) s.codes
              ≡ some c)
            × (change c ≡ ok u)
            × (s'.codes
                ≡ update_first (is_code auth.tenant_id customer_id code_id) (λ _. u) s.codes))
  unfolding mutate_code
  mutate_code_stores s =
      elim (Option-cases (find (is_code auth.tenant_id customer_id code_id) s.codes)) [
        | inl missing ↦ inl (rw missing refl)
        | inr (c, found) ↦ elim (Result-cases (change c)) [
          | inr (e, refused) ↦ inl (rw (found, refused) refl)
          | inl (u, changed) ↦ rw (found, changed) (ground arith)
        ]
      ]

  mutate_code-Keeps : Keeps Orderly (mutate_code auth customer_id code_id action change)
  mutate_code-Keeps = record {
    on = λ s h. elim (mutate_code_stores s) [
      | inl same ↦ rw same h
      | inr (c, u, found, changed, stored) ↦ rw stored (
          changed-AreOrderly (is_code auth.tenant_id customer_id code_id) c u (changes c u changed)
            found h)
    ];
  }

-- A new code is saved where it may be, or nothing is.
save_new_code_stores :
    (code : AffiliateCode) (s : AffiliateStore)
    → let s' = (save_new_code code s).1 in
      (s'.codes ≡ s.codes)
      ⊎ ((any (has_id code.id) s.codes ≡ false)
          × (any (same_code_text code.tenant_id code.normalized_code) s.codes ≡ false)
          × (code.current_slot && any (is_current_of code.tenant_id code.customer_id) s.codes
              ≡ false)
          × (s'.codes ≡ code ∷ s.codes))
unfolding save_new_code
save_new_code_stores code s = ground arith

save_new_code-Keeps :
    (auth : TenantOperationAuth) (customer_id : String) (terms : AffiliateTerms)
    (text new_id : String)
    → Keeps Orderly (save_new_code (new_code auth customer_id terms text new_id))
save_new_code-Keeps auth customer_id terms text new_id = record {
  on = λ s h. elim (save_new_code_stores (new_code auth customer_id terms text new_id) s) [
    | inl same ↦ rw same h
    | inr (fresh, free, vacant, stored) ↦ rw stored (
        next_code
          (record {
            slot = refl;
            only = λ unretired. rw (← slots-open auth.tenant_id customer_id h) vacant;
            text = free;
            id = fresh;
          })
          h)
  ];
}

assert_customer-Keeps :
    (tenant_id customer_id : String) → Keeps Orderly (assert_customer tenant_id customer_id)
assert_customer-Keeps tenant_id customer_id =
    >>=-Keeps (gets-Keeps _) (λ known. throw_if-Keeps (not known) customer_not_found)

create_code_work-Keeps :
    (auth : TenantOperationAuth) (customer_id : String) (terms : AffiliateTerms)
    (text new_id : String)
    → Keeps Orderly (create_code_work auth customer_id terms text new_id)
unfolding create_code_work
create_code_work-Keeps auth customer_id terms text new_id =
    >>-Keeps (assert_customer-Keeps auth.tenant_id customer_id) (
      >>-Keeps (save_new_code-Keeps auth customer_id terms text new_id)
        (>>-Keeps (audit_code-Keeps "AFFILIATE_CODE_CREATED" auth new_id) (pure-Keeps _)))

create_code_recover-Keeps :
    (may_retry : Bool) (again : Action AffiliateStore AffiliateCode) (e : Exception)
    → Keeps Orderly again
    → Keeps Orderly (create_code_recover may_retry again e)
create_code_recover-Keeps may_retry again e h =
    if-Keeps _ (if-Keeps may_retry h (throw-Keeps _)) (if-Keeps _ (throw-Keeps _) (throw-Keeps e))

create_code_loop-Keeps :
    (auth : TenantOperationAuth) (customer_id : String) (terms : AffiliateTerms)
    (custom : Option String) (generated new_id : ℕ → String) (left : ℕ)
    → Keeps Orderly (create_code_loop auth customer_id terms custom generated new_id left)
unfolding create_code_loop
create_code_loop-Keeps auth customer_id terms custom generated new_id zero = throw-Keeps _
create_code_loop-Keeps auth customer_id terms custom generated new_id (suc left) =
    try_catch-Keeps
      (with_transaction-Keeps (create_code_work-Keeps auth customer_id terms _ (new_id left)))
      (λ e.
        create_code_recover-Keeps _ _ e
          (create_code_loop-Keeps auth customer_id terms custom generated new_id left))

create_code-Keeps :
    (auth : TenantOperationAuth) (customer_id : String) (dto : CreateAffiliateCode)
    (generated new_id : ℕ → String)
    → Keeps Orderly (create_code auth customer_id dto generated new_id)
unfolding create_code
create_code-Keeps auth customer_id dto generated new_id =
    >>=-Keeps (lift-Keeps (normalize_affiliate_terms dto.terms)) (λ terms.
      create_code_loop-Keeps auth customer_id terms (custom_code dto.code) generated new_id
        (if is_some (custom_code dto.code) then 1 else generated_code_attempts))

pub data CodeCommand : Type 0 where
  create_command :
      TenantOperationAuth → String → CreateAffiliateCode → (ℕ → String) → (ℕ → String) → CodeCommand
  terms_command : TenantOperationAuth → String → String → AffiliateTerms → CodeCommand
  activate_command deactivate_command retire_command :
      TenantOperationAuth → String → String → ℕ → CodeCommand

unfoldable run_code : CodeCommand → AffiliateStore → AffiliateStore
unfolding create_code update_terms activate deactivate retire
run_code (create_command auth customer_id dto generated new_id) s =
    (create_code auth customer_id dto generated new_id s).1
run_code (terms_command auth customer_id code_id dto) s =
    (update_terms auth customer_id code_id dto s).1
run_code (activate_command auth customer_id code_id now) s =
    (activate auth customer_id code_id now s).1
run_code (deactivate_command auth customer_id code_id now) s =
    (deactivate auth customer_id code_id now s).1
run_code (retire_command auth customer_id code_id now) s = (retire auth customer_id code_id now s).1

unfoldable pub run_codes : List CodeCommand → AffiliateStore → AffiliateStore
unfolding run_code
run_codes [] s = s
run_codes (command ∷ commands) s = run_codes commands (run_code command s)

run_code-Orderly :
    (command : CodeCommand) (s : AffiliateStore) → Orderly s → Orderly (run_code command s)
unfolding run_code update_terms activate deactivate retire
run_code-Orderly (create_command auth customer_id dto generated new_id) s h =
    (create_code-Keeps auth customer_id dto generated new_id).on s h
run_code-Orderly (terms_command auth customer_id code_id dto) s h =
    (>>=-Keeps (lift-Keeps (normalize_affiliate_terms dto)) (λ terms.
        mutate_code-Keeps auth customer_id code_id "AFFILIATE_CODE_TERMS_UPDATED"
          (change_terms terms) (change_terms_ok terms))).on
      s h
run_code-Orderly (activate_command auth customer_id code_id now) s h =
    (mutate_code-Keeps auth customer_id code_id "AFFILIATE_CODE_ACTIVATED" (change_activate now)
        (change_activate_ok now)).on
      s h
run_code-Orderly (deactivate_command auth customer_id code_id now) s h =
    (mutate_code-Keeps auth customer_id code_id "AFFILIATE_CODE_DEACTIVATED" (change_deactivate now)
        (change_deactivate_ok now)).on
      s h
run_code-Orderly (retire_command auth customer_id code_id now) s h =
    (mutate_code-Keeps auth customer_id code_id "AFFILIATE_CODE_RETIRED" (change_retire now)
        (change_retire_ok now)).on
      s h

-- After any sequence of creations, changes of terms, activations, deactivations and retirements of
-- codes, whoever asks for them, a customer has at most one code that is not retired, a code has the
-- slot of the current one exactly as long as it is not retired, and within a tenant no text, and over
-- all of them no id, is that of two codes. The start must be such a collection.
pub run_codes-AreOrderly :
    (commands : List CodeCommand) (s : AffiliateStore)
    → AreOrderly s.codes
    → AreOrderly (run_codes commands s).codes
unfolding run_codes
run_codes-AreOrderly [] s h = h
run_codes-AreOrderly (command ∷ commands) s h =
    run_codes-AreOrderly commands (run_code command s) (run_code-Orderly command s h)
