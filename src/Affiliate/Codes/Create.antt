-- ===== src/Affiliate/Codes/Create.antt =====
-- The creation of a code, with its attempts (src/affiliates/affiliate-code.service.ts).
use panalbee_clock_backend.Base.{
  ℕ, zero, suc, String, Bool, true, ◌&&◌, not, ◌∷◌, any, beq, Option, none, some, is_some,
  if◌then◌else◌, Exception, Action, pure, throw, lift, modify, insert_unique, with_transaction,
  try_catch, ◌>>=◌, ◌>>◌, is_named_duplicate_key, ◌==◌,
}
use panalbee_clock_backend.Affiliate.Economics.{
  AffiliateTerms, AffiliateCodeStatus, normalize_affiliate_terms,
}
use panalbee_clock_backend.Affiliate.Store.{AffiliateStore, AffiliateCode, validation_error}
use panalbee_clock_backend.Affiliate.Payout.{TenantOperationAuth, assert_customer}
use panalbee_clock_backend.Affiliate.Codes.{
  normalize_affiliate_code, generated_code_attempts, code_text_index, code_current_index,
  code_conflict, code_current_exists, code_generation_exhausted, valid_terms, same_code_text,
  is_current_of,
}

-- `code.save` of a new document.
unfoldable pub save_new_code : AffiliateCode → Action AffiliateStore (Unit {0})
save_new_code code = do
  validation_error (valid_terms code.terms && not (code.normalized_code == ""))
  insert_unique (λ s. any (λ c. c.id == code.id) s.codes) "_id_" (λ s. s)
  insert_unique (λ s. any (same_code_text code.tenant_id code.normalized_code) s.codes)
      code_text_index (λ s. s)
  insert_unique
      (λ s. code.current_slot && any (is_current_of code.tenant_id code.customer_id) s.codes)
      code_current_index (λ s. record s { codes = code ∷ s.codes })

abbrev pub audit_code : String → TenantOperationAuth → String → Action AffiliateStore (Unit {0})
audit_code action auth code_id = modify (λ s. record s {
  audits =
      record {
        tenant_id = auth.tenant_id;
        actor_user_id = auth.user_id;
        action = action;
        entity_id = code_id;
      }
      ∷ s.audits;
})

-- The document that `create` saves.
abbrev pub new_code :
    TenantOperationAuth → String → AffiliateTerms → String → String → AffiliateCode
new_code auth customer_id terms text new_id = record {
  id = new_id;
  tenant_id = auth.tenant_id;
  customer_id = customer_id;
  normalized_code = text;
  status = AffiliateCodeStatus.active;
  current_slot = true;
  terms = terms;
  deactivated_at = none;
  reactivated_at = none;
  retired_at = none;
}

unfoldable pub create_code_work :
    TenantOperationAuth
    → String
    → AffiliateTerms
    → String
    → String
    → Action AffiliateStore AffiliateCode
unfolding save_new_code
create_code_work auth customer_id terms text new_id = do
  assert_customer auth.tenant_id customer_id
  save_new_code (new_code auth customer_id terms text new_id)
  audit_code "AFFILIATE_CODE_CREATED" auth new_id
  pure (new_code auth customer_id terms text new_id)

-- The catch block of an attempt; `again` is the `continue`, where there is an attempt left.
abbrev pub create_code_recover :
    Bool → Action AffiliateStore AffiliateCode → Exception → Action AffiliateStore AffiliateCode
create_code_recover may_retry again e =
    if is_named_duplicate_key e code_text_index
    then (if may_retry then again else throw code_conflict)
    else if is_named_duplicate_key e code_current_index
    then throw code_current_exists
    else throw e

abbrev text_or : Option String → String → String
text_or none generated = generated
text_or (some custom) generated = custom

-- The loop, on the attempts that are left; `generated` and `new_id` are what the attempts draw.
unfoldable pub create_code_loop :
    TenantOperationAuth
    → String
    → AffiliateTerms
    → Option String
    → (ℕ → String)
    → (ℕ → String)
    → ℕ
    → Action AffiliateStore AffiliateCode
unfolding create_code_work
create_code_loop auth customer_id terms custom generated new_id zero =
    throw code_generation_exhausted
create_code_loop auth customer_id terms custom generated new_id (suc left) =
    try_catch
      (with_transaction
        (create_code_work auth customer_id terms (text_or custom (generated left)) (new_id left)))
      (create_code_recover (not (is_some custom) && not (beq left 0))
        (create_code_loop auth customer_id terms custom generated new_id left))

pub record CreateAffiliateCode : Type 0 where
  pub code : Option String
  pub terms : AffiliateTerms

-- `dto.code ? normalizeAffiliateCode(dto.code) : undefined`
abbrev pub custom_code : Option String → Option String
custom_code none = none
custom_code (some code) = if code == "" then none else some (normalize_affiliate_code code)

-- A custom text that is empty has as many attempts as a generated one, but the first ends in its
-- validation error.
unfoldable pub create_code :
    TenantOperationAuth
    → String
    → CreateAffiliateCode
    → (ℕ → String)
    → (ℕ → String)
    → Action AffiliateStore AffiliateCode
unfolding create_code_loop
create_code auth customer_id dto generated new_id = do
  terms ← lift (normalize_affiliate_terms dto.terms)
  create_code_loop auth customer_id terms (custom_code dto.code) generated new_id
      (if is_some (custom_code dto.code) then 1 else generated_code_attempts)
