-- ===== src/Affiliate/Codes/Changes.antt =====
-- The changes of a code (src/affiliates/affiliate-code.service.ts).
use panalbee_clock_backend.Base.{
  ℕ, String, Bool, true, false, ◌&&◌, not, List, find, keep, update_first, some, if◌then◌else◌,
  Result, ok, err, app, Action, pure, lift, gets, modify, or_throw, with_transaction, ◌>>=◌, ◌>>◌,
  ◌==◌,
}
use panalbee_clock_backend.Affiliate.Economics.{
  AffiliateTerms, AffiliateCodeStatus, normalize_affiliate_terms,
}
use panalbee_clock_backend.Affiliate.Store.{AffiliateStore, AffiliateCode, validation_error}
use panalbee_clock_backend.Affiliate.Payout.{TenantOperationAuth, assert_customer}
use panalbee_clock_backend.Affiliate.Codes.{valid_terms}
use panalbee_clock_backend.Affiliate.Codes.Create.{audit_code}

abbrev pub is_code : String → String → String → AffiliateCode → Bool
is_code tenant_id customer_id code_id c =
    c.id == code_id && c.tenant_id == tenant_id && c.customer_id == customer_id

unfoldable pub mutate_code :
    TenantOperationAuth
    → String
    → String
    → String
    → (AffiliateCode → Result AffiliateCode)
    → Action AffiliateStore AffiliateCode
mutate_code auth customer_id code_id action change = with_transaction do
  found ← gets (λ s. find (is_code auth.tenant_id customer_id code_id) s.codes)
  code ← or_throw found (app 404 "AFFILIATE_CODE_NOT_FOUND")
  changed ← lift (change code)
  validation_error (valid_terms changed.terms)
  modify (λ s. record s {
    codes = update_first (is_code auth.tenant_id customer_id code_id) (λ _. changed) s.codes;
  })
  audit_code action auth code_id
  pure changed

abbrev pub is_code_retired : AffiliateCodeStatus → Bool
is_code_retired AffiliateCodeStatus.active = false
is_code_retired AffiliateCodeStatus.inactive = false
is_code_retired AffiliateCodeStatus.retired = true

abbrev is_code_active : AffiliateCodeStatus → Bool
is_code_active AffiliateCodeStatus.active = true
is_code_active AffiliateCodeStatus.inactive = false
is_code_active AffiliateCodeStatus.retired = false

abbrev is_code_inactive : AffiliateCodeStatus → Bool
is_code_inactive AffiliateCodeStatus.active = false
is_code_inactive AffiliateCodeStatus.inactive = true
is_code_inactive AffiliateCodeStatus.retired = false

unfoldable pub change_terms : AffiliateTerms → AffiliateCode → Result AffiliateCode
change_terms terms c =
    if is_code_retired c.status
    then err (app 409 "AFFILIATE_CODE_RETIRED")
    else ok (record c { terms = terms })

unfoldable pub change_activate : ℕ → AffiliateCode → Result AffiliateCode
change_activate now c =
    if not (is_code_inactive c.status)
    then err (app 409 "AFFILIATE_CODE_NOT_INACTIVE")
    else ok (record c { status = AffiliateCodeStatus.active; reactivated_at = some now })

unfoldable pub change_deactivate : ℕ → AffiliateCode → Result AffiliateCode
change_deactivate now c =
    if not (is_code_active c.status)
    then err (app 409 "AFFILIATE_CODE_NOT_ACTIVE")
    else ok (record c { status = AffiliateCodeStatus.inactive; deactivated_at = some now })

unfoldable pub change_retire : ℕ → AffiliateCode → Result AffiliateCode
change_retire now c =
    if is_code_retired c.status
    then err (app 409 "AFFILIATE_CODE_RETIRED")
    else ok (record c {
      status = AffiliateCodeStatus.retired;
      current_slot = false;
      retired_at = some now;
    })

unfoldable pub update_terms :
    TenantOperationAuth → String → String → AffiliateTerms → Action AffiliateStore AffiliateCode
unfolding mutate_code change_terms
update_terms auth customer_id code_id dto = lift (normalize_affiliate_terms dto) >>= λ terms.
    mutate_code auth customer_id code_id "AFFILIATE_CODE_TERMS_UPDATED" (change_terms terms)

unfoldable pub activate :
    TenantOperationAuth → String → String → ℕ → Action AffiliateStore AffiliateCode
unfolding mutate_code change_activate
activate auth customer_id code_id now =
    mutate_code auth customer_id code_id "AFFILIATE_CODE_ACTIVATED" (change_activate now)

unfoldable pub deactivate :
    TenantOperationAuth → String → String → ℕ → Action AffiliateStore AffiliateCode
unfolding mutate_code change_deactivate
deactivate auth customer_id code_id now =
    mutate_code auth customer_id code_id "AFFILIATE_CODE_DEACTIVATED" (change_deactivate now)

unfoldable pub retire :
    TenantOperationAuth → String → String → ℕ → Action AffiliateStore AffiliateCode
unfolding mutate_code change_retire
retire auth customer_id code_id now =
    mutate_code auth customer_id code_id "AFFILIATE_CODE_RETIRED" (change_retire now)

-- `list`, without the order of the dates: the collection has the newest first.
unfoldable list_codes : String → String → Action AffiliateStore (List AffiliateCode)
list_codes tenant_id customer_id =
    assert_customer tenant_id customer_id
    >> gets (λ s. keep (λ c. c.tenant_id == tenant_id && c.customer_id == customer_id) s.codes)
