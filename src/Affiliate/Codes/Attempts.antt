-- ===== src/Affiliate/Codes/Attempts.antt =====
-- The attempts at a generated code (src/affiliates/affiliate-code.service.ts).
use panalbee_clock_backend.Base.{
  ℕ, zero, suc, String, Bool, true, false, ◌&&◌, ◌∷◌, any, Option, none, some, ok, err, Result, ◌≡◌,
  refl, Bool-cases, inl, inr, arith, ◌==◌, beq, duplicate_key, if◌then◌else◌,
}
use panalbee_clock_backend.Affiliate.Economics.{AffiliateTerms}
use panalbee_clock_backend.Affiliate.Store.{AffiliateStore, AffiliateCode}
use panalbee_clock_backend.Affiliate.Payout.{TenantOperationAuth}
use panalbee_clock_backend.Affiliate.Codes.Create.{
  new_code, create_code_work, create_code_loop, save_new_code,
}
use panalbee_clock_backend.Affiliate.Codes.{
  same_code_text, is_current_of, code_conflict, code_text_index, valid_terms,
}

module _ (auth : TenantOperationAuth) (customer_id : String) (terms : AffiliateTerms)
    (generated new_id : ℕ → String) (s : AffiliateStore) where
  -- Whether the text of an attempt is in use.
  abbrev is_taken : ℕ → Bool
  is_taken k = any (same_code_text auth.tenant_id (generated k)) s.codes

  -- The attempt that finds a free text, where the attempts count down to 0.
  unfoldable pub first_free : ℕ → Option ℕ
  first_free zero = none
  first_free (suc k) = let rest = first_free k in if is_taken k then rest else some k

  -- The customer may get a code, and an attempt has an id of its own and a text.
  pub record MayCreate : Type 0 where
    pub customer :
        any (λ c. c.id == customer_id && c.tenant_id == auth.tenant_id) s.customers ≡ true
    pub valid : valid_terms terms ≡ true
    pub vacant : any (is_current_of auth.tenant_id customer_id) s.codes ≡ false
    pub fresh : (k : ℕ) → any (λ c. c.id == new_id k) s.codes ≡ false
    pub filled : (k : ℕ) → generated k == "" ≡ false

  abbrev code_of : ℕ → AffiliateCode
  code_of k = new_code auth customer_id terms (generated k) (new_id k)

  abbrev pub stored : ℕ → AffiliateStore
  stored k = record s {
    codes = code_of k ∷ s.codes;
    audits =
        record {
          tenant_id = auth.tenant_id;
          actor_user_id = auth.user_id;
          action = "AFFILIATE_CODE_CREATED";
          entity_id = new_id k;
        }
        ∷ s.audits;
  }

  abbrev pub answer : Option ℕ → Result AffiliateCode × AffiliateStore
  answer none = (err code_conflict, s)
  answer (some k) = (ok (code_of k), stored k)

  work-free :
      MayCreate
      → (k : ℕ) → is_taken k ≡ false
      → create_code_work auth customer_id terms (generated k) (new_id k) s
        ≡ (ok (code_of k), stored k)
  unfolding create_code_work save_new_code
  work-free may k free =
      rw (may.customer, may.valid, may.filled k, may.fresh k, free, may.vacant) refl

  work-taken :
      MayCreate
      → (k : ℕ) → is_taken k ≡ true
      → create_code_work auth customer_id terms (generated k) (new_id k) s
        ≡ (err (duplicate_key code_text_index), s)
  unfolding create_code_work save_new_code
  work-taken may k taken = rw (may.customer, may.valid, may.filled k, may.fresh k, taken) refl

  loop-free :
      MayCreate
      → (k : ℕ) → is_taken k ≡ false
      → create_code_loop auth customer_id terms none generated new_id (suc k) s
        ≡ (ok (code_of k), stored k)
  unfolding create_code_loop
  loop-free may k free = rw (work-free may k free) refl

  loop-next :
      MayCreate
      → (k : ℕ) → is_taken (suc k) ≡ true
      → create_code_loop auth customer_id terms none generated new_id (suc (suc k)) s
        ≡ create_code_loop auth customer_id terms none generated new_id (suc k) s
  unfolding create_code_loop
  loop-next may k taken =
      let more : beq (suc k) 0 ≡ false = ground arith in
      rw (work-taken may (suc k) taken, more) refl

  loop-last :
      MayCreate
      → is_taken 0 ≡ true
      → create_code_loop auth customer_id terms none generated new_id 1 s ≡ (err code_conflict, s)
  unfolding create_code_loop
  loop-last may taken = rw (work-taken may 0 taken) refl

  -- With at least one attempt, a customer who may get a code gets the first generated text that is
  -- free in the tenant, and the call writes its document and one audit event; where all the texts are
  -- taken it fails with AFFILIATE_CODE_CONFLICT and writes nothing. It never ends with
  -- AFFILIATE_CODE_GENERATION_EXHAUSTED. The ids that are drawn must be new and the texts not empty.
  pub create_code_loop-eq :
      MayCreate
      → (attempts : ℕ)
      → create_code_loop auth customer_id terms none generated new_id (suc attempts) s
        ≡ answer (first_free (suc attempts))
  unfolding first_free
  create_code_loop-eq may zero = elim (Bool-cases (is_taken 0)) [
    | inl taken ↦ rw (loop-last may taken, taken) refl
    | inr free ↦ rw (loop-free may 0 free, free) refl
  ]
  create_code_loop-eq may (suc k) = elim (Bool-cases (is_taken (suc k))) [
    | inl taken ↦ rw (loop-next may k taken, create_code_loop-eq may k, taken) refl
    | inr free ↦ rw (loop-free may (suc k) free, free) refl
  ]
