-- ===== src/Affiliate/Codes/Orderly.antt =====
-- When the codes of a collection are in order (src/affiliates/affiliate-code.service.ts).
use panalbee_clock_backend.Base.{
  ℕ, String, Bool, true, false, ◌&&◌, not, List, [], ◌∷◌, any, find, update_first, some, ok, ◌≡◌,
  refl, Bool-cases, inl, inr, arith, ◌==◌,
}
use panalbee_clock_backend.Affiliate.Economics.{AffiliateTerms}
use panalbee_clock_backend.Affiliate.Store.{AffiliateStore, AffiliateCode}
use panalbee_clock_backend.Affiliate.Codes.Changes.{
  is_code_retired, change_terms, change_activate, change_deactivate, change_retire,
}
use panalbee_clock_backend.Affiliate.Codes.{same_code_text, is_current_of}

-- The customer's codes that are not retired.
abbrev is_open_code_of : String → String → AffiliateCode → Bool
is_open_code_of tenant_id customer_id c =
    c.tenant_id == tenant_id && c.customer_id == customer_id && not (is_code_retired c.status)

abbrev pub has_id : String → AffiliateCode → Bool
has_id id c = c.id == id

-- What a code may be, with the others of its collection: it has the slot as long as it is not
-- retired, no other code of the customer is open next to an open one, and no other has its text, in
-- the tenant, or its id.
pub record IsAlone (c : AffiliateCode) (cs : List AffiliateCode) : Type 0 where
  pub slot : c.current_slot ≡ not (is_code_retired c.status)
  pub only :
      is_code_retired c.status ≡ false → any (is_open_code_of c.tenant_id c.customer_id) cs ≡ false
  pub text : any (same_code_text c.tenant_id c.normalized_code) cs ≡ false
  pub id : any (has_id c.id) cs ≡ false

pub data AreOrderly : List AffiliateCode → Type 0 where
  no_codes : AreOrderly []
  next_code :
      {c : AffiliateCode} {cs : List AffiliateCode}
      → IsAlone c cs
      → AreOrderly cs
      → AreOrderly (c ∷ cs)

-- In an orderly collection the slot is the status.
pub slots-open :
    (tenant_id customer_id : String) {cs : List AffiliateCode}
    → AreOrderly cs
    → any (is_current_of tenant_id customer_id) cs ≡ any (is_open_code_of tenant_id customer_id) cs
slots-open tenant_id customer_id no_codes = refl
slots-open tenant_id customer_id (next_code {c} alone rest) =
    rw (alone.slot, slots-open tenant_id customer_id rest) refl

abbrev pub Orderly : AffiliateStore → Type 0
Orderly s = AreOrderly s.codes

-- What a change of a code keeps.
pub record IsChange (c u : AffiliateCode) : Type 0 where
  id : u.id ≡ c.id
  tenant : u.tenant_id ≡ c.tenant_id
  customer : u.customer_id ≡ c.customer_id
  text : u.normalized_code ≡ c.normalized_code
  slot :
      c.current_slot ≡ not (is_code_retired c.status)
      → u.current_slot ≡ not (is_code_retired u.status)
  retired : is_code_retired c.status ≡ true → is_code_retired u.status ≡ true

module _ (p : AffiliateCode → Bool) (c u : AffiliateCode) where
  any-changed :
      (q : AffiliateCode → Bool) (cs : List AffiliateCode)
      → (q u ≡ true → q c ≡ true)
      → find p cs ≡ some c
      → any q cs ≡ false
      → any q (update_first p (λ _. u) cs) ≡ false
  any-changed q [] k found h = cc
  any-changed q (x ∷ xs) k found h = elim (Bool-cases (p x)) [
    | inl hit ↦
        let head : some x ≡ some c = rw hit at found in
        let same : x ≡ c = cc in rw hit (ground (arith, same, h, k))
    | inr miss ↦
        let later = any-changed q xs k (rw miss at found) (ground arith) in rw miss (ground arith)
  ]

  changed-IsAlone :
      {x : AffiliateCode} {xs : List AffiliateCode}
      → IsChange c u
      → find p xs ≡ some c
      → IsAlone x xs
      → IsAlone x (update_first p (λ _. u) xs)
  changed-IsAlone {x} {xs} ch found alone = record {
    slot = alone.slot;
    only = λ unretired.
        any-changed (is_open_code_of x.tenant_id x.customer_id) xs
          (λ h.
            let tenant = ch.tenant in
            let customer = ch.customer in let retired = ch.retired in ground arith)
          found (alone.only unretired);
    text =
        any-changed (same_code_text x.tenant_id x.normalized_code) xs
          (λ h. rw (← ch.tenant, ← ch.text) h) found alone.text;
    id = any-changed (has_id x.id) xs (λ h. rw (← ch.id) h) found alone.id;
  }

  replaced-IsAlone : {xs : List AffiliateCode} → IsChange c u → IsAlone c xs → IsAlone u xs
  replaced-IsAlone {xs} ch alone = record {
    slot = ch.slot alone.slot;
    only = λ unretired.
        let retired = ch.retired in rw (ch.tenant, ch.customer) (alone.only (ground arith));
    text = rw (ch.tenant, ch.text) alone.text;
    id = rw ch.id alone.id;
  }

  pub changed-AreOrderly :
      {cs : List AffiliateCode}
      → IsChange c u
      → find p cs ≡ some c
      → AreOrderly cs
      → AreOrderly (update_first p (λ _. u) cs)
  changed-AreOrderly ch found no_codes = cc
  changed-AreOrderly ch found (next_code {c = x} {cs = xs} alone rest) = elim (Bool-cases (p x)) [
    | inl hit ↦
        let head : some x ≡ some c = rw hit at found in
        let same : x ≡ c = cc in rw hit (next_code (replaced-IsAlone ch (rw same at alone)) rest)
    | inr miss ↦
        let later : find p xs ≡ some c = rw miss at found in
        rw miss (next_code (changed-IsAlone ch later alone) (changed-AreOrderly ch later rest))
  ]

-- Each change of the service is such a change.
pub change_terms_ok :
    (terms : AffiliateTerms) (c u : AffiliateCode) → change_terms terms c ≡ ok u → IsChange c u
unfolding change_terms
change_terms_ok terms c u h = ground arith

pub change_activate_ok :
    (now : ℕ) (c u : AffiliateCode) → change_activate now c ≡ ok u → IsChange c u
unfolding change_activate
change_activate_ok now c u h = elim (Bool-cases (is_code_retired c.status)) [
  | inl yes_retired ↦ ground arith
  | inr open_code ↦ ground arith
]

pub change_deactivate_ok :
    (now : ℕ) (c u : AffiliateCode) → change_deactivate now c ≡ ok u → IsChange c u
unfolding change_deactivate
change_deactivate_ok now c u h = ground arith

pub change_retire_ok : (now : ℕ) (c u : AffiliateCode) → change_retire now c ≡ ok u → IsChange c u
unfolding change_retire
change_retire_ok now c u h = ground arith
