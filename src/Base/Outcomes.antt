-- ===== src/Base/Outcomes.antt =====
-- What an action that ends well leaves behind, by a condition before and one after that may mention
-- the answer.
use mathlib.Core.Bool.{Bool, true, false}
use mathlib.Core.Path.{◌≡◌, refl}
use panalbee_clock_backend.Base.Effects.{
  Result, ok, err, Exception, Action, modify, gets, throw_if, ◌>>=◌, continue, settle,
  with_transaction, handle, try_catch,
}
use panalbee_clock_backend.Base.Preservation.{Keeps, Commits}
use panalbee_clock_backend.Base.Tests.{if◌then◌else◌}

pub record Leads {S A : Type 0} (P : S → Type 0) (m : Action S A) (Q : A → S → Type 0)
    : Type 0 where
  pub on : (s : S) → P s → (a : A) → (m s).0 ≡ ok a → Q a (m s).1

continue_leads :
    {S A B : Type 0} (f : A → Action S B) (r : Result A × S) (R : A → S → Type 0)
    (Q : B → S → Type 0)
    → ((a : A) → r.0 ≡ ok a → R a r.1)
    → ((a : A) → Leads (R a) (f a) Q)
    → (b : B) → (continue f r).0 ≡ ok b
    → Q b (continue f r).1
continue_leads f (ok a, s) R Q h k b e = (k a).on s (h a refl) b e
continue_leads f (err x, s) R Q h k b e = cc

caught_leads :
    {S A : Type 0} (handler : Exception → Action S A) (s : S) (r : Result A × S)
    (Q : A → S → Type 0)
    → ((a : A) → r.0 ≡ ok a → Q a r.1)
    → ((x : Exception) (a : A) → (handler x s).0 ≡ ok a → Q a (handler x s).1)
    → (a : A) → (handle handler (settle s r)).0 ≡ ok a
    → Q a (handle handler (settle s r)).1
caught_leads handler s (ok b, s') Q h k a e = h a e
caught_leads handler s (err x, s') Q h k a e = k x a e

module _ {S : Type 0} where
  pub >>=-Leads :
      {A B : Type 0} {P : S → Type 0} {m : Action S A} {f : A → Action S B} {Q : B → S → Type 0}
      (R : A → S → Type 0)
      → Leads P m R
      → ((a : A) → Leads (R a) (f a) Q)
      → Leads P (m >>= f) Q
  >>=-Leads {m} {f} {Q} R h k = record {
    on = λ s p b e. continue_leads f (m s) R Q (h.on s p) k b e;
  }

  -- A step that keeps the condition.
  pub kept-Leads :
      {A B : Type 0} {P : S → Type 0} {m : Action S A} {f : A → Action S B} {Q : B → S → Type 0}
      → Keeps P m
      → ((a : A) → Leads P (f a) Q)
      → Leads P (m >>= f) Q
  kept-Leads {P} h k = >>=-Leads (λ a s. P s) (record { on = λ s p a e. h.on s p }) k

  pub modify-Leads :
      {P : S → Type 0} {Q : Unit {0} → S → Type 0} (f : S → S)
      → ((s : S) → P s → Q tt (f s))
      → Leads P (modify f) Q
  modify-Leads f k = record { on = λ s p a e. k s p }

  pub Keeps-Leads :
      {A : Type 0} {P : S → Type 0} {m : Action S A} → Keeps P m → Leads P m (λ a s. P s)
  Keeps-Leads h = record { on = λ s p a e. h.on s p }

  -- A reading, and a guard that did not throw.
  pub gets-Leads :
      {A : Type 0} {P : S → Type 0} (f : S → A) → Leads P (gets f) (λ a s. P s × (a ≡ f s))
  gets-Leads f = record { on = λ s p a e. (p, cc) }

  pub throw_if-Leads :
      {P : S → Type 0} (c : Bool) (e : Exception)
      → Leads P (throw_if c e) (λ done s. P s × (c ≡ false))
  throw_if-Leads true e = record { on = λ s p a h. cc }
  throw_if-Leads false e = record { on = λ s p a h. (p, refl) }

  pub branch-Leads :
      {A : Type 0} (c : Bool) {P : S → Type 0} {m k : Action S A} {Q : A → S → Type 0}
      → (c ≡ true → Leads P m Q)
      → (c ≡ false → Leads P k Q)
      → Leads P (if c then m else k) Q
  branch-Leads true h k = h refl
  branch-Leads false h k = k refl

  -- A stronger condition before.
  pub weaken-Leads :
      {A : Type 0} {P R : S → Type 0} {m : Action S A} {Q : A → S → Type 0}
      → ((s : S) → P s → R s)
      → Leads R m Q
      → Leads P m Q
  weaken-Leads w h = record { on = λ s p a e. h.on s (w s p) a e }

  pub Leads-Commits :
      {A : Type 0} {P : S → Type 0} {m : Action S A} → Leads P m (λ a s. P s) → Commits P m
  Leads-Commits h = record { on = λ s p a e. h.on s p a e }

  -- A catch block around a transaction, which starts where the transaction did.
  pub caught-Leads :
      {A : Type 0} {P : S → Type 0} {m : Action S A} {handler : Exception → Action S A}
      {Q : A → S → Type 0}
      → Leads P m Q
      → ((x : Exception) → Leads P (handler x) Q)
      → Leads P (try_catch (with_transaction m) handler) Q
  caught-Leads {m} {handler} {Q} h k = record {
    on = λ s p a e. caught_leads handler s (m s) Q (h.on s p) (λ x b f. (k x).on s p b f) a e;
  }

-- A transaction and its catch block answer `a` either because the work did, or because the catch block
-- did at the store as it was.
pub answered {ℓ} :
    {S A : Type 0} (P : S → Type ℓ) (handler : Exception → Action S A) (s : S) (r : Result A × S)
    (a : A)
    → (r.0 ≡ ok a → P r.1)
    → ((e : Exception) → r.0 ≡ err e → (handler e s).0 ≡ ok a → P (handler e s).1)
    → (handle handler (settle s r)).0 ≡ ok a
    → P (handle handler (settle s r)).1
answered P handler s (ok b, s') a worked caught h = worked h
answered P handler s (err e, s') a worked caught h = caught e refl h
