-- ===== src/Base/Preservation.antt =====
-- Properties of the store that an action keeps, whatever it answers, with a rule for each way to
-- build an action.
use mathlib.Core.Bool.{Bool, true, false}
use mathlib.Core.Option.{Option, none, some}
use mathlib.Core.Path.{◌≡◌, refl}
use panalbee_clock_backend.Base.Effects.{
  Exception, Result, ok, err, Action, pure, throw, gets, inspect, lift, or_throw, throw_if, modify,
  ◌>>=◌, ◌>>◌, continue, settle, with_transaction, handle, try_catch,
}
use panalbee_clock_backend.Base.Tests.{if◌then◌else◌}

pub record Keeps {ℓ} {S A : Type 0} (P : S → Type ℓ) (m : Action S A) : Type ℓ where
  pub on : (s : S) → P s → P (m s).1

-- The same for an action that ends well; a transaction undoes the others.
pub record Commits {ℓ} {S A : Type 0} (P : S → Type ℓ) (m : Action S A) : Type ℓ where
  pub on : (s : S) → P s → (a : A) → (m s).0 ≡ ok a → P (m s).1

settle_commits {ℓ} :
    {S A : Type 0} (P : S → Type ℓ) (s : S) (r : Result A × S)
    → P s
    → ((a : A) → r.0 ≡ ok a → P r.1)
    → P (settle s r).1
settle_commits P s (ok a, s') h k = k a refl
settle_commits P s (err e, s') h k = h

continue_keeps {ℓ} :
    {S A B : Type 0} (P : S → Type ℓ) (f : A → Action S B) (r : Result A × S)
    → P r.1
    → ((a : A) → Keeps P (f a))
    → P (continue f r).1
continue_keeps P f (ok a, s) h k = (k a).on s h
continue_keeps P f (err e, s) h k = h

handle_keeps {ℓ} :
    {S A : Type 0} (P : S → Type ℓ) (handler : Exception → Action S A) (r : Result A × S)
    → P r.1
    → ((e : Exception) → Keeps P (handler e))
    → P (handle handler r).1
handle_keeps P handler (ok a, s) h k = h
handle_keeps P handler (err e, s) h k = (k e).on s h

module _ {ℓ} {S : Type 0} {P : S → Type ℓ} where
  pub pure-Keeps : {A : Type 0} (a : A) → Keeps P (pure a)
  pure-Keeps a = record { on = λ s h. h }

  pub throw-Keeps : {A : Type 0} (e : Exception) → Keeps {A = A} P (throw e)
  throw-Keeps e = record { on = λ s h. h }

  pub gets-Keeps : {A : Type 0} (f : S → A) → Keeps P (gets f)
  gets-Keeps f = record { on = λ s h. h }

  pub inspect-Keeps : {A : Type 0} (f : S → Result A) → Keeps P (inspect f)
  inspect-Keeps f = record { on = λ s h. h }

  pub lift-Keeps : {A : Type 0} (r : Result A) → Keeps P (lift r)
  lift-Keeps r = record { on = λ s h. h }

  pub throw_if-Keeps : (c : Bool) (e : Exception) → Keeps P (throw_if c e)
  throw_if-Keeps c e = record { on = λ s h. h }

  pub or_throw-Keeps : {A : Type 0} (o : Option A) (e : Exception) → Keeps P (or_throw o e)
  or_throw-Keeps none e = record { on = λ s h. h }
  or_throw-Keeps (some a) e = record { on = λ s h. h }

  pub modify-Keeps : (f : S → S) → ((s : S) → P s → P (f s)) → Keeps P (modify f)
  modify-Keeps f k = record { on = k }

  pub >>=-Keeps :
      {A B : Type 0} {m : Action S A} {f : A → Action S B}
      → Keeps P m
      → ((a : A) → Keeps P (f a))
      → Keeps P (m >>= f)
  >>=-Keeps {m} {f} h k = record { on = λ s p. continue_keeps P f (m s) (h.on s p) k }

  pub >>-Keeps :
      {A B : Type 0} {m : Action S A} {k : Action S B} → Keeps P m → Keeps P k → Keeps P (m >> k)
  >>-Keeps h k = >>=-Keeps h (λ a. k)

  Keeps-Commits : {A : Type 0} {m : Action S A} → Keeps P m → Commits P m
  Keeps-Commits h = record { on = λ s p a e. h.on s p }

  pub transaction-Keeps : {A : Type 0} {m : Action S A} → Commits P m → Keeps P (with_transaction m)
  transaction-Keeps {m} h = record { on = λ s p. settle_commits P s (m s) p (h.on s p) }

  pub with_transaction-Keeps :
      {A : Type 0} {m : Action S A} → Keeps P m → Keeps P (with_transaction m)
  with_transaction-Keeps h = transaction-Keeps (Keeps-Commits h)

  pub try_catch-Keeps :
      {A : Type 0} {m : Action S A} {handler : Exception → Action S A}
      → Keeps P m
      → ((e : Exception) → Keeps P (handler e))
      → Keeps P (try_catch m handler)
  try_catch-Keeps {m} {handler} h k = record {
    on = λ s p. handle_keeps P handler (m s) (h.on s p) k;
  }

  pub if-Keeps :
      {A : Type 0} (c : Bool) {m k : Action S A}
      → Keeps P m
      → Keeps P k
      → Keeps P (if c then m else k)
  if-Keeps true h k = h
  if-Keeps false h k = k

  -- What follows a guard may use that it did not throw, and a branch its condition.
  pub guard-Keeps :
      {A : Type 0} (c : Bool) (e : Exception) {k : Action S A}
      → (c ≡ false → Keeps P k)
      → Keeps P (throw_if c e >> k)
  guard-Keeps true e h = record { on = λ s p. p }
  guard-Keeps false e h = record { on = λ s p. (h refl).on s p }

  pub branch-Keeps :
      {A : Type 0} (c : Bool) {m k : Action S A}
      → (c ≡ true → Keeps P m)
      → (c ≡ false → Keeps P k)
      → Keeps P (if c then m else k)
  branch-Keeps true h k = h refl
  branch-Keeps false h k = k refl

  pub ruleset keeps = (
    pure-Keeps, throw-Keeps, gets-Keeps, inspect-Keeps, lift-Keeps, throw_if-Keeps, or_throw-Keeps,
    >>=-Keeps, >>-Keeps, with_transaction-Keeps, try_catch-Keeps, if-Keeps,
  )
