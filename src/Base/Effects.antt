-- ===== src/Base/Effects.antt =====
-- A call that reads and writes a store and may throw, and MongoDB's transaction around it
-- (src/database/database.service.ts, src/common/app-exception.ts).
use Prim.Native.Nat.{ℕ}
use Prim.Native.String.{String}
use mathlib.Core.Bool.{Bool, false}
use mathlib.Core.Option.{Option, none, some}
use mathlib.Core.Path.{◌≡◌, refl}
use mathlib.Core.Logic.{◌⊎◌, inl, inr}
use text.Mathlib.Text.{◌==◌}
use panalbee_clock_backend.Base.Tests.{if◌then◌else◌}

-- What can be thrown: an AppException with its status and reason code, the server's duplicate-key
-- error with the name of the unique index, and any other Error.
pub data Exception : Type 0 where
  app : ℕ → String → Exception
  duplicate_key : String → Exception
  fault : String → Exception

pub data Result {ℓ} (A : Type ℓ) : Type ℓ where
  ok : A → Result A
  err : Exception → Result A

-- The store comes back after a throw too; `with_transaction` is what restores it.
abbrev pub Action : Type 0 → Type 0 → Type 0
Action S A = S → Result A × S

module _ {S A : Type 0} where
  abbrev pub pure : A → Action S A
  pure a s = (ok a, s)

  abbrev pub throw : Exception → Action S A
  throw e s = (err e, s)

  abbrev pub gets : (S → A) → Action S A
  gets f s = (ok (f s), s)

  -- A check that reads the store.
  abbrev pub inspect : (S → Result A) → Action S A
  inspect f s = (f s, s)

  abbrev pub lift : Result A → Action S A
  lift r s = (r, s)

  -- `if (!document) throw e`
  abbrev pub or_throw : Option A → Exception → Action S A
  or_throw none e = throw e
  or_throw (some a) e = pure a

abbrev pub continue : {S A B : Type 0} → (A → Action S B) → Result A × S → Result B × S
continue f (ok a, s) = f a s
continue f (err e, s) = (err e, s)

infixl 5 ◌>>=◌ ◌>>◌
abbrev pub ◌>>=◌ : {S A B : Type 0} → Action S A → (A → Action S B) → Action S B
◌>>=◌ m f s = continue f (m s)

abbrev pub ◌>>◌ : {S A B : Type 0} → Action S A → Action S B → Action S B
m >> k = m >>= λ _. k

module _ {S : Type 0} where
  abbrev pub throw_if : Bool → Exception → Action S (Unit {0})
  throw_if c e s = (if c then err e else ok tt, s)

  abbrev pub modify : (S → S) → Action S (Unit {0})
  modify f s = (ok tt, f s)

  -- A write that a unique index may refuse.
  abbrev pub insert_unique : (S → Bool) → String → (S → S) → Action S (Unit {0})
  insert_unique taken index write s =
      if taken s then (err (duplicate_key index), s) else (ok tt, write s)

module _ {S A : Type 0} where
  -- What the server keeps of a transaction that ended with a result: everything, or nothing if it
  -- threw.
  abbrev pub settle : S → Result A × S → Result A × S
  settle s (ok a, s') = (ok a, s')
  settle s (err e, _) = (err e, s)

  -- `DatabaseService.withTransaction`
  abbrev pub with_transaction : Action S A → Action S A
  with_transaction work s = settle s (work s)

  abbrev pub handle : (Exception → Action S A) → Result A × S → Result A × S
  handle handler (ok a, s) = (ok a, s)
  handle handler (err e, s) = handler e s

  -- `try { … } catch (error) { … }`
  abbrev pub try_catch : Action S A → (Exception → Action S A) → Action S A
  try_catch m handler s = handle handler (m s)

-- `isNamedDuplicateKey`
abbrev pub is_named_duplicate_key : Exception → String → Bool
is_named_duplicate_key (duplicate_key index) name = index == name
is_named_duplicate_key (app _ _) name = false
is_named_duplicate_key (fault _) name = false

pub Result-cases {ℓ} :
    {A : Type ℓ} (r : Result A) → ((a : A) × (r ≡ ok a)) ⊎ ((e : Exception) × (r ≡ err e))
Result-cases (ok a) = inl (a, refl)
Result-cases (err e) = inr (e, refl)

pub handle_ok :
    {S A : Type 0} (handler : Exception → Action S A) (r : Result A × S) {a : A}
    → r.0 ≡ ok a
    → handle handler r ≡ (ok a, r.1)
handle_ok handler (ok b, s) {a} e = let same : b ≡ a = cc in rw same refl
handle_ok handler (err x, s) e = cc

pub handle_err :
    {S A : Type 0} (handler : Exception → Action S A) (r : Result A × S) {e : Exception}
    → r.0 ≡ err e
    → handle handler r ≡ handler e r.1
handle_err handler (ok b, s) h = cc
handle_err handler (err x, s) {e} h = let same : x ≡ e = cc in rw same refl

pub settle_ok :
    {S A : Type 0} (s : S) (r : Result A × S) {a : A} → r.0 ≡ ok a → settle s r ≡ (ok a, r.1)
settle_ok s (ok b, s') {a} e = let same : b ≡ a = cc in rw same refl
settle_ok s (err x, s') e = cc

pub settle_err :
    {S A : Type 0} (s : S) (r : Result A × S) {e : Exception}
    → r.0 ≡ err e
    → settle s r ≡ (err e, s)
settle_err s (ok b, s') h = cc
settle_err s (err x, s') {e} h = let same : x ≡ e = cc in rw same refl
