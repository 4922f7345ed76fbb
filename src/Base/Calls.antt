-- ===== src/Base/Calls.antt =====
-- An asynchronous method: it reads and writes a state, and returns a value or throws. What was
-- written before a throw stays written. The errors are the codes of `ApplicationError`
-- (marketBackend/src/lib/errors.ts) with the HTTP status, and the faults of the store.
use Prim.Native.Nat.{ℕ}
use mathlib.Core.Path.{◌≡◌, refl}
use native.Mathlib.Omega.{arith}
use mathlib.Core.Bool.{Bool, true, false}
use mathlib.Core.Option.{Option, none, some}

pub data Code : Type 0 where
  signature_expired nonce_reused invalid_signature pair_not_found pair_inactive : Code
  market_not_found market_not_active token_not_found compliance_failed : Code
  order_too_small order_too_large price_required order_not_found unauthorized invalid_status : Code
  kyc_required not_whitelisted compliance_expired token_exists insufficient_balance : Code
  invalid_market_status market_not_approved forbidden : Code
  invalid_sns_message invalid_webhook_payload missing_event_fields : Code
  invalid_approval_payload invalid_decision : Code
  swap_token_not_found token_contract_missing swap_invalid_amount swap_amount_below_fees : Code
  swap_insufficient_balance swap_identical_tokens : Code
  sapphire_settlement_error sapphire_settlement_failed : Code
  invalid_token_type insufficient_usdc_balance usdc_not_configured : Code
  transaction_failed sapphire_swap_failed : Code

pub data Error : Type 0 where
  -- `new ApplicationError(message, { statusCode, code })`.
  app : ℕ → Code → Error
  -- A violated CHECK constraint of the named kind.
  positive_balance status_check valid_quantities positive_values valid_event_type : Error
  -- `new Error(...)` of a repository.
  insufficient_to_lock insufficient_to_unlock order_row_missing market_row_missing : Error
  swap_row_missing trade_row_missing pair_row_missing transaction_row_missing : Error
  -- A number that its NUMERIC column does not hold.
  numeric_overflow : Error
  -- A violated foreign key, a text that is no UUID, a second pair of the same tokens, and a second
  -- token of the same symbol.
  foreign_key invalid_uuid unique_pair unique_symbol : Error
  -- `BigInt(undefined)` and `BigInt(null)`.
  type_error : Error
  -- What an external service throws.
  external : Error

pub data Result {ℓ} (A : Type ℓ) : Type ℓ where
  ok : A → Result A
  err : Error → Result A

abbrev pub Action : Type 0 → Type 0 → Type 0
Action S A = S → Result A × S

abbrev pub Done : Type 0
Done = Unit {0}

module _ {S A : Type 0} where
  abbrev pub pure : A → Action S A
  pure a s = (ok a, s)

  abbrev pub throw : Error → Action S A
  throw e s = (err e, s)

  abbrev pub gets : (S → A) → Action S A
  gets f s = (ok (f s), s)

  -- `if (!row) throw e`.
  abbrev pub or_throw : Option A → Error → Action S A
  or_throw none e = throw e
  or_throw (some a) e = pure a

  -- `try { m } catch (e) { handler(e) }`.
  abbrev pub catch : Action S A → (Error → Action S A) → Action S A
  catch m handler s = let (r, s') = m s in elim r [ ok a ↦ (ok a, s') | err e ↦ handler e s' ]

infixl 5 ◌>>=◌ ◌>>◌
abbrev pub ◌>>=◌ : {S A B : Type 0} → Action S A → (A → Action S B) → Action S B
◌>>=◌ m f s = let (r, s') = m s in elim r [ ok a ↦ f a s' | err e ↦ (err e, s') ]

abbrev pub ◌>>◌ : {S A B : Type 0} → Action S A → Action S B → Action S B
m >> k = m >>= λ _. k

abbrev pub modify : {S : Type 0} → (S → S) → Action S Done
modify f s = (ok tt, f s)

-- `if (test) throw e`.
abbrev pub throw_if : {S : Type 0} → Bool → Error → Action S Done
throw_if true e s = (err e, s)
throw_if false e s = (ok tt, s)

-- `if (test) m`.
abbrev pub when : {S : Type 0} → Bool → Action S Done → Action S Done
when true m s = m s
when false m s = (ok tt, s)

-- An action on a part of the state.
abbrev pub zoom : {S T A : Type 0} → (T → S) → (S → T → T) → Action S A → Action T A
zoom get put m t = let (r, s') = m (get t) in (r, put s' t)

-- Whether a call returned.
abbrev pub returned {ℓ} : {A : Type ℓ} → Result A → Bool
returned (ok _) = true
returned (err _) = false

module _ {S A B : Type 0} (m : Action S A) (k : Action S B) (s : S) where
  -- The call that follows one that returned, and the throw that ends a chain.
  pub then_returned : returned (m s).0 ≡ true → (m >> k) s ≡ k (m s).1
  then_returned h = ground arith

  pub then_threw : {e : Error} → (m s).0 ≡ err e → (m >> k) s ≡ (err e, (m s).1)
  then_threw h = ground arith

module _ {S A B : Type 0} (m : Action S A) (f : A → Action S B) (s : S) where
  -- A chain that returned went through its first call.
  pub bind-eq-ok :
      {b : B} {s'' : S}
      → (m >>= f) s ≡ (ok b, s'')
      → (a : A) × (s' : S) × (m s ≡ (ok a, s')) × (f a s' ≡ (ok b, s''))
  bind-eq-ok {b} {s''} h = split (m s).0 refl
    where
      split :
          (r : Result A)
          → (m s).0 ≡ r
          → (a : A) × (s' : S) × (m s ≡ (ok a, s')) × (f a s' ≡ (ok b, s''))
      split (ok a) e = (a, (m s).1, λ i. (e i, (m s).1), rw (e, ◌>>=◌) at h)
      split (err x) e = absurd (cc (rw (e, ◌>>=◌) at h))

  -- The call that follows one that returned a known value.
  pub bind-ok : {a : A} {s' : S} → m s ≡ (ok a, s') → (m >>= f) s ≡ f a s'
  bind-ok h = ground arith

  pub bind-err : {e : Error} {s' : S} → m s ≡ (err e, s') → (m >>= f) s ≡ (err e, s')
  bind-err h = ground arith

  -- A chain throws if its first call does, or if what follows always does.
  pub throws_first : returned (m s).0 ≡ false → returned ((m >>= f) s).0 ≡ false
  throws_first h = ground arith

  pub throws_after :
      ((a : A) (s' : S) → returned (f a s').0 ≡ false) → returned ((m >>= f) s).0 ≡ false
  throws_after h = split (m s).0 refl
    where
      split : (r : Result A) → (m s).0 ≡ r → returned ((m >>= f) s).0 ≡ false
      split (ok a) e = rw (e, returned, ◌>>=◌) (h a (m s).1)
      split (err x) e = rw (e, returned, ◌>>=◌) refl

-- A guard that let a call through.
pub throw_if-eq-ok :
    {S : Type 0} (c : Bool) (e : Error) (s s' : S)
    → throw_if c e s ≡ (ok tt, s')
    → (c ≡ false) × (s' ≡ s)
throw_if-eq-ok c e s s' h = ground arith

pub or_throw-eq-ok :
    {S A : Type 0} (o : Option A) (e : Error) (s s' : S) (a : A)
    → or_throw o e s ≡ (ok a, s')
    → (o ≡ some a) × (s' ≡ s)
or_throw-eq-ok o e s s' a h = ground arith

-- What `try` makes of a call that returned, and of one that threw.
pub catch-ok :
    {S A : Type 0} (m : Action S A) (handler : Error → Action S A) (s : S) {a : A} {s' : S}
    → m s ≡ (ok a, s')
    → catch m handler s ≡ (ok a, s')
catch-ok m handler s h = ground arith

pub catch-err :
    {S A : Type 0} (m : Action S A) (handler : Error → Action S A) (s : S) {e : Error} {s' : S}
    → m s ≡ (err e, s')
    → catch m handler s ≡ handler e s'
catch-err m handler s h = ground arith

-- A value that is made of what a call returned, or of what it threw, changes no state.
pub then_pure-state :
    {S A B : Type 0} (m : Action S A) (b : B) (s : S) → ((m >> pure b) s).1 ≡ (m s).1
then_pure-state m b s = ground arith

pub catch-pure-state :
    {S A : Type 0} (m : Action S A) (f : Error → A) (s : S)
    → (catch m (λ e. pure (f e)) s).1 ≡ (m s).1
catch-pure-state m f s = ground arith
