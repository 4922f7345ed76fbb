-- ===== src/Base/Keeps.antt =====
-- Properties that every call of an action keeps, with one rule for each way to build an action.
-- `search (keeps_rules, ...)` goes through a method with them.
use mathlib.Core.Bool.{Bool, true, false}
use mathlib.Core.Option.{Option, none, some}
use omen_backend.Base.Tests.{if◌then◌else◌}
use omen_backend.Base.Calls.{
  Action, Done, Error, Result, ok, err, pure, throw, gets, or_throw, throw_if, when, catch, ◌>>=◌,
  ◌>>◌,
}

-- `m` keeps `P`, whether it returns or throws.
pub record Keeps {S A : Type 0} (P : S → Type 0) (m : Action S A) : Type 0 where
  pub at : (s : S) → P s → P (m s).1

module _ {S A : Type 0} {P : S → Type 0} where
  pub Keeps-pure : (a : A) → Keeps P (pure a)
  Keeps-pure a = record { at = λ s h. h }

  pub Keeps-throw : (e : Error) → Keeps P (throw {A = A} e)
  Keeps-throw e = record { at = λ s h. h }

  pub Keeps-gets : (f : S → A) → Keeps P (gets f)
  Keeps-gets f = record { at = λ s h. h }

  pub Keeps-or_throw : (o : Option A) (e : Error) → Keeps P (or_throw o e)
  Keeps-or_throw none e = Keeps-throw e
  Keeps-or_throw (some a) e = Keeps-pure a

  pub Keeps-if :
      (b : Bool) (m n : Action S A) → Keeps P m → Keeps P n → Keeps P (if b then m else n)
  Keeps-if true m n km kn = km
  Keeps-if false m n km kn = kn

  Keeps-result :
      (r : Result A) (s : S) (handler : Error → Action S A)
      → ((e : Error) → Keeps P (handler e))
      → P s
      → let x : Result A × S = elim r [ ok a ↦ (ok a, s) | err e ↦ handler e s ] in P x.1
  Keeps-result (ok a) s handler kh h = h
  Keeps-result (err e) s handler kh h = (kh e).at s h

  pub Keeps-catch :
      (m : Action S A) (handler : Error → Action S A)
      → Keeps P m
      → ((e : Error) → Keeps P (handler e))
      → Keeps P (catch m handler)
  Keeps-catch m handler km kh = record {
    at = λ s h. let (r, s') = m s in Keeps-result r s' handler kh (km.at s h);
  }

module _ {S : Type 0} {P : S → Type 0} where
  pub Keeps-throw_if : (b : Bool) (e : Error) → Keeps P (throw_if b e)
  Keeps-throw_if true e = record { at = λ s h. h }
  Keeps-throw_if false e = record { at = λ s h. h }

  pub Keeps-when : (b : Bool) (m : Action S Done) → Keeps P m → Keeps P (when b m)
  Keeps-when true m km = record { at = km.at }
  Keeps-when false m km = record { at = λ s h. h }

module _ {S A B : Type 0} {P : S → Type 0} where
  Keeps-rest :
      (r : Result A) (s : S) (f : A → Action S B)
      → ((a : A) → Keeps P (f a))
      → P s
      → let x : Result B × S = elim r [ ok a ↦ f a s | err e ↦ (err e, s) ] in P x.1
  Keeps-rest (ok a) s f kf h = (kf a).at s h
  Keeps-rest (err e) s f kf h = h

  pub Keeps-bind :
      (m : Action S A) (f : A → Action S B)
      → Keeps P m
      → ((a : A) → Keeps P (f a))
      → Keeps P (m >>= f)
  Keeps-bind m f km kf = record {
    at = λ s h. let (r, s') = m s in Keeps-rest r s' f kf (km.at s h);
  }

  pub Keeps-then : (m : Action S A) (k : Action S B) → Keeps P m → Keeps P k → Keeps P (m >> k)
  Keeps-then m k km kk = Keeps-bind m (λ _. k) km (λ _. kk)

pub ruleset keeps_rules = (
  Keeps-pure, Keeps-throw, Keeps-gets, Keeps-or_throw, Keeps-if, Keeps-catch, Keeps-throw_if,
  Keeps-when, Keeps-bind, Keeps-then,
)
