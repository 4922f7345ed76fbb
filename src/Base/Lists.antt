-- ===== src/Base/Lists.antt =====
-- Lists over the native numbers, and tables keyed by ids.
use Prim.Native.Nat.{ℕ, suc, zero, ◌+◌}
use mathlib.Core.Path.{◌≡◌, refl}
use mathlib.Core.Bool.{Bool, true, false}
use mathlib.Core.Option.{Option, none, some}
use mathlib.Core.List.{List, [], ◌∷◌, ◌++◌}
use native.Mathlib.Omega.{arith}
use omen_backend.Base.Tests.{◌==◌, if◌then◌else◌}

module _ {ℓ} {A : Type ℓ} where
  abbrev pub length : List A → ℕ
  length [] = 0
  length (x ∷ xs) = suc (length xs)

  abbrev pub take : ℕ → List A → List A
  take zero xs = []
  take (suc n) [] = []
  take (suc n) (x ∷ xs) = x ∷ take n xs

  abbrev pub select : (A → Bool) → List A → List A
  select p [] = []
  select p (x ∷ xs) = let rest = select p xs in if p x then x ∷ rest else rest

  abbrev pub update_where : (A → Bool) → (A → A) → List A → List A
  update_where p f [] = []
  update_where p f (x ∷ xs) = (if p x then f x else x) ∷ update_where p f xs

  abbrev pub any : (A → Bool) → List A → Bool
  any p [] = false
  any p (x ∷ xs) = if p x then true else any p xs

  abbrev pub find : (A → Bool) → List A → Option A
  find p [] = none
  find p (x ∷ xs) = if p x then some x else find p xs

  pub find-holds : (p : A → Bool) (xs : List A) (y : A) → find p xs ≡ some y → p y ≡ true
  find-holds p [] y e = absurd (cc e)
  find-holds p (x ∷ xs) y e = grind (arith, find-holds p xs y)

  pub any-find : (p : A → Bool) (xs : List A) → find p xs ≡ none → any p xs ≡ false
  any-find p [] e = refl
  any-find p (x ∷ xs) e = grind (arith, any-find p xs)

  pub find-any : (p : A → Bool) (xs : List A) {x : A} → find p xs ≡ some x → any p xs ≡ true
  find-any p [] e = absurd (cc e)
  find-any p (x ∷ xs) e = grind (arith, find-any p xs)

  pub length-append : (xs ys : List A) → length (xs ++ ys) ≡ length xs + length ys
  length-append [] ys = omega arith
  length-append (x ∷ xs) ys = omega (arith, length-append xs ys)

  pub any-append :
      (p : A → Bool) (xs ys : List A) → any p (xs ++ ys) ≡ (if any p xs then true else any p ys)
  any-append p [] ys = refl
  any-append p (x ∷ xs) ys = ground (arith, any-append p xs ys)

abbrev pub All {ℓ κ} : {A : Type ℓ} → (A → Type κ) → List A → Type κ
All P [] = Unit
All P (x ∷ xs) = P x × All P xs

-- A table with an id as its primary key.
abbrev pub Table : Type 0 → Type 0
Table A = ℕ → Option A

abbrev pub insert : {A : Type 0} → ℕ → A → Table A → Table A
insert k v t j = if j == k then some v else t j

-- COALESCE(new, old) of SQL.
abbrev pub coalesce : {A : Type 0} → Option A → Option A → Option A
coalesce none old = old
coalesce (some new) old = some new
