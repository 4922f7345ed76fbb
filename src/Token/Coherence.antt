-- ===== src/Token/Coherence.antt =====
-- The cached balances against the rows: TokenService.getUserBalance, cacheBalance and the methods
-- that write a balance, of marketBackend/src/services/tokenService.ts.
use omen_backend.Base.{
  ℕ, suc, ◌≤◌, ◌≡◌, ◌⊎◌, inl, inr, true, none, some, ℤ, pos, negsuc, ok, returned, arith,
  Option-cases,
}
use omen_backend.Token.Store.{Ledger, UserBalance, lock_balance}
use omen_backend.Token.Service.{
  lock_balance_for_order, unlock_balance_from_order, update_balance_internal, get_user_balance,
  expire_balance,
}

-- Where a balance is cached, the row is what was cached.
abbrev pub IsCoherentAt : Ledger → ℕ → ℕ → Type 0
IsCoherentAt w u t = (w.balance_cache u t ≡ none) ⊎ (w.balance_cache u t ≡ w.balances u t)

abbrev pub IsCoherent : Ledger → Type 0
IsCoherent w = (u t : ℕ) → IsCoherentAt w u t

-- What can happen to the balances while only the token service writes them: the three writing
-- methods, a read through the cache, and a cached key that runs out.
pub data Step : Ledger → Ledger → Type 0 where
  update : (u t : ℕ) (a l : ℤ) (w : Ledger) → Step w (update_balance_internal u t a l w).1
  lock : (u t : ℕ) (amount : ℤ) (w : Ledger) → Step w (lock_balance_for_order u t amount w).1
  unlock : (u t : ℕ) (amount : ℤ) (w : Ledger) → Step w (unlock_balance_from_order u t amount w).1
  read : (u t : ℕ) (w : Ledger) → Step w (get_user_balance u t w).1
  expire : (u t : ℕ) (w : Ledger) → Step w (expire_balance u t w)

pub data Reach (w : Ledger) : Ledger → Type 0 where
  here : Reach w w
  next : {w' w'' : Ledger} → Reach w w' → Step w' w'' → Reach w w''

pub update-IsCoherent :
    (u t : ℕ) (a l : ℤ) (w : Ledger)
    → IsCoherent w
    → IsCoherent (update_balance_internal u t a l w).1
unfolding update_balance_internal
update-IsCoherent u t (pos a) (pos l) w h u' t' = ground (arith, h u' t')
update-IsCoherent u t (pos a) (negsuc l) w h u' t' = h u' t'
update-IsCoherent u t (negsuc a) l w h u' t' = h u' t'

lock-IsCoherent :
    (u t : ℕ) (amount : ℤ) (w : Ledger)
    → IsCoherent w
    → IsCoherent (lock_balance_for_order u t amount w).1
unfolding lock_balance_for_order
lock-IsCoherent u t (pos n) w h u' t' = ground (arith, h u' t')
lock-IsCoherent u t (negsuc n) w h u' t' = ground (arith, h u' t')

unlock-IsCoherent :
    (u t : ℕ) (amount : ℤ) (w : Ledger)
    → IsCoherent w
    → IsCoherent (unlock_balance_from_order u t amount w).1
unfolding unlock_balance_from_order
unlock-IsCoherent u t (pos n) w h u' t' = ground (arith, h u' t')
unlock-IsCoherent u t (negsuc n) w h u' t' = ground (arith, h u' t')

-- Every row stands under its own key, as the unique constraint on (user_id, token_id) has it.
abbrev pub IsKeyed : Ledger → Type 0
IsKeyed w =
    (u t : ℕ) (b : UserBalance) → w.balances u t ≡ some b → (b.user_id ≡ u) × (b.token_id ≡ t)

pub read-IsCoherent :
    (u t : ℕ) (w : Ledger) → IsKeyed w → IsCoherent w → IsCoherent (get_user_balance u t w).1
unfolding get_user_balance
read-IsCoherent u t w k h u' t' = elim (Option-cases (w.balances u t)) [
  | inl e ↦ ground (arith, h u' t')
  | inr (b, e) ↦ ground (arith, h u' t', h u t, k u t b e)
]

expire-IsCoherent : (u t : ℕ) (w : Ledger) → IsCoherent w → IsCoherent (expire_balance u t w)
unfolding expire_balance
expire-IsCoherent u t w h u' t' = ground (arith, h u' t')

pub update-IsKeyed :
    (u t : ℕ) (a l : ℤ) (w : Ledger) → IsKeyed w → IsKeyed (update_balance_internal u t a l w).1
unfolding update_balance_internal
update-IsKeyed u t (pos a) (pos l) w k u' t' b e = ground (arith, k u' t' b)
update-IsKeyed u t (pos a) (negsuc l) w k u' t' b e = k u' t' b e
update-IsKeyed u t (negsuc a) l w k u' t' b e = k u' t' b e

lock-IsKeyed :
    (u t : ℕ) (amount : ℤ) (w : Ledger)
    → IsKeyed w
    → IsKeyed (lock_balance_for_order u t amount w).1
unfolding lock_balance_for_order
lock-IsKeyed u t (pos n) w k u' t' b e = ground (arith, k u' t' b)
lock-IsKeyed u t (negsuc n) w k u' t' b e = ground (arith, k u' t' b)

unlock-IsKeyed :
    (u t : ℕ) (amount : ℤ) (w : Ledger)
    → IsKeyed w
    → IsKeyed (unlock_balance_from_order u t amount w).1
unfolding unlock_balance_from_order
unlock-IsKeyed u t (pos n) w k u' t' b e = ground (arith, k u' t' b)
unlock-IsKeyed u t (negsuc n) w k u' t' b e = ground (arith, k u' t' b)

pub get_user_balance-balances :
    (u t : ℕ) (w : Ledger) → (get_user_balance u t w).1.balances ≡ w.balances
unfolding get_user_balance
get_user_balance-balances u t w = ground arith

pub read-IsKeyed : (u t : ℕ) (w : Ledger) → IsKeyed w → IsKeyed (get_user_balance u t w).1
read-IsKeyed u t w k u' t' b e = k u' t' b (rw (get_user_balance-balances u t w) at e)

pub record IsValid (w : Ledger) : Type 0 where
  pub keyed : IsKeyed w
  pub coherent : IsCoherent w

Step-IsValid : {w w' : Ledger} → Step w w' → IsValid w → IsValid w'
unfolding expire_balance
Step-IsValid (update u t a l w) v = record {
  keyed = update-IsKeyed u t a l w v.keyed;
  coherent = update-IsCoherent u t a l w v.coherent;
}
Step-IsValid (lock u t amount w) v = record {
  keyed = lock-IsKeyed u t amount w v.keyed;
  coherent = lock-IsCoherent u t amount w v.coherent;
}
Step-IsValid (unlock u t amount w) v = record {
  keyed = unlock-IsKeyed u t amount w v.keyed;
  coherent = unlock-IsCoherent u t amount w v.coherent;
}
Step-IsValid (read u t w) v = record {
  keyed = read-IsKeyed u t w v.keyed;
  coherent = read-IsCoherent u t w v.keyed v.coherent;
}
Step-IsValid (expire u t w) v = record {
  keyed = v.keyed;
  coherent = expire-IsCoherent u t w v.coherent;
}

-- The token service's balance calls and the expiries of cached keys, in any order, keep a ledger
-- valid: every row stands under its own key, and every cached balance is its row.
pub Reach-IsValid : {w w' : Ledger} → IsValid w → Reach w w' → IsValid w'
Reach-IsValid v here = v
Reach-IsValid v (next r s) = Step-IsValid s (Reach-IsValid v r)

pub coherent_read :
    (u t : ℕ) (w : Ledger) → IsCoherentAt w u t → (get_user_balance u t w).0 ≡ ok (w.balances u t)
unfolding get_user_balance
coherent_read u t w h = ground arith

-- In every ledger that the token service's balance calls and the expiries of cached keys, in any
-- order, reach from a valid one, a balance that is read through the cache is the row of the table.
pub get_user_balance-Reach :
    {w w' : Ledger} (u t : ℕ)
    → IsValid w
    → Reach w w'
    → (get_user_balance u t w').0 ≡ ok (w'.balances u t)
get_user_balance-Reach {w'} u t v r = coherent_read u t w' ((Reach-IsValid v r).coherent u t)

-- A lock of a positive amount that goes to the table and not through the service leaves a cached
-- balance that is not the row, and the service reads it.
pub lock_balance-stale :
    (u t n : ℕ) (w : Ledger) {b : UserBalance}
    → w.balances u t ≡ some b
    → w.balance_cache u t ≡ some b
    → suc n ≤ b.available_balance
    → let (r, w') = lock_balance u t (pos (suc n)) w in
      (returned r ≡ true) × ¬ (IsCoherentAt w' u t) × ((get_user_balance u t w').0 ≡ ok (some b))
unfolding lock_balance get_user_balance
lock_balance-stale u t n w e c h = (ground arith, λ k. ground arith, ground arith)
