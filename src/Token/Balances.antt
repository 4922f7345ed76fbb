-- ===== src/Token/Balances.antt =====
-- Locking and unlocking: TokenService.lockBalanceForOrder, TokenService.unlockBalanceFromOrder and
-- TokenService.updateBalanceInternal of marketBackend/src/services/tokenService.ts.
use omen_backend.Base.{
  ℕ, suc, ◌+◌, ◌≤◌, ◌≡◌, ◌≢◌, ◌⊎◌, ◌↔◌, true, Option, none, some, ℤ, pos, negsuc, ◌+ℤ◌, ◌-ℤ◌, ◌≤ℤ◌,
  Result, ok, err, returned, arith, is_some,
}
use omen_backend.Token.Store.{Ledger, UserBalance}
use omen_backend.Token.Service.{lock_balance_for_order, unlock_balance_from_order}

abbrev pub available : Option UserBalance → ℕ
available none = 0
available (some b) = b.available_balance

abbrev pub locked : Option UserBalance → ℕ
locked none = 0
locked (some b) = b.locked_balance

-- What a call did that was to move `amount` from the available to the locked part of one row.
abbrev pub Moves : Ledger → ℕ → ℕ → ℤ → Result UserBalance × Ledger → Type 0
Moves w u t amount (err _, w') = w' ≡ w
Moves w u t amount (ok b, w') =
    (is_some (w.balances u t) ≡ true)
    × (w'.balances u t ≡ some b)
    × (pos b.available_balance ≡ pos (available (w.balances u t)) -ℤ amount)
    × (pos b.locked_balance ≡ pos (locked (w.balances u t)) +ℤ amount)
    × ((u' t' : ℕ) → (u' ≢ u) ⊎ (t' ≢ t) → w'.balances u' t' ≡ w.balances u' t')

-- Locking an amount of whatever sign either throws and changes nothing, or moves it from the
-- available to the locked part of one row that exists, and leaves every other row alone.
pub lock_balance_for_order-Moves :
    (u t : ℕ) (amount : ℤ) (w : Ledger) → Moves w u t amount (lock_balance_for_order u t amount w)
unfolding lock_balance_for_order
lock_balance_for_order-Moves u t (pos n) w = ground arith
lock_balance_for_order-Moves u t (negsuc n) w = ground arith

pub unlock_balance_from_order-Moves :
    (u t : ℕ) (amount : ℤ) (w : Ledger)
    → Moves w u t (pos 0 -ℤ amount) (unlock_balance_from_order u t amount w)
unfolding unlock_balance_from_order
unlock_balance_from_order-Moves u t (pos n) w = ground arith
unlock_balance_from_order-Moves u t (negsuc n) w = ground arith

-- The amounts that a call can move: those that leave both parts at 0 or more.
abbrev pub Fits : Option UserBalance → ℤ → Type 0
Fits row amount =
    (is_some row ≡ true) × (amount ≤ℤ pos (available row)) × (pos 0 ≤ℤ pos (locked row) +ℤ amount)

-- A lock returns exactly when the row exists and both parts of it stay at 0 or more.
pub lock_returned_iff :
    (u t : ℕ) (amount : ℤ) (w : Ledger)
    → (returned (lock_balance_for_order u t amount w).0 ≡ true) ↔ Fits (w.balances u t) amount
unfolding lock_balance_for_order
lock_returned_iff u t (pos n) w = ground arith
lock_returned_iff u t (negsuc n) w = ground arith

-- Unlocking what a lock of 0 or more has locked returns, and restores the two parts of the row and
-- every other row.
pub unlock-lock :
    (u t n : ℕ) (w : Ledger) {b : UserBalance} {w' : Ledger}
    → lock_balance_for_order u t (pos n) w ≡ (ok b, w')
    → let (r, w'') = unlock_balance_from_order u t (pos n) w' in
      (returned r ≡ true)
      × (available (w''.balances u t) ≡ available (w.balances u t))
      × (locked (w''.balances u t) ≡ locked (w.balances u t))
      × ((u' t' : ℕ) → (u' ≢ u) ⊎ (t' ≢ t) → w''.balances u' t' ≡ w.balances u' t')
unfolding lock_balance_for_order unlock_balance_from_order
unlock-lock u t n w h = ground arith

-- A lock of a negative amount, which is not refused, releases as much of what is locked, where the
-- row has so much locked.
pub lock_negative_unlocks :
    (u t n : ℕ) (w : Ledger) {old : UserBalance}
    → w.balances u t ≡ some old
    → suc n ≤ old.locked_balance
    → let (r, w') = lock_balance_for_order u t (negsuc n) w in
      (returned r ≡ true)
      × (available (w'.balances u t) ≡ old.available_balance + suc n)
      × (locked (w'.balances u t) + suc n ≡ old.locked_balance)
unfolding lock_balance_for_order
lock_negative_unlocks u t n w e h = ground arith
