-- ===== src/Trading/Settle.antt =====
-- The four balance updates of executeTrade, in
-- marketBackend/src/infra/queue/matchingWorkerHandler.ts and
-- marketBackend/src/services/tradingService.ts, on the ledger of the token service.
pub mod Steps
pub mod Laws
use omen_backend.Base.{
  ℕ, ◌+◌, Option, none, some, ℤ, pos, ◌+ℤ◌, ◌-ℤ◌, Action, Done, pure, ◌>>=◌, ◌>>◌,
}
use omen_backend.Token.Store.{Ledger, UserBalance}
use omen_backend.Token.Service.{get_user_balance, update_balance_internal}
use omen_backend.Token.Balances.{available, locked}

-- `balance?.availableBalance || '0'`.
unfoldable pub get_available_balance : ℕ → ℕ → Action Ledger ℕ
get_available_balance u t = do balance ← get_user_balance u t; pure (available balance)

unfoldable pub get_locked_balance : ℕ → ℕ → Action Ledger ℕ
get_locked_balance u t = do balance ← get_user_balance u t; pure (locked balance)

-- The available part stays, `amount` is taken from the locked part.
unfoldable pub take_locked : ℕ → ℕ → ℤ → Action Ledger UserBalance
take_locked u t amount = do
  a ← get_available_balance u t
  l ← get_locked_balance u t
  update_balance_internal u t (pos a) (pos l -ℤ amount)

-- `amount` less the fee is added to the available part, the locked part stays.
unfoldable pub add_available : ℕ → ℕ → ℤ → ℤ → Action Ledger UserBalance
add_available u t amount fee = do
  a ← get_available_balance u t
  l ← get_locked_balance u t
  update_balance_internal u t (pos a +ℤ amount -ℤ fee) (pos l)

pub record Settlement : Type 0 where
  pub seller : ℕ
  pub buyer : ℕ
  pub base : ℕ
  pub quote : ℕ
  pub quantity : ℤ
  pub quote_amount : ℤ
  pub buyer_fee : ℤ
  pub seller_fee : ℤ

unfoldable pub settle_balances : Settlement → Action Ledger Done
settle_balances d = do
  take_locked d.seller d.base d.quantity
  add_available d.seller d.quote d.quote_amount d.seller_fee
  take_locked d.buyer d.quote d.quote_amount
  add_available d.buyer d.base d.quantity d.buyer_fee
  pure tt
