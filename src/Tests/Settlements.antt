-- ===== src/Tests/Settlements.antt =====
-- The settlement of a trade on the chain.
use omen_backend.Base.{ℕ, ◌≡◌, refl, Option, none, some, [], ◌∷◌, pos}
use omen_backend.Trading.Types.{Trade, pending}
use omen_backend.Trading.Store.{State}
use omen_backend.Trading.Settlement.{execute_settlement}
use omen_backend.Trading.Settlement.Outcome.{outcome_of, execute_settlement-outcome}
use omen_backend.Tests.Data.{state_with}

abbrev open_trade : Trade
open_trade = record {
  id = 50;
  trading_pair_id = 5;
  buyer_order_id = 3;
  seller_order_id = 1;
  buyer_id = 2;
  seller_id = 1;
  price = 7;
  quantity = 1000;
  buyer_fee = pos 2;
  seller_fee = pos 2;
  settlement_status = pending;
  blockchain_tx_hash = none;
}

abbrev traded : State
traded = record (state_with 1500) { trades = open_trade ∷ [] }

-- Sapphire answers without a hash.
abbrev no_hash : (trade_id pair_id : ℕ) → Option (Option ℕ)
no_hash trade_id pair_id = some none

execute_settlement-outcome_example :
    execute_settlement no_hash 4 50 5 traded ≡ outcome_of (some none) 4 50 open_trade traded
execute_settlement-outcome_example =
    execute_settlement-outcome no_hash 4 50 5 open_trade traded refl
