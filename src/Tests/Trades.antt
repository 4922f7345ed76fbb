-- ===== src/Tests/Trades.antt =====
-- Trades between the two users.
use omen_backend.Base.{
  ℕ, ◌+◌, ◌-◌, ◌≤◌, ◌≡◌, refl, none, List, [], ◌∷◌, ◌++◌, pos, pos_part, ok, err, positive_balance,
  arith,
}
use omen_backend.Token.Store.{write_balance, update_balance}
use omen_backend.Token.Service.{
  get_user_balance, update_balance_internal, publish_balance, cache_balance,
}
use omen_backend.Trading.Types.{Trade, pending}
use omen_backend.Trading.Store.{
  create_trade, changed_order, update_order_status, insert_audit_log, publish, enqueue, send,
  invalidate_order_book_cache,
}
use omen_backend.Trading.Amounts.{wei, calculate_quote_amount, calculate_fee}
use omen_backend.Trading.Amounts.Bounds.{quote_of, fee_of, cost_within_lock, quantities, cost}
use omen_backend.Trading.Settle.{
  settle_balances, get_available_balance, get_locked_balance, take_locked, add_available,
}
use omen_backend.Trading.Settle.Laws.{deal, IsSettled, settle_balances-IsSettled, total_at}
use omen_backend.Trading.Worker.{
  execute_trade, trade_in_database, book_trade, settle_trade, fill_orders, announce_trade,
  remove_order_from_order_book,
}
use omen_backend.Trading.Worker.Effects.{IsTraded, execute_trade-IsTraded}
use omen_backend.Base.{returned, true}
use omen_backend.Trading.Worker.Success.{execute_trade-returns}
use omen_backend.Trading.Worker.Failure.{execute_trade-partial}
use omen_backend.Tests.Data.{
  ledger_with, ledger_with-IsValid, maker1, taker, pair5, state_with, any_status,
}

settle_balances-IsSettled_example :
    let (r, w') = settle_balances (deal 1 2 10 20 1000 1000 2 2) (ledger_with 1500) in
    (r ≡ ok tt) × IsSettled 1 2 10 20 1000 1000 2 2 (ledger_with 1500) w'
unfolding update_balance_internal update_balance write_balance publish_balance cache_balance
settle_balances-IsSettled_example =
    settle_balances-IsSettled 1 2 10 20 1000 1000 2 2 (ledger_with 1500) (ledger_with-IsValid 1500)
      (omega arith) (omega arith) (omega arith) (refl, refl) (omega arith) (omega arith)
      (omega arith)

-- User 1 sells 1000 to user 2 at the price of 1.
abbrev first_trade : Trade
first_trade = record {
  id = 50;
  trading_pair_id = 5;
  buyer_order_id = 3;
  seller_order_id = 1;
  buyer_id = 2;
  seller_id = 1;
  price = wei;
  quantity = 1000;
  buyer_fee = pos 2;
  seller_fee = pos 2;
  settlement_status = pending;
  blockchain_tx_hash = none;
}

execute_trade-IsTraded_example :
    IsTraded taker maker1 1000 pair5
      (state_with 1500)
      (execute_trade any_status taker maker1 (pos 1000) pair5 (state_with 1500)).1
      first_trade
unfolding execute_trade trade_in_database book_trade settle_trade fill_orders announce_trade
    remove_order_from_order_book settle_balances take_locked add_available get_available_balance
    get_locked_balance get_user_balance create_trade changed_order update_order_status
    insert_audit_log publish enqueue send update_balance_internal update_balance write_balance
    publish_balance cache_balance calculate_quote_amount calculate_fee invalidate_order_book_cache
execute_trade-IsTraded_example =
    execute_trade-IsTraded any_status taker maker1 1000 pair5 (state_with 1500) _ first_trade
      (ledger_with-IsValid 1500) (omega arith) (omega arith) (omega arith) refl

execute_trade-partial_example :
    let (r, s') = execute_trade any_status taker maker1 (pos 1000) pair5 (state_with 10) in
    (r ≡ err positive_balance)
    × ((t : Trade) × (s'.trades ≡ [] ++ t ∷ [])
        × (t.settlement_status ≡ pending)
        × (t.quantity ≡ 1000))
    × (total_at 1 20 s'.ledger
        ≡ total_at 1 20 (ledger_with 10) + (quote_of 1000 wei - fee_of 1000 wei))
    × (total_at 2 20 s'.ledger ≡ total_at 2 20 (ledger_with 10))
unfolding update_balance_internal update_balance write_balance publish_balance cache_balance
execute_trade-partial_example =
    execute_trade-partial any_status taker maker1 999 999_999_999_999_999_999 pair5 (state_with 10)
      (ledger_with-IsValid 10) (omega arith) (omega arith) refl (refl, refl, refl) (refl, refl)
      (omega arith) (omega arith)

-- Three fills of an order to buy 10 at 3.
abbrev three_fills : List (ℕ × ℕ)
three_fills = (2, 3) ∷ (3, 1) ∷ (1, 2) ∷ []

cost_within_lock_example :
    cost three_fills + pos_part (calculate_quote_amount (pos 4) (pos 3))
    ≤ pos_part (calculate_quote_amount (pos (quantities three_fills + 4)) (pos 3))
cost_within_lock_example =
    cost_within_lock 3 4 three_fills (omega arith, (omega arith, (omega arith, tt)))

execute_trade-returns_example :
    returned (execute_trade any_status taker maker1 (pos 1000) pair5 (state_with 1500)).0 ≡ true
unfolding update_balance_internal update_balance write_balance publish_balance cache_balance
execute_trade-returns_example =
    execute_trade-returns any_status taker maker1 999 999_999_999_999_999_999 pair5
      (state_with 1500) refl refl (ledger_with-IsValid 1500) (omega arith) (omega arith)
      (omega arith) refl (omega arith, omega arith, omega arith) refl (refl, refl)
      (taker, refl, omega arith) (maker1, refl, omega arith)
