-- ===== src/Tests/Matches.antt =====
-- The matching of one order against two makers.
use omen_backend.Base.{ℕ, ◌+◌, ◌≡◌, refl, true, Option, none, some, List, [], ◌∷◌, pos, ok, arith}
use omen_backend.Token.Store.{write_balance, update_balance}
use omen_backend.Token.Service.{
  get_user_balance, update_balance_internal, publish_balance, cache_balance,
}
use omen_backend.Trading.Types.{Order, OrderSide, filled, Trade, pending}
use omen_backend.Trading.Store.{
  State, BookCommand, open_orders_for_pair, get_open_orders_for_pair, create_trade, changed_order,
  update_order_status, insert_audit_log, publish, enqueue, send, invalidate_order_book_cache,
}
use omen_backend.Trading.Store.Orders.{order_at}
use omen_backend.Trading.Amounts.{wei, calculate_quote_amount, calculate_fee}
use omen_backend.Trading.Settle.{
  settle_balances, get_available_balance, get_locked_balance, take_locked, add_available,
}
use omen_backend.Trading.Worker.{
  can_match, cache_orders_in_redis, execute_trade, trade_in_database, book_trade, settle_trade,
  fill_orders, announce_trade, remove_order_from_order_book, add_order_to_order_book,
}
use omen_backend.Trading.Matching.{
  MatchResult, match_loop, match_round, after_trade, finish_matching, start, get_opposing_orders,
  execute_matching,
}
use omen_backend.Trading.Matching.Loop.{match_loop-Fills, Outcome}
use omen_backend.Trading.Matching.LostFill.{lost_fill}
use omen_backend.Trading.Matching.Outcome.{IsMatched, execute_matching-IsMatched}
use omen_backend.Tests.Data.{maker1, maker2, taker, pair5, state_with, any_status}

-- Redis has no book.
abbrev no_redis : List BookCommand → ℕ → OrderSide → Option (List Order)
no_redis book pair side = none

match_loop-Fills_example :
    Outcome any_status taker pair5
      (maker1 ∷ maker2 ∷ [])
      1500
      0
      (state_with 1500)
      (match_loop any_status taker pair5 (maker1 ∷ maker2 ∷ []) (start taker) (state_with 1500))
match_loop-Fills_example =
    match_loop-Fills any_status taker pair5 (maker1 ∷ maker2 ∷ []) 1500 0 (state_with 1500)
      (omega arith, (omega arith, tt))

abbrev taker_report : MatchResult
taker_report = record {
  matched = true;
  trades_executed = 2;
  remaining_quantity = pos 0;
  final_status = filled;
}

execute_matching-IsMatched_example :
    IsMatched any_status taker pair5
      (maker1 ∷ maker2 ∷ [])
      (get_opposing_orders any_status no_redis 5 OrderSide.sell (state_with 1500)).1
      taker_report
      (execute_matching any_status no_redis taker pair5 (state_with 1500)).1
unfolding can_match cache_orders_in_redis execute_trade trade_in_database book_trade settle_trade
    fill_orders announce_trade remove_order_from_order_book add_order_to_order_book settle_balances
    take_locked add_available get_available_balance get_locked_balance get_user_balance
    open_orders_for_pair get_open_orders_for_pair create_trade changed_order update_order_status
    insert_audit_log publish enqueue send update_balance_internal update_balance write_balance
    publish_balance cache_balance calculate_quote_amount calculate_fee invalidate_order_book_cache
    match_loop match_round after_trade finish_matching get_opposing_orders execute_matching
execute_matching-IsMatched_example =
    execute_matching-IsMatched any_status no_redis taker pair5 (maker1 ∷ maker2 ∷ [])
      (state_with 1500) _ _ taker_report (omega arith) (omega arith)
      (omega arith, (omega arith, tt)) refl refl

-- The state after the first of the two trades.
abbrev halfway : State
halfway = (execute_trade any_status taker maker1 (pos 1000) pair5 (state_with 1500)).1

abbrev trade_of : ℕ → ℕ → ℕ → ℕ → Trade
trade_of id seller_order quantity fee = record {
  id = id;
  trading_pair_id = 5;
  buyer_order_id = 3;
  seller_order_id = seller_order;
  buyer_id = 2;
  seller_id = 1;
  price = wei;
  quantity = quantity;
  buyer_fee = pos fee;
  seller_fee = pos fee;
  settlement_status = pending;
  blockchain_tx_hash = none;
}

lost_fill_example :
    let (p, s') =
      match_loop any_status taker pair5 (maker1 ∷ maker2 ∷ []) (start taker) (state_with 1500) in
    let (r, final) = finish_matching any_status taker p s' in
    (r ≡ ok taker_report)
    × ((row : Order) × (order_at 3 final.orders ≡ some row)
        × (row.status ≡ filled)
        × (row.filled_quantity + 1000 ≡ 1500))
unfolding can_match cache_orders_in_redis execute_trade trade_in_database book_trade settle_trade
    fill_orders announce_trade remove_order_from_order_book add_order_to_order_book settle_balances
    take_locked add_available get_available_balance get_locked_balance get_user_balance
    open_orders_for_pair get_open_orders_for_pair create_trade changed_order update_order_status
    insert_audit_log publish enqueue send update_balance_internal update_balance write_balance
    publish_balance cache_balance calculate_quote_amount calculate_fee invalidate_order_book_cache
lost_fill_example =
    lost_fill any_status taker pair5 maker1 maker2 999 499 (state_with 1500) halfway _
      (trade_of 50 1 1000 2) (trade_of 51 2 500 1) refl refl (omega arith) refl (omega arith)
      (omega arith) (omega arith) refl refl
