-- ===== src/Trading/Worker.antt =====
-- The class `MatchingWorker` of marketBackend/src/infra/queue/matchingWorkerHandler.ts. The reply of
-- Redis to ZRANGE is a parameter: it answers from the commands sent so far, or throws (`none`).
pub mod Trades
pub mod Effects
pub mod Failure
pub mod Success
use omen_backend.Base.{
  ℕ, ◌+◌, zero, suc, Bool, true, false, ◌||◌, Option, none, some, List, [], ◌∷◌, ◌++◌, ℤ, pos, ◌+ℤ◌,
  ◌-ℤ◌, ltb_ℤ, leb_ℤ, is_some, ltb, leb, negsuc, ◌==◌, if◌then◌else◌, take, select, Action, Done,
  Result, ok, err, pure, throw, gets, modify, or_throw, when, catch, ◌>>=◌, ◌>>◌, type_error,
  external, app,
}
use omen_backend.Trading.Types.{
  OrderSide, buy, sell, OrderType, OrderStatus, pending_match, open_status, partial, filled,
  cancelled, TradingPair, Order, Trade, is_buy, opposite, is_market,
}
use omen_backend.Trading.Store.{
  State, BookCommand, zadd, zrem, del, expire, TradingEvent, order_open, order_partially_filled,
  order_filled, order_cancelled, trade_executed, trade_settlement_pending, Job, match_order,
  execute_settlement, trade_notification, update_market_stats, AuditAction, bought, sold, on_ledger,
  find_trading_pair_by_id, find_order_by_id, update_order_status, get_open_orders_for_pair,
  CreateTradeInput, create_trade, insert_audit_log, publish, enqueue, send,
  invalidate_order_book_cache,
}
use omen_backend.Trading.Amounts.{calculate_quote_amount, calculate_fee}
use omen_backend.Trading.Settle.{Settlement, settle_balances}

unfoldable pub can_match : Order → Order → Bool
can_match order opposing = if is_market order.order_type then true else elim order.price [
  | none ↦ false
  | some p ↦ elim opposing.price [
    | none ↦ false
    | some q ↦ if is_buy order.side then leb_ℤ q p else leb_ℤ p q
  ]
]

-- `order.side === 'BUY' ? -Number(order.price || 0) : Number(order.price || 0)`, before rounding.
abbrev pub score : OrderSide → Option ℤ → ℤ
score side none = pos 0
score buy (some p) = pos 0 -ℤ p
score sell (some p) = p

unfoldable pub add_order_to_order_book : Order → Action State Done
unfolding send
add_order_to_order_book o = do
  send (zadd o.trading_pair_id o.side (score o.side o.price) o)
  send (expire o.trading_pair_id o.side 300)

unfoldable pub remove_order_from_order_book : Order → Action State Done
unfolding send
remove_order_from_order_book o = send (zrem o.trading_pair_id o.side o)

-- The orders without a price are left out of the cache.
abbrev cache_entries : ℕ → OrderSide → List Order → List BookCommand
cache_entries pair side [] = []
cache_entries pair side (o ∷ os) = elim o.price [
  | none ↦ cache_entries pair side os
  | some p ↦ zadd pair side (score side (some p)) o ∷ cache_entries pair side os
]

abbrev send_all : List BookCommand → List BookCommand → List BookCommand
send_all [] sent = sent
send_all (c ∷ cs) sent = send_all cs (c ∷ sent)

abbrev expire_if_any : ℕ → OrderSide → List BookCommand → List BookCommand
expire_if_any pair side [] = []
expire_if_any pair side (c ∷ cs) = (c ∷ cs) ++ expire pair side 300 ∷ []

unfoldable pub cache_orders_in_redis : ℕ → OrderSide → List Order → Action State Done
cache_orders_in_redis pair side orders = modify λ s. record s {
  book =
      send_all (expire_if_any pair side (cache_entries pair side orders)) (del pair side ∷ s.book);
}

abbrev pub buyer_of : Order → Order → Order
buyer_of order opposing = if is_buy order.side then order else opposing

abbrev pub seller_of : Order → Order → Order
seller_of order opposing = if is_buy order.side then opposing else order

-- `filled === order.quantity ? 'FILLED' : 'PARTIAL'`, on decimal strings.
abbrev pub fill_status : ℤ → ℕ → OrderStatus
fill_status (pos f) q = if f == q then filled else partial
fill_status (negsuc f) q = partial

abbrev pub is_filled : ℤ → ℕ → Bool
is_filled (pos f) q = f == q
is_filled (negsuc f) q = false

-- What is left of an order.
abbrev pub remaining_of : Order → ℤ
remaining_of o = pos o.quantity -ℤ pos o.filled_quantity

-- What follows COMMIT, where nothing throws: the filled order leaves the book, and the trade is
-- announced and queued for settlement.
unfoldable pub announce_trade : Order → Order → ℤ → TradingPair → Trade → Action State Trade
unfolding remove_order_from_order_book invalidate_order_book_cache publish enqueue
announce_trade buyer seller match_quantity pair trade = do
  invalidate_order_book_cache pair.id
  let seller_done = is_filled (pos seller.filled_quantity +ℤ match_quantity) seller.quantity
  let buyer_done = is_filled (pos buyer.filled_quantity +ℤ match_quantity) buyer.quantity
  let done = if seller_done then seller else buyer
  when (seller_done || buyer_done)
      (remove_order_from_order_book done >> publish (order_filled done.id))
  publish (trade_executed trade.id)
  publish (trade_settlement_pending trade.id)
  enqueue (execute_settlement trade.id pair.id)
  enqueue (trade_notification buyer.user_id seller.user_id trade.id)
  enqueue (update_market_stats pair.id trade.id)
  pure trade

module _ (allowed : OrderStatus → Bool) where
  -- The two UPDATE orders and the two audit records.
  unfoldable pub fill_orders : Order → Order → ℤ → Trade → Action State Trade
  fill_orders buyer seller match_quantity trade = do
    let buyer_filled = pos buyer.filled_quantity +ℤ match_quantity
    let seller_filled = pos seller.filled_quantity +ℤ match_quantity
    update_order_status allowed buyer.id (fill_status buyer_filled buyer.quantity)
        (some buyer_filled)
    update_order_status allowed seller.id (fill_status seller_filled seller.quantity)
        (some seller_filled)
    insert_audit_log buyer.user_id bought trade.id
    insert_audit_log seller.user_id sold trade.id
    pure trade

  -- From the balances on.
  unfoldable pub settle_trade : Order → Order → ℤ → TradingPair → ℤ → Trade → Action State Trade
  settle_trade buyer seller match_quantity pair price trade = do
    on_ledger (
        settle_balances (record {
          seller = seller.user_id;
          buyer = buyer.user_id;
          base = pair.base_token_id;
          quote = pair.quote_token_id;
          quantity = match_quantity;
          quote_amount = calculate_quote_amount match_quantity price;
          buyer_fee = calculate_fee match_quantity price;
          seller_fee = calculate_fee match_quantity price;
        }))
    fill_orders buyer seller match_quantity trade

  -- From the trade's row on.
  unfoldable pub book_trade : Order → Order → ℤ → TradingPair → ℤ → Action State Trade
  book_trade buyer seller match_quantity pair price = do
    trade ← create_trade (record {
      trading_pair_id = pair.id;
      buyer_order_id = buyer.id;
      seller_order_id = seller.id;
      buyer_id = buyer.user_id;
      seller_id = seller.user_id;
      price = price;
      quantity = match_quantity;
      buyer_fee = calculate_fee match_quantity price;
      seller_fee = calculate_fee match_quantity price;
    })
    settle_trade buyer seller match_quantity pair price trade

  -- From BEGIN to COMMIT. The queries run on the pool and not on the client of the transaction, so
  -- its ROLLBACK undoes none of them.
  unfoldable pub trade_in_database : Order → Order → ℤ → TradingPair → Action State Trade
  trade_in_database order opposing match_quantity pair = do
    price ← or_throw opposing.price type_error
    book_trade (buyer_of order opposing) (seller_of order opposing) match_quantity pair price

  -- The whole of executeTrade.
  unfoldable pub execute_trade : Order → Order → ℤ → TradingPair → Action State Trade
  execute_trade order opposing match_quantity pair = do
    trade ← trade_in_database order opposing match_quantity pair
    announce_trade (buyer_of order opposing) (seller_of order opposing) match_quantity pair trade
