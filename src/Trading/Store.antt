-- ===== src/Trading/Store.antt =====
-- The trading tables with the queries on them
-- (marketBackend/src/infra/database/repositories/tradingRepository.ts, and the constraints of
-- marketBackend/src/infra/database/migrations/002_tokenized_assets.ts), what the trading code keeps
-- in Redis, and the queues and the event channel that it writes.
pub mod Orders
pub mod Trades
use omen_backend.Base.{
  ℕ, zero, suc, ◌+◌, Bool, true, false, ◌&&◌, Option, none, some, List, [], ◌∷◌, ◌++◌, ℤ, pos, leb,
  ltb_ℤ, ◌==◌, if◌then◌else◌, find, select, take, any, update_where, Table, insert, Action, Done,
  ok, err, gets, modify, zoom, Result, negsuc, leb_ℤ, status_check, valid_quantities,
  positive_values, foreign_key, is_some, order_row_missing, trade_row_missing,
}
use omen_backend.Token.Store.{Ledger}
use omen_backend.Market.Types.{Market}
use omen_backend.Trading.Types.{
  OrderSide, buy, sell, OrderType, OrderStatus, pending_match, open_status, partial, filled,
  cancelled, rejected, TimeInForce, gtc, SettlementStatus, pending, settled, failed, TradingPair,
  Order, Trade, CreateOrderInput, OrderBook, same_side,
}

-- The commands sent for the sorted sets `orderbook:<pair>:buys` and `orderbook:<pair>:sells`.
pub data BookCommand : Type 0 where
  zadd : (pair : ℕ) (side : OrderSide) (score : ℤ) (order : Order) → BookCommand
  zrem : (pair : ℕ) (side : OrderSide) (order : Order) → BookCommand
  del : (pair : ℕ) (side : OrderSide) → BookCommand
  expire : (pair : ℕ) (side : OrderSide) (seconds : ℕ) → BookCommand

pub data TradingEvent : Type 0 where
  order_created order_open order_partially_filled order_filled order_cancelled : ℕ → TradingEvent
  trade_executed trade_settlement_pending trade_settlement_failed : ℕ → TradingEvent
  trade_settled : (trade_id tx_hash : ℕ) → TradingEvent

-- The calls of `Queue.add`. `priority` is 0 where the call gives none.
pub data Job : Type 0 where
  match_order : (order_id pair_id : ℕ) (trigger : Option ℕ) (priority : ℕ) → Job
  execute_settlement : (trade_id pair_id : ℕ) → Job
  trade_notification : (buyer_id seller_id trade_id : ℕ) → Job
  update_market_stats : (pair_id trade_id : ℕ) → Job

pub data AuditAction : Type 0 where
  order_was_created order_was_cancelled bought sold : AuditAction

pub record AuditEntry : Type 0 where
  pub user_id : ℕ
  pub action : AuditAction
  pub resource_id : ℕ

pub record State : Type 0 where
  pub ledger : Ledger
  pub pairs : Table TradingPair
  pub markets : Table Market
  -- Rows in the order of their creation.
  pub orders : List Order
  pub trades : List Trade
  pub audit_log : List AuditEntry
  -- Redis: the keys of the used nonces with the time at which each runs out, the commands sent for the order books (the newest first), the cached
  -- depth of a pair, the ids of a user's orders and the latest trades of a pair.
  pub used_nonces : ℕ → ℕ → Option ℕ
  pub book : List BookCommand
  pub depth_cache : Table OrderBook
  pub open_orders : ℕ → List ℕ
  pub recent_trades : ℕ → List Trade
  -- What was published and queued, the newest first.
  pub events : List TradingEvent
  pub jobs : List Job
  pub next_id : ℕ

abbrev pub on_ledger : {A : Type 0} → Action Ledger A → Action State A
on_ledger = zoom (λ s. s.ledger) (λ w s. record s { ledger = w })

unfoldable pub find_trading_pair_by_id : ℕ → Action State (Option TradingPair)
find_trading_pair_by_id id = gets λ s. s.pairs id

unfoldable pub find_market_by_id : ℕ → Action State (Option Market)
find_market_by_id id = gets λ s. s.markets id

unfoldable pub find_order_by_id : ℕ → Action State (Option Order)
find_order_by_id id = gets λ s. find (λ (o : Order). o.id == id) s.orders

-- The CHECK on `orders.status` in the migrations: there is no PENDING_MATCH.
abbrev pub migrated_status_check : OrderStatus → Bool
migrated_status_check pending_match = false
migrated_status_check _ = true

abbrev or_gtc : Option TimeInForce → TimeInForce
or_gtc none = gtc
or_gtc (some t) = t

new_row : OrderStatus → CreateOrderInput → ℕ → ℕ → Order
new_row status input quantity id = record {
  id = id;
  user_id = input.user_id;
  trading_pair_id = input.trading_pair_id;
  side = input.side;
  order_type = input.order_type;
  status = status;
  price = input.price;
  quantity = quantity;
  filled_quantity = 0;
  time_in_force = or_gtc input.time_in_force;
}

insert_order : OrderStatus → CreateOrderInput → ℤ → Action State Order
unfolding new_row
insert_order status input (pos (suc n)) s =
    let row = new_row status input (suc n) s.next_id in
    if is_some (s.pairs input.trading_pair_id)
    then (ok row, record s { orders = s.orders ++ row ∷ []; next_id = s.next_id + 1 })
    else (err foreign_key, s)
insert_order status input q s = (err valid_quantities, s)

module _ (allowed : OrderStatus → Bool) where
  -- INSERT under the constraints on the status (`allowed`), on the quantity and on the pair.
  unfoldable pub create_order : OrderStatus → CreateOrderInput → Action State Order
  unfolding insert_order
  create_order status input s =
      if allowed status then insert_order status input input.quantity s else (err status_check, s)

  -- The row that an UPDATE writes, or the constraint that it violates.
  unfoldable pub changed_order : OrderStatus → Option ℤ → Order → Result Order
  changed_order status none o =
      if allowed status then ok (record o { status = status }) else err status_check
  changed_order status (some (pos f)) o =
      if allowed status
      then if leb f o.quantity
        then ok (record o { status = status; filled_quantity = f })
        else err valid_quantities
      else err status_check
  changed_order status (some (negsuc f)) o =
      if allowed status then err valid_quantities else err status_check

  -- `filledQuantity` is left out by most callers.
  unfoldable pub update_order_status : ℕ → OrderStatus → Option ℤ → Action State Order
  unfolding changed_order
  update_order_status id status filled_quantity s =
      elim (find (λ (o : Order). o.id == id) s.orders) [
        | none ↦ (err order_row_missing, s)
        | some o ↦ elim (changed_order status filled_quantity o) [
          | err e ↦ (err e, s)
          | ok new ↦ (
            ok new,
            record s { orders = update_where (λ (x : Order). x.id == id) (λ _. new) s.orders },
          )
        ]
      ]

abbrev pub is_in_book : Order → Bool
is_in_book o = elim o.status [ open_status ↦ true | partial ↦ true | _ ↦ false ]

-- ORDER BY price DESC or ASC: NULL is the largest price, as in PostgreSQL.
abbrev pub comes_before : OrderSide → Option ℤ → Option ℤ → Bool
comes_before buy none _ = true
comes_before buy (some p) none = false
comes_before buy (some p) (some q) = leb_ℤ q p
comes_before sell none none = true
comes_before sell none (some q) = false
comes_before sell (some p) none = true
comes_before sell (some p) (some q) = leb_ℤ p q

-- A row that stands earlier goes before those of the same price.
abbrev pub insert_by_price : OrderSide → Order → List Order → List Order
insert_by_price side o [] = o ∷ []
insert_by_price side o (x ∷ xs) =
    if comes_before side o.price x.price then o ∷ x ∷ xs else x ∷ insert_by_price side o xs

abbrev pub sort_by_price : OrderSide → List Order → List Order
sort_by_price side [] = []
sort_by_price side (x ∷ xs) = insert_by_price side x (sort_by_price side xs)

unfoldable pub open_orders_for_pair : ℕ → OrderSide → ℕ → List Order → List Order
open_orders_for_pair pair side limit orders = take limit (
    sort_by_price side (
      select (λ (o : Order). o.trading_pair_id == pair && (same_side o.side side && is_in_book o))
        orders))

unfoldable pub get_open_orders_for_pair : ℕ → OrderSide → ℕ → Action State (List Order)
unfolding open_orders_for_pair
get_open_orders_for_pair pair side limit = gets λ s. open_orders_for_pair pair side limit s.orders

pub record CreateTradeInput : Type 0 where
  pub trading_pair_id : ℕ
  pub buyer_order_id : ℕ
  pub seller_order_id : ℕ
  pub buyer_id : ℕ
  pub seller_id : ℕ
  pub price : ℤ
  pub quantity : ℤ
  pub buyer_fee : ℤ
  pub seller_fee : ℤ

abbrev pub has_order : ℕ → State → Bool
has_order id s = is_some (find (λ (o : Order). o.id == id) s.orders)

-- The rows that the foreign keys of a trade name.
abbrev are_known : CreateTradeInput → State → Bool
are_known i s =
    is_some (s.pairs i.trading_pair_id)
    && (has_order i.buyer_order_id s && has_order i.seller_order_id s)

insert_trade : CreateTradeInput → ℤ → ℤ → Action State Trade
insert_trade i (pos (suc p)) (pos (suc q)) s =
    let row : Trade = record {
      id = s.next_id;
      trading_pair_id = i.trading_pair_id;
      buyer_order_id = i.buyer_order_id;
      seller_order_id = i.seller_order_id;
      buyer_id = i.buyer_id;
      seller_id = i.seller_id;
      price = suc p;
      quantity = suc q;
      buyer_fee = i.buyer_fee;
      seller_fee = i.seller_fee;
      settlement_status = pending;
      blockchain_tx_hash = none;
    } in
    if are_known i s
    then (ok row, record s { trades = s.trades ++ row ∷ []; next_id = s.next_id + 1 })
    else (err foreign_key, s)
insert_trade i p q s = (err positive_values, s)

-- INSERT under the constraint `positive_values` and the foreign keys.
unfoldable pub create_trade : CreateTradeInput → Action State Trade
unfolding insert_trade
create_trade i = insert_trade i i.price i.quantity

unfoldable pub update_trade_settlement : ℕ → SettlementStatus → Option ℕ → Action State Trade
update_trade_settlement id status tx_hash s = elim (find (λ (t : Trade). t.id == id) s.trades) [
  | none ↦ (err trade_row_missing, s)
  | some t ↦
      let new = record t { settlement_status = status; blockchain_tx_hash = tx_hash } in
      (ok new, record s { trades = update_where (λ (x : Trade). x.id == id) (λ _. new) s.trades })
]

unfoldable pub insert_audit_log : ℕ → AuditAction → ℕ → Action State Done
insert_audit_log user action resource = modify λ s. record s {
  audit_log =
      s.audit_log ++ record { user_id = user; action = action; resource_id = resource } ∷ [];
}

unfoldable pub publish : TradingEvent → Action State Done
publish e = modify λ s. record s { events = e ∷ s.events }

unfoldable pub enqueue : Job → Action State Done
enqueue j = modify λ s. record s { jobs = j ∷ s.jobs }

unfoldable pub send : BookCommand → Action State Done
send c = modify λ s. record s { book = c ∷ s.book }

-- `redis.del('market:<pair>:depth')`.
unfoldable pub invalidate_order_book_cache : ℕ → Action State Done
invalidate_order_book_cache pair =
    modify λ s. record s { depth_cache = λ p. if p == pair then none else s.depth_cache p }
