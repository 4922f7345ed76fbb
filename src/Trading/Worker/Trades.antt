-- ===== src/Trading/Worker/Trades.antt =====
-- The steps that an executed trade went through: executeTrade of
-- marketBackend/src/infra/queue/matchingWorkerHandler.ts.
use omen_backend.Base.{
  ◌≡◌, sym, Bool, Option, none, some, ℤ, pos, ◌+ℤ◌, ok, Action, ◌>>◌, or_throw, pure, arith,
  bind-eq-ok, type_error,
}
use omen_backend.Token.Store.{Ledger}
use omen_backend.Trading.Types.{Order, OrderStatus, Trade, TradingPair}
use omen_backend.Trading.Store.{
  State, on_ledger, CreateTradeInput, create_trade, update_order_status, insert_audit_log, bought,
  sold,
}
use omen_backend.Trading.Amounts.{calculate_quote_amount, calculate_fee}
use omen_backend.Trading.Settle.{Settlement, settle_balances}
use omen_backend.Trading.Worker.{
  buyer_of, seller_of, fill_status, trade_in_database, book_trade, settle_trade, fill_orders,
}

on_ledger-eq-ok :
    {A : Type 0} (m : Action Ledger A) (s : State) {a : A} {s' : State}
    → on_ledger m s ≡ (ok a, s')
    → (m s.ledger ≡ (ok a, (m s.ledger).1)) × (s' ≡ record s { ledger = (m s.ledger).1 })
on_ledger-eq-ok m s h = (λ i. ((h i).0, (m s.ledger).1), sym (λ i. (h i).1))

module _ (order opposing : Order) (quantity : ℤ) (pair : TradingPair) where
  abbrev pub buyer : Order
  buyer = buyer_of order opposing

  abbrev pub seller : Order
  seller = seller_of order opposing

  abbrev pub trade_input : ℤ → CreateTradeInput
  trade_input price = record {
    trading_pair_id = pair.id;
    buyer_order_id = buyer.id;
    seller_order_id = seller.id;
    buyer_id = buyer.user_id;
    seller_id = seller.user_id;
    price = price;
    quantity = quantity;
    buyer_fee = calculate_fee quantity price;
    seller_fee = calculate_fee quantity price;
  }

  abbrev pub settlement : ℤ → Settlement
  settlement price = record {
    seller = seller.user_id;
    buyer = buyer.user_id;
    base = pair.base_token_id;
    quote = pair.quote_token_id;
    quantity = quantity;
    quote_amount = calculate_quote_amount quantity price;
    buyer_fee = calculate_fee quantity price;
    seller_fee = calculate_fee quantity price;
  }

  abbrev pub filled_after : Order → ℤ
  filled_after o = pos o.filled_quantity +ℤ quantity

  -- The states between the writes of a trade that returned.
  pub record TradeRun (allowed : OrderStatus → Bool) (s : State) (trade : Trade) (s' : State)
      : Type 0 where
    pub price : ℤ
    pub priced : opposing.price ≡ some price
    pub created : State
    pub creates : create_trade (trade_input price) s ≡ (ok trade, created)
    pub ledger : Ledger
    pub settles : settle_balances (settlement price) created.ledger ≡ (ok tt, ledger)
    pub buyer_row : Order
    pub bought_state : State
    pub buys :
        update_order_status allowed buyer.id
          (fill_status (filled_after buyer) buyer.quantity)
          (some (filled_after buyer))
          (record created { ledger = ledger })
        ≡ (ok buyer_row, bought_state)
    pub seller_row : Order
    pub sold_state : State
    pub sells :
        update_order_status allowed seller.id
          (fill_status (filled_after seller) seller.quantity)
          (some (filled_after seller))
          bought_state
        ≡ (ok seller_row, sold_state)
    pub orders : s'.orders ≡ sold_state.orders
    pub final_ledger : s'.ledger ≡ sold_state.ledger
    pub trades : s'.trades ≡ sold_state.trades

  pub fill_orders-rest :
      (allowed : OrderStatus → Bool) (s s' : State) (trade result : Trade)
      → (do
        insert_audit_log buyer.user_id bought trade.id
        insert_audit_log seller.user_id sold trade.id
        pure trade)
          s
        ≡ (ok result, s')
      → (result ≡ trade) × (s'.orders ≡ s.orders) × (s'.ledger ≡ s.ledger) × (s'.trades ≡ s.trades)
  unfolding insert_audit_log
  fill_orders-rest allowed s s' trade result h = ground arith

  priced_lem :
      (s s0 : State) (o : Option ℤ) (p : ℤ)
      → or_throw o type_error s ≡ (ok p, s0)
      → (o ≡ some p) × (s ≡ s0)
  priced_lem s s0 none p h = absurd (cc h)
  priced_lem s s0 (some x) p h = (ground arith, ground arith)

  module _ (allowed : OrderStatus → Bool) {s s0 created s2 s3 s4 s' : State} {price : ℤ}
      {t trade : Trade} {buyer_row seller_row : Order} {d : Unit {0}} where
    TradeRun-steps :
        (opposing.price ≡ some price) × (s ≡ s0)
        → create_trade (trade_input price) s0 ≡ (ok t, created)
        → on_ledger (settle_balances (settlement price)) created ≡ (ok d, s2)
        → update_order_status allowed buyer.id
            (fill_status (filled_after buyer) buyer.quantity)
            (some (filled_after buyer))
            s2
          ≡ (ok buyer_row, s3)
        → update_order_status allowed seller.id
            (fill_status (filled_after seller) seller.quantity)
            (some (filled_after seller))
            s3
          ≡ (ok seller_row, s4)
        → (trade ≡ t) × (s'.orders ≡ s4.orders) × (s'.ledger ≡ s4.ledger) × (s'.trades ≡ s4.trades)
        → TradeRun allowed s trade s'
    TradeRun-steps (priced, same_s) c e b k (same_t, orders, ledger, trades) =
        let w = (settle_balances (settlement price) created.ledger).1 in
        let (ran, after) = on_ledger-eq-ok (settle_balances (settlement price)) created e in
        record {
          price = price;
          priced = priced;
          created = created;
          creates = rw (same_s, same_t) c;
          ledger = w;
          settles = ran;
          buyer_row = buyer_row;
          bought_state = s3;
          buys = rw (← after) b;
          seller_row = seller_row;
          sold_state = s4;
          sells = k;
          orders = orders;
          final_ledger = ledger;
          trades = trades;
        }

  -- Every trade that returned went through those states.
  pub trade_in_database-TradeRun :
      (allowed : OrderStatus → Bool) (s s' : State) (trade : Trade)
      → trade_in_database allowed order opposing quantity pair s ≡ (ok trade, s')
      → TradeRun allowed s trade s'
  unfolding trade_in_database book_trade settle_trade fill_orders
  trade_in_database-TradeRun allowed s s' trade h =
      let (price, s0, e0, h0) =
        bind-eq-ok (or_throw opposing.price type_error)
          (book_trade allowed buyer seller quantity pair) s h in
      let (t, created, e1, h1) =
        bind-eq-ok (create_trade (trade_input price))
          (settle_trade allowed buyer seller quantity pair price) s0 h0 in
      let (d, s2, e2, h2) =
        bind-eq-ok (on_ledger (settle_balances (settlement price)))
          (λ _. fill_orders allowed buyer seller quantity t) created h1 in
      let (buyer_row, s3, e3, h3) =
        bind-eq-ok
          (update_order_status allowed buyer.id (fill_status (filled_after buyer) buyer.quantity)
            (some (filled_after buyer)))
          (λ _. do
            update_order_status allowed seller.id
                (fill_status (filled_after seller) seller.quantity) (some (filled_after seller))
            insert_audit_log buyer.user_id bought t.id
            insert_audit_log seller.user_id sold t.id
            pure t)
          s2 h2 in
      let (seller_row, s4, e4, h4) =
        bind-eq-ok
          (update_order_status allowed seller.id (fill_status (filled_after seller) seller.quantity)
            (some (filled_after seller)))
          (λ _. do
            insert_audit_log buyer.user_id bought t.id
            insert_audit_log seller.user_id sold t.id
            pure t)
          s3 h3 in
      let (same, orders, ledger, trades) = fill_orders-rest allowed s4 s' t trade h4 in
      TradeRun-steps allowed (priced_lem s s0 opposing.price price e0) e1 e2 e3 e4
        (same, orders, ledger, trades)
