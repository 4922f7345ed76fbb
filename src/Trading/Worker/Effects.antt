-- ===== src/Trading/Worker/Effects.antt =====
-- What an executed trade leaves in the tables: executeTrade of
-- marketBackend/src/infra/queue/matchingWorkerHandler.ts.
use omen_backend.Base.{
  ℕ, ◌+◌, ◌≤◌, ◌≡◌, ◌≢◌, sym, refl, Bool, true, false, Option, some, [], ◌∷◌, ◌++◌, ℤ, pos, ok, ◌∙◌,
  arith, bind-eq-ok, ap, if◌then◌else◌, ◌==◌,
}
use omen_backend.Token.Store.{Ledger}
use omen_backend.Trading.Types.{Order, OrderStatus, Trade, TradingPair, filled, partial, is_buy}
use omen_backend.Trading.Store.{State, execute_settlement, trade_notification, update_market_stats}
use omen_backend.Trading.Store.Orders.{
  order_at, update_order_status-rows, update_order_status-filled,
}
use omen_backend.Token.Coherence.{IsValid}
use omen_backend.Trading.Store.Trades.{create_trade-Creates}
use omen_backend.Trading.Settle.{settle_balances}
use omen_backend.Trading.Amounts.{calculate_quote_amount, calculate_fee}
use omen_backend.Trading.Amounts.Bounds.{quote_of, fee_of, fee_of_bound}
use omen_backend.Trading.Settle.Laws.{deal, CanSettle, IsSettled, settle_balances-eq-ok}
use omen_backend.Trading.Worker.{
  buyer_of, seller_of, trade_in_database, execute_trade, announce_trade,
}
use omen_backend.Trading.Worker.Trades.{
  TradeRun, trade_in_database-TradeRun, settlement, buyer, seller,
}

-- A row of `orders` after a fill of the order object `o`: its filled quantity is that of the object
-- and the fill, and its status says whether this is the whole order.
abbrev pub IsFilledTo : Order → ℕ → Option Order → Type 0
IsFilledTo o q row =
    (new : Order) × (row ≡ some new)
    × (new.filled_quantity ≡ o.filled_quantity + q)
    × (new.status ≡ (if o.filled_quantity + q == o.quantity then filled else partial))

-- Nothing after COMMIT writes a table, and the three jobs are queued.
announce_trade-queues :
    (b k : Order) (q : ℤ) (pair : TradingPair) (t trade : Trade) (s s' : State)
    → announce_trade b k q pair t s ≡ (ok trade, s')
    → (trade ≡ t)
      × (s'.orders ≡ s.orders)
      × (s'.ledger ≡ s.ledger)
      × (s'.trades ≡ s.trades)
      × (s'.jobs
          ≡ update_market_stats pair.id t.id
            ∷ trade_notification b.user_id k.user_id t.id
            ∷ execute_settlement t.id pair.id
            ∷ s.jobs)
unfolding announce_trade
announce_trade-queues b k q pair t trade s s' h = ground arith

module _ (allowed : OrderStatus → Bool) (order opposing : Order) (q : ℕ) (pair : TradingPair)
    (s s' : State) (trade : Trade)
    (h : execute_trade allowed order opposing (pos q) pair s ≡ (ok trade, s')) where
  -- The state at COMMIT.
  pub committed :
      (mid : State) × TradeRun order opposing (pos q) pair allowed s trade mid
      × (s'.orders ≡ mid.orders)
      × (s'.ledger ≡ mid.ledger)
      × (s'.trades ≡ mid.trades)
  unfolding execute_trade
  committed =
      let (t, mid, e, k) =
        bind-eq-ok (trade_in_database allowed order opposing (pos q) pair)
          (announce_trade (buyer_of order opposing) (seller_of order opposing) (pos q) pair) s h in
      let (same, orders, ledger, trades, _) =
        announce_trade-queues _ _ (pos q) pair t trade mid s' k in
      (
        mid,
        rw same (trade_in_database-TradeRun order opposing (pos q) pair allowed s mid t e),
        orders,
        ledger,
        trades,
      )

  -- The rows of the buyer's and of the seller's order.
  both_filled :
      (buyer order opposing (pos q) pair).id ≢ (seller order opposing (pos q) pair).id
      → IsFilledTo
          (buyer order opposing (pos q) pair)
          q
          (order_at (buyer order opposing (pos q) pair).id s'.orders)
        × IsFilledTo
            (seller order opposing (pos q) pair)
            q
            (order_at (seller order opposing (pos q) pair).id s'.orders)
  both_filled ne =
      let (mid, run, orders, _, _) = committed in
      let b = update_order_status-rows allowed _ _ _ _ _ _ run.buys in
      let k = update_order_status-rows allowed _ _ _ _ _ _ run.sells in
      let at_end = orders ∙ run.orders in
      (
        (
          run.buyer_row,
          rw at_end (k.2 _ ne ∙ b.1),
          update_order_status-filled allowed _ _ _ _ _ _ run.buys,
          b.0,
        ),
        (
          run.seller_row,
          rw at_end k.1,
          update_order_status-filled allowed _ _ _ _ _ _ run.sells,
          k.0,
        ),
      )

  -- The rows of the taker's and of the maker's order, whichever of them buys.
  pub orders_filled :
      order.id ≢ opposing.id
      → IsFilledTo order q (order_at order.id s'.orders)
        × IsFilledTo opposing q (order_at opposing.id s'.orders)
  orders_filled ne = by_side (is_buy order.side) refl both_filled
    where
      by_side :
          (b : Bool)
          → is_buy order.side ≡ b
          → ((if is_buy order.side then order else opposing).id
                ≢ (if is_buy order.side then opposing else order).id
              → IsFilledTo
                  (if is_buy order.side then order else opposing)
                  q
                  (order_at (if is_buy order.side then order else opposing).id s'.orders)
                × IsFilledTo
                    (if is_buy order.side then opposing else order)
                    q
                    (order_at (if is_buy order.side then opposing else order).id s'.orders))
          → IsFilledTo order q (order_at order.id s'.orders)
            × IsFilledTo opposing q (order_at opposing.id s'.orders)
      by_side true e f = let g = rw e at f in g ne
      by_side false e f = let g = rw e at f in let (k, b) = g (λ x. ne (sym x)) in (b, k)

-- The settlement of a trade at a price of 0 or more.
settlement-deal :
    (order opposing : Order) (q p : ℕ) (pair : TradingPair) (w w' : Ledger)
    → settle_balances (settlement order opposing (pos q) pair (pos p)) w ≡ (ok tt, w')
    → settle_balances
        (deal
          (seller_of order opposing).user_id
          (buyer_of order opposing).user_id
          pair.base_token_id
          pair.quote_token_id
          q
          (quote_of q p)
          (fee_of q p)
          (fee_of q p))
        w
      ≡ (ok tt, w')
unfolding calculate_quote_amount calculate_fee
settlement-deal order opposing q p pair w w' h = h

pub fee_of_le : (q p : ℕ) → fee_of q p ≤ quote_of q p
fee_of_le q p = omega (arith, fee_of_bound q p)

pos_injective : {a b : ℕ} → pos a ≡ pos b → b ≡ a
pos_injective h = cc

settles_at :
    (order opposing : Order) (q p : ℕ) (pair : TradingPair) {price : ℤ} {w0 w w1 w' : Ledger}
    → price ≡ pos p
    → w0 ≡ w
    → w' ≡ w1
    → settle_balances (settlement order opposing (pos q) pair price) w0 ≡ (ok tt, w1)
    → settle_balances (settlement order opposing (pos q) pair (pos p)) w ≡ (ok tt, w')
settles_at order opposing q p pair ep ew ew' h = rw (← ep, ← ew, ew') h

-- What a trade that returned has done.
pub record IsTraded (order opposing : Order) (q : ℕ) (pair : TradingPair) (s s' : State)
    (trade : Trade) : Type 0 where
  -- The maker's price.
  pub price : opposing.price ≡ some (pos trade.price)
  pub quantity : trade.quantity ≡ q
  pub recorded : s'.trades ≡ s.trades ++ trade ∷ []
  pub taker_row : IsFilledTo order q (order_at order.id s'.orders)
  pub maker_row : IsFilledTo opposing q (order_at opposing.id s'.orders)
  pub affordable :
      CanSettle
        (seller_of order opposing).user_id
        (buyer_of order opposing).user_id
        pair.base_token_id
        pair.quote_token_id
        q
        (quote_of q trade.price)
        (fee_of q trade.price)
        (fee_of q trade.price)
        s.ledger
  pub settled :
      IsSettled
        (seller_of order opposing).user_id
        (buyer_of order opposing).user_id
        pair.base_token_id
        pair.quote_token_id
        q
        (quote_of q trade.price)
        (fee_of q trade.price)
        (fee_of q trade.price)
        s.ledger
        s'.ledger

-- What a trade that returned has done: on a valid ledger, with two different users, two different
-- tokens and two different orders, it is at the maker's price and for the matched quantity, its
-- row is added to the trades, both orders have the matched quantity added to their filled
-- quantities and are FILLED exactly when that is all of them, the users had what it needs, and the
-- four balances are moved with the fees taken, while no other balance changes.
pub execute_trade-IsTraded :
    (allowed : OrderStatus → Bool) (order opposing : Order) (q : ℕ) (pair : TradingPair)
    (s s' : State) (trade : Trade)
    → IsValid s.ledger
    → (seller_of order opposing).user_id ≢ (buyer_of order opposing).user_id
    → pair.base_token_id ≢ pair.quote_token_id
    → order.id ≢ opposing.id
    → execute_trade allowed order opposing (pos q) pair s ≡ (ok trade, s')
    → IsTraded order opposing q pair s s' trade
execute_trade-IsTraded allowed order opposing q pair s s' trade v users tokens ne h =
    let (mid, run, orders, ledger, trades) = committed allowed order opposing q pair s s' trade h in
    let c = create_trade-Creates _ s run.created trade run.creates in
    let (taker, maker) = orders_filled allowed order opposing q pair s s' trade h ne in
    let (_, _, _, buyer_ledger, buyer_trades) =
      update_order_status-rows allowed _ _ _ _ _ _ run.buys in
    let (_, _, _, seller_ledger, seller_trades) =
      update_order_status-rows allowed _ _ _ _ _ _ run.sells in
    let ran =
      settles_at order opposing q trade.price pair c.price c.ledger
        (ledger ∙ run.final_ledger ∙ seller_ledger ∙ buyer_ledger) run.settles in
    let (fits, done) =
      settle_balances-eq-ok _ _ _ _ q _ _ _ s.ledger v users tokens (fee_of_le q trade.price)
        (settlement-deal order opposing q trade.price pair s.ledger s'.ledger ran) in
    record {
      price = run.priced ∙ ap some c.price;
      quantity = pos_injective c.quantity;
      recorded = trades ∙ run.trades ∙ seller_trades ∙ buyer_trades ∙ c.trades;
      taker_row = taker;
      maker_row = maker;
      affordable = fits;
      settled = done;
    }
