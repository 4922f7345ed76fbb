-- ===== src/Trading/Worker/Failure.antt =====
-- A trade that fails half way: executeTrade of
-- marketBackend/src/infra/queue/matchingWorkerHandler.ts.
use omen_backend.Base.{
  is_some, true, ok, ℕ, suc, ◌+◌, ◌-◌, ◌<◌, ◌≤◌, ◌≡◌, ◌≢◌, refl, Bool, none, some, [], ◌∷◌, ◌++◌,
  pos, err, ◌∙◌, or_throw, arith, bind-ok, bind-err, Error, type_error, positive_balance,
}
use omen_backend.Token.Store.{Ledger}
use omen_backend.Trading.Types.{Order, OrderStatus, Trade, TradingPair, pending}
use omen_backend.Trading.Store.{State, on_ledger, CreateTradeInput, create_trade, has_order}
use omen_backend.Token.Coherence.{IsValid}
use omen_backend.Trading.Settle.{settle_balances}
use omen_backend.Trading.Amounts.{calculate_quote_amount, calculate_fee}
use omen_backend.Trading.Amounts.Bounds.{quote_of, fee_of}
use omen_backend.Trading.Settle.Laws.{HasTokens, settle_balances-partial, locked_at, total_at}
use omen_backend.Trading.Worker.{
  buyer_of, seller_of, trade_in_database, book_trade, settle_trade, fill_orders, execute_trade,
  announce_trade,
}
use omen_backend.Trading.Worker.Effects.{fee_of_le}
use omen_backend.Trading.Worker.Trades.{trade_input, settlement}

-- A row that `create_trade` accepts, and the state after it.
abbrev pending_trade : CreateTradeInput → ℕ → ℕ → State → Trade
pending_trade i p q s = record {
  id = s.next_id;
  trading_pair_id = i.trading_pair_id;
  buyer_order_id = i.buyer_order_id;
  seller_order_id = i.seller_order_id;
  buyer_id = i.buyer_id;
  seller_id = i.seller_id;
  price = suc p;
  quantity = suc q;
  buyer_fee = i.buyer_fee;
  seller_fee = i.seller_fee;
  settlement_status = pending;
  blockchain_tx_hash = none;
}

-- The rows that the row of the trade names are there.
abbrev pub IsKnown : Order → Order → TradingPair → State → Type 0
IsKnown order opposing pair s =
    (is_some (s.pairs pair.id) ≡ true)
    × (has_order (buyer_of order opposing).id s ≡ true)
    × (has_order (seller_of order opposing).id s ≡ true)

module _ (allowed : OrderStatus → Bool) (order opposing : Order) (q p : ℕ) (pair : TradingPair)
    (s : State) (priced : opposing.price ≡ some (pos (suc p)))
    (known : IsKnown order opposing pair s) where
  abbrev pub first_row : Trade
  first_row = pending_trade (trade_input order opposing (pos (suc q)) pair (pos (suc p))) p q s

  abbrev pub after_row : State
  after_row = record s { trades = s.trades ++ first_row ∷ []; next_id = s.next_id + 1 }

  inserts :
      create_trade (trade_input order opposing (pos (suc q)) pair (pos (suc p))) s
      ≡ (ok first_row, after_row)
  unfolding create_trade
  inserts = ground (arith, known)

  pub reaches_settlement :
      trade_in_database allowed order opposing (pos (suc q)) pair s
      ≡ settle_trade allowed
          (buyer_of order opposing)
          (seller_of order opposing)
          (pos (suc q))
          pair
          (pos (suc p))
          first_row
          after_row
  unfolding trade_in_database book_trade
  reaches_settlement =
      bind-ok (or_throw opposing.price type_error)
        (book_trade allowed (buyer_of order opposing) (seller_of order opposing) (pos (suc q)) pair)
        s {a = pos (suc p)} {s' = s} (ground arith)
      ∙ bind-ok (create_trade (trade_input order opposing (pos (suc q)) pair (pos (suc p))))
          (settle_trade allowed (buyer_of order opposing) (seller_of order opposing) (pos (suc q))
            pair (pos (suc p)))
          s (inserts)

  settlement_throws :
      {e : Error} (w : Ledger)
      → settle_balances (settlement order opposing (pos (suc q)) pair (pos (suc p))) s.ledger
        ≡ (err e, w)
      → execute_trade allowed order opposing (pos (suc q)) pair s
        ≡ (err e, record after_row { ledger = w })
  unfolding execute_trade settle_trade
  settlement_throws w h =
      bind-err (trade_in_database allowed order opposing (pos (suc q)) pair)
        (announce_trade (buyer_of order opposing) (seller_of order opposing) (pos (suc q)) pair) s
        (reaches_settlement
          ∙ bind-err
              (on_ledger
                (settle_balances (settlement order opposing (pos (suc q)) pair (pos (suc p)))))
              (λ _.
                fill_orders allowed (buyer_of order opposing) (seller_of order opposing)
                  (pos (suc q)) first_row)
              after_row (λ i. ((h i).0, record after_row { ledger = (h i).1 })))

-- On a valid ledger, with two different users and two different tokens, a trade at a positive
-- price whose seller has the quantity locked and whose buyer has less than the quote amount
-- locked, and with the rows of the pair, of the two orders and of the two tokens there, throws in
-- the third balance update, and the ROLLBACK on another connection undoes nothing: the row of the
-- trade stays, pending, the seller keeps the proceeds, and the buyer has paid nothing.
pub execute_trade-partial :
    (allowed : OrderStatus → Bool) (order opposing : Order) (q p : ℕ) (pair : TradingPair)
    (s : State)
    → IsValid s.ledger
    → (seller_of order opposing).user_id ≢ (buyer_of order opposing).user_id
    → pair.base_token_id ≢ pair.quote_token_id
    → opposing.price ≡ some (pos (suc p))
    → IsKnown order opposing pair s
    → HasTokens
        (seller_of order opposing).user_id
        (buyer_of order opposing).user_id
        pair.base_token_id
        pair.quote_token_id
        (suc q)
        (quote_of (suc q) (suc p))
        (fee_of (suc q) (suc p))
        (fee_of (suc q) (suc p))
        s.ledger
    → suc q ≤ locked_at (seller_of order opposing).user_id pair.base_token_id s.ledger
    → locked_at (buyer_of order opposing).user_id pair.quote_token_id s.ledger
      < quote_of (suc q) (suc p)
    → let (r, s') = execute_trade allowed order opposing (pos (suc q)) pair s in
      (r ≡ err positive_balance)
      × ((t : Trade) × (s'.trades ≡ s.trades ++ t ∷ [])
          × (t.settlement_status ≡ pending)
          × (t.quantity ≡ suc q))
      × (total_at (seller_of order opposing).user_id pair.quote_token_id s'.ledger
          ≡ total_at (seller_of order opposing).user_id pair.quote_token_id s.ledger
            + (quote_of (suc q) (suc p) - fee_of (suc q) (suc p)))
      × (total_at (buyer_of order opposing).user_id pair.quote_token_id s'.ledger
          ≡ total_at (buyer_of order opposing).user_id pair.quote_token_id s.ledger)
unfolding calculate_quote_amount calculate_fee
execute_trade-partial allowed order opposing q p pair s v users tokens priced known has_tokens sold
      short =
    let (threw, valid, seller_quote, buyer_quote, _, _) =
      settle_balances-partial (seller_of order opposing).user_id (buyer_of order opposing).user_id
        pair.base_token_id pair.quote_token_id (suc q) (quote_of (suc q) (suc p))
        (fee_of (suc q) (suc p)) (fee_of (suc q) (suc p)) s.ledger v users tokens
        (fee_of_le (suc q) (suc p)) has_tokens sold short in
    let w' =
      (settle_balances (settlement order opposing (pos (suc q)) pair (pos (suc p))) s.ledger).1 in
    rw (settlement_throws allowed order opposing q p pair s priced known w' (λ i. (threw i, w'))) (
      refl,
      (first_row allowed order opposing q p pair s priced known, refl, refl, refl),
      seller_quote,
      buyer_quote,
    )
