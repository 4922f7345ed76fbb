-- ===== src/Trading/Worker/Success.antt =====
-- When a trade goes through: executeTrade of marketBackend/src/infra/queue/matchingWorkerHandler.ts.
use omen_backend.Base.{
  is_some, ℕ, suc, ◌+◌, ◌≤◌, ◌≡◌, ◌≢◌, ◌∙◌, sym, subst, Bool, true, some, List, ℤ, pos, ◌==◌,
  update_where, ok, returned, Action, Done, ◌>>◌, pure, arith, bind-ok,
}
use omen_backend.Token.Store.{Ledger}
use omen_backend.Token.Coherence.{IsValid}
use omen_backend.Trading.Types.{Order, OrderStatus, Trade, TradingPair, filled, partial}
use omen_backend.Trading.Store.{
  State, has_order, on_ledger, changed_order, update_order_status, insert_audit_log, bought, sold,
}
use omen_backend.Trading.Store.Orders.{order_at, order_at-id, order_at-update}
use omen_backend.Trading.Amounts.{calculate_quote_amount, calculate_fee}
use omen_backend.Trading.Amounts.Bounds.{quote_of, fee_of}
use omen_backend.Trading.Settle.{settle_balances}
use omen_backend.Trading.Settle.Laws.{HasTokens, CanSettle, settle_balances-IsSettled}
use omen_backend.Trading.Worker.{
  buyer_of, seller_of, fill_status, fill_orders, settle_trade, trade_in_database, announce_trade,
  execute_trade,
}
use omen_backend.Trading.Worker.Trades.{settlement}
use omen_backend.Trading.Worker.Effects.{fee_of_le}
use omen_backend.Trading.Worker.Failure.{IsKnown, first_row, after_row, reaches_settlement}

-- Room in the row of an order for a fill of the order object `o`.
abbrev pub HasRoom : Order → ℕ → List Order → Type 0
HasRoom o q orders =
    (row : Order) × (order_at o.id orders ≡ some row) × (o.filled_quantity + q ≤ row.quantity)

module _ (allowed : OrderStatus → Bool) (ok_filled : allowed filled ≡ true)
    (ok_partial : allowed partial ≡ true) where
  fill_status-allowed : (f q : ℕ) → allowed (fill_status (pos f) q) ≡ true
  fill_status-allowed f q = ground arith

  updated_row : Order → OrderStatus → ℕ → Order
  updated_row row status f = record row { status = status; filled_quantity = f }

  update-goes :
      (id : ℕ) (status : OrderStatus) (f : ℕ) (s : State) (row : Order)
      → allowed status ≡ true
      → order_at id s.orders ≡ some row
      → f ≤ row.quantity
      → update_order_status allowed id status (some (pos f)) s ≡ (
        ok (updated_row row status f),
        record s {
          orders =
              update_where (λ (x : Order). x.id == id) (λ _. updated_row row status f) s.orders;
        },
      )
  unfolding update_order_status changed_order updated_row
  update-goes id status f s row a e h = ground arith

  other_row :
      (id j : ℕ) (new : Order) (os : List Order) (row : Order)
      → id ≢ j
      → new.id ≡ id
      → order_at j os ≡ some row
      → order_at j (update_where (λ (x : Order). x.id == id) (λ _. new) os) ≡ some row
  other_row id j new os row ne h e = order_at-update id j new os h ∙ ground arith

  both_filled :
      (b k : Order) (q : ℕ) (t : Trade) (s : State)
      → b.id ≢ k.id
      → HasRoom b q s.orders
      → HasRoom k q s.orders
      → (s' : State) × (fill_orders allowed b k (pos q) t s ≡ (ok t, s'))
  unfolding fill_orders insert_audit_log updated_row
  both_filled b k q t s ne (row, e, h) (row2, e2, h2) =
      let sb = fill_status (pos (b.filled_quantity + q)) b.quantity in
      let sk = fill_status (pos (k.filled_quantity + q)) k.quantity in
      let first : Action State Order =
        update_order_status allowed b.id sb (some (pos (b.filled_quantity + q))) in
      let second : Action State Order =
        update_order_status allowed k.id sk (some (pos (k.filled_quantity + q))) in
      let audit : Action State Trade =
        insert_audit_log b.user_id bought t.id
        >> (insert_audit_log k.user_id sold t.id >> pure t) in
      let new = updated_row row sb (b.filled_quantity + q) in
      let s1 = record s {
        orders = update_where (λ (x : Order). x.id == b.id) (λ _. new) s.orders;
      } in
      let still : order_at k.id s1.orders ≡ some row2 =
        other_row b.id k.id new s.orders row2 ne (order_at-id b.id s.orders e) e2 in
      (
        (audit (record s1 {
          orders =
              update_where (λ (x : Order). x.id == k.id)
                (λ _. updated_row row2 sk (k.filled_quantity + q)) s1.orders;
        })).1,
        bind-ok first (λ _. second >> audit) s
              (update-goes b.id sb (b.filled_quantity + q) s row
                (fill_status-allowed (b.filled_quantity + q) b.quantity) e h)
            ∙ bind-ok second (λ _. audit) s1
                (update-goes k.id sk (k.filled_quantity + q) s1 row2
                  (fill_status-allowed (k.filled_quantity + q) k.quantity) still h2),
      )

room-has_order : (o : Order) (q : ℕ) (s : State) → HasRoom o q s.orders → has_order o.id s ≡ true
room-has_order o q s (row, found, h) = ground (arith, found)

announce-returns :
    (b k : Order) (q : ℤ) (pair : TradingPair) (t : Trade) (s : State)
    → returned (announce_trade b k q pair t s).0 ≡ true
unfolding announce_trade
announce-returns b k q pair t s = ground arith

-- A trade goes through where the statuses FILLED and PARTIAL are allowed, the ledger is valid, the
-- users, the tokens and the orders differ, the maker has a positive price, the quantity is
-- positive, the users have what the trade needs, the rows of the pair and of the two tokens are
-- there, and those of both orders are too and have room for the fill.
pub execute_trade-returns :
    (allowed : OrderStatus → Bool) (order opposing : Order) (q p : ℕ) (pair : TradingPair)
    (s : State)
    → allowed filled ≡ true
    → allowed partial ≡ true
    → IsValid s.ledger
    → (seller_of order opposing).user_id ≢ (buyer_of order opposing).user_id
    → pair.base_token_id ≢ pair.quote_token_id
    → (buyer_of order opposing).id ≢ (seller_of order opposing).id
    → opposing.price ≡ some (pos (suc p))
    → CanSettle
        (seller_of order opposing).user_id
        (buyer_of order opposing).user_id
        pair.base_token_id
        pair.quote_token_id
        (suc q)
        (quote_of (suc q) (suc p))
        (fee_of (suc q) (suc p))
        (fee_of (suc q) (suc p))
        s.ledger
    → is_some (s.pairs pair.id) ≡ true
    → HasTokens
        (seller_of order opposing).user_id
        (buyer_of order opposing).user_id
        pair.base_token_id
        pair.quote_token_id
        (suc q)
        (quote_of (suc q) (suc p))
        (fee_of (suc q) (suc p))
        (fee_of (suc q) (suc p))
        s.ledger
    → HasRoom (buyer_of order opposing) (suc q) s.orders
    → HasRoom (seller_of order opposing) (suc q) s.orders
    → returned (execute_trade allowed order opposing (pos (suc q)) pair s).0 ≡ true
unfolding execute_trade settle_trade calculate_quote_amount calculate_fee
execute_trade-returns allowed order opposing q p pair s ok_filled ok_partial v users tokens ne
      priced (base_held, funded, covered) has_pair has_tokens room_b room_k =
    let b = buyer_of order opposing in
    let k = seller_of order opposing in
    let known : IsKnown order opposing pair s =
      (has_pair, room-has_order b (suc q) s room_b, room-has_order k (suc q) s room_k) in
    let t = first_row allowed order opposing q p pair s priced known in
    let mid = after_row allowed order opposing q p pair s priced known in
    let settle : Action Ledger Done =
      settle_balances (settlement order opposing (pos (suc q)) pair (pos (suc p))) in
    let paid : (settle s.ledger).0 ≡ ok tt =
      (settle_balances-IsSettled k.user_id b.user_id pair.base_token_id pair.quote_token_id (suc q)
        (quote_of (suc q) (suc p)) (fee_of (suc q) (suc p)) (fee_of (suc q) (suc p)) s.ledger v
        users tokens (fee_of_le (suc q) (suc p)) has_tokens base_held funded covered).0 in
    let settled_state = record mid { ledger = (settle s.ledger).1 } in
    let (final, fills) =
      both_filled allowed ok_filled ok_partial b k (suc q) t settled_state ne room_b room_k in
    let goes =
      reaches_settlement allowed order opposing q p pair s priced known
      ∙ bind-ok (on_ledger settle) (λ _. fill_orders allowed b k (pos (suc q)) t) mid {a = tt}
          {s' = settled_state} (λ i. (paid i, settled_state))
      ∙ fills in
    subst (λ x. returned x.0 ≡ true)
      (sym (
        bind-ok (trade_in_database allowed order opposing (pos (suc q)) pair)
          (announce_trade b k (pos (suc q)) pair) s goes))
      (announce-returns b k (pos (suc q)) pair t final)
