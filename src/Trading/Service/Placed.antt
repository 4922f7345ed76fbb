-- ===== src/Trading/Service/Placed.antt =====
-- What submitOrder of marketBackend/src/services/tradingService.ts does from the lock of the funds on.
use omen_backend.Base.{
  ℕ, ◌≡◌, sym, ap, ◌∙◌, Bool, none, some, [], ◌∷◌, ◌++◌, ℤ, pos, Action, ok, arith, bind-eq-ok,
  or_throw, or_throw-eq-ok, ◌>>=◌, ◌>>◌, type_error,
}
use omen_backend.Token.Store.{Ledger, UserBalance}
use omen_backend.Token.Service.{lock_balance_for_order}
use omen_backend.Trading.Types.{OrderStatus, pending_match, TradingPair, Order, CreateOrderInput}
use omen_backend.Trading.Store.{State, match_order, on_ledger, create_order}
use omen_backend.Trading.Service.{
  token_to_lock, amount_to_lock, announce_order, priority_of, place_order,
}

-- The effect of an accepted order: the funds are locked through the token service, the row stands
-- behind the others, and the order is queued for matching.
pub record IsPlaced (input : CreateOrderInput) (pair : TradingPair) (s s' : State) (order : Order)
    : Type 0 where
  pub amount : ℤ
  pub balance : UserBalance
  pub priced : amount_to_lock input.side input.quantity input.price ≡ some amount
  pub locked :
      lock_balance_for_order input.user_id (token_to_lock input.side pair) amount s.ledger
      ≡ (ok balance, s'.ledger)
  pub row : s'.orders ≡ s.orders ++ order ∷ []
  pub status : order.status ≡ pending_match
  pub unfilled : order.filled_quantity ≡ 0
  pub quantity : input.quantity ≡ pos order.quantity
  pub owner : order.user_id ≡ input.user_id
  pub traded_on : order.trading_pair_id ≡ input.trading_pair_id
  pub side : order.side ≡ input.side
  pub order_type : order.order_type ≡ input.order_type
  pub price : order.price ≡ input.price
  pub fresh_id : order.id ≡ s.next_id
  pub job : s'.jobs ≡ match_order order.id pair.id none (priority_of order.order_type) ∷ s.jobs

-- The columns that INSERT takes over as they are given.
abbrev pub IsCopied : CreateOrderInput → Order → Type 0
IsCopied input order =
    (order.trading_pair_id ≡ input.trading_pair_id)
    × (order.side ≡ input.side)
    × (order.order_type ≡ input.order_type)
    × (order.price ≡ input.price)

pub created-fields :
    (allowed : OrderStatus → Bool) (input : CreateOrderInput) (s s' : State) (order : Order)
    → create_order allowed pending_match input s ≡ (ok order, s')
    → (s'.orders ≡ s.orders ++ order ∷ [])
      × (order.status ≡ pending_match)
      × (order.filled_quantity ≡ 0)
      × (input.quantity ≡ pos order.quantity)
      × (order.user_id ≡ input.user_id)
      × IsCopied input order
      × (order.id ≡ s.next_id)
      × (s'.ledger ≡ s.ledger)
      × (s'.jobs ≡ s.jobs)
unfolding create_order
created-fields allowed input s s' order h = ground arith

pub announced-fields :
    (user : ℕ) (pair : TradingPair) (o order : Order) (s s' : State)
    → announce_order user pair o s ≡ (ok order, s')
    → (order ≡ o)
      × (s'.orders ≡ s.orders)
      × (s'.ledger ≡ s.ledger)
      × (s'.jobs ≡ match_order o.id pair.id none (priority_of o.order_type) ∷ s.jobs)
unfolding announce_order
announced-fields user pair o order s s' h = ground arith

pub on_ledger-eq-ok :
    {A : Type 0} (m : Action Ledger A) (s s' : State) (a : A)
    → on_ledger m s ≡ (ok a, s')
    → (m s.ledger ≡ (ok a, s'.ledger))
      × (s'.orders ≡ s.orders)
      × (s'.jobs ≡ s.jobs)
      × (s'.next_id ≡ s.next_id)
on_ledger-eq-ok m s s' a h = (
  λ i. ((h i).0, (h i).1.ledger),
  λ i. (sym h i).1.orders,
  λ i. (sym h i).1.jobs,
  λ i. (sym h i).1.next_id,
)

pub place_order-IsPlaced :
    (allowed : OrderStatus → Bool) (input : CreateOrderInput) (pair : TradingPair) (s s' : State)
    (order : Order)
    → place_order allowed input pair s ≡ (ok order, s')
    → IsPlaced input pair s s' order
unfolding place_order
place_order-IsPlaced allowed input pair s s' order h =
    let create : Action State Order =
      create_order allowed pending_match input >>= announce_order input.user_id pair in
    let lock : ℤ → Action State UserBalance = λ amount.
      on_ledger (lock_balance_for_order input.user_id (token_to_lock input.side pair) amount) in
    let price : Action State ℤ =
      or_throw (amount_to_lock input.side input.quantity input.price) type_error in
    let (amount, s1, e1, h1) = bind-eq-ok price (λ amount. lock amount >> create) s h in
    let (b, s2, e2, h2) = bind-eq-ok (lock amount) (λ _. create) s1 h1 in
    let (o, s3, e3, h3) =
      bind-eq-ok (create_order allowed pending_match input) (announce_order input.user_id pair) s2
        h2 in
    let (priced, same) = or_throw-eq-ok _ type_error s s1 amount e1 in
    let (locked, orders2, jobs2, next2) =
      on_ledger-eq-ok (lock_balance_for_order input.user_id (token_to_lock input.side pair) amount)
        s1 s2 b e2 in
    let (orders3, status, unfilled, quantity, owner, copied, id, ledger3, jobs3) =
      created-fields allowed input s2 s3 o e3 in
    let (is, orders4, ledger4, jobs4) = announced-fields input.user_id pair o order s3 s' h3 in
    record {
      amount = amount;
      balance = b;
      priced = priced;
      locked = rw (ledger4, ledger3, ← same) locked;
      row = rw is (
          orders4
          ∙ orders3
          ∙ ap (λ os. os ++ o ∷ []) (orders2 ∙ ap (λ (x : State). x.orders) same));
      status = rw is status;
      unfilled = rw is unfilled;
      quantity = rw is quantity;
      owner = rw is owner;
      traded_on = rw is copied.0;
      side = rw is copied.1;
      order_type = rw is copied.2;
      price = rw is copied.3;
      fresh_id = rw is (id ∙ next2 ∙ ap (λ (x : State). x.next_id) same);
      job = rw is (
          jobs4
          ∙ ap (λ js. match_order o.id pair.id none (priority_of o.order_type) ∷ js)
              (jobs3 ∙ jobs2 ∙ ap (λ (x : State). x.jobs) same));
    }
