-- ===== src/Trading/Service/Cancel.antt =====
-- What cancelOrder of marketBackend/src/services/tradingService.ts does to an order.
use omen_backend.Base.{
  ℕ, ◌≡◌, ◌≢◌, sym, ap, ◌∙◌, Bool, true, not, Option, none, some, ℤ, pos, ◌-ℤ◌, ◌==◌, ==-eq, Action,
  Done, ok, app, arith, bind-eq-ok, or_throw, throw_if, throw_if-eq-ok, or_throw-eq-ok, ◌>>=◌, ◌>>◌,
  type_error, subst, order_not_found, unauthorized, invalid_status, pair_not_found,
}
use omen_backend.Token.Store.{UserBalance}
use omen_backend.Token.Service.{unlock_balance_from_order}
use omen_backend.Trading.Types.{OrderStatus, cancelled, TradingPair, Order}
use omen_backend.Trading.Store.{
  State, on_ledger, find_trading_pair_by_id, find_order_by_id, update_order_status,
}
use omen_backend.Trading.Store.Orders.{order_at, update_order_status-rows}
use omen_backend.Trading.Service.{
  token_to_lock, amount_to_lock, is_cancellable, announce_cancel, release_order, cancel_order,
}
use omen_backend.Trading.Service.Placed.{on_ledger-eq-ok}
use omen_backend.Trading.Service.Checks.{not-not}
use omen_backend.Trading.Service.Accepted.{find-eq-ok}

-- The effect of the cancellation: what the rest of the order has locked is unlocked, and its row
-- is the only one that changes.
pub record IsReleased (old : Order) (pair : TradingPair) (s s' : State) (updated : Order)
    : Type 0 where
  pub amount : ℤ
  pub balance : UserBalance
  pub priced :
      amount_to_lock old.side (pos old.quantity -ℤ pos old.filled_quantity) old.price ≡ some amount
  pub unlocked :
      unlock_balance_from_order old.user_id (token_to_lock old.side pair) amount s.ledger
      ≡ (ok balance, s'.ledger)
  pub row : order_at old.id s'.orders ≡ some updated
  pub status : updated.status ≡ cancelled
  pub others : (j : ℕ) → j ≢ old.id → order_at j s'.orders ≡ order_at j s.orders

announced-fields :
    (user : ℕ) (o updated : Order) (s s' : State)
    → announce_cancel user o s ≡ (ok updated, s')
    → (updated ≡ o) × (s'.orders ≡ s.orders) × (s'.ledger ≡ s.ledger)
unfolding announce_cancel
announced-fields user o updated s s' h = ground arith

release_order-IsReleased :
    (allowed : OrderStatus → Bool) (user : ℕ) (old : Order) (pair : TradingPair) (s s' : State)
    (updated : Order)
    → release_order allowed user old pair s ≡ (ok updated, s')
    → IsReleased old pair s s' updated
unfolding release_order
release_order-IsReleased allowed user old pair s s' updated h =
    let change : Action State Order = update_order_status allowed old.id cancelled none in
    let price : Action State ℤ =
      or_throw (amount_to_lock old.side (pos old.quantity -ℤ pos old.filled_quantity) old.price)
        type_error in
    let unlock : ℤ → Action State UserBalance = λ amount.
      on_ledger (unlock_balance_from_order old.user_id (token_to_lock old.side pair) amount) in
    let (amount, s1, e1, h1) =
      bind-eq-ok price (λ amount. unlock amount >> (change >>= announce_cancel user)) s h in
    let (b, s2, e2, h2) = bind-eq-ok (unlock amount) (λ _. change >>= announce_cancel user) s1 h1 in
    let (o, s3, e3, h3) = bind-eq-ok change (announce_cancel user) s2 h2 in
    let (priced, same) = or_throw-eq-ok _ type_error s s1 amount e1 in
    let (unlocked, orders2, _, _) =
      on_ledger-eq-ok (unlock_balance_from_order old.user_id (token_to_lock old.side pair) amount)
        s1 s2 b e2 in
    let (status, row, others, ledger3, _) =
      update_order_status-rows allowed old.id cancelled none s2 s3 o e3 in
    let (is, orders4, ledger4) = announced-fields user o updated s3 s' h3 in
    record {
      amount = amount;
      balance = b;
      priced = priced;
      unlocked = rw (ledger4, ledger3, ← same) unlocked;
      row = rw (orders4, is) row;
      status = rw is status;
      others = λ j ne.
          rw orders4 (others j ne ∙ ap (order_at j) (orders2 ∙ ap (λ (x : State). x.orders) same));
    }

pub record IsCancelled (id user : ℕ) (s s' : State) (updated : Order) : Type 0 where
  pub old : Order
  pub found : order_at id s.orders ≡ some old
  pub owner : old.user_id ≡ user
  pub was_open : is_cancellable old.status ≡ true
  pub pair : TradingPair
  pub pair_found : s.pairs old.trading_pair_id ≡ some pair
  pub released : IsReleased old pair s s' updated

order-eq-ok :
    (id : ℕ) (s s' : State) (found : Option Order)
    → find_order_by_id id s ≡ (ok found, s')
    → (found ≡ order_at id s.orders) × (s' ≡ s)
unfolding find_order_by_id
order-eq-ok id s s' found h = ground arith

-- An order that cancelOrder returns is the caller's own, was OPEN or PARTIAL, and is CANCELLED
-- now; what the unfilled rest of it had locked at its own price is unlocked through the token
-- service, and no other order changes.
pub cancel_order-IsCancelled :
    (allowed : OrderStatus → Bool) (id user : ℕ) (s s' : State) (updated : Order)
    → cancel_order allowed id user s ≡ (ok updated, s')
    → IsCancelled id user s s' updated
unfolding cancel_order
cancel_order-IsCancelled allowed id user s s' updated h =
    let with_pair : Order → Option TradingPair → Action State Order =
      λ o found. or_throw found (app 404 pair_not_found) >>= release_order allowed user o in
    let find_pair : Order → Action State Order =
      λ o. find_trading_pair_by_id o.trading_pair_id >>= with_pair o in
    let open_test : Order → Action State Done =
      λ o. throw_if (not (is_cancellable o.status)) (app 400 invalid_status) in
    let owner_test : Order → Action State Done =
      λ o. throw_if (not (o.user_id == user)) (app 403 unauthorized) in
    let with_order : Option Order → Action State Order = λ found.
      or_throw found (app 404 order_not_found) >>= λ o.
      owner_test o >> (open_test o >> find_pair o) in
    let (found, s1, e1, h1) = bind-eq-ok (find_order_by_id id) with_order s h in
    let (o, s2, e2, h2) =
      bind-eq-ok (or_throw found (app 404 order_not_found))
        (λ o. owner_test o >> (open_test o >> find_pair o)) s1 h1 in
    let (_, s3, e3, h3) = bind-eq-ok (owner_test o) (λ _. open_test o >> find_pair o) s2 h2 in
    let (_, s4, e4, h4) = bind-eq-ok (open_test o) (λ _. find_pair o) s3 h3 in
    let (found_pair, s5, e5, h5) =
      bind-eq-ok (find_trading_pair_by_id o.trading_pair_id) (with_pair o) s4 h4 in
    let (pair, s6, e6, h6) =
      bind-eq-ok (or_throw found_pair (app 404 pair_not_found)) (release_order allowed user o) s5
        h5 in
    let (is_row, same1) = order-eq-ok id s s1 found e1 in
    let (is_some, same2) = or_throw-eq-ok found _ s1 s2 o e2 in
    let (owner, same3) = throw_if-eq-ok _ _ s2 s3 e3 in
    let (status, same4) = throw_if-eq-ok _ _ s3 s4 e4 in
    let (is_pair, same5) = find-eq-ok o.trading_pair_id s4 s5 found_pair e5 in
    let (some_pair, same6) = or_throw-eq-ok found_pair _ s5 s6 pair e6 in
    let at_pair = same4 ∙ same3 ∙ same2 ∙ same1 in
    record {
      old = o;
      found = sym is_row ∙ is_some;
      owner = ==-eq o.user_id user (not-not owner);
      was_open = not-not status;
      pair = pair;
      pair_found =
          ap (λ (x : State). x.pairs o.trading_pair_id) (sym at_pair) ∙ sym is_pair ∙ some_pair;
      released =
          subst (λ x. IsReleased o pair x s' updated) (same6 ∙ same5 ∙ at_pair)
            (release_order-IsReleased allowed user o pair s6 s' updated h6);
    }
