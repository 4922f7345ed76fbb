-- ===== src/Trading/Service/Submit.antt =====
-- The checks of submitOrder in marketBackend/src/services/tradingService.ts, and what a submitted
-- order has done.
use omen_backend.Trading.Service.{Verifier, verify_order_signature}
use omen_backend.Base.{
  ◌≡◌, refl, false, not, ◌&&◌, Option, some, ℤ, is_some, Action, Done, ok, err, app, arith,
  or_throw, throw_if, ◌>>=◌, ◌>>◌, type_error, returned, throws_first, throws_after, status_check,
  invalid_signature, pair_not_found, pair_inactive, price_required,
}
use omen_backend.Token.Store.{Ledger, UserBalance}
use omen_backend.Token.Service.{lock_balance_for_order}
use omen_backend.Trading.Types.{pending_match, TradingPair, Order, CreateOrderInput, is_market}
use omen_backend.Trading.Store.{
  State, on_ledger, find_trading_pair_by_id, create_order, migrated_status_check,
}
use omen_backend.Trading.Service.{
  validate_expiry, validate_and_consume_nonce, compliance_of_pair, validate_order_size,
  token_to_lock, amount_to_lock, announce_order, place_order, submit_on_pair, submit_signed,
  submit_order,
}

create_order-migrated :
    (input : CreateOrderInput) (s : State)
    → returned (create_order migrated_status_check pending_match input s).0 ≡ false
unfolding create_order
create_order-migrated input s = refl

place_order-throws :
    (input : CreateOrderInput) (pair : TradingPair) (s : State)
    → returned (place_order migrated_status_check input pair s).0 ≡ false
unfolding place_order
place_order-throws input pair s =
    let create : Action State Order =
      create_order migrated_status_check pending_match input
      >>= announce_order input.user_id pair in
    let lock : ℤ → Action State UserBalance = λ amount.
      on_ledger (lock_balance_for_order input.user_id (token_to_lock input.side pair) amount) in
    throws_after (or_throw (amount_to_lock input.side input.quantity input.price) type_error)
      (λ amount. lock amount >> create) s
      λ amount s1.
        throws_after (lock amount) (λ _. create) s1
          λ _ s2.
            throws_first (create_order migrated_status_check pending_match input)
              (announce_order input.user_id pair) s2 (create_order-migrated input s2)

submit_on_pair-throws :
    (input : CreateOrderInput) (pair : TradingPair) (s : State)
    → returned (submit_on_pair migrated_status_check input pair s).0 ≡ false
unfolding submit_on_pair
submit_on_pair-throws input pair s =
    let place : Action State Order = place_order migrated_status_check input pair in
    let price : Action State Done =
      throw_if (not (is_market input.order_type) && not (is_some input.price))
        (app 400 price_required) in
    let size : Action State Done = validate_order_size pair input.quantity in
    let compliance : Action State Done = compliance_of_pair input.user_id pair in
    throws_after (throw_if (not pair.is_active) (app 400 pair_inactive))
      (λ _. compliance >> (size >> (price >> place))) s
      λ _ s1.
        throws_after compliance (λ _. size >> (price >> place)) s1
          λ _ s2.
            throws_after size (λ _. price >> place) s2
              λ _ s3. throws_after price (λ _. place) s3 λ _ s4. place_order-throws input pair s4

submit_signed-throws :
    (signed : Verifier) (input : CreateOrderInput) (s : State)
    → returned (submit_signed migrated_status_check signed input s).0 ≡ false
unfolding submit_signed
submit_signed-throws signed input s =
    let on_found : Option TradingPair → Action State Order = λ found.
      or_throw found (app 404 pair_not_found) >>= submit_on_pair migrated_status_check input in
    let find : Action State (Option TradingPair) = find_trading_pair_by_id input.trading_pair_id in
    throws_after (throw_if (not (verify_order_signature signed input)) (app 401 invalid_signature))
      (λ _. find >>= on_found) s
      λ _ s1. throws_after find on_found s1 λ found s2.
        throws_after (or_throw found (app 404 pair_not_found))
          (submit_on_pair migrated_status_check input) s2 (submit_on_pair-throws input)

-- Under the CHECK of the migrations on the status of an order, which allows no PENDING_MATCH,
-- submitOrder returns no order, whatever is submitted.
pub submit_order-throws :
    (signed : Verifier) (input : CreateOrderInput) (s : State)
    → returned (submit_order migrated_status_check signed input s).0 ≡ false
unfolding submit_order
submit_order-throws signed input s =
    let nonce : Action State Done = validate_and_consume_nonce input.user_address input.nonce in
    let rest : Action State Order = submit_signed migrated_status_check signed input in
    throws_after (validate_expiry input.expiry) (λ _. nonce >> rest) s
      λ _ s1. throws_after nonce (λ _. rest) s1 λ _ s2. submit_signed-throws signed input s2

-- Under that CHECK, an order whose funds the token service locks throws at its INSERT, and leaves
-- the funds locked.
pub place_order-strands :
    (input : CreateOrderInput) (pair : TradingPair) (s : State) (amount : ℤ) (b : UserBalance)
    (w : Ledger)
    → amount_to_lock input.side input.quantity input.price ≡ some amount
    → lock_balance_for_order input.user_id (token_to_lock input.side pair) amount s.ledger
      ≡ (ok b, w)
    → place_order migrated_status_check input pair s ≡ (err status_check, record s { ledger = w })
unfolding place_order create_order
place_order-strands input pair s amount b w e h = ground arith
