-- ===== src/Trading/Service.antt =====
-- The class `TradingService` of marketBackend/src/services/tradingService.ts, and the nonces of
-- marketBackend/src/lib/signature/nonceService.ts. Whether a signature is the address's own is a
-- parameter: ethers recovers the signer. The clock counts milliseconds.
pub mod Submit
pub mod Placed
pub mod Checks
pub mod Accepted
pub mod Replay
pub mod Cancel
pub mod Book
use omen_backend.Base.{
  ℕ, ◌+◌, ◌/◌, Bool, true, false, not, ◌&&◌, ◌||◌, Option, none, some, List, [], ◌∷◌, ℤ, pos, ◌+ℤ◌,
  ◌-ℤ◌, ltb_ℤ, leb_ℤ, leb, ltb, ◌*◌, is_some, ◌==◌, if◌then◌else◌, insert, Action, Done, Result, ok,
  err, pure, throw, gets, modify, or_throw, throw_if, when, catch, ◌>>=◌, ◌>>◌, app, type_error,
  signature_expired, nonce_reused, invalid_signature, pair_not_found, pair_inactive,
  market_not_found, market_not_active, token_not_found, compliance_failed, order_too_small,
  order_too_large, price_required, order_not_found, unauthorized, invalid_status,
}
use omen_backend.Token.Store.{Ledger, UserBalance, find_token_by_id}
use omen_backend.Token.Service.{
  is_rwa, verify_compliance, lock_balance_for_order, unlock_balance_from_order,
}
use omen_backend.Market.Types.{MarketStatus, active}
use omen_backend.Trading.Types.{
  OrderSide, buy, sell, OrderType, OrderStatus, pending_match, open_status, partial, cancelled,
  TradingPair, Order, CreateOrderInput, OrderBook, OrderBookEntry, is_buy, is_market,
}
use omen_backend.Trading.Store.{
  State, zrem, order_created, order_cancelled, match_order, order_was_created, order_was_cancelled,
  on_ledger, find_trading_pair_by_id, find_market_by_id, find_order_by_id, create_order,
  update_order_status, get_open_orders_for_pair, insert_audit_log, publish, enqueue, send,
  invalidate_order_book_cache,
}
use omen_backend.Trading.Amounts.{calculate_quote_amount}

pub record OrderSignatureData : Type 0 where
  pub market_id : ℕ
  pub side : OrderSide
  pub order_kind : OrderType
  pub quantity : ℤ
  pub price : Option ℤ
  pub nonce : ℕ
  pub expiry : ℕ

-- Whether a signature of these data is the address's own.
abbrev pub Verifier : Type 0
Verifier = OrderSignatureData → (signature address : ℕ) → Bool

abbrev pub verify_order_signature : Verifier → CreateOrderInput → Bool
verify_order_signature signed input =
    signed
      (record {
        market_id = input.trading_pair_id;
        side = input.side;
        order_kind = input.order_type;
        quantity = input.quantity;
        price = input.price;
        nonce = input.nonce;
        expiry = input.expiry;
      })
      input.signature input.user_address

abbrev pub validate_expiry : ℕ → Action State Done
validate_expiry expiry s = throw_if (leb expiry (s.ledger.now / 1000)) (app 400 signature_expired) s

-- NONCE_TTL_SECONDS, in milliseconds.
abbrev pub nonce_ttl : ℕ
nonce_ttl = 3600 * 1000

-- Whether there is a key that has not run out.
abbrev pub is_live : ℕ → Option ℕ → Bool
is_live now none = false
is_live now (some until) = ltb now until

unfoldable pub is_nonce_used : ℕ → ℕ → State → Bool
is_nonce_used address nonce s = is_live s.ledger.now (s.used_nonces address nonce)

-- SET … EX … NX: the key is written where there is none.
unfoldable pub mark_nonce_as_used : ℕ → ℕ → Action State Done
unfolding is_nonce_used
mark_nonce_as_used address nonce s =
    if is_nonce_used address nonce s then (err (app 400 nonce_reused), s) else (
      ok tt,
      record s {
        used_nonces = λ a n.
            if a == address && n == nonce
            then some (s.ledger.now + nonce_ttl)
            else s.used_nonces a n;
      },
    )

unfoldable pub validate_and_consume_nonce : ℕ → ℕ → Action State Done
unfolding mark_nonce_as_used is_nonce_used
validate_and_consume_nonce address nonce = do
  is_used ← gets (λ s. is_nonce_used address nonce s)
  throw_if is_used (app 400 nonce_reused)
  mark_nonce_as_used address nonce

abbrev pub is_active_market : MarketStatus → Bool
is_active_market active = true
is_active_market _ = false

unfoldable pub validate_rwa_compliance : ℕ → ℕ → TradingPair → Action State Done
unfolding find_market_by_id find_token_by_id verify_compliance
validate_rwa_compliance market_id user_id pair = do
  market ← (find_market_by_id market_id >>= λ found. or_throw found (app 404 market_not_found))
  throw_if (not (is_active_market market.status)) (app 400 market_not_active)
  base_token ←
      (on_ledger (find_token_by_id pair.base_token_id) >>= λ found.
      or_throw found (app 404 token_not_found))
  when (is_rwa base_token.token_type) (
      catch (on_ledger (verify_compliance user_id base_token.id))
        (λ e. throw (app 403 compliance_failed)))

abbrev pub compliance_of_pair : ℕ → TradingPair → Action State Done
compliance_of_pair user_id pair = elim pair.market_id [
  | none ↦ pure tt
  | some market_id ↦ validate_rwa_compliance market_id user_id pair
]

abbrev pub is_below : ℤ → Option ℤ → Bool
is_below quantity none = false
is_below quantity (some size) = ltb_ℤ quantity size

abbrev pub is_above : ℤ → Option ℤ → Bool
is_above quantity none = false
is_above quantity (some size) = ltb_ℤ size quantity

unfoldable pub validate_order_size : TradingPair → ℤ → Action State Done
validate_order_size pair quantity = do
  throw_if (is_below quantity pair.min_order_size) (app 400 order_too_small)
  throw_if (is_above quantity pair.max_order_size) (app 400 order_too_large)

abbrev pub token_to_lock : OrderSide → TradingPair → ℕ
token_to_lock side pair = if is_buy side then pair.quote_token_id else pair.base_token_id

-- `BigInt(price!)` of a missing price throws.
abbrev pub amount_to_lock : OrderSide → ℤ → Option ℤ → Option ℤ
amount_to_lock sell quantity price = some quantity
amount_to_lock buy quantity none = none
amount_to_lock buy quantity (some p) = some (calculate_quote_amount quantity p)

unfoldable pub cache_user_order : Order → Action State Done
cache_user_order o = modify λ s. record s {
  open_orders = λ u. if u == o.user_id then o.id ∷ s.open_orders u else s.open_orders u;
}

abbrev pub priority_of : OrderType → ℕ
priority_of t = if is_market t then 1 else 5

-- What follows INSERT: nothing throws.
unfoldable pub announce_order : ℕ → TradingPair → Order → Action State Order
unfolding insert_audit_log cache_user_order publish enqueue
announce_order user_id pair order = do
  insert_audit_log user_id order_was_created order.id
  cache_user_order order
  publish (order_created order.id)
  enqueue (match_order order.id pair.id none (priority_of order.order_type))
  pure order

abbrev pub is_cancellable : OrderStatus → Bool
is_cancellable open_status = true
is_cancellable partial = true
is_cancellable _ = false

-- The sorted set holds JSON; the member removed is the updated order.
unfoldable pub take_off_book : Order → Action State Done
unfolding send invalidate_order_book_cache
take_off_book o = do
  send (zrem o.trading_pair_id o.side o)
  invalidate_order_book_cache o.trading_pair_id

-- What follows UPDATE.
unfoldable pub announce_cancel : ℕ → Order → Action State Order
unfolding take_off_book insert_audit_log publish
announce_cancel user_id updated = do
  take_off_book updated
  insert_audit_log user_id order_was_cancelled updated.id
  publish (order_cancelled updated.id)
  pure updated

module _ (allowed : OrderStatus → Bool) where
  -- From the lock on.
  unfoldable pub place_order : CreateOrderInput → TradingPair → Action State Order
  place_order input pair = do
    amount ← or_throw (amount_to_lock input.side input.quantity input.price) type_error
    on_ledger (lock_balance_for_order input.user_id (token_to_lock input.side pair) amount)
    order ← create_order allowed pending_match input
    announce_order input.user_id pair order

  -- From the trading pair on.
  unfoldable pub submit_on_pair : CreateOrderInput → TradingPair → Action State Order
  submit_on_pair input pair = do
    throw_if (not pair.is_active) (app 400 pair_inactive)
    compliance_of_pair input.user_id pair
    validate_order_size pair input.quantity
    throw_if (not (is_market input.order_type) && not (is_some input.price))
        (app 400 price_required)
    place_order input pair

  -- From the signature on.
  unfoldable pub submit_signed : Verifier → CreateOrderInput → Action State Order
  submit_signed signed input = do
    throw_if (not (verify_order_signature signed input)) (app 401 invalid_signature)
    found ← find_trading_pair_by_id input.trading_pair_id
    pair ← or_throw found (app 404 pair_not_found)
    submit_on_pair input pair

  unfoldable pub submit_order : Verifier → CreateOrderInput → Action State Order
  submit_order signed input = do
    validate_expiry input.expiry
    validate_and_consume_nonce input.user_address input.nonce
    submit_signed signed input

  -- From the unlock on.
  unfoldable pub release_order : ℕ → Order → TradingPair → Action State Order
  release_order user_id order pair = do
    amount ←
        or_throw
          (amount_to_lock order.side (pos order.quantity -ℤ pos order.filled_quantity) order.price)
          type_error
    on_ledger (unlock_balance_from_order order.user_id (token_to_lock order.side pair) amount)
    updated ← update_order_status allowed order.id cancelled none
    announce_cancel user_id updated

  unfoldable pub cancel_order : ℕ → ℕ → Action State Order
  cancel_order order_id user_id = do
    found ← find_order_by_id order_id
    order ← or_throw found (app 404 order_not_found)
    throw_if (not (order.user_id == user_id)) (app 403 unauthorized)
    throw_if (not (is_cancellable order.status)) (app 400 invalid_status)
    found_pair ← find_trading_pair_by_id order.trading_pair_id
    pair ← or_throw found_pair (app 404 pair_not_found)
    release_order user_id order pair

abbrev pub eq_ℤ : ℤ → ℤ → Bool
eq_ℤ a b = leb_ℤ a b && leb_ℤ b a

-- `priceMap.set`: a new price goes behind the others.
abbrev pub add_to_level : ℤ → ℤ → List OrderBookEntry → List OrderBookEntry
add_to_level price unfilled [] = record { price = price; quantity = unfilled; order_count = 1 } ∷ []
add_to_level price unfilled (e ∷ es) =
    let rest = add_to_level price unfilled es in
    if eq_ℤ e.price price
    then record e { quantity = e.quantity +ℤ unfilled; order_count = e.order_count + 1 } ∷ es
    else e ∷ rest

abbrev pub aggregate_from : List OrderBookEntry → List Order → List OrderBookEntry
aggregate_from levels [] = levels
aggregate_from levels (o ∷ os) = elim o.price [
  | none ↦ aggregate_from levels os
  | some p ↦ aggregate_from (add_to_level p (pos o.quantity -ℤ pos o.filled_quantity) levels) os
]

unfoldable pub aggregate_order_book : List Order → List OrderBookEntry
aggregate_order_book orders = aggregate_from [] orders

unfoldable pub cache_order_book : OrderBook → Action State Done
cache_order_book b = modify λ s. record s { depth_cache = insert b.trading_pair_id b s.depth_cache }

unfoldable pub get_order_book : ℕ → Action State OrderBook
get_order_book pair s = elim (s.depth_cache pair) [
  | some cached ↦ (ok cached, s)
  | none ↦
      (do
        bids ← get_open_orders_for_pair pair buy 50
        asks ← get_open_orders_for_pair pair sell 50
        let book : OrderBook = record {
          trading_pair_id = pair;
          bids = aggregate_order_book bids;
          asks = aggregate_order_book asks;
          last_update = s.ledger.now;
        }
        cache_order_book book
        pure book)
        s
]
