-- ===== src/Trading/Matching.antt =====
-- The matching of one order: executeMatching, getOpposingOrders, scheduleOpposingMatches and
-- processMatchingJob of marketBackend/src/infra/queue/matchingWorkerHandler.ts.
pub mod Loop
pub mod LostFill
pub mod Outcome
use omen_backend.Base.{
  ℕ, ◌+◌, ◌<◌, zero, suc, Bool, true, false, ◌&&◌, not, Option, none, some, List, [], ◌∷◌, ◌++◌, ℤ,
  pos, negsuc, ◌+ℤ◌, ◌-ℤ◌, ltb_ℤ, leb_ℤ, is_some, ltb, leb, ◌==◌, if◌then◌else◌, take, select,
  Action, Done, Result, ok, err, pure, throw, gets, modify, or_throw, when, catch, ◌>>=◌, ◌>>◌,
  order_row_missing, pair_row_missing,
}
use omen_backend.Trading.Types.{
  OrderSide, buy, sell, OrderType, OrderStatus, pending_match, open_status, partial, filled,
  cancelled, TradingPair, Order, Trade, is_buy, opposite, is_market,
}
use omen_backend.Trading.Store.{
  State, BookCommand, order_open, order_partially_filled, order_filled, order_cancelled,
  match_order, find_trading_pair_by_id, find_order_by_id, update_order_status,
  get_open_orders_for_pair, publish, enqueue,
}
use omen_backend.Trading.Worker.{
  can_match, cache_orders_in_redis, execute_trade, remaining_of, add_order_to_order_book,
  remove_order_from_order_book,
}

pub record MatchResult : Type 0 where
  pub matched : Bool
  pub trades_executed : ℕ
  pub remaining_quantity : ℤ
  pub final_status : OrderStatus

-- The variables of the loop: what remains of the order, and the trades so far.
pub record Progress : Type 0 where
  pub remaining : ℤ
  pub trades_executed : ℕ

abbrev pub is_zero : ℤ → Bool
is_zero (pos zero) = true
is_zero (pos (suc n)) = false
is_zero (negsuc n) = false

abbrev pub is_matchable : OrderStatus → Bool
is_matchable pending_match = true
is_matchable open_status = true
is_matchable partial = true
is_matchable _ = false

-- `remainingQuantity < opposingRemaining ? remainingQuantity : opposingRemaining`.
abbrev pub match_quantity : ℤ → Order → ℤ
match_quantity remaining opposing =
    if ltb_ℤ remaining (remaining_of opposing) then remaining else remaining_of opposing

abbrev pub result : Progress → OrderStatus → MatchResult
result p status = record {
  matched = ltb 0 p.trades_executed;
  trades_executed = p.trades_executed;
  remaining_quantity = p.remaining;
  final_status = status;
}

abbrev pub start : Order → Progress
start order = record { remaining = remaining_of order; trades_executed = 0 }

-- What a trade that returned changes in the loop's variables. One that throws is logged and skipped;
-- what it wrote stays.
unfoldable pub after_trade : Progress → ℤ → Result Trade × State → Progress × State
after_trade p quantity (err e, s) = (p, s)
after_trade p quantity (ok t, s) =
    (record { remaining = p.remaining -ℤ quantity; trades_executed = p.trades_executed + 1 }, s)

module _ (allowed : OrderStatus → Bool) where
  -- One round of the loop, after the test for the end.
  unfoldable pub match_round : Order → TradingPair → Order → Progress → State → Progress × State
  match_round order pair opposing p s =
      if can_match order opposing
      then after_trade p (match_quantity p.remaining opposing)
          (execute_trade allowed order opposing (match_quantity p.remaining opposing) pair s)
      else (p, s)

  unfoldable pub match_loop : Order → TradingPair → List Order → Progress → State → Progress × State
  match_loop order pair [] p s = (p, s)
  match_loop order pair (o ∷ os) p s = elim (is_zero p.remaining) [
    | true ↦ (p, s)
    | false ↦ let (p', s') = match_round order pair o p s in match_loop order pair os p' s'
  ]

  -- What follows the loop.
  unfoldable pub finish_matching : Order → Progress → Action State MatchResult
  unfolding update_order_status publish remove_order_from_order_book add_order_to_order_book
  finish_matching order p =
      if is_zero p.remaining
      then (do
        update_order_status allowed order.id filled none
        publish (order_filled order.id)
        remove_order_from_order_book order
        pure (result p filled))
      else if ltb_ℤ p.remaining (pos order.quantity)
      then (do
        update_order_status allowed order.id partial none
        publish (order_partially_filled order.id)
        add_order_to_order_book order
        pure (result p partial))
      else (do add_order_to_order_book order; pure (result p open_status))

  module _ (redis_range : List BookCommand → ℕ → OrderSide → Option (List Order)) where
    -- The first hundred orders of the sorted set, and none where Redis throws.
    abbrev pub orders_from_redis : ℕ → OrderSide → State → List Order
    orders_from_redis pair side s = elim (redis_range s.book pair side) [ none ↦ [] | some os ↦ os ]

    abbrev cache_if_any : ℕ → OrderSide → List Order → Action State (List Order)
    unfolding cache_orders_in_redis
    cache_if_any pair side [] = pure []
    cache_if_any pair side (o ∷ os) = do cache_orders_in_redis pair side (o ∷ os); pure (o ∷ os)

    abbrev or_from_database : ℕ → OrderSide → List Order → Action State (List Order)
    unfolding cache_orders_in_redis get_open_orders_for_pair
    or_from_database pair side (o ∷ os) = pure (o ∷ os)
    or_from_database pair side [] =
        get_open_orders_for_pair pair side 100 >>= cache_if_any pair side

    unfoldable pub get_opposing_orders : ℕ → OrderSide → Action State (List Order)
    unfolding cache_orders_in_redis get_open_orders_for_pair
    get_opposing_orders pair side s = or_from_database pair side (orders_from_redis pair side s) s

    unfoldable pub execute_matching : Order → TradingPair → Action State MatchResult
    unfolding get_opposing_orders
    execute_matching order pair = do
      opposing_orders ← get_opposing_orders pair.id (opposite order.side)
      λ s.
          let (p, s') = match_loop order pair opposing_orders (start order) s in
          finish_matching order p s'

    enqueue_matches : ℕ → ℕ → List Order → Action State Done
    unfolding enqueue
    enqueue_matches trigger pair [] = pure tt
    enqueue_matches trigger pair (o ∷ os) =
        let rest = enqueue_matches trigger pair os in
        enqueue (match_order o.id pair (some trigger) 0) >> rest

    unfoldable pub schedule_opposing_matches : Order → TradingPair → Action State Done
    unfolding get_opposing_orders enqueue_matches
    schedule_opposing_matches order pair = do
      opposing_orders ← get_opposing_orders pair.id (opposite order.side)
      enqueue_matches order.id pair.id (take 10 (select (λ o. can_match o order) opposing_orders))

    abbrev skipped : OrderStatus → Order → MatchResult
    skipped status order = record {
      matched = false;
      trades_executed = 0;
      remaining_quantity = pos order.quantity;
      final_status = status;
    }

    abbrev is_pending : OrderStatus → Bool
    is_pending pending_match = true
    is_pending _ = false

    abbrev is_resting : OrderStatus → Bool
    is_resting open_status = true
    is_resting partial = true
    is_resting _ = false

    -- The order is opened before it is matched, and its opposing orders are matched again later.
    unfoldable pub match_open_order : Order → TradingPair → Action State MatchResult
    unfolding update_order_status publish
    match_open_order order pair = do
      when (is_pending order.status)
          (update_order_status allowed order.id open_status none >> publish (order_open order.id))
      let opened = if is_pending order.status then record order { status = open_status } else order
      result ← execute_matching opened pair
      when (is_resting result.final_status) (schedule_opposing_matches opened pair)
      pure result

    unfoldable pub match_on_pair : Order → TradingPair → Action State MatchResult
    unfolding update_order_status publish
    match_on_pair order pair = if pair.is_active then match_open_order order pair else (do
      update_order_status allowed order.id cancelled none
      publish (order_cancelled order.id)
      pure (skipped cancelled order))

    unfoldable pub process_matching_job : ℕ → ℕ → Action State MatchResult
    unfolding find_order_by_id find_trading_pair_by_id match_on_pair
    process_matching_job order_id pair_id = do
      order ← (find_order_by_id order_id >>= λ found. or_throw found order_row_missing)
      if is_matchable order.status
          then ((find_trading_pair_by_id pair_id >>= λ found. or_throw found pair_row_missing)
              >>= match_on_pair order)
          else pure (skipped order.status order)
