-- ===== src/Trading/Service/Accepted.antt =====
-- What an order that submitOrder of marketBackend/src/services/tradingService.ts accepts has passed
-- and done.
use omen_backend.Trading.Service.{Verifier, verify_order_signature}
use omen_backend.Base.{ℕ, ◌/◌, ◌≡◌, true, false, not, ◌&&◌, Option, some, leb, is_some, ok, arith}
use omen_backend.Trading.Types.{TradingPair, Order, CreateOrderInput, is_market}
use omen_backend.Trading.Store.{State, find_trading_pair_by_id}
use omen_backend.Trading.Service.{
  is_nonce_used, mark_nonce_as_used, compliance_of_pair, is_below, is_above,
}
use omen_backend.Trading.Service.Placed.{IsPlaced}

pub record IsAccepted (input : CreateOrderInput) (pair : TradingPair) (s s' : State) (order : Order)
    : Type 0 where
  pub is_active : pair.is_active ≡ true
  pub compliant : (compliance_of_pair input.user_id pair s).0 ≡ ok tt
  pub large_enough : is_below input.quantity pair.min_order_size ≡ false
  pub small_enough : is_above input.quantity pair.max_order_size ≡ false
  pub has_price : (not (is_market input.order_type) && not (is_some input.price)) ≡ false
  pub placed : IsPlaced input pair s s' order

-- The checks before those of the pair.
pub record IsSubmitted (signed : Verifier) (input : CreateOrderInput) (s s' : State) (order : Order)
    : Type 0 where
  pub unexpired : leb input.expiry (s.ledger.now / 1000) ≡ false
  pub fresh_nonce : is_nonce_used input.user_address input.nonce s ≡ false
  pub is_signed : verify_order_signature signed input ≡ true
  pub pair : TradingPair
  pub found : s.pairs input.trading_pair_id ≡ some pair
  pub accepted :
      IsAccepted input pair (mark_nonce_as_used input.user_address input.nonce s).1 s' order

pub find-eq-ok :
    (id : ℕ) (s s' : State) (found : Option TradingPair)
    → find_trading_pair_by_id id s ≡ (ok found, s')
    → (found ≡ s.pairs id) × (s' ≡ s)
unfolding find_trading_pair_by_id
find-eq-ok id s s' found h = ground arith
