-- ===== src/Trading/Types.antt =====
-- The types of marketBackend/src/types/trading.ts. Ids are numbers, which are only compared; an
-- amount that a caller sends as a decimal string is the integer that it denotes; metadata,
-- timestamps and display fields are left out.
use omen_backend.Base.{ℕ, Bool, true, false, Option, List, ℤ}

pub data OrderSide : Type 0 where
  buy sell : OrderSide

pub data OrderType : Type 0 where
  limit market stop_limit : OrderType

pub data OrderStatus : Type 0 where
  pending_match open_status partial filled cancelled rejected : OrderStatus

pub data TimeInForce : Type 0 where
  gtc ioc fok : TimeInForce

pub data SettlementStatus : Type 0 where
  pending settled failed : SettlementStatus

pub record TradingPair : Type 0 where
  pub id : ℕ
  pub market_id : Option ℕ
  pub base_token_id : ℕ
  pub quote_token_id : ℕ
  pub is_active : Bool
  pub min_order_size : Option ℤ
  pub max_order_size : Option ℤ

-- A row of `orders`. Its constraint keeps 0 < quantity and filled_quantity ≤ quantity; the price has
-- no constraint.
pub record Order : Type 0 where
  pub id : ℕ
  pub user_id : ℕ
  pub trading_pair_id : ℕ
  pub side : OrderSide
  pub order_type : OrderType
  pub status : OrderStatus
  pub price : Option ℤ
  pub quantity : ℕ
  pub filled_quantity : ℕ
  pub time_in_force : TimeInForce

pub record Trade : Type 0 where
  pub id : ℕ
  pub trading_pair_id : ℕ
  pub buyer_order_id : ℕ
  pub seller_order_id : ℕ
  pub buyer_id : ℕ
  pub seller_id : ℕ
  pub price : ℕ
  pub quantity : ℕ
  pub buyer_fee : ℤ
  pub seller_fee : ℤ
  pub settlement_status : SettlementStatus
  pub blockchain_tx_hash : Option ℕ

pub record CreateOrderInput : Type 0 where
  pub user_id : ℕ
  pub user_address : ℕ
  pub trading_pair_id : ℕ
  pub side : OrderSide
  pub order_type : OrderType
  pub price : Option ℤ
  pub quantity : ℤ
  pub time_in_force : Option TimeInForce
  pub signature : ℕ
  pub nonce : ℕ
  pub expiry : ℕ

pub record OrderBookEntry : Type 0 where
  pub price : ℤ
  pub quantity : ℤ
  pub order_count : ℕ

pub record OrderBook : Type 0 where
  pub trading_pair_id : ℕ
  pub bids : List OrderBookEntry
  pub asks : List OrderBookEntry
  pub last_update : ℕ

abbrev pub is_buy : OrderSide → Bool
is_buy buy = true
is_buy sell = false

abbrev pub opposite : OrderSide → OrderSide
opposite buy = sell
opposite sell = buy

abbrev pub same_side : OrderSide → OrderSide → Bool
same_side buy buy = true
same_side sell sell = true
same_side _ _ = false

abbrev pub is_market : OrderType → Bool
is_market market = true
is_market _ = false
