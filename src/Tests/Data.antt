-- ===== src/Tests/Data.antt =====
-- A ledger with two users and two tokens, a trading pair with orders of both users, and the state
-- that has them.
use omen_backend.Trading.Service.{Verifier}
use omen_backend.Base.{ℕ, refl, Bool, true, none, some, [], ◌∷◌, pos, inl, ◌==◌, if◌then◌else◌}
use omen_backend.Token.Store.{Ledger, Token, rwa, stable, ComplianceRecord, approved}
use omen_backend.Token.Service.{update_balance_internal}
use omen_backend.Token.Coherence.{IsValid, Reach, here, next, update, Reach-IsValid}
use omen_backend.Trading.Types.{
  OrderSide, buy, sell, limit, OrderStatus, open_status, gtc, TradingPair, Order, CreateOrderInput,
}
use omen_backend.Trading.Store.{State}
use omen_backend.Trading.Amounts.{wei}

abbrev pub security : Token
security = record {
  id = 10;
  token_symbol = 100;
  token_type = rwa;
  contract_address = none;
  blockchain = 1;
  decimals = 18;
  total_supply = none;
  is_active = true;
}

abbrev pub money : Token
money = record security { id = 20; token_symbol = 200; token_type = stable; decimals = 6 }

abbrev pub cleared : ℕ → ComplianceRecord
cleared user = record {
  user_id = user;
  token_id = some 10;
  kyc_status = approved;
  whitelist_status = true;
  expiry_date = none;
}

abbrev pub no_balances : Ledger
no_balances = record {
  tokens = security ∷ money ∷ [];
  balances = λ u t. none;
  compliance = cleared 1 ∷ cleared 2 ∷ [];
  balance_cache = λ u t. none;
  token_cache = λ t. none;
  sessions = λ u. true;
  jobs = [];
  now = 5000;
  next_id = 900;
}

pub no_balances-IsValid : IsValid no_balances
no_balances-IsValid = record { keyed = λ u t b h. absurd (cc h); coherent = λ u t. inl refl }

-- User 1 has 3000 of token 10 locked, user 2 has `funds` of token 20 locked.
abbrev pub sellers_row : Ledger
sellers_row = (update_balance_internal 1 10 (pos 500) (pos 3000) no_balances).1

abbrev pub ledger_with : ℕ → Ledger
ledger_with funds = (update_balance_internal 2 20 (pos 800) (pos funds) sellers_row).1

pub ledger_with-Reach : (funds : ℕ) → Reach no_balances (ledger_with funds)
ledger_with-Reach funds =
    next (next here (update 1 10 (pos 500) (pos 3000) no_balances))
      (update 2 20 (pos 800) (pos funds) sellers_row)

pub ledger_with-IsValid : (funds : ℕ) → IsValid (ledger_with funds)
ledger_with-IsValid funds = Reach-IsValid no_balances-IsValid (ledger_with-Reach funds)

abbrev pub pair5 : TradingPair
pair5 = record {
  id = 5;
  market_id = none;
  base_token_id = 10;
  quote_token_id = 20;
  is_active = true;
  min_order_size = some (pos 10);
  max_order_size = none;
}

abbrev pub limit_order : ℕ → ℕ → OrderSide → ℕ → Order
limit_order id user side quantity = record {
  id = id;
  user_id = user;
  trading_pair_id = 5;
  side = side;
  order_type = limit;
  status = open_status;
  price = some (pos wei);
  quantity = quantity;
  filled_quantity = 0;
  time_in_force = gtc;
}

abbrev pub maker1 : Order
maker1 = limit_order 1 1 sell 1000

abbrev pub maker2 : Order
maker2 = limit_order 2 1 sell 2000

abbrev pub taker : Order
taker = limit_order 3 2 buy 1500

abbrev pub state_with : ℕ → State
state_with funds = record {
  ledger = ledger_with funds;
  pairs = λ p. if p == 5 then some pair5 else none;
  markets = λ m. none;
  orders = maker1 ∷ maker2 ∷ taker ∷ [];
  trades = [];
  audit_log = [];
  used_nonces = λ a n. none;
  book = [];
  depth_cache = λ p. none;
  open_orders = λ u. [];
  recent_trades = λ p. [];
  events = [];
  jobs = [];
  next_id = 50;
}

abbrev pub any_status : OrderStatus → Bool
any_status status = true

-- A signed order to buy 300 at the price of 1.
abbrev pub wanted : CreateOrderInput
wanted = record {
  user_id = 2;
  user_address = 22;
  trading_pair_id = 5;
  side = buy;
  order_type = limit;
  price = some (pos wei);
  quantity = pos 300;
  time_in_force = none;
  signature = 7;
  nonce = 9;
  expiry = 60;
}

abbrev pub any_signature : Verifier
any_signature order signature address = true
