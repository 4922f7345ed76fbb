-- ===== src/Deployment/Store.antt =====
-- What the deployment worker reads and writes: the markets, the tokens, the trading pairs
-- (createTradingPair and findTradingPairByMarketId of
-- marketBackend/src/infra/database/repositories/tradingRepository.ts) and the USDC token that
-- marketBackend/src/services/usdcTokenService.ts keeps. Precisions, the pair's symbol, which follows
-- from its tokens, and metadata are left out.
use omen_backend.Base.{
  ℕ, ◌+◌, Bool, true, false, ◌&&◌, Option, none, some, List, [], ◌∷◌, ◌++◌, ℤ, pos, ◌==◌,
  if◌then◌else◌, find, any, Action, ok, err, pure, gets, modify, zoom, ◌>>=◌, ◌>>◌, unique_pair,
  foreign_key, is_some,
}
use omen_backend.Token.Store.{Ledger, Token, stable, create_token, find_token_by_symbol}
use omen_backend.Market.Types.{active, Market}
use omen_backend.Market.Store.{MarketState, change_market}
use omen_backend.Trading.Types.{TradingPair}

pub record DeployState : Type 0 where
  pub market : MarketState
  pub ledger : Ledger
  pub pairs : List TradingPair
  -- The field `usdcToken` of the service.
  pub usdc_token : Option Token
  -- The calls that deployed a token: the market's symbol, newest first.
  pub deployed : List ℕ
  pub next_pair : ℕ

abbrev pub on_market : {A : Type 0} → Action MarketState A → Action DeployState A
on_market m = zoom (λ s. s.market) (λ w s. record s { market = w }) m

abbrev pub on_ledger : {A : Type 0} → Action Ledger A → Action DeployState A
on_ledger m = zoom (λ s. s.ledger) (λ w s. record s { ledger = w }) m

-- The texts 'USDC' and 'RWA' and the chain 'sapphire', as numbers.
abbrev pub usdc_symbol : ℕ
usdc_symbol = 0

abbrev pub rwa_symbol : ℕ
rwa_symbol = 1

abbrev pub sapphire : ℕ
sapphire = 0

-- `activateMarket` of marketBackend/src/infra/database/repositories/marketRepository.ts.
unfoldable pub set_active : ℕ → (contract tx_hash : ℕ) → Action MarketState Market
set_active id contract tx_hash = change_market id λ m. record m {
  status = active;
  contract_address = some contract;
  deployment_tx_hash = some tx_hash;
}

abbrev pub is_market : ℕ → Option ℕ → Bool
is_market id none = false
is_market id (some m) = m == id

unfoldable pub find_trading_pair_by_market_id : ℕ → Action DeployState (Option TradingPair)
find_trading_pair_by_market_id id =
    gets λ s. find (λ (p : TradingPair). is_market id p.market_id) s.pairs

-- Whether the tokens and the market that a new pair refers to are there.
abbrev refers : (market base quote : ℕ) → DeployState → Bool
refers market base quote s =
    is_some (s.market.markets market)
    && any (λ (t : Token). t.id == base) s.ledger.tokens
    && any (λ (t : Token). t.id == quote) s.ledger.tokens

-- INSERT INTO trading_pairs, under the constraint UNIQUE (base_token_id, quote_token_id) and the
-- foreign keys.
unfoldable pub create_trading_pair :
    (market base quote : ℕ) (max_order_size : ℤ) → Action DeployState TradingPair
create_trading_pair market base quote max_order_size s =
    let pair : TradingPair = record {
      id = s.next_pair;
      market_id = some market;
      base_token_id = base;
      quote_token_id = quote;
      is_active = true;
      min_order_size = some (pos 1);
      max_order_size = some max_order_size;
    } in
    if any (λ (p : TradingPair). p.base_token_id == base && p.quote_token_id == quote) s.pairs
    then (err unique_pair, s)
    else if refers market base quote s
    then (ok pair, record s { pairs = s.pairs ++ pair ∷ []; next_pair = s.next_pair + 1 })
    else (err foreign_key, s)

-- The token of a symbol: the one that is there, or a new one.
unfoldable pub find_or_create_token : ℕ → Action Ledger Token → Action Ledger Token
find_or_create_token symbol create = do
  found ← find_token_by_symbol symbol
  elim found [ some token ↦ pure token | none ↦ create ]

unfoldable pub get_or_create_usdc_token : Action DeployState Token
unfolding find_or_create_token
get_or_create_usdc_token = do
  kept ← gets (λ s. s.usdc_token)
  elim kept [
    | some token ↦ pure token
    | none ↦ do
      token ← on_ledger (
          find_or_create_token usdc_symbol (
            create_token (record {
              token_symbol = usdc_symbol;
              token_type = stable;
              contract_address = none;
              blockchain = sapphire;
              decimals = some 6;
              total_supply = none;
            })))
      modify λ s. record s { usdc_token = some token }
      pure token
  ]
