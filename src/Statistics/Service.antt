-- ===== src/Statistics/Service.antt =====
-- `updateMarketStatsForTrade`, `getMarketStats` and `getCurrentPrice` of
-- marketBackend/src/services/marketDataService.ts, with the queries on `market_stats` and `trades` of
-- marketBackend/src/infra/database/repositories/tradingRepository.ts. A trade has here what the
-- statistics read of it.
use omen_backend.Base.{
  ℕ, zero, suc, ◌+◌, ◌*◌, ◌/◌, ◌^◌, Bool, true, ◌||◌, Option, none, some, List, [], ◌∷◌, ℤ, pos,
  ◌*ℤ◌, sub_ℕ, quot, pos_part, neg_part, leb, ltb, ◌==◌, if◌then◌else◌, select, take, length, Table,
  insert, Action, Done, ok, err, pure, gets, modify, numeric_overflow, ◌>>=◌, ◌>>◌,
}

pub record TimedTrade : Type 0 where
  pub trading_pair_id : ℕ
  pub price : ℕ
  pub quantity : ℕ
  -- In milliseconds.
  pub executed_at : ℕ

-- The change in percent is counted in hundredths of a percent.
pub record MarketStats : Type 0 where
  pub trading_pair_id : ℕ
  pub last_price : Option ℕ
  pub price_change_24h : Option ℤ
  pub price_change_percent_24h : Option ℤ
  pub high_24h : Option ℕ
  pub low_24h : Option ℕ
  pub volume_24h : Option ℕ
  pub quote_volume_24h : Option ℕ
  pub trades_count_24h : ℕ

pub record StatsState : Type 0 where
  -- The newest first.
  pub trades : List TimedTrade
  pub stats : Table MarketStats
  -- The keys `market:<pair>:price` and `market:<pair>:stats`.
  pub price_cache : Table ℕ
  pub stats_cache : Table MarketStats
  pub now : ℕ

unfoldable pub get_trades_by_pair : ℕ → (limit : ℕ) → Action StatsState (List TimedTrade)
get_trades_by_pair pair limit =
    gets λ s. take limit (select (λ (t : TimedTrade). t.trading_pair_id == pair) s.trades)

unfoldable pub find_market_stats : ℕ → Action StatsState (Option MarketStats)
find_market_stats pair = gets λ s. s.stats pair

-- The column NUMERIC(10, 4) holds a number below 10 ^ 6.
abbrev pub is_numeric_10_4 : Option ℤ → Bool
is_numeric_10_4 none = true
is_numeric_10_4 (some z) = ltb (pos_part z + neg_part z) 1000000

unfoldable pub upsert_market_stats : MarketStats → Action StatsState MarketStats
upsert_market_stats new s =
    if is_numeric_10_4 new.price_change_percent_24h
    then (ok new, record s { stats = insert new.trading_pair_id new s.stats })
    else (err numeric_overflow, s)

unfoldable pub cache_market_stats : MarketStats → Action StatsState Done
cache_market_stats new =
    modify λ s. record s { stats_cache = insert new.trading_pair_id new s.stats_cache }

unfoldable pub cache_price : ℕ → ℕ → Action StatsState Done
cache_price pair price = modify λ s. record s { price_cache = insert pair price s.price_cache }

-- The bodies of the four calls of `reduce`.
abbrev pub add_quantity : ℕ → List TimedTrade → ℕ
add_quantity sum [] = sum
add_quantity sum (t ∷ ts) = add_quantity (sum + t.quantity) ts

abbrev pub add_quote : ℕ → List TimedTrade → ℕ
add_quote sum [] = sum
add_quote sum (t ∷ ts) = add_quote (sum + (t.quantity * t.price) / 10 ^ 18) ts

abbrev pub higher : ℕ → ℕ → ℕ
higher max p = if ltb max p then p else max

abbrev pub lower : ℕ → ℕ → ℕ
lower min p = if (min == 0) || ltb p min then p else min

unfoldable pub highest : ℕ → List TimedTrade → ℕ
highest max [] = max
highest max (t ∷ ts) = highest (higher max t.price) ts

unfoldable pub lowest : ℕ → List TimedTrade → ℕ
lowest min [] = min
lowest min (t ∷ ts) = lowest (lower min t.price) ts

abbrev pub price_of : (MarketStats → Option ℕ) → Option MarketStats → ℕ
price_of column none = 0
price_of column (some row) = elim (column row) [ none ↦ 0 | some p ↦ p ]

abbrev pub last_of : Option MarketStats → Option ℕ
last_of none = none
last_of (some row) = row.last_price

abbrev pub price_change : ℕ → Option ℕ → ℤ
price_change price none = pos 0
price_change price (some last) = sub_ℕ price last

abbrev pub percent_change : ℕ → Option ℕ → ℤ
percent_change price none = pos 0
percent_change price (some zero) = pos 0
percent_change price (some (suc last)) =
    quot (price_change price (some (suc last)) *ℤ pos 10000) (suc last)

-- `executedAt >= now - 24 hours`.
abbrev pub is_recent : ℕ → TimedTrade → Bool
is_recent now t = leb now (t.executed_at + 24 * 60 * 60 * 1000)

abbrev pub new_stats : TimedTrade → Option MarketStats → List TimedTrade → MarketStats
new_stats trade current recent = record {
  trading_pair_id = trade.trading_pair_id;
  last_price = some trade.price;
  price_change_24h = some (price_change trade.price (last_of current));
  price_change_percent_24h = some (percent_change trade.price (last_of current));
  high_24h = some (highest (price_of (λ r. r.high_24h) current) recent);
  low_24h = some (lowest (price_of (λ r. r.low_24h) current) recent);
  volume_24h = some (add_quantity 0 recent);
  quote_volume_24h = some (add_quote 0 recent);
  trades_count_24h = length recent;
}

unfoldable pub update_market_stats_for_trade : TimedTrade → Action StatsState Done
update_market_stats_for_trade trade = do
  current ← find_market_stats trade.trading_pair_id
  now ← gets (λ s. s.now)
  trades ← get_trades_by_pair trade.trading_pair_id 10000
  updated ← upsert_market_stats (new_stats trade current (select (is_recent now) trades))
  cache_market_stats updated
  cache_price trade.trading_pair_id trade.price

unfoldable pub get_market_stats : ℕ → Action StatsState (Option MarketStats)
get_market_stats pair = do
  cached ← gets (λ s. s.stats_cache pair)
  elim cached [
    | some row ↦ pure (some row)
    | none ↦ do
      found ← find_market_stats pair
      elim found [ none ↦ pure none | some row ↦ cache_market_stats row >> pure (some row) ]
  ]

unfoldable pub get_current_price : ℕ → Action StatsState (Option ℕ)
get_current_price pair = do
  cached ← gets (λ s. s.price_cache pair)
  elim cached [
    | some price ↦ pure (some price)
    | none ↦ do
      found ← find_market_stats pair
      elim (last_of found) [
        | none ↦ pure none
        | some price ↦ cache_price pair price >> pure (some price)
      ]
  ]
