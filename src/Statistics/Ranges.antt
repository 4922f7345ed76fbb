-- ===== src/Statistics/Ranges.antt =====
-- The ranges of prices in the statistics of marketBackend/src/services/marketDataService.ts.
use omen_backend.Base.{
  ℕ, ◌≤◌, ◌<◌, ◌≡◌, refl, true, some, List, [], ◌∷◌, All, Option, insert, select, take, ◌==◌,
  ==-self, ok, zero, suc, ◌⊎◌, inl, inr, arith,
}
use omen_backend.Statistics.Service.{
  TimedTrade, MarketStats, StatsState, find_market_stats, get_trades_by_pair, upsert_market_stats,
  cache_market_stats, cache_price, is_numeric_10_4, higher, lower, highest, lowest, percent_change,
  last_of, price_of, is_recent, new_stats, update_market_stats_for_trade, get_market_stats,
  get_current_price,
}

higher-bounds : (max p : ℕ) → (max ≤ higher max p) × (p ≤ higher max p)
higher-bounds max p = ground arith

-- A minimum of 0 stands for none.
lower-bounds :
    (min p : ℕ) → 0 < p → (0 < lower min p) × (lower min p ≤ p) × (0 < min → lower min p ≤ min)
lower-bounds min p h = ground arith

highest-old : (max : ℕ) (ts : List TimedTrade) → max ≤ highest max ts
unfolding highest
highest-old max [] = omega arith
highest-old max (t ∷ ts) =
    let up = highest-old (higher max t.price) ts in
    let (old, new) = higher-bounds max t.price in omega (arith, up, old)

highest-All : (max : ℕ) (ts : List TimedTrade) → All (λ t. t.price ≤ highest max ts) ts
unfolding highest
highest-All max [] = tt
highest-All max (t ∷ ts) =
    let up = highest-old (higher max t.price) ts in
    let (old, new) = higher-bounds max t.price in
    (omega (arith, up, new), highest-All (higher max t.price) ts)

lowest-old :
    (min : ℕ) (ts : List TimedTrade) → All (λ t. 0 < t.price) ts → 0 < min → lowest min ts ≤ min
unfolding lowest
lowest-old min [] all h = omega arith
lowest-old min (t ∷ ts) (first, all) h =
    let (some_low, new, old) = lower-bounds min t.price first in
    let down = lowest-old (lower min t.price) ts all some_low in
    let old_bound = old h in omega (arith, down, old_bound)

lowest-All :
    (min : ℕ) (ts : List TimedTrade)
    → All (λ t. 0 < t.price) ts
    → All (λ t. lowest min ts ≤ t.price) ts
unfolding lowest
lowest-All min [] all = tt
lowest-All min (t ∷ ts) (first, all) =
    let (some_low, new, old) = lower-bounds min t.price first in
    let down = lowest-old (lower min t.price) ts all some_low in
    (omega (arith, down, new), lowest-All (lower min t.price) ts all)

keeps_low :
    (min : ℕ) (ts : List TimedTrade) → All (λ t. 0 < t.price) ts → (min ≡ 0) ⊎ (lowest min ts ≤ min)
keeps_low zero ts all = inl refl
keeps_low (suc min) ts all = inr (lowest-old (suc min) ts all (omega arith))

All-pair :
    (P Q : TimedTrade → Type 0) (ts : List TimedTrade)
    → All P ts
    → All Q ts
    → All (λ t. P t × Q t) ts
All-pair P Q [] p q = tt
All-pair P Q (t ∷ ts) (p, ps) (q, qs) = ((p, q), All-pair P Q ts ps qs)

-- The trades that the statistics are made of.
unfoldable pub recent_of : ℕ → StatsState → List TimedTrade
recent_of pair s =
    select (is_recent s.now)
      (take 10000 (select (λ (t : TimedTrade). t.trading_pair_id == pair) s.trades))

abbrev pub high_of : Option MarketStats → ℕ
high_of row = price_of (λ r. r.high_24h) row

abbrev pub low_of : Option MarketStats → ℕ
low_of row = price_of (λ r. r.low_24h) row

update-state :
    (trade : TimedTrade) (s : StatsState)
    → is_numeric_10_4 (some (percent_change trade.price (last_of (s.stats trade.trading_pair_id))))
      ≡ true
    → let pair = trade.trading_pair_id in
      let row = new_stats trade (s.stats pair) (recent_of pair s) in
      update_market_stats_for_trade trade s ≡ (
        ok tt,
        record s {
          stats = insert pair row s.stats;
          stats_cache = insert pair row s.stats_cache;
          price_cache = insert pair trade.price s.price_cache;
        },
      )
unfolding update_market_stats_for_trade find_market_stats get_trades_by_pair upsert_market_stats
    cache_market_stats cache_price recent_of
update-state trade s fits = ground (arith, fits)

cached-stats :
    (pair : ℕ) (row : MarketStats) (s : StatsState)
    → s.stats_cache pair ≡ some row
    → (get_market_stats pair s).0 ≡ ok (some row)
unfolding get_market_stats
cached-stats pair row s h = ground (arith, h)

cached-price :
    (pair price : ℕ) (s : StatsState)
    → s.price_cache pair ≡ some price
    → (get_current_price pair s).0 ≡ ok (some price)
unfolding get_current_price
cached-price pair price s h = ground (arith, h)

-- Where the change fits its column and the recent trades have a price, updateMarketStatsForTrade
-- returns, and getMarketStats and getCurrentPrice then answer the row that the table has and the
-- price of the trade. The range from low to high of that row holds the price of each recent trade,
-- and it never narrows: the high and low that the row had before stay in it, however old they are,
-- unless the low was 0.
pub update_market_stats_for_trade-ranges :
    (trade : TimedTrade) (s : StatsState)
    → is_numeric_10_4 (some (percent_change trade.price (last_of (s.stats trade.trading_pair_id))))
      ≡ true
    → All (λ t. 0 < t.price) (recent_of trade.trading_pair_id s)
    → let pair = trade.trading_pair_id in
      let (r, s') = update_market_stats_for_trade trade s in
      let row = s'.stats pair in
      (r ≡ ok tt)
      × ((get_market_stats pair s').0 ≡ ok row)
      × ((get_current_price pair s').0 ≡ ok (some trade.price))
      × All (λ t. (low_of row ≤ t.price) × (t.price ≤ high_of row)) (recent_of pair s)
      × (high_of (s.stats pair) ≤ high_of row)
      × ((low_of (s.stats pair) ≡ 0) ⊎ (low_of row ≤ low_of (s.stats pair)))
update_market_stats_for_trade-ranges trade s fits priced =
    let pair = trade.trading_pair_id in
    let recent = recent_of pair s in
    let low = low_of (s.stats pair) in
    let high = high_of (s.stats pair) in
    let row = new_stats trade (s.stats pair) recent in
    let s' : StatsState = record s {
      stats = insert pair row s.stats;
      stats_cache = insert pair row s.stats_cache;
      price_cache = insert pair trade.price s.price_cache;
    } in
    let same = ==-self pair in
    rw
      (
        update-state trade s fits,
        cached-stats pair row s' (rw (same) refl),
        cached-price pair trade.price s' (rw (same) refl),
        same,
      )
      (
        refl,
        refl,
        refl,
        All-pair (λ t. lowest low recent ≤ t.price) (λ t. t.price ≤ highest high recent) recent
            (lowest-All low recent priced) (highest-All high recent),
        highest-old high recent,
        keeps_low low recent priced,
      )
