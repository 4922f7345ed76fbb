-- ===== src/Tests/Statistics.antt =====
-- A trade below the range that was recorded, with an older trade out of the day.
use omen_backend.Base.{
  ℕ, ◌≤◌, ◌≡◌, ◌⊎◌, refl, none, some, [], ◌∷◌, All, ok, ◌==◌, if◌then◌else◌, arith,
}
use omen_backend.Statistics.Service.{
  TimedTrade, MarketStats, StatsState, update_market_stats_for_trade, get_market_stats,
  get_current_price,
}
use omen_backend.Statistics.Ranges.{
  recent_of, low_of, high_of, update_market_stats_for_trade-ranges,
}

abbrev traded : ℕ → ℕ → TimedTrade
traded price time = record { trading_pair_id = 1; price = price; quantity = 5; executed_at = time }

abbrev old_stats : MarketStats
old_stats = record {
  trading_pair_id = 1;
  last_price = some 200;
  price_change_24h = none;
  price_change_percent_24h = none;
  high_24h = some 400;
  low_24h = some 190;
  volume_24h = none;
  quote_volume_24h = none;
  trades_count_24h = 1;
}

abbrev two_trades : StatsState
two_trades = record {
  trades = traded 150 100000000 ∷ traded 400 3000000 ∷ [];
  stats = λ p. if p == 1 then some old_stats else none;
  price_cache = λ p. none;
  stats_cache = λ p. none;
  now = 100000000;
}

update_market_stats_for_trade-ranges_example :
    let (r, s') = update_market_stats_for_trade (traded 150 100000000) two_trades in
    let row = s'.stats 1 in
    (r ≡ ok tt)
    × ((get_market_stats 1 s').0 ≡ ok row)
    × ((get_current_price 1 s').0 ≡ ok (some 150))
    × All (λ t. (low_of row ≤ t.price) × (t.price ≤ high_of row)) (recent_of 1 two_trades)
    × (400 ≤ high_of row)
    × ((low_of (some old_stats) ≡ 0) ⊎ (low_of row ≤ 190))
unfolding recent_of
update_market_stats_for_trade-ranges_example =
    update_market_stats_for_trade-ranges (traded 150 100000000) two_trades refl (omega arith, tt)
