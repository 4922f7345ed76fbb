-- ===== src/Trading/Amounts.antt =====
-- The amounts of a trade: calculateQuoteAmount and calculateFee, the same text in
-- marketBackend/src/infra/queue/matchingWorkerHandler.ts and
-- marketBackend/src/services/tradingService.ts.
pub mod Bounds
use omen_backend.Base.{
  ℕ, ◌+◌, ◌*◌, ◌/◌, ◌^◌, ◌≤◌, ◌<◌, ◌≡◌, ℤ, pos, negsuc, ◌*ℤ◌, quot, ◌≤ℤ◌, arith,
}

-- 10 ** 18.
abbrev pub wei : ℕ
wei = 1_000_000_000_000_000_000

unfoldable pub calculate_quote_amount : ℤ → ℤ → ℤ
calculate_quote_amount base_quantity price = quot (base_quantity *ℤ price) wei

-- 25 of 10000 of the trade's value.
unfoldable pub calculate_fee : ℤ → ℤ → ℤ
calculate_fee quantity price = quot (quot (quantity *ℤ price) wei *ℤ pos 25) 10000
