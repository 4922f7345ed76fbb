-- ===== src/Statistics.antt =====
-- The statistics of a trading pair: a part of marketBackend/src/services/marketDataService.ts.
pub mod Service
pub mod Ranges
