-- ===== src/Market.antt =====
-- The life of a market: its types, its tables, and the market service.
pub mod Types
pub mod Store
pub mod Service
