-- ===== src/Tests.antt =====
-- Concrete runs: the data, and what the theorems say of them.
mod Data
mod Tokens
mod Trades
mod Matches
mod Submissions
mod Markets
mod Swaps
mod Decisions
mod Settlements
mod Wraps
mod Transactions
mod Statistics
