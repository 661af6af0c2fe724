-- ===== src/Trading.antt =====
-- The operations of the trading service, one to a method of go-backend/internal/trading.
pub mod Quotes
pub mod Accounts
pub mod Place
pub mod Resolve
pub mod Recover
pub mod Latch
pub mod Work
pub mod Retry
pub mod Payout
pub mod Release
pub mod Batch
pub mod Views
pub mod Durable
