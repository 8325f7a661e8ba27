-- ===== src/Affiliate.antt =====
-- The affiliate programme (src/affiliates).
pub mod Economics
pub mod Store
pub mod Balance
pub mod Ledger
pub mod Payout
pub mod Settlement
pub mod Codes
pub mod Referrals
pub mod Commands
pub mod Replay
mod Tests
pub mod Solvency
