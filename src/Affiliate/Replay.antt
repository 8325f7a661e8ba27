-- ===== src/Affiliate/Replay.antt =====
-- Repeated payout calls answer as the first did and write nothing more
-- (src/affiliates/affiliate-payout.service.ts).
pub mod Create
