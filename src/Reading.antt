-- ===== src/Reading.antt =====
-- reading.service.ts: a reader's records, and the rewards that their progress earns.
pub mod Progress
pub mod Rewards
pub mod Effects
pub mod Keeps
pub mod Tracking
pub mod Milestones
pub mod Upkeep
