-- ===== src/Submission.antt =====
-- submission.service.ts: suggestions of series, INK-weighted votes on them, and their outcome.
pub mod Tally
pub mod Rows
pub mod Approval
pub mod Voting
pub mod Listing
pub mod Reward
pub mod Finality
pub mod Ballots
pub mod Outcome
pub mod Mirror
pub mod Cases
pub mod Outcomes
