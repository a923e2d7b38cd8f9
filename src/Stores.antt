-- ===== src/Stores.antt =====
-- The stores of the frontend, stores/*.ts, and what signs its transactions. A request to the backend is
-- given by its answer: what it returns, or the message of its error.
pub mod Numbers
pub mod Voting
pub mod Tallies
pub mod Signing
pub mod Flows
pub mod Payments
pub mod Paid
pub mod Fetching
pub mod Records
pub mod Browse
pub mod Creators
pub mod Profile
pub mod Writing
pub mod Session
use arktion_sui_overflow.Prelude.{ℕ, Result}

abbrev pub Answer : Type 0 → Type 0
Answer A = Result ℕ A
