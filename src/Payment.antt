-- ===== src/Payment.antt =====
-- payment.service.ts: USDC tips and sends, each built, signed by the user, and submitted once.
pub mod Rows
pub mod Tips
pub mod Sends
pub mod Building
pub mod Settling
