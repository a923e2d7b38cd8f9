-- ===== src/SignIn.antt =====
-- auth.service.ts, session.service.ts, bootstrap.service.ts and jwt-auth.guard.ts: sign-in with Google,
-- the objects that a wallet is given on the chain, and the sessions.
pub mod Accounts
pub mod Bootstrap
pub mod Sessions
pub mod Login
pub mod Once
pub mod Mints
pub mod Arrivals
pub mod Recovery
pub mod Resume
pub mod Admission
pub mod Profile
