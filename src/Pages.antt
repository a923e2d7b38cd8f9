-- ===== src/Pages.antt =====
-- Pages of the frontend that do more than show a store.
pub mod TipPage
pub mod Amounts
pub mod Retry
pub mod Callback
pub mod ReaderPage
pub mod Levels
