-- ===== src/Catalog.antt =====
-- series.service.ts, chapter.service.ts and creator.service.ts: the series, their chapters and pages,
-- and the creators who publish them.
pub mod Rows
pub mod Listing
pub mod Chapters
pub mod Creator
pub mod Uploads
pub mod Earnings
pub mod Publishing
pub mod Covers
pub mod MangaDex
