-- ===== src/Tests.antt =====
-- Runs of the services on a small state, to which the theorems apply.
mod Worlds
mod Ink
mod Submission
mod Reading
mod Payment
mod AdminUsers
mod AdminAuth
mod Catalog
mod SignIn
mod Passport
mod Stores
mod Sources
mod Pages
