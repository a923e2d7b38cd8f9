-- ===== src/Lib.antt =====
-- Arktion's backend (backend/src), with the stores of its frontend: a reader's progress,
-- the INK and the badges that it earns on the Sui chain, the DAO that decides on submissions with
-- INK, USDC tips and sends, the series with their chapters and creators, sign-in with Google, and
-- the admin accounts with their own sign-in.
--
-- How the parts interact. reading.service.ts and submission.service.ts reward readers: the first
-- calls ink.service.ts and badges.service.ts, the second puts the same calls into one transaction
-- block. All of them send through gas.service.ts, which runs Move calls as the admin, and then
-- mirror what the chain did in Postgres. A vote of the DAO weighs what the mirror says the voter
-- holds. payment.service.ts has tables of its own, and so have the services of series and
-- chapters. auth.service.ts gives a new wallet its objects on the chain through
-- bootstrap.service.ts and then a session, which jwt-auth.guard.ts reads. admin-auth.service.ts
-- and admin-users.service.ts share the admin accounts and their sessions, which
-- admin-jwt.guard.ts reads.
--
-- Files, with the paths of the services from backend/src.
--   Prelude: Boolean tests on numbers, tables as lists of rows, and the actions of a service,
--     which read and write a state and return or throw.
--   Sui: smart-contract/arktion/sources/ink_earning.move (earn) and badges.move (mint), with the
--     programmable transaction block; Sui/Keys has the idempotency keys that the services write.
--   World: the state that the reader-facing services share: tables of
--     backend/prisma/schema.prisma, the chain, and the network between the two.
--   Gas: executeAsAdmin of sui/gas.service.ts.
--   Pagination: toSkipTake of common/pagination.ts.
--   Ink: mintEarning, getBalance, getLedger and calculateLevel of ink/ink.service.ts.
--   Badges: mint and getMyBadges of badges/badges.service.ts.
--   Submission: submission/submission.service.ts; Tally is buildTally, Voting castVote,
--     _finalise, adminApprove and adminReject, Approval _executeApproval, Listing create and the
--     listings.
--   Reading: reading/reading.service.ts; Progress is the first half of upsertRecord and
--     deleteRecord, Rewards checkAndFireMilestones and upsertRecord as a whole.
--   Payment: payment/payment.service.ts; Tips and Sends have the two families of methods.
--   AdminUsers: admin/users/admin-users.service.ts.
--   Text: split, join and hexadecimal texts, and extractToken of the two guards.
--   AdminAuth: Secret, Login and Totp are admin/auth/admin-auth.service.ts (the stored TOTP
--     secret; login, sessions and refresh; the second factor), Guard is admin/guards. Storage,
--     Lockout, Rotation, Codes and Revocation have the proofs.
--   SignIn: Accounts is the state and the answers of other services, Bootstrap
--     sui/bootstrap.service.ts, Login auth/auth.service.ts, Sessions auth/session.service.ts and
--     common/guards/jwt-auth.guard.ts, Profile users/users.service.ts. Once, Mints, Arrivals,
--     Recovery, Resume and Admission have the proofs.
--   Catalog: Rows has the tables, Listing series/series.service.ts, Chapters
--     series/chapter.service.ts, Creator creator/creator.service.ts, MangaDex
--     series/adapters/mangadex.adapter.ts; the other files have the proofs.
--   Journal: journal/journal.service.ts; Ownership has its proofs, and Store is
--     frontend/stores/journal.store.ts over it.
--   Passport: the sync of passport/passport.service.ts with the sponsored transactions of
--     sui/gas.service.ts and update_stats_attested of
--     smart-contract/arktion/sources/passport.move; Snapshot has findByUserId and takeSnapshot,
--     Sync the proofs of the sync.
--   Sui/Walrus: sui/walrus.service.ts, with the base64 of Text/Base64.
--   Stores: frontend/stores and the session of the browser. Voting is submission.store.ts (with
--     the numbers of Numbers), Payments payment.store.ts, Records reading.store.ts, Browse
--     series.store.ts, Creators creator.store.ts, Profile ink.store.ts, badges.store.ts and
--     passport.store.ts, Writing ai.store.ts; Flows is the flow that payment.store.ts and
--     passport.store.ts share, Signing frontend/lib/zklogin.ts and the token of
--     frontend/lib/auth.ts, Session frontend/contexts/auth-context.tsx. Tallies and Paid put a
--     store over the backend's service: a vote over Submission, a tip over Payment.
--   Assistant: ai/ai.controller.ts, ai/dto/assist.dto.ts and ai/ai.service.ts;
--     Conversation puts ai.store.ts over it.
--   Pages: TipPage is frontend/app/(protected)/(reader)/tip/[seriesId]/page.tsx, Callback
--     frontend/app/auth/callback/page.tsx, ReaderPage
--     frontend/app/(protected)/(reader)/read/[seriesId]/[chapterId]/page.tsx, Levels
--     frontend/lib/types/ink.ts with the passport's page; Amounts and Retry have the proofs of the
--     tip page.
--   Tests: runs on small states.
--
-- Choices. Identifiers, texts, addresses, digests and times are numbers where the services only
-- compare them; a text that is tested for being empty is an Option. The time of a call is an
-- argument, and so is an id that the database draws. A BigInt column is a natural number without
-- bound; the columns are BigInt of Postgres. A chapter's number, a Float, is kept in thousandths.
-- A handler runs without another one in between, but for buildTipTransaction, whose two halves
-- are definitions of their own. A database transaction that throws leaves the tables as they
-- were. Each loop is over a list, or over a number of rounds that is known when it starts, but
-- for the loop over the pages of a MangaDex feed, which runs on fuel: two rounds more than the
-- largest total that an answer names are enough. A request of a store is given by its answer;
-- its two updates of the store, before and after, are one where nothing comes in between.
--
-- Code that is not in the repository is a parameter: the network's behaviour at each use and the
-- text of an abort (Env), the Sui client of payments (Client), the hash of a password (an
-- argument of create), bcrypt, jsonwebtoken, otplib and the cipher of the admin sign-in (Crypto),
-- jsonwebtoken under the other secret (Tokens), Ed25519 (AdminKey), the upload to Walrus in a
-- snapshot, the publisher and the aggregator of Walrus, MangaDex (MangaDexApi), the Sui SDK in the
-- browser (ZkLibrary), MemWal and OpenRouter (Assistants), what Google, Enoki and the Sui node
-- answer to a sign-in (Answers), and the source of chapters (ContentSource). Postgres' unique
-- constraints are written out where a row is made, but for that on a passport's suiObjectId in
-- finalizeBootstrap: it fails only where another user's passport names the same object. Postgres
-- takes every write but those that a constraint or a missing row refuses, and the commits that are
-- an argument (Answers); so the two writes of upsertRecord, which are in no transaction, are
-- both made.
--
-- Not modelled: the controllers, the image of a passport, the clients of Google and Enoki, and
-- the other pages and components of the frontend, which show the stores. The
-- milestones of upsertRecord run on after the reply in the source; here they run before the next
-- call, and so does a sync of chapters that is not awaited. Objects on the chain do not change
-- their owner. The last use of a session, and the addresses of admins, are left out.
pub mod Prelude
pub mod Sui
pub mod World
pub mod Gas
pub mod Pagination
pub mod Ink
pub mod Badges
pub mod Submission
pub mod Reading
pub mod Payment
pub mod AdminUsers
pub mod Text
pub mod AdminAuth
pub mod SignIn
pub mod Journal
pub mod Passport
pub mod Catalog
pub mod Stores
pub mod Assistant
pub mod Pages
pub mod Tests
