-- ===== src/World.antt =====
-- The state that the reader-facing services share: the tables of backend/prisma/schema.prisma, the
-- chain, and the network between the two. A query of a service is the look-up or the write that its
-- arguments spell out; a handler runs without another one in between, and `new Date()` is an
-- argument `now`. Identifiers, texts and times are numbers, as the services only compare them.
use arktion_sui_overflow.Prelude.{ℕ, Bool, Option, List, ok, err, Action}
use arktion_sui_overflow.Sui.{Key, Abort, Chain}

-- What the services throw: the exceptions of NestJS, those of Prisma and those of the Sui client.
pub data Error : Type 0 where
  -- P2025, P2002
  record_not_found unique_violation : Error
  -- gas.service.ts
  rpc_failed service_unavailable : Error
  execution_failed : Abort → Error
  -- ink.service.ts, badges.service.ts
  ink_already_minted badge_object_missing : Error
  -- submission.service.ts
  submission_not_found already_finalised voting_closed not_enough_ink : Error
  -- reading.service.ts
  series_not_found negative_chapter reading_record_not_found : Error

pub record User : Type 0 where
  pub wallet_address : ℕ

pub record Passport : Type 0 where
  pub level : ℕ
  pub total_ink_earned : ℕ
  pub chapters_read : ℕ
  pub series_completed : ℕ
  pub series_tracked : ℕ

pub record InkLedgerEntry : Type 0 where
  pub user_id : ℕ
  pub action_type : ℕ
  pub amount : ℕ
  pub idempotency_key : Key
  pub sui_tx_digest : Option ℕ
  pub created_at : ℕ

pub record InkBalance : Type 0 where
  pub balance : ℕ
  pub last_updated_at : ℕ

pub record BadgeEarned : Type 0 where
  pub user_id : ℕ
  pub sui_object_id : ℕ
  pub category : ℕ
  pub badge_type : ℕ
  pub series_id : Option ℕ
  pub tier : ℕ

pub data SubmissionStatus : Type 0 where
  pending approved rejected : SubmissionStatus

pub record Submission : Type 0 where
  pub id : ℕ
  pub submitter_id : ℕ
  pub title : ℕ
  pub format_type : ℕ
  pub external_url : ℕ
  pub suggested_source : ℕ
  pub status : SubmissionStatus
  pub reward_claimed : Bool
  pub reviewed_at : Option ℕ
  pub created_at : ℕ
  pub voting_ends_at : ℕ

-- `vote` is true for 1, approve.
pub record SubmissionVote : Type 0 where
  pub submission_id : ℕ
  pub voter_id : ℕ
  pub vote : Bool
  pub ink_weight : ℕ

pub data ReadingStatus : Type 0 where
  reading completed on_hold dropped plan_to_read : ReadingStatus

pub record ReadingRecord : Type 0 where
  pub user_id : ℕ
  pub series_id : ℕ
  pub status : ReadingStatus
  pub current_chapter : ℕ
  pub last_read_at : ℕ
  pub completed_at : Option ℕ

-- A chapter number is a Float; it is kept in thousandths.
pub record Chapter : Type 0 where
  pub series_id : ℕ
  pub chapter_number : ℕ
  pub is_deleted : Bool

-- The tables; newest rows first. `series` says of each known series whether it is deleted.
pub record Db : Type 0 where
  pub users : ℕ → Option User
  pub passports : ℕ → Option Passport
  pub ink_balances : ℕ → Option InkBalance
  pub ink_ledger : List InkLedgerEntry
  pub badges_earned : List BadgeEarned
  pub submissions : List Submission
  pub votes : List SubmissionVote
  pub reading_records : List ReadingRecord
  pub series : ℕ → Option Bool
  pub chapters : List Chapter

-- An object that a transaction changed, as the Sui client reports it.
pub record ChangedObject : Type 0 where
  pub is_created : Bool
  pub object_id : ℕ
  -- the type's name ends with '::badges::ArktionBadge'
  pub is_badge : Bool

-- What becomes of a transaction that is sent: it never arrives, its answer is lost, or it is
-- executed and answered.
pub data Delivery : Type 0 where
  unreachable unanswered delivered : Delivery

-- What the network does at one use: the balance call (none if it fails), then the execution.
pub record Reply : Type 0 where
  pub treasury_balance : Option ℕ
  pub delivery : Delivery
  pub digest : ℕ
  pub changed_objects : List ChangedObject

-- What the services do not decide: the network's behaviour at each use, GAS_TREASURY_MIN_BALANCE,
-- and whether the client's text for an abort contains 'EDuplicateIdempotencyKey'.
pub record Env : Type 0 where
  pub network : ℕ → Reply
  pub min_treasury_balance : ℕ
  pub names_duplicate_key : Abort → Bool

pub record World : Type 0 where
  pub env : Env
  pub calls : ℕ
  pub chain : Chain
  pub db : Db

abbrev pub Service : Type 0 → Type 0
Service A = Action Error World A

-- A write to the database.
abbrev pub write : (Db → Db) → Service (Unit {0})
write f w = (ok tt, record w { db = f w.db })

-- `prisma.$transaction`: after a throw the database is as it was.
abbrev pub transaction : {A : Type 0} → Service A → Service A
transaction m w =
    let (r, w') = m w in elim r [ ok a ↦ (ok a, w') | err e ↦ (err e, record w' { db = w.db }) ]
