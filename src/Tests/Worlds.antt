-- ===== src/Tests/Worlds.antt =====
-- A state with two readers, of whom one has earned 600 INK, a submission, and a network that answers.
use Prim.Native.Nat.{ℕ}
use arktion_sui_overflow.Prelude.{
  ℕ, ◌==◌, none, [], ◌+◌, if◌then◌else◌, ◌∷◌, arith, true, some, false,
}
use arktion_sui_overflow.Sui.{Key, Chain, EarningRecord, chapter1_key, submission_approved_key}
use arktion_sui_overflow.Ink.Mirror.{IsMirrored}
use arktion_sui_overflow.World.{Env, World, Submission, Db, delivered, Passport, pending, rejected}
use arktion_sui_overflow.Reading.Tracking.{IsTracked}
use arktion_sui_overflow.AdminUsers.{pending, rejected}

abbrev pub env : Env
env = record {
  network = λ n. record {
    treasury_balance = some 1000;
    delivery = delivered;
    digest = 70 + n;
    changed_objects = record { is_created = true; object_id = 900 + n; is_badge = true } ∷ [];
  };
  min_treasury_balance = 10;
  names_duplicate_key = λ a. true;
}

abbrev pub old_key : Key
old_key = chapter1_key 2 9

abbrev pub chain : Chain
chain = record {
  records = record { idempotency_key = old_key; user = 102; trigger_type = 0; amount = 600 } ∷ [];
  badges = [];
  coins = λ a. if a == 102 then 600 else 0;
}

abbrev pub passport : ℕ → Passport
passport ink = record {
  level = 1;
  total_ink_earned = ink;
  chapters_read = 0;
  series_completed = 0;
  series_tracked = 0;
}

abbrev pub submission : Submission
submission = record {
  id = 5;
  submitter_id = 1;
  title = 0;
  format_type = 0;
  external_url = 0;
  suggested_source = 0;
  status = pending;
  reward_claimed = false;
  reviewed_at = none;
  created_at = 0;
  voting_ends_at = 1000;
}

abbrev pub db : Db
db = record {
  users = λ u.
      if u == 1
      then some (record { wallet_address = 101 })
      else if u == 2
      then some (record { wallet_address = 102 })
      else none;
  passports =
      λ u. if u == 1 then some (passport 0) else if u == 2 then some (passport 600) else none;
  ink_balances = λ u. if u == 2 then some (record { balance = 600; last_updated_at = 1 }) else none;
  ink_ledger =
      record {
        user_id = 2;
        action_type = 0;
        amount = 600;
        idempotency_key = old_key;
        sui_tx_digest = some 60;
        created_at = 1;
      }
      ∷ [];
  badges_earned = [];
  submissions = submission ∷ [];
  votes = [];
  reading_records = [];
  series = λ s. if s == 3 then some false else none;
  chapters = record { series_id = 3; chapter_number = 30000; is_deleted = false } ∷ [];
}

abbrev pub world : World
world = record { env = env; calls = 0; chain = chain; db = db }

-- The same state after the reward of the submission was paid on the chain alone.
abbrev pub reward_record : EarningRecord
reward_record = record {
  idempotency_key = submission_approved_key 1 5;
  user = 101;
  trigger_type = 2;
  amount = 50;
}

abbrev pub spent_world : World
spent_world = record world { chain = record chain { records = reward_record ∷ chain.records } }

-- A submission that was decided.
abbrev pub decided : Submission
decided = record submission { status = rejected; reviewed_at = some 2 }

abbrev pub decided_world : World
decided_world = record world { db = record db { submissions = decided ∷ [] } }

pub world-IsMirrored : IsMirrored db chain
world-IsMirrored = record {
  balances = λ u. ground arith;
  passports = λ u p h. ground arith;
  spent = λ k h. ground arith;
  covered = λ u user h. ground arith;
}

pub world-IsTracked : IsTracked db
world-IsTracked = record { tracked = λ u p h. ground arith }
