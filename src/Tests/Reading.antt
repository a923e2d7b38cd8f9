-- ===== src/Tests/Reading.antt =====
-- The theorems of Reading on a state.
use arktion_sui_overflow.Prelude.{true, refl, ◌==◌, none, if◌then◌else◌, false, [], ◌≡◌, some, ◌∷◌}
use arktion_sui_overflow.Reading.Progress.{
  progress, UpsertReadingRecordDto, granted_status, reached_end, last_chapter,
}
use arktion_sui_overflow.Reading.Tracking.{IsTracked}
use arktion_sui_overflow.World.{World, completed, ReadingStatus}
use arktion_sui_overflow.Ink.Mirror.{IsMirrored}
use arktion_sui_overflow.Reading.Rewards.{upsert_record}
use arktion_sui_overflow.Tests.Worlds.{world, db, world-IsTracked, world-IsMirrored, passport}
use arktion_sui_overflow.Reading.Upkeep.{upsert_record-IsMirrored, upsert_record-IsTracked}

abbrev dto : UpsertReadingRecordDto
dto = record { series_id = 3; status = completed; current_chapter = some 30 }

progress_is_completed : (progress 1 101 3 completed 30 world).now_completed ≡ true
unfolding progress granted_status reached_end last_chapter
progress_is_completed = refl

progress_was_not : (progress 1 101 3 completed 30 world).was_completed ≡ false
unfolding progress
progress_was_not = refl

upsert_record-IsTracked_example : IsTracked (upsert_record 1 101 dto 10 world).1.db
upsert_record-IsTracked_example =
    upsert_record-IsTracked 1 101 dto 10 world (record { wallet_address = 101 }) refl refl
      world-IsTracked

upsert_record-IsMirrored_example :
    IsMirrored (upsert_record 1 101 dto 10 world).1.db (upsert_record 1 101 dto 10 world).1.chain
upsert_record-IsMirrored_example =
    upsert_record-IsMirrored 1 101 dto 10 world (record { wallet_address = 101 }) refl refl
      world-IsMirrored

-- A state in which the reader has one record.
abbrev tracked_world : World
tracked_world = record world {
  db = record db {
    passports = λ u. if u == 1 then some (record (passport 0) { series_tracked = 1 }) else none;
    reading_records =
        record {
          user_id = 1;
          series_id = 3;
          status = ReadingStatus.reading;
          current_chapter = 4;
          last_read_at = 1;
          completed_at = none;
        }
        ∷ [];
  };
}
