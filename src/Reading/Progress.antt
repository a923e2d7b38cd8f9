-- ===== src/Reading/Progress.antt =====
-- `upsertRecord`, `deleteRecord` and the look-ups of reading.service.ts.
use Prim.Native.Nat.{ℕ}
use arktion_sui_overflow.Prelude.{
  find, ◌∷◌, ◌-◌, ◌+◌, ◌>>=◌, Option, update_where, leb, not, ◌>>◌, throw_if, if◌then◌else◌, err,
  gets, is_some, true, ◌*◌, some, none, ◌==◌, put, when, max, ◌&&◌, Bool, List, ok, false, [], ℕ,
}
use arktion_sui_overflow.World.{
  ReadingStatus, ReadingRecord, World, Chapter, reading, Passport, Service, completed,
  record_not_found, write, reading_record_not_found, transaction,
}

pub record UpsertReadingRecordDto : Type 0 where
  pub series_id : ℕ
  pub status : ReadingStatus
  -- none is a negative number
  pub current_chapter : Option ℕ

abbrev pub is_record : ℕ → ℕ → ReadingRecord → Bool
is_record user series r = r.user_id == user && r.series_id == series

abbrev pub find_reading : ℕ → ℕ → World → Option ReadingRecord
find_reading user series w = find (is_record user series) w.db.reading_records

abbrev pub is_completed : ReadingStatus → Bool
is_completed completed = true
is_completed _ = false

-- `existing?.currentChapter ?? 0`, `prevStatus === COMPLETED`
abbrev pub prev_chapter : Option ReadingRecord → ℕ
prev_chapter none = 0
prev_chapter (some r) = r.current_chapter

abbrev pub was_completed : Option ReadingRecord → Bool
was_completed none = false
was_completed (some r) = is_completed r.status

-- The number of the last chapter that is not deleted, in thousandths.
unfoldable pub last_chapter : ℕ → List Chapter → Option ℕ
last_chapter series [] = none
last_chapter series (c ∷ cs) =
    let rest = last_chapter series cs in
    if c.series_id == series && not c.is_deleted
    then some (elim rest [ none ↦ c.chapter_number | some n ↦ max c.chapter_number n ])
    else rest

-- `!!lastChapter && newChapter >= lastChapter.chapterNumber`
unfoldable pub reached_end : ℕ → ℕ → List Chapter → Bool
unfolding last_chapter
reached_end series chapter cs = elim (last_chapter series cs) [
  | none ↦ false
  | some last ↦ leb last (1000 * chapter)
]

-- The status that is written for the one that was asked for.
unfoldable pub granted_status : ReadingStatus → Bool → Bool → ReadingStatus
granted_status completed false reached = if reached then completed else reading
granted_status reading true reached = completed
granted_status status _ reached = status

-- What `upsertRecord` works out before it writes.
pub record Progress : Type 0 where
  pub user_id : ℕ
  pub wallet_address : ℕ
  pub series_id : ℕ
  pub before : ℕ
  pub after : ℕ
  pub status : ReadingStatus
  pub is_new : Bool
  pub was_completed : Bool
  pub now_completed : Bool

unfoldable pub progress : ℕ → ℕ → ℕ → ReadingStatus → ℕ → World → Progress
unfolding reached_end granted_status
progress user wallet series status chapter w =
    let existing = find_reading user series w in
    let after = max (prev_chapter existing) chapter in
    let granted =
      granted_status status (was_completed existing) (reached_end series after w.db.chapters) in
    record {
      user_id = user;
      wallet_address = wallet;
      series_id = series;
      before = prev_chapter existing;
      after = after;
      status = granted;
      is_new = not (is_some existing);
      was_completed = was_completed existing;
      now_completed = is_completed granted;
    }

-- `readingRecord.upsert`
unfoldable pub upsert_reading : Progress → ℕ → List ReadingRecord → List ReadingRecord
upsert_reading p now rows =
    if p.is_new
    then record {
      user_id = p.user_id;
      series_id = p.series_id;
      status = p.status;
      current_chapter = p.after;
      last_read_at = now;
      completed_at = if p.now_completed then some now else none;
    }
      ∷ rows
    else update_where (is_record p.user_id p.series_id)
        (λ r. record r {
          status = p.status;
          current_chapter = p.after;
          last_read_at = now;
          completed_at =
              if not p.was_completed && p.now_completed then some now else r.completed_at;
        })
        rows

-- `passport.update`
unfoldable pub update_passport : ℕ → (Passport → Passport) → Service (Unit {0})
update_passport user f w = elim (w.db.passports user) [
  | none ↦ (err record_not_found, w)
  | some p ↦ (ok tt, record w { db = record w.db { passports = put user (f p) w.db.passports } })
]

-- The writes of `upsertRecord`, up to the milestones. They are in no transaction: the first stays if the
-- second finds no passport. That the database fails between them is left out.
unfoldable pub write_progress : Progress → ℕ → Service (Unit {0})
unfolding upsert_reading update_passport
write_progress p now = do
  write (λ d. record d { reading_records = upsert_reading p now d.reading_records })
  when p.is_new
      (update_passport p.user_id (λ q. record q { series_tracked = q.series_tracked + 1 }))

unfoldable pub delete_reading : ℕ → ℕ → List ReadingRecord → List ReadingRecord
delete_reading user series [] = []
delete_reading user series (r ∷ rs) =
    if is_record user series r then rs else r ∷ delete_reading user series rs

-- `deleteRecord`; a decrement of an unsigned count stops at 0, which the records rule out.
unfoldable pub delete_record : ℕ → ℕ → Service (Unit {0})
unfolding delete_reading update_passport
delete_record user series = do
  found ← gets (find_reading user series)
  throw_if (not (is_some found)) reading_record_not_found
  transaction (
      write (λ d. record d { reading_records = delete_reading user series d.reading_records })
      >> update_passport user (λ q. record q { series_tracked = q.series_tracked - 1 }))
