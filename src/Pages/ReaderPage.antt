-- ===== src/Pages/ReaderPage.antt =====
-- app/(protected)/(reader)/read/[seriesId]/[chapterId]/page.tsx: the chapters around the one that is read, and
-- the progress that its end records.
use arktion_sui_overflow.Prelude.{
  ℕ, Option, List, Bool, none, ◌==◌, false, not, ◌%◌, ◌&&◌, ◌≡◌, if◌then◌else◌, ◌*◌, ◌≤◌, is_some,
  ◌/◌, ◌<◌, [], some, ◌∷◌, leb, max, arith,
}
use arktion_sui_overflow.Catalog.Rows.{Chapter}
use arktion_sui_overflow.Stores.Creators.{sort_chapters}
use arktion_sui_overflow.World.{ReadingStatus, reading, completed, World}
use arktion_sui_overflow.Reading.Progress.{
  progress, Progress, reached_end, last_chapter, was_completed, find_reading, prev_chapter,
  granted_status, is_completed,
}

-- The chapters before and after the one with the id, in the order of their numbers.
abbrev pub before_in : ℕ → Option Chapter → List Chapter → Option Chapter
before_in id last [] = none
before_in id last (c ∷ cs) = if c.id == id then last else before_in id (some c) cs

abbrev pub after_in : ℕ → List Chapter → Option Chapter
after_in id [] = none
after_in id (c ∷ []) = none
after_in id (c ∷ d ∷ ds) = if c.id == id then some d else after_in id (d ∷ ds)

unfoldable pub prev_chapter_of : ℕ → List Chapter → Option Chapter
unfolding sort_chapters
prev_chapter_of id cs = before_in id none (sort_chapters cs)

unfoldable pub next_chapter_of : ℕ → List Chapter → Option Chapter
unfolding sort_chapters
next_chapter_of id cs = after_in id (sort_chapters cs)

-- `isLastChapter && seriesFinished ? COMPLETED : READING`
unfoldable pub read_status : ℕ → Bool → List Chapter → ReadingStatus
unfolding next_chapter_of
read_status id finished cs =
    if not (is_some (next_chapter_of id cs)) && finished then completed else reading

-- `@IsInt()` of UpsertReadingRecordDto, for a number in thousandths.
unfoldable pub to_whole : ℕ → Option ℕ
to_whole n = if n % 1000 == 0 then some (n / 1000) else none

-- What the end of a chapter records, once its content is there: the backend refuses a number that is not
-- whole, and the page passes over the error.
unfoldable pub record_read : ℕ → ℕ → ℕ → Bool → List Chapter → Chapter → World → Option Progress
unfolding read_status to_whole
record_read user wallet series finished cs c w = elim (to_whole c.chapter_number) [
  | none ↦ none
  | some n ↦ some (progress user wallet series (read_status c.id finished cs) n w)
]

-- The status that a reading leaves, if it is recorded.
abbrev pub completes : Option Progress → Bool
completes none = false
completes (some p) = p.now_completed

not_reached : (a last : ℕ) → 1000 * a ≤ last → 0 < last % 1000 → leb last (1000 * a) ≡ false
not_reached a last h k = ground arith

-- A reading status that is asked for, when the series is not completed and its end not reached.
granted_not : (status : ReadingStatus) → is_completed (granted_status status false false) ≡ false
unfolding granted_status
granted_not status = ground arith

-- A series whose last chapter has a number that is not whole is never completed by reading: whichever of
-- its chapters the reader reads to the end, and with whatever chapters on the page, as long as the
-- record that the reader has is not completed and not past the last chapter.
pub record_read_fraction :
    (user wallet series last : ℕ) (finished : Bool) (cs : List Chapter) (c : Chapter) (w : World)
    → last_chapter series w.db.chapters ≡ some last
    → 0 < last % 1000
    → c.chapter_number ≤ last
    → was_completed (find_reading user series w) ≡ false
    → 1000 * prev_chapter (find_reading user series w) ≤ last
    → completes (record_read user wallet series finished cs c w) ≡ false
unfolding record_read to_whole progress reached_end
record_read_fraction user wallet series last finished cs c w h f k o l =
    let a : ℕ = max (prev_chapter (find_reading user series w)) (c.chapter_number / 1000) in
    ground (
      arith,
      h,
      o,
      not_reached a last (ground (arith, k, l)) f,
      granted_not (read_status c.id finished cs),
    )
