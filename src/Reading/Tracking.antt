-- ===== src/Reading/Tracking.antt =====
-- The reading records against what the passport counts, and the progress that a record keeps.
use arktion_sui_overflow.Prelude.{
  true, count, ◌==◌, false, some, ◌≤◌, ◌*◌, List, ℕ, ltb, not, ◌&&◌, ◌≡◌, Bool, max, find,
  if◌then◌else◌, arith, update_where, none, is_some, refl, ◌∷◌, ◌+◌, leb, [],
}
use arktion_sui_overflow.Reading.Progress.{
  reached_end, progress, granted_status, last_chapter, delete_reading, prev_chapter, is_record,
  find_reading,
}
use arktion_sui_overflow.World.{
  Db, Passport, ReadingStatus, Chapter, World, completed, ReadingRecord,
}

-- How many chapters of the series, those deleted left out, are numbered above `n` thousandths.
abbrev pub chapters_above : ℕ → ℕ → List Chapter → ℕ
chapters_above series n =
    count (λ c. c.series_id == series && (not c.is_deleted && ltb n c.chapter_number))

last_chapter-covers :
    (series n : ℕ) (cs : List Chapter)
    → (let b : Bool = elim (last_chapter series cs) [ none ↦ true | some last ↦ leb last n ] in
        b ≡ true)
    → chapters_above series n cs ≡ 0
unfolding last_chapter
last_chapter-covers series n [] h = refl
last_chapter-covers series n (c ∷ cs) h = ground (arith, last_chapter-covers series n cs)

-- A series counts as completed for the first time only if it was asked for and no chapter of it is
-- numbered above the one that the record keeps, and that one is at least the one before.
pub progress_earned :
    (user wallet series : ℕ) (status : ReadingStatus) (chapter : ℕ) (w : World)
    → (progress user wallet series status chapter w).now_completed ≡ true
    → (progress user wallet series status chapter w).was_completed ≡ false
    → let p = progress user wallet series status chapter w in
      (status ≡ completed)
      × (p.before ≤ p.after)
      × (chapters_above series (1000 * p.after) w.db.chapters ≡ 0)
unfolding progress granted_status reached_end
progress_earned user wallet series status chapter w now_ was =
    let after = max (prev_chapter (find_reading user series w)) chapter in
    ground (arith, last_chapter-covers series (1000 * after) w.db.chapters)

-- A reader's passport counts the records, one for each series.
pub record IsTracked (d : Db) : Type 0 where
  pub tracked :
      (u : ℕ) (p : Passport)
      → d.passports u ≡ some p
      → p.series_tracked ≡ count (λ r. r.user_id == u) d.reading_records

abbrev pub records_of : ℕ → List ReadingRecord → ℕ
records_of u = count (λ r. r.user_id == u)

pub count-update :
    (u user series : ℕ) (f : ReadingRecord → ReadingRecord) (rows : List ReadingRecord)
    → ((r : ReadingRecord) → (f r).user_id ≡ r.user_id)
    → records_of u (update_where (is_record user series) f rows) ≡ records_of u rows
count-update u user series f [] k = refl
count-update u user series f (r ∷ rs) k = ground (arith, count-update u user series f rs k, k r)

pub count-delete :
    (u user series : ℕ) (rows : List ReadingRecord)
    → is_some (find (is_record user series) rows) ≡ true
    → records_of u (delete_reading user series rows) + (if u == user then 1 else 0)
      ≡ records_of u rows
unfolding delete_reading
count-delete u user series [] h = absurd (ground arith)
count-delete u user series (r ∷ rs) h = ground (arith, count-delete u user series rs)
