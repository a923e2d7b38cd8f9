-- ===== src/Stores/Records.antt =====
-- reading.store.ts: the reading records that the pages show.
use arktion_sui_overflow.Prelude.{
  ℕ, ok, err, List, [], Bool, ◌∷◌, false, select, none, is_some, Option, some, find, ◌==◌,
  if◌then◌else◌, not,
}
use arktion_sui_overflow.World.{ReadingRecord}
use arktion_sui_overflow.Stores.{Answer}

pub record ReadingState : Type 0 where
  pub records : List ReadingRecord
  pub is_loading : Bool
  pub error : Option ℕ

abbrev pub no_records : ReadingState
no_records = record { records = []; is_loading = false; error = none }

-- `fetchRecords`
unfoldable pub fetch_records : Answer (List ReadingRecord) → ReadingState → ReadingState
fetch_records (ok rows) s = record { records = rows; is_loading = false; error = none }
fetch_records (err message) s = record s { is_loading = false; error = some message }

-- `state.records.map((r, i) => (i === idx ? record : r))` at the first record of the series
abbrev pub replace_first : ℕ → ReadingRecord → List ReadingRecord → List ReadingRecord
replace_first series r [] = []
replace_first series r (x ∷ xs) =
    if x.series_id == series then r ∷ xs else x ∷ replace_first series r xs

abbrev pub of_series : ℕ → ReadingRecord → Bool
of_series series r = r.series_id == series

-- The record is replaced where there is one of the series, and put in front otherwise.
unfoldable pub merge_record : ℕ → ReadingRecord → List ReadingRecord → List ReadingRecord
merge_record series r rows =
    if is_some (find (of_series series) rows) then replace_first series r rows else r ∷ rows

-- `fetchRecord`; an error is no record.
unfoldable pub fetch_record : ℕ → Answer ReadingRecord → ReadingState → ReadingState
unfolding merge_record
fetch_record series (ok r) s = record s { records = merge_record series r s.records }
fetch_record series (err message) s = s

-- `upsert`; an error is thrown to the page.
unfoldable pub upsert : ℕ → Answer ReadingRecord → ReadingState → ReadingState
unfolding merge_record
upsert series (ok r) s = record s { records = merge_record series r s.records }
upsert series (err message) s = s

unfoldable pub remove : ℕ → Answer (Unit {0}) → ReadingState → ReadingState
remove series (ok _) s = record s { records = select (λ r. not (of_series series r)) s.records }
remove series (err message) s = s

unfoldable pub reset_records : ReadingState → ReadingState
reset_records s = no_records
