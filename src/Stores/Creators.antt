-- ===== src/Stores/Creators.antt =====
-- creator.store.ts: the creator's application, series and chapters.
use arktion_sui_overflow.Prelude.{
  ℕ, ok, err, Option, none, Bool, List, put, update_where, ◌∷◌, [], false, some, ◌==◌, or_else,
  true, if◌then◌else◌, leb, ◌++◌,
}
use arktion_sui_overflow.Catalog.Rows.{none_yet, CreatorStatus, Series, Chapter}
use arktion_sui_overflow.Catalog.Creator.{CreatorApplicationStatusDto}
use arktion_sui_overflow.Stores.{Answer}

pub record CreatorState : Type 0 where
  pub creator_status : CreatorStatus
  pub application_checked : Bool
  pub application_loading : Bool
  pub series : List Series
  pub loading : Bool
  pub error : Option ℕ
  pub chapters_by_series : ℕ → Option (List Chapter)
  pub chapters_loading : ℕ → Bool

abbrev pub initial_creator : CreatorState
initial_creator = record {
  creator_status = none_yet;
  application_checked = false;
  application_loading = false;
  series = [];
  loading = false;
  error = none;
  chapters_by_series = λ id. none;
  chapters_loading = λ id. false;
}

-- `checkApplicationStatus`, which asks once.
unfoldable pub check_application_status :
    Answer CreatorApplicationStatusDto → CreatorState → CreatorState
check_application_status answer s = if s.application_checked then s else elim answer [
  | ok result ↦ record s {
    creator_status = result.status;
    application_checked = true;
    application_loading = false;
  }
  | err message ↦ record s { application_loading = false }
]

unfoldable pub apply_as_creator : Answer CreatorApplicationStatusDto → CreatorState → CreatorState
apply_as_creator (ok result) s = record s {
  creator_status = result.status;
  application_checked = true;
}
apply_as_creator (err message) s = s

unfoldable pub fetch_own_series : Answer (List Series) → CreatorState → CreatorState
fetch_own_series (ok rows) s = record s { series = rows; loading = false; error = none }
fetch_own_series (err message) s = record s { loading = false; error = some message }

unfoldable pub create_series : Answer Series → CreatorState → CreatorState
create_series (ok d) s = record s { series = d ∷ s.series }
create_series (err message) s = s

unfoldable pub update_series : ℕ → Answer Series → CreatorState → CreatorState
update_series id (ok d) s = record s { series = update_where (λ x. x.id == id) (λ _. d) s.series }
update_series id (err message) s = s

abbrev pub set_flag : ℕ → Bool → (ℕ → Bool) → ℕ → Bool
set_flag id b flags other = if other == id then b else flags other

-- `fetchChapters`; after an error the series has no chapters.
unfoldable pub fetch_chapters : ℕ → Answer (List Chapter) → CreatorState → CreatorState
fetch_chapters id answer s = record s {
  chapters_by_series =
      put id (elim answer [ ok rows ↦ rows | err message ↦ [] ]) s.chapters_by_series;
  chapters_loading = set_flag id false s.chapters_loading;
}

-- `sort((a, b) => a.chapterNumber - b.chapterNumber)`, which is stable.
unfoldable pub insert_chapter : Chapter → List Chapter → List Chapter
insert_chapter c [] = c ∷ []
insert_chapter c (d ∷ ds) =
    if leb c.chapter_number d.chapter_number then c ∷ d ∷ ds else d ∷ insert_chapter c ds

unfoldable pub sort_chapters : List Chapter → List Chapter
unfolding insert_chapter
sort_chapters [] = []
sort_chapters (c ∷ cs) = insert_chapter c (sort_chapters cs)

unfoldable pub add_chapter_to_series : Chapter → CreatorState → CreatorState
unfolding sort_chapters
add_chapter_to_series c s = record s {
  chapters_by_series =
      put c.series_id (sort_chapters (or_else (s.chapters_by_series c.series_id) [] ++ c ∷ []))
        s.chapters_by_series;
}

unfoldable pub reset_creator : CreatorState → CreatorState
reset_creator s = initial_creator
