-- ===== src/Stores/Browse.antt =====
-- series.store.ts: the series that the pages browse, their chapters and pages.
use arktion_sui_overflow.Prelude.{
  ℕ, ok, err, Option, some, List, put, ◌∷◌, ltb, arith, [], none, count, is_some, ◌==◌,
  if◌then◌else◌, ◌≡◌, or_else,
}
use arktion_sui_overflow.Catalog.Rows.{Series, Chapter, Page}
use arktion_sui_overflow.Catalog.Listing.{SeriesPage}
use arktion_sui_overflow.Stores.Fetching.{Fetched, fetch_value, not_fetched}
use arktion_sui_overflow.Stores.{Answer}

-- `SeriesQuery`
pub record SeriesQuery : Type 0 where
  pub format_type : Option ℕ
  pub status : Option ℕ
  pub search : Option ℕ
  pub page : Option ℕ
  pub limit : Option ℕ

abbrev pub initial_query : SeriesQuery
initial_query = record {
  format_type = none;
  status = none;
  search = none;
  page = some 1;
  limit = some 20;
}

-- `Partial<SeriesQuery>`: a key that is there may be undefined.
pub record SeriesPatch : Type 0 where
  pub format_type : Option (Option ℕ)
  pub status : Option (Option ℕ)
  pub search : Option (Option ℕ)
  pub page : Option (Option ℕ)
  pub limit : Option (Option ℕ)

-- `{ ...query, ...patch }`
unfoldable pub merge_query : SeriesQuery → SeriesPatch → SeriesQuery
merge_query query patch = record {
  format_type = or_else patch.format_type query.format_type;
  status = or_else patch.status query.status;
  search = or_else patch.search query.search;
  page = or_else patch.page query.page;
  limit = or_else patch.limit query.limit;
}

pub record SeriesState : Type 0 where
  pub list : Fetched SeriesPage
  pub query : SeriesQuery
  pub current : Fetched Series
  pub chapters : Fetched (List Chapter)
  pub pages : Fetched (List Page)
  pub by_id : ℕ → Option Series

abbrev pub no_series : SeriesState
no_series = record {
  list = not_fetched;
  query = initial_query;
  current = not_fetched;
  chapters = not_fetched;
  pages = not_fetched;
  by_id = λ id. none;
}

-- `fetchSeries`, where `answer` is to the merged query.
unfoldable pub fetch_series :
    SeriesPatch → (SeriesQuery → Answer SeriesPage) → SeriesState → SeriesState
unfolding merge_query fetch_value
fetch_series patch answer s =
    let merged = merge_query s.query patch in
    record s { query = merged; list = fetch_value (answer merged) s.list }

unfoldable pub set_query : SeriesPatch → SeriesState → SeriesState
unfolding merge_query
set_query patch s = record s { query = merge_query s.query patch }

-- `fetchSeriesById`, which empties the series and the chapters first.
unfoldable pub fetch_series_by_id : ℕ → Answer Series → SeriesState → SeriesState
unfolding fetch_value
fetch_series_by_id id answer s = record s {
  current = fetch_value answer not_fetched;
  chapters = record s.chapters { value = none };
  by_id = elim answer [ ok d ↦ put id d s.by_id | err message ↦ s.by_id ];
}

-- `fetchSeriesForIds`: one request for each id that is not there yet; those that fail are passed over.
-- `missing` is computed before the first answer.
abbrev pub store_series : (ℕ → Answer Series) → ℕ → (ℕ → Option Series) → ℕ → Option Series
store_series answer id by_id = elim (answer id) [ ok d ↦ put id d by_id | err message ↦ by_id ]

unfoldable pub missing : (ℕ → Option Series) → List ℕ → List ℕ
missing by_id [] = []
missing by_id (id ∷ ids) = if is_some (by_id id) then missing by_id ids else id ∷ missing by_id ids

unfoldable pub store_all : (ℕ → Answer Series) → List ℕ → (ℕ → Option Series) → ℕ → Option Series
store_all answer [] by_id = by_id
store_all answer (id ∷ ids) by_id = store_all answer ids (store_series answer id by_id)

unfoldable pub fetch_series_for_ids : List ℕ → (ℕ → Answer Series) → SeriesState → SeriesState
unfolding missing store_all
fetch_series_for_ids ids answer s = record s {
  by_id = store_all answer (missing s.by_id ids) s.by_id;
}

unfoldable pub fetch_chapters : Answer (List Chapter) → SeriesState → SeriesState
unfolding fetch_value
fetch_chapters answer s = record s { chapters = fetch_value answer s.chapters }

-- `fetchPages`, which empties the pages first.
unfoldable pub fetch_pages : Answer (List Page) → SeriesState → SeriesState
unfolding fetch_value
fetch_pages answer s = record s { pages = fetch_value answer not_fetched }

unfoldable pub reset_series : SeriesState → SeriesState
reset_series s = no_series

-- What an id finds after `store_all`, whatever the order of the answers.
store_all_lem :
    (answer : ℕ → Answer Series) (ids : List ℕ) (by_id : ℕ → Option Series) (id : ℕ)
    → store_all answer ids by_id id ≡ (
        if ltb 0 (count (λ i. i == id) ids)
        then (elim (answer id) [ ok d ↦ some d | err message ↦ by_id id ])
        else by_id id)
unfolding store_all
store_all_lem answer [] by_id id = ground arith
store_all_lem answer (i ∷ ids) by_id id =
    ground (arith, store_all_lem answer ids (store_series answer i by_id) id)

count-missing :
    (by_id : ℕ → Option Series) (ids : List ℕ) (id : ℕ)
    → count (λ i. i == id) (missing by_id ids)
      ≡ (if is_some (by_id id) then 0 else count (λ i. i == id) ids)
unfolding missing
count-missing by_id [] id = ground arith
count-missing by_id (i ∷ ids) id = ground (arith, count-missing by_id ids id)

-- In whatever order the answers come, fetchSeriesForIds leaves what it finds under an id, and adds the
-- series of the other ids whose requests succeed.
pub fetch_series_for_ids_lem :
    (ids order : List ℕ) (answer : ℕ → Answer Series) (s : SeriesState) (id : ℕ)
    → count (λ i. i == id) order ≡ count (λ i. i == id) (missing s.by_id ids)
    → store_all answer order s.by_id id ≡ elim (s.by_id id) [
      | some d ↦ some d
      | none ↦
          if ltb 0 (count (λ i. i == id) ids)
          then (elim (answer id) [ ok d ↦ some d | err message ↦ none ])
          else none
    ]
fetch_series_for_ids_lem ids order answer s id h =
    ground (arith, h, store_all_lem answer order s.by_id id, count-missing s.by_id ids id)
