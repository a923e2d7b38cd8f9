-- ===== src/Catalog/Chapters.antt =====
-- chapter.service.ts: the chapters of a series, synced from an external source, and their pages.
use arktion_sui_overflow.Prelude.{
  ok, ℕ, some, Option, Bool, List, ◌∷◌, ◌>>◌, none, gets, update_where, false, if◌then◌else◌,
  select, pure, when, not, ◌>>=◌, ◌||◌, is_some, ◌+◌, throw_if, true, leb, [], ltb, modify, length,
  find, ◌&&◌, suc, ◌==◌, or_throw, map,
}
use arktion_sui_overflow.Catalog.Rows.{
  series_not_found, chapter_not_found, licensed_chapter, source_failed, Series, Chapter, Page,
  Catalog, Handler, by_number, find_series,
}
use arktion_sui_overflow.Text.{Text}
use arktion_sui_overflow.Sui.{opt_eq}

-- `SourceChapter` and `SourcePage` of content-source.adapter.ts.
pub record SourceChapter : Type 0 where
  pub external_id : ℕ
  pub chapter_number : ℕ
  pub title : Option ℕ
  pub language : ℕ
  pub page_count : ℕ
  pub published_at : Option ℕ

pub record SourcePage : Type 0 where
  pub page_number : ℕ
  pub image_url : ℕ

-- `ContentSourceAdapter`; none is an exception.
pub record ContentSource : Type 0 where
  pub list_chapters : Text → ℕ → Option (List SourceChapter)
  pub get_pages : ℕ → Bool → Option (List SourcePage)

-- 6 hours
abbrev pub chapter_sync_ttl_ms : ℕ
chapter_sync_ttl_ms = 21_600_000

-- The unique key (seriesId, language, chapterNumber).
abbrev pub has_key : ℕ → ℕ → ℕ → Chapter → Bool
has_key series language number d =
    d.series_id == series && (d.language == language && d.chapter_number == number)

abbrev pub has_external : ℕ → Chapter → Bool
has_external external d = opt_eq d.external_id (some external)

-- Another chapter has the external id, which is unique.
abbrev pub is_taken : ℕ → SourceChapter → Chapter → Bool
is_taken series u d =
    has_external u.external_id d && not (has_key series u.language u.chapter_number d)

abbrev pub from_source : SourceChapter → Chapter → Chapter
from_source u d = record d {
  external_id = some u.external_id;
  title = u.title;
  page_count = u.page_count;
  published_at = u.published_at;
}

abbrev pub new_chapter : ℕ → ℕ → SourceChapter → Chapter
new_chapter id series u = record {
  id = id;
  series_id = series;
  external_id = some u.external_id;
  chapter_number = u.chapter_number;
  title = u.title;
  language = u.language;
  page_count = u.page_count;
  is_licensed = false;
  published_at = u.published_at;
  is_deleted = false;
  pages = [];
}

-- `chapter.upsert` in its `try`: a chapter that cannot be written is skipped.
unfoldable pub upsert_chapter : ℕ → ℕ → SourceChapter → List Chapter → List Chapter
upsert_chapter id series u rows =
    if is_some (find (is_taken series u) rows)
    then rows
    else if is_some (find (has_key series u.language u.chapter_number) rows)
    then update_where (has_key series u.language u.chapter_number) (from_source u) rows
    else new_chapter id series u ∷ rows

-- The loop of `syncFromSource`, with the ids from `id` on for new chapters.
unfoldable pub sync_chapters : ℕ → ℕ → List SourceChapter → List Chapter → List Chapter
unfolding upsert_chapter
sync_chapters id series [] rows = rows
sync_chapters id series (u ∷ us) rows =
    sync_chapters (suc id) series us (upsert_chapter id series u rows)

unfoldable pub sync_from_source : ContentSource → ℕ → Series → ℕ → ℕ → Handler (Unit {0})
unfolding sync_chapters
sync_from_source source id s language now = do
  upstream ← or_throw (source.list_chapters s.external_id language) source_failed
  modify (λ c. record c { chapters = sync_chapters id s.id upstream c.chapters })
  modify (λ c. record c {
    series =
        update_where (λ x. x.id == s.id) (λ x. record x { chapters_synced_at = some now }) c.series;
  })

-- `.catch` round the sync: its error is logged.
abbrev pub attempt : Handler (Unit {0}) → Handler (Unit {0})
attempt m c = (ok tt, (m c).1)

abbrev pub is_text : Text → Bool
is_text [] = false
is_text (c ∷ s) = true

abbrev pub is_stale : Option ℕ → ℕ → Bool
is_stale none now = true
is_stale (some synced) now = ltb (synced + chapter_sync_ttl_ms) now

unfoldable pub needs_sync : Series → Bool → ℕ → Bool
needs_sync s force now = is_text s.external_id && (force || is_stale s.chapters_synced_at now)

abbrev pub is_in : ℕ → ℕ → Chapter → Bool
is_in series language d = d.series_id == series && (d.language == language && not d.is_deleted)

unfoldable pub cached_chapters : ℕ → ℕ → Catalog → List Chapter
cached_chapters series language c = by_number (select (is_in series language) c.chapters)

-- `getChapters`. A sync that is not awaited runs after the rows are read.
unfoldable pub get_chapters : ContentSource → ℕ → ℕ → ℕ → Bool → ℕ → Handler (List Chapter)
unfolding sync_from_source needs_sync cached_chapters
get_chapters source id series language force now = do
  found ← gets (find_series series)
  s ← or_throw found series_not_found
  cached ← gets (cached_chapters series language)
  when (needs_sync s force now) (attempt (sync_from_source source id s language now))
  rows ← gets (cached_chapters series language)
  pure (if length cached == 0 then rows else cached)

-- `orderBy: { pageNumber: 'asc' }`
unfoldable pub insert_page : Page → List Page → List Page
insert_page p [] = p ∷ []
insert_page p (q ∷ qs) =
    if leb p.page_number q.page_number then p ∷ q ∷ qs else q ∷ insert_page p qs

unfoldable pub by_page_number : List Page → List Page
unfolding insert_page
by_page_number [] = []
by_page_number (p ∷ ps) = insert_page p (by_page_number ps)

abbrev pub page_of_source : SourcePage → Page
page_of_source p = record {
  page_number = p.page_number;
  image_url = some p.image_url;
  content_url = none;
}

-- `getPages` of a chapter from the source.
unfoldable pub source_pages : ContentSource → Chapter → ℕ → Bool → Handler (List Page)
source_pages source d external data_saver = do
  pages ← or_throw (source.get_pages external data_saver) source_failed
  when (not (length pages == d.page_count)) (
      modify (λ c. record c {
        chapters =
            update_where (λ x. x.id == d.id) (λ x. record x { page_count = length pages })
              c.chapters;
      }))
  pure (map page_of_source pages)

unfoldable pub get_pages : ContentSource → ℕ → Bool → Handler (List Page)
unfolding source_pages by_page_number
get_pages source id data_saver = do
  found ← gets (λ c. find (λ d. d.id == id && not d.is_deleted) c.chapters)
  d ← or_throw found chapter_not_found
  throw_if d.is_licensed licensed_chapter
  elim d.external_id [
    | some external ↦ source_pages source d external data_saver
    | none ↦ pure (by_page_number d.pages)
  ]
