-- ===== src/Catalog/Listing.antt =====
-- series.service.ts.
use arktion_sui_overflow.Catalog.Rows.{
  draft, ongoing, completed, hiatus, cancelled, series_not_found,
}
use arktion_sui_overflow.Prelude.{
  true, false, pure, ◌||◌, ◌>>=◌, ℕ, [], find, ◌∷◌, some, none, count, gets, Option, or_throw, ◌&&◌,
  map, List, is_some, not, select, Bool, ◌==◌,
}
use arktion_sui_overflow.Text.{Text, to_lower, text_eq}
use arktion_sui_overflow.Catalog.Rows.{
  SeriesStatus, Catalog, Series, draft, includes, with_cover, Handler, is_live_chapter, find_series,
  series_not_found,
}
use arktion_sui_overflow.Pagination.{page_of}

pub record SeriesFilter : Type 0 where
  pub format_type : Option ℕ
  pub status : Option SeriesStatus
  pub search : Option Text

pub record SeriesPage : Type 0 where
  pub rows : List Series
  pub total : ℕ
  pub page : ℕ
  pub limit : ℕ

abbrev pub same_status : SeriesStatus → SeriesStatus → Bool
same_status draft draft = true
same_status ongoing ongoing = true
same_status completed completed = true
same_status hiatus hiatus = true
same_status cancelled cancelled = true
same_status _ _ = false

-- `status && status !== 'draft' ? status : { not: 'draft' }`
abbrev pub has_status : Option SeriesStatus → SeriesStatus → Bool
has_status none s = not (same_status s draft)
has_status (some draft) s = not (same_status s draft)
has_status (some wanted) s = same_status s wanted

abbrev pub has_format : Option ℕ → ℕ → Bool
has_format none f = true
has_format (some wanted) f = f == wanted

-- An empty search is none; the search ignores case.
abbrev pub has_title : Option Text → Text → Bool
has_title none title = true
has_title (some []) title = true
has_title (some (c ∷ s)) title = includes (map to_lower (c ∷ s)) (map to_lower title)

abbrev pub is_readable : Catalog → Series → Bool
is_readable c s = not (is_some s.creator_id) || is_some (find (is_live_chapter s.id) c.chapters)

-- The `where` of `findAll`.
unfoldable pub is_listed : SeriesFilter → Catalog → Series → Bool
is_listed f c s =
    not s.is_deleted
    && (has_status f.status s.status
        && (has_format f.format_type s.format_type
            && (has_title f.search s.title && is_readable c s)))

unfoldable pub find_all : Text → SeriesFilter → ℕ → ℕ → Catalog → SeriesPage
unfolding is_listed
find_all aggregator f page limit c = record {
  rows = map (with_cover aggregator) (page_of page limit (select (is_listed f c) c.series));
  total = count (is_listed f c) c.series;
  page = page;
  limit = limit;
}

unfoldable pub find_by_id : Text → ℕ → Handler Series
find_by_id aggregator id = do
  found ← gets (find_series id)
  s ← or_throw found series_not_found
  pure (with_cover aggregator s)

unfoldable pub find_by_external_id : Text → Text → Handler Series
find_by_external_id aggregator external = do
  found ← gets (λ c. find (λ s. text_eq s.external_id external && not s.is_deleted) c.series)
  s ← or_throw found series_not_found
  pure (with_cover aggregator s)
