-- ===== src/Catalog/Publishing.antt =====
-- The rule of creator.service.ts that a published series has a chapter.
use arktion_sui_overflow.Catalog.Rows.{
  SeriesStatus, draft, Catalog, no_chapter, find_series, is_live_chapter,
}
use mathlib.Core.Option
use arktion_sui_overflow.Prelude.{err, true, arith, ◌≡◌, count, ℕ, some}
use arktion_sui_overflow.Catalog.Creator.{
  create_series, update_series, CreateSeriesDto, UpdateSeriesDto, is_public,
}
use arktion_sui_overflow.Text.{Text}

-- A series can be created in a public status with no chapter to it, though a draft with no chapter
-- is refused the same status afterwards.
pub create_series_unchecked :
    (aggregator external : Text) (id user : ℕ) (dto : CreateSeriesDto) (edit : UpdateSeriesDto)
    (wanted : SeriesStatus) (c : Catalog)
    → is_public wanted ≡ true
    → count (is_live_chapter id) c.chapters ≡ 0
    → edit.status ≡ some wanted
    → let made =
        (create_series aggregator id external user (record dto { status = some wanted }) c).1 in
      let drafted =
        (create_series aggregator id external user (record dto { status = some draft }) c).1 in
      (Option.map (λ s. s.status) (find_series id made) ≡ some wanted)
      × (update_series aggregator user id edit drafted ≡ (err no_chapter, drafted))
unfolding create_series update_series find_series
create_series_unchecked aggregator external id user dto edit wanted c p n e =
    ground (arith, p, n, e)
