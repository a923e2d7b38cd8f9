-- ===== src/Catalog/Creator.antt =====
-- creator.service.ts: creators, their series and chapters, and what they earn.
use arktion_sui_overflow.Prelude.{
  Bool, ℕ, Option, throw, or_else, List, ◌∷◌, ◌>>◌, none, gets, update_where, false, if◌then◌else◌,
  some, put, select, pure, count, not, sum_where, ◌>>=◌, is_some, throw_if, true, leb, [], modify,
  length, find, ◌&&◌, suc, ◌==◌, or_throw, map,
}
use arktion_sui_overflow.Catalog.Rows.{
  draft, ongoing, completed, hiatus, cancelled, none_yet, pending, approved, series_not_found,
  creator_not_found, record_not_found, already_creator, under_review, no_chapter, not_owner,
  content_url_required, page_required, chapter_exists, Series, SeriesStatus, Chapter, Page, Catalog,
  CreatorStatus, CreatorUser, Handler, en, with_cover, find_series, is_live_chapter, by_number,
}
use arktion_sui_overflow.Catalog.Chapters.{has_key}
use arktion_sui_overflow.Payment.Rows.{TipStatus, TipTransaction}
use mathlib.Core.Option
use arktion_sui_overflow.Text.{Text}
use arktion_sui_overflow.Pagination.{take}
use arktion_sui_overflow.Sui.{opt_eq}

-- `PUBLIC_STATUSES`
abbrev pub is_public : SeriesStatus → Bool
is_public draft = false
is_public ongoing = true
is_public completed = true
is_public hiatus = true
is_public cancelled = true

pub record ApplyCreatorDto : Type 0 where
  pub pitch : ℕ
  pub cadence : ℕ
  pub tooling : ℕ
  pub portfolio_url : Option ℕ

pub record CreatorApplicationStatusDto : Type 0 where
  pub status : CreatorStatus
  pub submitted_at : Option ℕ

abbrev pub status_of : Option CreatorUser → CreatorStatus
status_of none = none_yet
status_of (some u) = u.creator_status

-- Why `apply` refuses.
abbrev pub check_status : CreatorStatus → Handler (Unit {0})
check_status approved = throw already_creator
check_status pending = throw under_review
check_status _ = pure tt

-- The two writes of `apply`, in one transaction.
unfoldable pub apply : ℕ → ApplyCreatorDto → ℕ → Handler CreatorApplicationStatusDto
apply user dto now = do
  found ← gets (λ c. c.users user)
  check_status (status_of found)
  u ← or_throw found record_not_found
  modify (λ c. record c {
    creator_applications =
        put user
          (record {
            pitch = dto.pitch;
            cadence = dto.cadence;
            tooling = dto.tooling;
            portfolio_url = dto.portfolio_url;
            submitted_at = now;
            reviewed_at = some now;
          })
          c.creator_applications;
    users = put user (record u { creator_status = approved }) c.users;
  })
  pure (record { status = approved; submitted_at = some now })

unfoldable pub get_application_status : ℕ → Catalog → CreatorApplicationStatusDto
get_application_status user c = record {
  status = status_of (c.users user);
  submitted_at = elim (c.users user) [
    | none ↦ none
    | some u ↦ Option.map (λ a. a.submitted_at) (c.creator_applications user)
  ];
}

abbrev pub is_own : ℕ → Series → Bool
is_own user s = opt_eq s.creator_id (some user) && not s.is_deleted

unfoldable pub get_own_series : Text → ℕ → Catalog → List Series
get_own_series aggregator user c = map (with_cover aggregator) (select (is_own user) c.series)

pub record CreateSeriesDto : Type 0 where
  pub title : Text
  pub format_type : ℕ
  pub source_language : ℕ
  pub description : Option ℕ
  pub cover_url : Option Text
  pub status : Option SeriesStatus

-- `createSeries`, with the id and the random externalId.
unfoldable pub create_series : Text → ℕ → Text → ℕ → CreateSeriesDto → Handler Series
create_series aggregator id external user dto = do
  let s : Series = record {
    id = id;
    external_id = external;
    title = dto.title;
    format_type = dto.format_type;
    source_language = dto.source_language;
    cover_url = dto.cover_url;
    description = dto.description;
    status = or_else dto.status draft;
    chapters_synced_at = none;
    creator_id = some user;
    is_deleted = false;
  }
  modify (λ c. record c { series = s ∷ c.series })
  pure (with_cover aggregator s)

unfoldable pub assert_ownership : ℕ → ℕ → Handler (Unit {0})
assert_ownership user id = do
  found ← gets (find_series id)
  s ← or_throw found series_not_found
  throw_if (not (opt_eq s.creator_id (some user))) not_owner

pub record UpdateSeriesDto : Type 0 where
  pub title : Option Text
  pub format_type : Option ℕ
  pub source_language : Option ℕ
  pub description : Option ℕ
  pub cover_url : Option Text
  pub status : Option SeriesStatus

abbrev pub keep_or : Option ℕ → Option ℕ → Option ℕ
keep_or none old = old
keep_or (some new) old = some new

abbrev pub keep_or_url : Option Text → Option Text → Option Text
keep_or_url none old = old
keep_or_url (some new) old = some new

-- The `data` of `series.update`.
unfoldable pub edit_series : UpdateSeriesDto → Series → Series
edit_series dto s = record s {
  title = or_else dto.title s.title;
  format_type = or_else dto.format_type s.format_type;
  source_language = or_else dto.source_language s.source_language;
  description = keep_or dto.description s.description;
  cover_url = keep_or_url dto.cover_url s.cover_url;
  status = or_else dto.status s.status;
}

abbrev pub publishes : Option SeriesStatus → Bool
publishes none = false
publishes (some status) = is_public status

unfoldable pub update_series : Text → ℕ → ℕ → UpdateSeriesDto → Handler Series
unfolding assert_ownership
update_series aggregator user id dto = do
  assert_ownership user id
  chapters ← gets (λ c. count (is_live_chapter id) c.chapters)
  throw_if (publishes dto.status && chapters == 0) no_chapter
  modify (λ c. record c { series = update_where (λ s. s.id == id) (edit_series dto) c.series })
  updated ← gets (λ c. find (λ s. s.id == id) c.series)
  s ← or_throw updated record_not_found
  pure (with_cover aggregator s)

-- `getPublicProfile`: the number of the creator's series.
unfoldable pub get_public_profile : ℕ → Handler ℕ
get_public_profile user = do
  found ← gets (λ c. c.users user)
  u ← or_throw found creator_not_found
  throw_if u.is_deleted creator_not_found
  gets (λ c. count (is_own user) c.series)

unfoldable pub get_public_series : Text → ℕ → Handler (List Series)
unfolding get_own_series
get_public_series aggregator user = do
  found ← gets (λ c. c.users user)
  u ← or_throw found creator_not_found
  throw_if u.is_deleted creator_not_found
  gets (get_own_series aggregator user)

unfoldable pub get_series_chapters : ℕ → ℕ → Handler (List Chapter)
unfolding assert_ownership
get_series_chapters user id =
    assert_ownership user id >> gets (λ c. by_number (select (is_live_chapter id) c.chapters))

-- An empty contentUrl is none.
pub record CreateChapterDto : Type 0 where
  pub chapter_number : ℕ
  pub title : Option ℕ
  pub content_url : Option ℕ
  pub image_urls : List ℕ

-- The pages of images, from number `n` on.
unfoldable pub number_pages : ℕ → List ℕ → List Page
number_pages n [] = []
number_pages n (url ∷ urls) =
    record { page_number = n; image_url = some url; content_url = none } ∷ number_pages (suc n) urls

-- The pages of a chapter, or the error that there is none.
unfoldable pub chapter_pages : Bool → CreateChapterDto → Handler (List Page)
unfolding number_pages
chapter_pages true dto = do
  url ← or_throw dto.content_url content_url_required
  pure (record { page_number = 1; image_url = none; content_url = some url } ∷ [])
chapter_pages false dto = do
  throw_if (length dto.image_urls == 0) page_required
  pure (number_pages 1 dto.image_urls)

abbrev pub uploaded_chapter : ℕ → ℕ → CreateChapterDto → List Page → ℕ → Chapter
uploaded_chapter id series dto pages now = record {
  id = id;
  series_id = series;
  external_id = none;
  chapter_number = dto.chapter_number;
  title = dto.title;
  language = en;
  page_count = length pages;
  is_licensed = false;
  published_at = some now;
  is_deleted = false;
  pages = pages;
}

-- `createChapter`, up to the indexing for the writing assistant.
unfoldable pub create_chapter : ℕ → ℕ → ℕ → CreateChapterDto → ℕ → Handler Chapter
unfolding assert_ownership chapter_pages
create_chapter id user series dto now = do
  assert_ownership user series
  found ← gets (λ c. find (λ s. s.id == series) c.series)
  let is_novel : Bool = elim found [ none ↦ false | some s ↦ s.format_type == 0 ]
  pages ← chapter_pages is_novel dto
  exists ← gets (λ c. is_some (find (has_key series en dto.chapter_number) c.chapters))
  throw_if exists chapter_exists
  let d = uploaded_chapter id series dto pages now
  modify (λ c. record c { chapters = d ∷ c.chapters })
  pure d

-- `orderBy: { confirmedAt: 'desc' }`, with no time first.
abbrev pub is_later : Option ℕ → Option ℕ → Bool
is_later none b = true
is_later (some a) none = false
is_later (some a) (some b) = leb b a

unfoldable pub insert_tip_by_time : TipTransaction → List TipTransaction → List TipTransaction
insert_tip_by_time t [] = t ∷ []
insert_tip_by_time t (u ∷ us) =
    if is_later t.confirmed_at u.confirmed_at then t ∷ u ∷ us else u ∷ insert_tip_by_time t us

unfoldable pub by_confirmation : List TipTransaction → List TipTransaction
unfolding insert_tip_by_time
by_confirmation [] = []
by_confirmation (t ∷ ts) = insert_tip_by_time t (by_confirmation ts)

abbrev pub is_confirmed_for : ℕ → TipTransaction → Bool
is_confirmed_for user t = t.receiver_id == user && elim t.status [
  | TipStatus.pending ↦ false
  | TipStatus.confirmed ↦ true
  | TipStatus.failed ↦ false
]

pub record CreatorEarningsDto : Type 0 where
  pub total_usdc_received : ℕ
  pub recent_tips : List TipTransaction

unfoldable pub get_earnings : ℕ → List TipTransaction → CreatorEarningsDto
unfolding by_confirmation
get_earnings user rows =
    let tips = take 50 (by_confirmation (select (is_confirmed_for user) rows)) in
    record {
      total_usdc_received = sum_where (λ t. true) (λ t. t.amount_usdc) tips;
      recent_tips = tips;
    }
