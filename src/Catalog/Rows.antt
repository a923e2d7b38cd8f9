-- ===== src/Catalog/Rows.antt =====
-- The tables of series, chapters, pages and creators, and the conversions of their columns.
use Prim.Native.Nat.{ℕ}
use arktion_sui_overflow.Prelude.{
  true, false, Action, ◌||◌, leb, ℕ, [], find, ◌++◌, ◌∷◌, some, none, if◌then◌else◌, Option, ◌&&◌,
  List, not, Bool, ◌==◌,
}
use arktion_sui_overflow.Text.{Text}

pub data SeriesStatus : Type 0 where
  draft ongoing completed hiatus cancelled : SeriesStatus

pub data CreatorStatus : Type 0 where
  none_yet pending approved rejected : CreatorStatus

-- `created_at` orders the rows; the rows of a table come newest first.
pub record Series : Type 0 where
  pub id : ℕ
  pub external_id : Text
  pub title : Text
  pub format_type : ℕ
  pub source_language : ℕ
  pub cover_url : Option Text
  pub description : Option ℕ
  pub status : SeriesStatus
  pub chapters_synced_at : Option ℕ
  pub creator_id : Option ℕ
  pub is_deleted : Bool

-- A page has the URL of an image or of a text.
pub record Page : Type 0 where
  pub page_number : ℕ
  pub image_url : Option ℕ
  pub content_url : Option ℕ

-- A chapter with its pages. Its number, a Float, is kept in thousandths.
pub record Chapter : Type 0 where
  pub id : ℕ
  pub series_id : ℕ
  pub external_id : Option ℕ
  pub chapter_number : ℕ
  pub title : Option ℕ
  pub language : ℕ
  pub page_count : ℕ
  pub is_licensed : Bool
  pub published_at : Option ℕ
  pub is_deleted : Bool
  pub pages : List Page

pub record CreatorUser : Type 0 where
  pub creator_status : CreatorStatus
  pub is_deleted : Bool

pub record CreatorApplication : Type 0 where
  pub pitch : ℕ
  pub cadence : ℕ
  pub tooling : ℕ
  pub portfolio_url : Option ℕ
  pub submitted_at : ℕ
  pub reviewed_at : Option ℕ

pub record Catalog : Type 0 where
  pub users : ℕ → Option CreatorUser
  pub creator_applications : ℕ → Option CreatorApplication
  pub series : List Series
  pub chapters : List Chapter

pub data CatalogError : Type 0 where
  series_not_found chapter_not_found creator_not_found record_not_found : CatalogError
  already_creator under_review no_chapter not_owner : CatalogError
  content_url_required page_required chapter_exists : CatalogError
  licensed_chapter source_failed : CatalogError

abbrev pub Handler : Type 0 → Type 0
Handler A = Action CatalogError Catalog A

-- ISO 639-1 'en'
abbrev pub en : ℕ
en = 0

-- `text.startsWith(needle)`, `text.includes(needle)`
abbrev pub starts_with : Text → Text → Bool
starts_with [] s = true
starts_with (c ∷ p) [] = false
starts_with (c ∷ p) (d ∷ s) = c == d && starts_with p s

unfoldable pub includes : Text → Text → Bool
includes needle [] = starts_with needle []
includes needle (c ∷ s) = starts_with needle (c ∷ s) || includes needle s

abbrev pub scheme_mark : Text
scheme_mark = b':' ∷ b'/' ∷ b'/' ∷ []

-- '/v1/blobs/'
abbrev pub blob_path : Text
blob_path = b'/' ∷ b'v' ∷ b'1' ∷ b'/' ∷ b'b' ∷ b'l' ∷ b'o' ∷ b'b' ∷ b's' ∷ b'/' ∷ []

-- `resolveCoverUrl`, with the URL of the Walrus aggregator.
unfoldable pub resolve_cover_url : Text → Option Text → Option Text
resolve_cover_url aggregator none = none
resolve_cover_url aggregator (some []) = none
resolve_cover_url aggregator (some (c ∷ raw)) =
    if includes scheme_mark (c ∷ raw)
    then some (c ∷ raw)
    else some (aggregator ++ blob_path ++ c ∷ raw)

abbrev pub with_cover : Text → Series → Series
with_cover aggregator s = record s { cover_url = resolve_cover_url aggregator s.cover_url }

-- `findFirst({ where: { id, deletedAt: null } })`
abbrev pub is_live_series : ℕ → Series → Bool
is_live_series id s = s.id == id && not s.is_deleted

unfoldable pub find_series : ℕ → Catalog → Option Series
find_series id c = find (is_live_series id) c.series

abbrev pub is_live_chapter : ℕ → Chapter → Bool
is_live_chapter series c = c.series_id == series && not c.is_deleted

-- `orderBy: { chapterNumber: 'asc' }`
unfoldable pub insert_chapter : Chapter → List Chapter → List Chapter
insert_chapter c [] = c ∷ []
insert_chapter c (d ∷ ds) =
    if leb c.chapter_number d.chapter_number then c ∷ d ∷ ds else d ∷ insert_chapter c ds

unfoldable pub by_number : List Chapter → List Chapter
unfolding insert_chapter
by_number [] = []
by_number (c ∷ cs) = insert_chapter c (by_number cs)
