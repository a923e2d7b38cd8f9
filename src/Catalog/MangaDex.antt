-- ===== src/Catalog/MangaDex.antt =====
-- mangadex.adapter.ts: the chapters and pages of MangaDex, a source of chapter.service.ts.
pub mod Feed
pub mod Dedupe
use arktion_sui_overflow.Prelude.{
  ℕ, Option, List, Bool, min, ◌∷◌, if◌then◌else◌, ◌==◌, suc, ◌++◌, ok, not, none, ◌-◌, ◌+◌, true,
  false, some, [], zero, ◌<◌, leb, ◌&&◌, ltb, map, length,
}
use arktion_sui_overflow.Catalog.Chapters.{SourceChapter, SourcePage, ContentSource}
use arktion_sui_overflow.Text.{Text}
use arktion_sui_overflow.Pagination.{take, drop}

-- `attributes.chapter` where it is not null, as `Number` reads it.
pub data RawChapter : Type 0 where
  numeral : ℕ → RawChapter
  no_number : RawChapter

-- An entry of `MangaDexFeedResponse.data`. The title 0 is one that `trim` leaves empty.
pub record FeedEntry : Type 0 where
  pub id : ℕ
  pub chapter : Option RawChapter
  pub title : Option ℕ
  pub translated_language : ℕ
  pub pages : ℕ
  pub publish_at : Option ℕ

pub record FeedResponse : Type 0 where
  pub data_entries : List FeedEntry
  pub total : ℕ

-- `MangaDexAtHomeResponse`
pub record AtHomeResponse : Type 0 where
  pub base_url : Text
  pub hash : Text
  pub files : List Text
  pub data_saver_files : List Text

-- The answers of MangaDex; none is an answer that is not ok, or none in 8 seconds. The loop asks for
-- no offset twice, so that the answers may differ from request to request.
pub record MangaDexApi : Type 0 where
  pub feed : Text → ℕ → ℕ → ℕ → Option FeedResponse
  pub at_home : ℕ → Option AtHomeResponse

abbrev title_text : Option ℕ → Option ℕ
title_text none = none
title_text (some t) = if t == 0 then none else some t

abbrev chapter_of_entry : ℕ → FeedEntry → SourceChapter
chapter_of_entry number e = record {
  external_id = e.id;
  chapter_number = number;
  title = title_text e.title;
  language = e.translated_language;
  page_count = e.pages;
  published_at = e.publish_at;
}

-- The body of the loop over `json.data`, with its two `continue`s.
unfoldable pub collect : List FeedEntry → List SourceChapter
collect [] = []
collect (e ∷ es) = elim e.chapter [
  | some (numeral number) ↦ chapter_of_entry number e ∷ collect es
  | some no_number ↦ collect es
  | none ↦ collect es
]

-- How a call ends; `running` is a loop that has not ended on the fuel it was given.
pub data Listing : Type 0 where
  listed : List SourceChapter → Listing
  failed : Listing
  running : Listing

-- `offset < total`, where none is the `Infinity` from which `total` starts.
abbrev pub is_below : ℕ → Option ℕ → Bool
is_below offset none = true
is_below offset (some total) = ltb offset total

-- The `while` loop over the pages of the feed.
unfoldable pub list_pages :
    (ℕ → Option FeedResponse) → ℕ → ℕ → Option ℕ → List SourceChapter → Listing
unfolding collect
list_pages request zero offset total out = running
list_pages request (suc fuel) offset total out = elim (is_below offset total) [
  | false ↦ listed out
  | true ↦ elim (request offset) [
    | none ↦ failed
    | some r ↦ elim (length r.data_entries == 0) [
      | true ↦ listed (out ++ collect r.data_entries)
      | false ↦
          list_pages request fuel (offset + length r.data_entries) (some r.total)
            (out ++ collect r.data_entries)
    ]
  ]
]

abbrev pub is_numbered : ℕ → SourceChapter → Bool
is_numbered n c = c.chapter_number == n

-- `c.publishedAt && existing.publishedAt && c.publishedAt < existing.publishedAt`
abbrev pub is_earlier : SourceChapter → SourceChapter → Bool
is_earlier c existing = elim c.published_at [
  | none ↦ false
  | some t ↦ elim existing.published_at [ none ↦ false | some u ↦ ltb t u ]
]

-- `byNumber.set` where the condition holds; the map keeps the order of insertion.
unfoldable pub keep_earliest : SourceChapter → List SourceChapter → List SourceChapter
keep_earliest c [] = c ∷ []
keep_earliest c (d ∷ ds) =
    if d.chapter_number == c.chapter_number
    then (if is_earlier c d then c else d) ∷ ds
    else d ∷ keep_earliest c ds

unfoldable pub dedupe : List SourceChapter → List SourceChapter → List SourceChapter
unfolding keep_earliest
dedupe [] kept = kept
dedupe (c ∷ cs) kept = dedupe cs (keep_earliest c kept)

-- `sort((a, b) => a.chapterNumber - b.chapterNumber)`
unfoldable pub insert_number : SourceChapter → List SourceChapter → List SourceChapter
insert_number c [] = c ∷ []
insert_number c (d ∷ ds) =
    if leb c.chapter_number d.chapter_number then c ∷ d ∷ ds else d ∷ insert_number c ds

unfoldable pub sort_numbers : List SourceChapter → List SourceChapter
unfolding insert_number
sort_numbers [] = []
sort_numbers (c ∷ cs) = insert_number c (sort_numbers cs)

unfoldable pub by_chapter_number : List SourceChapter → List SourceChapter
unfolding dedupe sort_numbers
by_chapter_number out = sort_numbers (dedupe out [])

-- After the loop.
abbrev pub arranged : Listing → Listing
arranged (listed out) = listed (by_chapter_number out)
arranged failed = failed
arranged running = running

-- `listChapters`; a page of the feed has 100 entries at most.
unfoldable pub list_chapters : MangaDexApi → ℕ → Text → ℕ → ℕ → Listing
unfolding list_pages by_chapter_number
list_chapters api fuel manga language limit =
    arranged (list_pages (api.feed manga language (min limit 100)) fuel 0 none [])

-- `files.map((filename, i) => ...)`
unfoldable pub number_files : Text → ℕ → List Text → List (ℕ × Text)
number_files prefix i [] = []
number_files prefix i (f ∷ fs) = (i + 1, prefix ++ f) ∷ number_files prefix (i + 1) fs

abbrev data_folder : Text
data_folder = b'd' ∷ b'a' ∷ b't' ∷ b'a' ∷ []

abbrev data_saver_folder : Text
data_saver_folder = b'd' ∷ b'a' ∷ b't' ∷ b'a' ∷ b'-' ∷ b's' ∷ b'a' ∷ b'v' ∷ b'e' ∷ b'r' ∷ []

-- `${baseUrl}/${quality}/${chapter.hash}/`
abbrev pub page_prefix : AtHomeResponse → Bool → Text
page_prefix r data_saver =
    r.base_url
    ++ b'/'
      ∷ ((if data_saver then data_saver_folder else data_folder) ++ b'/' ∷ (r.hash ++ b'/' ∷ []))

-- `getPages`: the number and the URL of each page.
unfoldable pub live_pages : MangaDexApi → ℕ → Bool → Option (List (ℕ × Text))
unfolding number_files
live_pages api chapter data_saver = elim (api.at_home chapter) [
  | none ↦ none
  | some r ↦ some (
      number_files (page_prefix r data_saver) 0
        (if data_saver then r.data_saver_files else r.files))
]
