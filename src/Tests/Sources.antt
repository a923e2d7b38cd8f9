-- ===== src/Tests/Sources.antt =====
-- The theorems of MangaDex and of Walrus on concrete inputs.
use arktion_sui_overflow.Prelude.{
  ℕ, ok, refl, some, List, ◌≡◌, ◌≤◌, ◌∷◌, arith, min, none, [], find, ◌≢◌, false, map,
}
use arktion_sui_overflow.Catalog.MangaDex.{
  FeedEntry, MangaDexApi, numeral, FeedResponse, list_chapters, by_chapter_number, running, listed,
  collect, dedupe, keep_earliest, is_numbered, sort_numbers, insert_number,
}
use arktion_sui_overflow.Sui.Walrus.{upload, WalrusUploadResponse, answered_with, upload-named}
use arktion_sui_overflow.Text.Parts.{IsBytes}
use arktion_sui_overflow.Catalog.MangaDex.Dedupe.{IsAscending, IsChosen, by_chapter_number-IsChosen}
use arktion_sui_overflow.Pagination.{take, drop}
use arktion_sui_overflow.Text.Base64.{to_base64url}
use arktion_sui_overflow.Catalog.MangaDex.Feed.{list_chapters_whole, list_chapters_ends}

abbrev entry : ℕ → ℕ → ℕ → FeedEntry
entry id number date = record {
  id = id;
  chapter = some (numeral number);
  title = some 1;
  translated_language = 7;
  pages = 20;
  publish_at = some date;
}

abbrev feed : List FeedEntry
feed = entry 1 20 5 ∷ entry 2 10 9 ∷ entry 3 10 4 ∷ []

-- The feed in pages of the length that is asked for.
abbrev api : MangaDexApi
api = record {
  feed = λ manga language size offset.
      some (record { data_entries = take size (drop offset feed); total = 3 });
  at_home = λ id. none;
}

totals : (o : ℕ) (r : FeedResponse) → api.feed [] 7 (min 2 100) o ≡ some r → r.total ≤ 3
totals o r h = ground (arith, h)

list_chapters_ends_example : list_chapters api 5 [] 7 2 ≢ running
list_chapters_ends_example = list_chapters_ends api [] 7 2 3 totals

list_chapters_whole_example : list_chapters api 5 [] 7 2 ≡ listed (by_chapter_number (collect feed))
list_chapters_whole_example = list_chapters_whole api [] 7 2 feed (ground arith) (λ o. refl)

by_chapter_number-IsChosen_example :
    IsAscending (by_chapter_number (collect feed))
    × IsChosen 10 (collect feed) (find (is_numbered 10) (by_chapter_number (collect feed)))
by_chapter_number-IsChosen_example = by_chapter_number-IsChosen (collect feed) 10

-- The list of the example.
listed_numbers : map (λ c. c.external_id) (by_chapter_number (collect feed)) ≡ 3 ∷ 1 ∷ []
unfolding by_chapter_number dedupe keep_earliest sort_numbers insert_number collect
listed_numbers = refl

abbrev blob : List ℕ
blob =
    251 ∷ 255 ∷ 3 ∷ 4 ∷ 5 ∷ 6 ∷ 7 ∷ 8 ∷ 9 ∷ 10 ∷ 11 ∷ 12 ∷ 13 ∷ 14 ∷ 15 ∷ 16 ∷ 17 ∷ 18 ∷ 19 ∷ 20
    ∷ 21 ∷ 22 ∷ 23 ∷ 24 ∷ 25 ∷ 26 ∷ 27 ∷ 28 ∷ 29 ∷ 30 ∷ 31 ∷ 32 ∷ []

abbrev response : WalrusUploadResponse
response = record { newly_created = none; already_certified = some (to_base64url blob) }

blob-IsBytes : IsBytes blob
blob-IsBytes = ground arith

upload-named_example :
    upload (λ content epochs. answered_with response) (1 ∷ [])
    ≡ ok (record { blob_id = to_base64url blob; blob_id_bytes = blob; is_new = false })
upload-named_example =
    upload-named (λ content epochs. answered_with response) (1 ∷ []) response blob refl refl
      blob-IsBytes
