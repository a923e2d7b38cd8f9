-- ===== src/Tests/Catalog.antt =====
-- The theorems of Catalog on a state.
use Prim.Native.Nat.{ℕ}
use arktion_sui_overflow.Catalog.Rows.{Series, Catalog, ongoing, find_series}
use arktion_sui_overflow.Payment.Rows.{TipTransaction, confirmed}
use arktion_sui_overflow.Prelude.{
  ◌≡◌, false, [], true, ℕ, none, some, arith, ◌∷◌, ok, refl, List, is_ok,
}
use arktion_sui_overflow.Catalog.Chapters.{ContentSource, SourceChapter, get_pages}
use arktion_sui_overflow.Catalog.Creator.{
  create_chapter, CreateChapterDto, assert_ownership, chapter_pages, number_pages,
}
use arktion_sui_overflow.Catalog.Uploads.{get_pages-create_chapter}

abbrev comic : Series
comic = record {
  id = 4;
  external_id = b'x' ∷ [];
  title = b't' ∷ [];
  format_type = 1;
  source_language = 0;
  cover_url = none;
  description = none;
  status = ongoing;
  chapters_synced_at = none;
  creator_id = some 9;
  is_deleted = false;
}

abbrev catalog : Catalog
catalog = record {
  users = λ _. none;
  creator_applications = λ _. none;
  series = comic ∷ [];
  chapters = [];
}

abbrev upstream : SourceChapter
upstream = record {
  external_id = 77;
  chapter_number = 1000;
  title = none;
  language = 0;
  page_count = 3;
  published_at = none;
}

-- A source that answers with a chapter twice.
abbrev source : ContentSource
source = record { list_chapters = λ _ _. some (upstream ∷ upstream ∷ []); get_pages = λ _ _. none }

abbrev upload : CreateChapterDto
upload = record {
  chapter_number = 2000;
  title = none;
  content_url = none;
  image_urls = 81 ∷ 82 ∷ [];
}

upload-is_okb : is_ok (create_chapter 6 9 4 upload 50 catalog).0 ≡ true
unfolding create_chapter assert_ownership chapter_pages number_pages find_series
upload-is_okb = refl

get_pages-create_chapter_example :
    let c' = (create_chapter 6 9 4 upload 50 catalog).1 in
    get_pages source 6 false c' ≡ (ok (number_pages 1 (81 ∷ 82 ∷ [])), c')
get_pages-create_chapter_example =
    get_pages-create_chapter source 6 9 4 upload 50 false catalog comic refl
      (λ h. ground (arith, h)) upload-is_okb

abbrev tip : ℕ → TipTransaction
tip n = record {
  id = n;
  sender_id = 2;
  receiver_id = 9;
  series_id = 4;
  amount_usdc = 500;
  idempotency_key = n;
  status = confirmed;
  sui_tx_digest = none;
  confirmed_at = some n;
}

abbrev tips : List TipTransaction
tips = tip 1 ∷ tip 3 ∷ tip 2 ∷ []
