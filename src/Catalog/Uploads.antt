-- ===== src/Catalog/Uploads.antt =====
-- Chapters that creator.service.ts uploads, as chapter.service.ts delivers them.
use arktion_sui_overflow.Catalog.Rows.{Series, Page, Catalog}
use arktion_sui_overflow.Catalog.Chapters.{ContentSource, get_pages, insert_page, by_page_number}
use arktion_sui_overflow.Prelude.{
  ok, ◌==◌, ◌≤◌, List, ℕ, Bool, ◌≢◌, suc, ◌≡◌, none, some, true, arith, [], ◌∷◌, refl, find, is_ok,
}
use arktion_sui_overflow.Catalog.Creator.{
  create_chapter, number_pages, chapter_pages, CreateChapterDto,
}

insert_page_first :
    (n : ℕ) (p : Page) (urls : List ℕ)
    → p.page_number ≤ n
    → insert_page p (number_pages n urls) ≡ p ∷ number_pages n urls
unfolding insert_page number_pages
insert_page_first n p [] h = refl
insert_page_first n p (u ∷ urls) h = ground arith

by_page_number-number_pages :
    (n : ℕ) (urls : List ℕ) → by_page_number (number_pages n urls) ≡ number_pages n urls
unfolding by_page_number number_pages
by_page_number-number_pages n [] = refl
by_page_number-number_pages n (u ∷ urls) = rw (by_page_number-number_pages (suc n) urls) (
    insert_page_first (suc n) (record { page_number = n; image_url = some u; content_url = none })
      urls (omega arith))

-- A chapter of images that was uploaded is delivered with the same images in the same order, numbered
-- from 1, and its delivery writes nothing.
pub get_pages-create_chapter :
    (source : ContentSource) (id user series : ℕ) (dto : CreateChapterDto) (now : ℕ) (saver : Bool)
    (c : Catalog) (s : Series)
    → find (λ x. x.id == series) c.series ≡ some s
    → s.format_type ≢ 0
    → is_ok (create_chapter id user series dto now c).0 ≡ true
    → let c' = (create_chapter id user series dto now c).1 in
      get_pages source id saver c' ≡ (ok (number_pages 1 dto.image_urls), c')
unfolding create_chapter get_pages chapter_pages
get_pages-create_chapter source id user series dto now saver c s h f o =
    ground (arith, h, by_page_number-number_pages 1 dto.image_urls)
