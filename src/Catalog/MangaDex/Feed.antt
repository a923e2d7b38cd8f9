-- ===== src/Catalog/MangaDex/Feed.antt =====
-- The loop of mangadex.adapter.ts over the pages of a feed: that it ends, and what it brings.
use arktion_sui_overflow.Prelude.{
  ℕ, refl, ◌∷◌, ◌++◌, ◌≤◌, zero, ◌≡◌, ◌<◌, ◌≢◌, length, ◌+◌, some, inr, Option-cases, none, Option,
  inl, List, [], suc, min, arith,
}
use arktion_sui_overflow.Catalog.MangaDex.{
  collect, list_chapters, list_pages, FeedResponse, SourceChapter, running, MangaDexApi, FeedEntry,
  Text, listed, by_chapter_number,
}
use arktion_sui_overflow.Pagination.{take, drop}
use arktion_sui_overflow.Catalog.Chapters.{SourceChapter}
use arktion_sui_overflow.Text.{Text}
use mathlib.Core.List.{append-nil, append_assoc}
use arktion_sui_overflow.Pagination.Slices.{
  drop_all, length-take, length-drop, drop_add, drop-length,
}

-- A page of at least one entry moves the offset on, which no total passes.
list_pages_ends :
    (request : ℕ → Option FeedResponse) (most fuel offset total : ℕ) (out : List SourceChapter)
    → ((o : ℕ) (r : FeedResponse) → request o ≡ some r → r.total ≤ most)
    → total ≤ most
    → most ≤ fuel + offset
    → list_pages request (suc fuel) offset (some total) out ≢ running
unfolding list_pages
list_pages_ends request most zero offset total out bound h k e = ground arith
list_pages_ends request most (suc fuel) offset total out bound h k e =
    elim (Option-cases (request offset)) [
      | inl f ↦ ground (arith, f)
      | inr (r, f) ↦ ground (
        arith,
        f,
        bound offset r f,
        list_pages_ends request most fuel (offset + length r.data_entries) r.total
            (out ++ collect r.data_entries) bound,
      )
    ]

first_page_ends :
    (request : ℕ → Option FeedResponse) (most : ℕ)
    → ((o : ℕ) (r : FeedResponse) → request o ≡ some r → r.total ≤ most)
    → list_pages request (suc (suc most)) 0 none [] ≢ running
unfolding list_pages
first_page_ends request most bound e = elim (Option-cases (request 0)) [
  | inl f ↦ ground (arith, f)
  | inr (r, f) ↦ ground (
    arith,
    f,
    bound 0 r f,
    list_pages_ends request most most (length r.data_entries) r.total (collect r.data_entries)
        bound,
  )
]

-- When no answer names a total above `most`, `listChapters` returns or throws after at most
-- `most + 1` requests: it does not loop, whatever pages the answers hold.
pub list_chapters_ends :
    (api : MangaDexApi) (manga : Text) (language limit most : ℕ)
    → ((o : ℕ) (r : FeedResponse)
        → api.feed manga language (min limit 100) o ≡ some r
        → r.total ≤ most)
    → list_chapters api (suc (suc most)) manga language limit ≢ running
unfolding list_chapters
list_chapters_ends api manga language limit most bound e =
    ground (arith, first_page_ends (api.feed manga language (min limit 100)) most bound)

collect_split :
    (n : ℕ) (es : List FeedEntry) → collect es ≡ collect (take n es) ++ collect (drop n es)
unfolding collect
collect_split zero es = refl
collect_split (suc n) [] = refl
collect_split (suc n) (e ∷ es) = ground (arith, collect_split n es)

-- A feed of fixed entries, served in pages.
abbrev pub Serves : (ℕ → Option FeedResponse) → ℕ → List FeedEntry → Type 0
Serves request size feed =
    (o : ℕ)
    → request o ≡ some (record { data_entries = take size (drop o feed); total = length feed })

-- Page by page, the loop collects what is left of the feed.
list_pages_rest :
    (request : ℕ → Option FeedResponse) (size : ℕ) (feed : List FeedEntry) (fuel offset : ℕ)
    (out : List SourceChapter)
    → Serves request size feed
    → 0 < size
    → length feed ≤ fuel + offset
    → list_pages request (suc fuel) offset (some (length feed)) out
      ≡ listed (out ++ collect (drop offset feed))
unfolding list_pages collect
list_pages_rest request size feed zero offset out serves pos k =
    ground (arith, drop_all offset feed, append-nil out)
list_pages_rest request size feed (suc fuel) offset out serves pos k =
    let page : List FeedEntry = take size (drop offset feed) in
    ground (
      arith,
      serves offset,
      drop_all offset feed,
      append-nil out,
      length-take size (drop offset feed),
      length-drop offset feed,
      list_pages_rest request size feed fuel (offset + length page) (out ++ collect page) serves
          pos,
      drop_add offset (length page) feed,
      drop-length size (drop offset feed),
      collect_split size (drop offset feed),
      append_assoc out (collect page) (collect (drop size (drop offset feed))),
    )

first_page_rest :
    (request : ℕ → Option FeedResponse) (size : ℕ) (feed : List FeedEntry)
    → Serves request size feed
    → 0 < size
    → list_pages request (suc (suc (length feed))) 0 none [] ≡ listed (collect feed)
unfolding list_pages collect
first_page_rest request size feed serves pos = ground (
  arith,
  serves 0,
  length-take size feed,
  list_pages_rest request size feed (length feed) (length (take size feed))
      (collect (take size feed)) serves pos,
  drop-length size feed,
  collect_split size feed,
  drop_all (length (take size feed)) feed,
  append-nil (collect (take size feed)),
)

-- From a feed that is served in pages of up to `limit` entries, at most 100, `listChapters` lists what
-- it would list of the whole feed in one page, whatever the positive `limit`.
pub list_chapters_whole :
    (api : MangaDexApi) (manga : Text) (language limit : ℕ) (feed : List FeedEntry)
    → 0 < limit
    → Serves (api.feed manga language (min limit 100)) (min limit 100) feed
    → list_chapters api (suc (suc (length feed))) manga language limit
      ≡ listed (by_chapter_number (collect feed))
unfolding list_chapters
list_chapters_whole api manga language limit feed pos serves =
    ground
      (arith, first_page_rest (api.feed manga language (min limit 100)) (min limit 100) feed serves)
