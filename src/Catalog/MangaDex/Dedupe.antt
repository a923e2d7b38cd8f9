-- ===== src/Catalog/MangaDex/Dedupe.antt =====
-- What mangadex.adapter.ts makes of the entries that it collected: one chapter of each number.
use arktion_sui_overflow.Prelude.{
  ℕ, List, ◌∷◌, if◌then◌else◌, false, ◌≤◌, find, ◌≡◌, ◌<◌, none, arith, [], max, ◌&&◌, some, ◌⊎◌,
  count, ltb, refl, Option, Bool, inl, true, subst, sym, is_some, Option-cases, inr,
}
use arktion_sui_overflow.Catalog.MangaDex.{
  sort_numbers, insert_number, keep_earliest, dedupe, is_numbered, is_earlier, true,
  by_chapter_number,
}
use arktion_sui_overflow.Catalog.Chapters.{SourceChapter}

abbrev pub IsAscending : List SourceChapter → Type 0
IsAscending [] = Unit
IsAscending (c ∷ []) = Unit
IsAscending (c ∷ d ∷ ds) = (c.chapter_number < d.chapter_number) × IsAscending (d ∷ ds)

abbrev pub Among : SourceChapter → List SourceChapter → Type 0
Among c [] = ⊥
Among c (d ∷ ds) = (c ≡ d) ⊎ Among c ds

-- Has the number `n`, and a date before `t`.
abbrev pub is_before : ℕ → ℕ → SourceChapter → Bool
is_before n t d = is_numbered n d && (elim d.published_at [ none ↦ false | some u ↦ ltb u t ])

count-keep_earliest :
    (n : ℕ) (c : SourceChapter) (ds : List SourceChapter)
    → count (is_numbered n) (keep_earliest c ds)
      ≡ max (count (is_numbered n) ds) (if is_numbered n c then 1 else 0)
unfolding keep_earliest
count-keep_earliest n c [] = ground arith
count-keep_earliest n c (d ∷ ds) = ground (arith, count-keep_earliest n c ds)

count-dedupe :
    (n : ℕ) (cs kept : List SourceChapter)
    → count (is_numbered n) kept ≤ 1
    → count (is_numbered n) (dedupe cs kept) ≤ 1
unfolding dedupe
count-dedupe n [] kept h = h
count-dedupe n (c ∷ cs) kept h =
    ground (arith, h, count-keep_earliest n c kept, count-dedupe n cs (keep_earliest c kept))

count-insert_number :
    (n : ℕ) (c : SourceChapter) (ds : List SourceChapter)
    → count (is_numbered n) (insert_number c ds) ≡ count (is_numbered n) (c ∷ ds)
unfolding insert_number
count-insert_number n c [] = ground arith
count-insert_number n c (d ∷ ds) = ground (arith, count-insert_number n c ds)

count-sort_numbers :
    (n : ℕ) (cs : List SourceChapter)
    → count (is_numbered n) (sort_numbers cs) ≡ count (is_numbered n) cs
unfolding sort_numbers
count-sort_numbers n [] = refl
count-sort_numbers n (c ∷ cs) =
    ground (arith, count-insert_number n c (sort_numbers cs), count-sort_numbers n cs)

insert_number-IsAscending :
    (c : SourceChapter) (ds : List SourceChapter)
    → count (is_numbered c.chapter_number) ds ≡ 0
    → IsAscending ds
    → IsAscending (insert_number c ds)
unfolding insert_number
insert_number-IsAscending c [] h k = tt
insert_number-IsAscending c (d ∷ []) h k = ground arith
insert_number-IsAscending c (d ∷ e ∷ es) h k = ground (arith, insert_number-IsAscending c (e ∷ es))

sort_numbers-IsAscending :
    (cs : List SourceChapter)
    → ((n : ℕ) → count (is_numbered n) cs ≤ 1)
    → IsAscending (sort_numbers cs)
unfolding sort_numbers
sort_numbers-IsAscending [] h = tt
sort_numbers-IsAscending (c ∷ cs) h =
    insert_number-IsAscending c (sort_numbers cs)
      (ground (arith, h c.chapter_number, count-sort_numbers c.chapter_number cs))
      (sort_numbers-IsAscending cs (λ n. ground (arith, h n)))

find-insert_number :
    (n : ℕ) (c : SourceChapter) (ds : List SourceChapter)
    → find (is_numbered n) (insert_number c ds) ≡ find (is_numbered n) (c ∷ ds)
unfolding insert_number
find-insert_number n c [] = refl
find-insert_number n c (d ∷ ds) = ground (arith, find-insert_number n c ds)

find-sort_numbers :
    (n : ℕ) (cs : List SourceChapter)
    → find (is_numbered n) (sort_numbers cs) ≡ find (is_numbered n) cs
unfolding sort_numbers
find-sort_numbers n [] = refl
find-sort_numbers n (c ∷ cs) =
    ground (arith, find-insert_number n c (sort_numbers cs), find-sort_numbers n cs)

-- What the entries so far leave under a number, and one entry more.
abbrev chosen : ℕ → SourceChapter → Option SourceChapter → Option SourceChapter
chosen n c o =
    if is_numbered n c
    then elim o [ none ↦ some c | some d ↦ some (if is_earlier c d then c else d) ]
    else o

find-keep_earliest :
    (n : ℕ) (c : SourceChapter) (ds : List SourceChapter)
    → find (is_numbered n) (keep_earliest c ds) ≡ chosen n c (find (is_numbered n) ds)
unfolding keep_earliest
find-keep_earliest n c [] = ground arith
find-keep_earliest n c (d ∷ ds) = ground (arith, find-keep_earliest n c ds)

dedupe-Among :
    (n : ℕ) (cs kept : List SourceChapter) (d : SourceChapter)
    → find (is_numbered n) (dedupe cs kept) ≡ some d
    → (find (is_numbered n) kept ≡ some d) ⊎ Among d cs
unfolding dedupe
dedupe-Among n [] kept d h = inl h
dedupe-Among n (c ∷ cs) kept d h =
    ground (arith, dedupe-Among n cs (keep_earliest c kept) d h, find-keep_earliest n c kept)

abbrev first_of : Option SourceChapter → Option SourceChapter → Option SourceChapter
first_of none p = p
first_of (some e) p = some e

dedupe_undated :
    (n : ℕ) (cs kept : List SourceChapter) (d : SourceChapter)
    → find (is_numbered n) (dedupe cs kept) ≡ some d
    → d.published_at ≡ none
    → first_of (find (is_numbered n) kept) (find (is_numbered n) cs) ≡ some d
unfolding dedupe
dedupe_undated n [] kept d h k = ground (arith, h)
dedupe_undated n (c ∷ cs) kept d h k =
    ground (arith, dedupe_undated n cs (keep_earliest c kept) d h k, find-keep_earliest n c kept)

-- What was kept has no date, and stays then, or a date before `t`.
abbrev was_before : ℕ → Option SourceChapter → Bool
was_before t none = false
was_before t (some e) = elim e.published_at [ none ↦ true | some u ↦ ltb u t ]

dedupe_earliest :
    (n t : ℕ) (cs kept : List SourceChapter) (d : SourceChapter)
    → find (is_numbered n) (dedupe cs kept) ≡ some d
    → d.published_at ≡ some t
    → (count (is_before n t) cs ≡ 0) × (was_before t (find (is_numbered n) kept) ≡ false)
unfolding dedupe
dedupe_earliest n t [] kept d h k = ground (arith, h, k)
dedupe_earliest n t (c ∷ cs) kept d h k =
    ground (arith, dedupe_earliest n t cs (keep_earliest c kept) d h k, find-keep_earliest n c kept)

dedupe-none :
    (n : ℕ) (cs kept : List SourceChapter)
    → first_of (find (is_numbered n) kept) (find (is_numbered n) cs) ≡ none
    → find (is_numbered n) (dedupe cs kept) ≡ none
unfolding dedupe
dedupe-none n [] kept h = ground (arith, h)
dedupe-none n (c ∷ cs) kept h =
    dedupe-none n cs (keep_earliest c kept) (ground (arith, h, find-keep_earliest n c kept))

-- An entry without a date that comes first stays.
dedupe_first :
    (n : ℕ) (cs kept : List SourceChapter) (e : SourceChapter)
    → first_of (find (is_numbered n) kept) (find (is_numbered n) cs) ≡ some e
    → e.published_at ≡ none
    → find (is_numbered n) (dedupe cs kept) ≡ some e
unfolding dedupe
dedupe_first n [] kept e h k = ground (arith, h)
dedupe_first n (c ∷ cs) kept e h k =
    dedupe_first n cs (keep_earliest c kept) e (ground (arith, h, k, find-keep_earliest n c kept)) k

dedupe_found :
    (n : ℕ) (cs kept : List SourceChapter) (e : SourceChapter)
    → first_of (find (is_numbered n) kept) (find (is_numbered n) cs) ≡ some e
    → is_some (find (is_numbered n) (dedupe cs kept)) ≡ true
unfolding dedupe
dedupe_found n [] kept e h = ground (arith, h)
dedupe_found n (c ∷ cs) kept e h =
    elim (Option-cases
      (first_of (find (is_numbered n) (keep_earliest c kept)) (find (is_numbered n) cs))) [
        | inl k ↦ absurd (ground (arith, h, k, find-keep_earliest n c kept))
        | inr (d, k) ↦ dedupe_found n cs (keep_earliest c kept) d k
      ]

-- A chapter from the entries with a date that no date of another entry of the number precedes.
abbrev pub IsEarliest : ℕ → List SourceChapter → SourceChapter → Option ℕ → Type 0
IsEarliest n out d none = ⊥
IsEarliest n out d (some t) = Among d out × (count (is_before n t) out ≡ 0)

abbrev pub EarliestOf : ℕ → List SourceChapter → Option SourceChapter → Type 0
EarliestOf n out none = ⊥
EarliestOf n out (some d) = IsEarliest n out d d.published_at

-- What becomes of the entries of a number, by the date of the first of them.
abbrev pub ByDate :
    ℕ → List SourceChapter → SourceChapter → Option SourceChapter → Option ℕ → Type 0
ByDate n out e o none = o ≡ some e
ByDate n out e o (some t) = EarliestOf n out o

abbrev pub ByFirst : ℕ → List SourceChapter → Option SourceChapter → Option SourceChapter → Type 0
ByFirst n out none o = o ≡ none
ByFirst n out (some e) o = ByDate n out e o e.published_at

-- The choice for a number depends on the first entry that has it.
abbrev pub IsChosen : ℕ → List SourceChapter → Option SourceChapter → Type 0
IsChosen n out o = ByFirst n out (find (is_numbered n) out) o

module _ (n : ℕ) (out : List SourceChapter) where
  dated :
      (e d : SourceChapter) (t : ℕ)
      → find (is_numbered n) out ≡ some e
      → e.published_at ≡ some t
      → find (is_numbered n) (dedupe out []) ≡ some d
      → (o : Option ℕ) → d.published_at ≡ o
      → IsEarliest n out d o
  dated e d t f k h none u = absurd (ground (arith, k, u, f, dedupe_undated n out [] d h u))
  dated e d t f k h (some v) u =
      (ground (arith, dedupe-Among n out [] d h), (dedupe_earliest n v out [] d h u).0)

  earliest :
      (e : SourceChapter) (t : ℕ)
      → find (is_numbered n) out ≡ some e
      → e.published_at ≡ some t
      → EarliestOf n out (find (is_numbered n) (dedupe out []))
  earliest e t f k = elim (Option-cases (find (is_numbered n) (dedupe out []))) [
    | inl h ↦ absurd (ground (arith, h, dedupe_found n out [] e f))
    | inr (d, h) ↦ subst (EarliestOf n out) (sym h) (dated e d t f k h d.published_at refl)
  ]

  by_date :
      (e : SourceChapter) (o : Option ℕ)
      → find (is_numbered n) out ≡ some e
      → e.published_at ≡ o
      → ByDate n out e (find (is_numbered n) (dedupe out [])) o
  by_date e none f k = dedupe_first n out [] e f k
  by_date e (some t) f k = earliest e t f k

  by_first :
      (o : Option SourceChapter)
      → find (is_numbered n) out ≡ o
      → ByFirst n out o (find (is_numbered n) (dedupe out []))
  by_first none f = dedupe-none n out [] f
  by_first (some e) f = by_date e e.published_at f refl

-- What `listChapters` makes of the entries that it collected has ascending chapter numbers, each once.
-- Under any number it has nothing if no entry has the number. If the first entry of the number has no
-- date, that entry stays, whatever the others have. Otherwise it has an entry with a date that no
-- date of another entry of the number precedes.
pub by_chapter_number-IsChosen :
    (out : List SourceChapter) (n : ℕ)
    → IsAscending (by_chapter_number out)
      × IsChosen n out (find (is_numbered n) (by_chapter_number out))
unfolding by_chapter_number
by_chapter_number-IsChosen out n = (
  sort_numbers-IsAscending (dedupe out []) (λ m. count-dedupe m out [] (ground arith)),
  subst (λ o. IsChosen n out o) (sym (find-sort_numbers n (dedupe out [])))
      (by_first n out (find (is_numbered n) out) refl),
)
