-- ===== src/Pagination.antt =====
-- common/pagination.ts, over whole page numbers and limits.
pub mod Pages
pub mod Slices
use Prim.Native.Nat.{ℕ}
use arktion_sui_overflow.Prelude.{
  ◌||◌, zero, ℕ, ◌-◌, ◌∷◌, [], List, max, if◌then◌else◌, ◌==◌, ◌*◌, suc,
}

pub record SkipTake : Type 0 where
  pub skip : ℕ
  pub take : ℕ

-- `Math.max(1, Math.floor(n) || 1)`
abbrev pub at_least_1 : ℕ → ℕ
at_least_1 n = max 1 (if n == 0 then 1 else n)

unfoldable pub to_skip_take : ℕ → ℕ → SkipTake
to_skip_take page limit = record {
  skip = (at_least_1 page - 1) * at_least_1 limit;
  take = at_least_1 limit;
}

module _ {ℓ} {A : Type ℓ} where
  abbrev pub take : ℕ → List A → List A
  take zero xs = []
  take (suc n) [] = []
  take (suc n) (x ∷ xs) = x ∷ take n xs

  abbrev pub drop : ℕ → List A → List A
  drop zero xs = xs
  drop (suc n) [] = []
  drop (suc n) (x ∷ xs) = drop n xs

  -- `findMany` with `skip` and `take`
  unfoldable pub page_of : ℕ → ℕ → List A → List A
  page_of page limit rows = let s = to_skip_take page limit in take s.take (drop s.skip rows)
