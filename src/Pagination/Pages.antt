-- ===== src/Pagination/Pages.antt =====
-- The pages of a list endpoint, laid end to end.
use Prim.Native.Nat.{ℕ}
use arktion_sui_overflow.Prelude.{
  zero, ℕ, ◌≡◌, ◌∷◌, ◌++◌, [], List, ◌<◌, ◌+◌, ◌*◌, suc, arith, ◌-◌, refl,
}
use arktion_sui_overflow.Pagination.{page_of, take, to_skip_take, drop, at_least_1}
use native.Mathlib.Nat.{zero-add, suc-add, suc-mul}

module _ {ℓ} {A : Type ℓ} where
  take_nil : (n : ℕ) → take {A = A} n [] ≡ []
  take_nil zero = refl
  take_nil (suc n) = refl

  take_split : (m n : ℕ) (xs : List A) → take (m + n) xs ≡ take m xs ++ take n (drop m xs)
  take_split zero n xs = rw zero-add
  take_split (suc m) n [] = rw (take_nil (suc m + n), take_nil n)
  take_split (suc m) n (x ∷ xs) = rw suc-add (rw (take_split m n xs))

  -- The first `n` pages.
  pub pages_upto : ℕ → ℕ → List A → List A
  pages_upto zero limit rows = []
  pages_upto (suc n) limit rows = pages_upto n limit rows ++ page_of (suc n) limit rows

  -- Pages 1 to `n` of a positive limit are together the first `n * limit` rows, each once and
  -- in order.
  pub pages_upto-eq-take :
      (n limit : ℕ) (rows : List A) → 0 < limit → pages_upto n limit rows ≡ take (n * limit) rows
  unfolding pages_upto page_of to_skip_take
  pages_upto-eq-take zero limit rows h = ground arith
  pages_upto-eq-take (suc n) limit rows h =
      let size : at_least_1 limit ≡ limit = ground arith in
      let before : at_least_1 (suc n) - 1 ≡ n = ground arith in
      rw (
        suc-mul,
        take_split (n * limit) limit rows,
        size,
        before,
        pages_upto-eq-take n limit rows h,
      )
