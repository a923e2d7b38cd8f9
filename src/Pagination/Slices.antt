-- ===== src/Pagination/Slices.antt =====
-- `take` and `drop` of lists.
use arktion_sui_overflow.Prelude.{
  ℕ, refl, arith, [], length, suc, ◌≡◌, min, ◌∷◌, ◌≤◌, zero, List, ◌+◌, ◌-◌,
}
use arktion_sui_overflow.Pagination.{take, drop, [], List}
use native.Mathlib.Nat.{zero-add, suc-add}

module _ {ℓ} {A : Type ℓ} where
  pub drop_nil : (n : ℕ) → drop {A = A} n [] ≡ []
  drop_nil zero = refl
  drop_nil (suc n) = refl

  pub drop_add : (m n : ℕ) (xs : List A) → drop (m + n) xs ≡ drop n (drop m xs)
  drop_add zero n xs = rw zero-add
  drop_add (suc m) n [] = rw (drop_nil (suc m + n), drop_nil n)
  drop_add (suc m) n (x ∷ xs) = rw suc-add (drop_add m n xs)

  pub length-drop : (n : ℕ) (xs : List A) → length (drop n xs) ≡ length xs - n
  length-drop zero xs = ground arith
  length-drop (suc n) [] = ground arith
  length-drop (suc n) (x ∷ xs) = ground (arith, length-drop n xs)

  pub length-take : (n : ℕ) (xs : List A) → length (take n xs) ≡ min n (length xs)
  length-take zero xs = ground arith
  length-take (suc n) [] = ground arith
  length-take (suc n) (x ∷ xs) = ground (arith, length-take n xs)

  pub drop-length : (n : ℕ) (xs : List A) → drop (length (take n xs)) xs ≡ drop n xs
  drop-length zero xs = refl
  drop-length (suc n) [] = refl
  drop-length (suc n) (x ∷ xs) = drop-length n xs

pub drop_all {ℓ} : {A : Type ℓ} (n : ℕ) (xs : List A) → length xs ≤ n → drop n xs ≡ []
drop_all zero [] h = refl
drop_all zero (x ∷ xs) h = ground arith
drop_all (suc n) [] h = refl
drop_all (suc n) (x ∷ xs) h = ground (arith, drop_all n xs)
