-- ===== src/Pages/Amounts.antt =====
-- The amount of a tip, from the text of the page to the backend's minimum.
use arktion_sui_overflow.Prelude.{
  ℕ, length, zero, refl, ◌≡◌, ◌*◌, ◌∷◌, ◌+◌, suc, ◌++◌, ◌-◌, [], ◌≤◌, arith, leb, List, true,
}
use arktion_sui_overflow.Payment.Rows.{min_tip_usdc}
use arktion_sui_overflow.Text.{Text, split}
use arktion_sui_overflow.Pages.TipPage.{
  digits_value, zeros, ten_to, six_decimals, whole_of, decimals_of, to_micro_usdc, has_form,
  is_tip_amount,
}
use arktion_sui_overflow.Pagination.{take}

digits_value-append :
    (n : ℕ) (s t : Text) → digits_value n (s ++ t) ≡ digits_value (digits_value n s) t
digits_value-append n [] t = refl
digits_value-append n (c ∷ s) t = digits_value-append (10 * n + (c - b'0')) s t

digits_value-zeros : (n k : ℕ) → digits_value n (zeros k) ≡ n * ten_to k
digits_value-zeros n zero = ground arith
digits_value-zeros n (suc k) = ground (arith, digits_value-zeros (10 * n + 0) k)

take_all : (k : ℕ) (s : Text) → length s ≤ k → take k s ≡ s
take_all zero [] h = refl
take_all zero (c ∷ s) h = ground arith
take_all (suc k) [] h = refl
take_all (suc k) (c ∷ s) h = ground (arith, take_all k s)

length-zeros : (d : Text) (n : ℕ) → length (d ++ zeros n) ≡ length d + n
length-zeros [] zero = refl
length-zeros [] (suc n) = ground (arith, length-zeros [] n)
length-zeros (c ∷ d) n = ground (arith, length-zeros d n)

scaled :
    (k n : ℕ)
    → k ≤ 6
    → (ten_to k * (n * ten_to (6 - k)) ≡ 1000000 * n)
      × (leb (ten_to k) (100 * n) ≡ leb min_tip_usdc (n * ten_to (6 - k)))
scaled zero n h = (ground arith, ground arith)
scaled (suc zero) n h = (ground arith, ground arith)
scaled (suc (suc zero)) n h = (ground arith, ground arith)
scaled (suc (suc (suc zero))) n h = (ground arith, ground arith)
scaled (suc (suc (suc (suc zero)))) n h = (ground arith, ground arith)
scaled (suc (suc (suc (suc (suc zero))))) n h = (ground arith, ground arith)
scaled (suc (suc (suc (suc (suc (suc zero)))))) n h = (ground arith, ground arith)
scaled (suc (suc (suc (suc (suc (suc (suc k))))))) n h = absurd (ground arith)

has_form-decimals : (parts : List Text) → has_form parts ≡ true → length (decimals_of parts) ≤ 6
has_form-decimals [] h = ground arith
has_form-decimals (w ∷ []) h = ground arith
has_form-decimals (w ∷ d ∷ []) h = ground arith
has_form-decimals (w ∷ d ∷ x ∷ ps) h = absurd (ground arith)

micro_value :
    (whole d : Text)
    → length d ≤ 6
    → digits_value 0 (whole ++ six_decimals d)
      ≡ digits_value (digits_value 0 whole) d * ten_to (6 - length d)
micro_value whole d h = rw (
  take_all 6 (d ++ zeros (6 - length d)) (ground (arith, length-zeros d (6 - length d))),
  digits_value-append 0 whole (d ++ zeros (6 - length d)),
  digits_value-append (digits_value 0 whole) d (zeros (6 - length d)),
  digits_value-zeros (digits_value (digits_value 0 whole) d) (6 - length d),
)

-- The digits of a text as one number, without its point.
pub numerator : Text → ℕ
numerator v =
    let parts = split b'.' v in digits_value (digits_value 0 (whole_of parts)) (decimals_of parts)

-- The power of ten over which its point puts them.
pub denominator : Text → ℕ
denominator v = ten_to (length (decimals_of (split b'.' v)))

-- For a text of digits with up to six decimals, toMicroUsdc is its value in millionths, without a loss;
-- and the page takes the amount exactly if the backend's minimum for tips does.
pub to_micro_usdc_value :
    (v : Text)
    → has_form (split b'.' v) ≡ true
    → (denominator v * to_micro_usdc v ≡ 1000000 * numerator v)
      × (is_tip_amount v ≡ leb min_tip_usdc (to_micro_usdc v))
unfolding to_micro_usdc is_tip_amount numerator denominator
to_micro_usdc_value v h =
    let parts : List Text = split b'.' v in
    let d : Text = decimals_of parts in
    let few = has_form-decimals parts h in
    let n : ℕ = digits_value (digits_value 0 (whole_of parts)) d in
    ground (arith, h, micro_value (whole_of parts) d few, scaled (length d) n few)
