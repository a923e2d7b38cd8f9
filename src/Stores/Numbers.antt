-- ===== src/Stores/Numbers.antt =====
-- What the stores do with numbers, which are doubles and may be negative. They stay below 2 ^ 53, so that
-- whole numbers are exact; a quotient is rounded as IEEE 754 rounds it.
use arktion_sui_overflow.Prelude.{
  ℕ, ◌+◌, if◌then◌else◌, ◌*◌, ◌/◌, suc, Bool, ◌-◌, ◌==◌, ltb, leb, zero, false, true, not, ◌%◌,
}

pub data ℤ : Type 0 where
  pos : ℕ → ℤ
  negsuc : ℕ → ℤ

abbrev pub add_nat : ℤ → ℕ → ℤ
add_nat (pos m) n = pos (m + n)
add_nat (negsuc m) n = if ltb m n then pos (n - m - 1) else negsuc (m - n)

abbrev pub sub_nat : ℤ → ℕ → ℤ
sub_nat (pos m) n = if leb n m then pos (m - n) else negsuc (n - m - 1)
sub_nat (negsuc m) n = negsuc (m + n)

infixl 30 ◌+ℤ◌
abbrev pub ◌+ℤ◌ : ℤ → ℤ → ℤ
a +ℤ pos n = add_nat a n
a +ℤ negsuc n = sub_nat a (n + 1)

abbrev pub times : ℕ → ℤ → ℤ
times k (pos m) = pos (k * m)
times k (negsuc m) = if k == 0 then pos 0 else negsuc (k * (m + 1) - 1)

-- The greatest whole number below `a / n`, for a positive `n`.
abbrev pub floor_div : ℤ → ℕ → ℤ
floor_div (pos a) n = pos (a / n)
floor_div (negsuc a) n = negsuc (a / n)

abbrev pub negate : ℤ → ℤ
negate (pos zero) = pos zero
negate (pos (suc n)) = negsuc n
negate (negsuc n) = pos (suc n)

-- `Math.round(a / t)`, which rounds a half up, for a `t` that is not zero.
abbrev pub round_div : ℤ → ℤ → ℤ
round_div a (pos t) = floor_div (add_nat (times 2 a) t) (2 * t)
round_div a (negsuc t) = floor_div (add_nat (times 2 (negate a)) (t + 1)) (2 * (t + 1))

abbrev pub is_zero : ℤ → Bool
is_zero (pos n) = n == 0
is_zero (negsuc n) = false

abbrev pub is_negative : ℤ → Bool
is_negative (pos n) = false
is_negative (negsuc n) = true

abbrev pub magnitude : ℤ → ℕ
magnitude (pos n) = n
magnitude (negsuc n) = n + 1

-- `n / d` to the nearest whole number, and to the even one of two that are as near.
unfoldable pub round_even : ℕ → ℕ → ℕ
round_even n d =
    let q = n / d in
    let r = 2 * (n % d) in
    if ltb r d then q else if ltb d r then q + 1 else if q % 2 == 0 then q else q + 1

unfoldable pub power_of_two : ℕ → ℕ
power_of_two zero = 1
power_of_two (suc n) = 2 * power_of_two n

-- The least `e` with 2 ^ 52 <= a * 2 ^ e / t. For a and t from 1 up to 2 ^ 53 it is at most 105.
unfoldable pub scale : ℕ → ℕ → ℕ → ℕ
scale zero a t = 0
scale (suc fuel) a t =
    let more = scale fuel (2 * a) t in if leb (4503599627370496 * t) a then 0 else 1 + more

-- The double `(a / t) * 1000` as a fraction: the quotient has 53 bits, and so has its product with
-- 1000, which is rounded in units of 2 ^ 9 or 2 ^ 10.
unfoldable pub thousandfold : ℕ → ℕ → ℕ × ℕ
unfolding round_even power_of_two scale
thousandfold a t =
    let e = scale 110 a t in
    let product = 1000 * round_even (a * power_of_two e) t in
    let unit = if ltb product 4611686018427387904 then 512 else 1024 in
    (round_even product unit * unit, power_of_two e)

-- `Math.round((a / t) * 1000)`
unfoldable pub round_permille : ℤ → ℤ → ℤ
unfolding thousandfold
round_permille a t =
    let (n, d) = thousandfold (magnitude a) (magnitude t) in
    let opposite = if is_negative a then not (is_negative t) else is_negative t in
    round_div (if opposite then negate (pos n) else pos n) (pos d)
