-- ===== src/Catalog/Earnings.antt =====
-- `getEarnings` of creator.service.ts against the tips that were confirmed.
use arktion_sui_overflow.Prelude.{
  List, ℕ, length, ◌+◌, ◌≤◌, zero, ◌⊎◌, ◌<◌, suc, ◌≡◌, select, sum_where, true, arith, [], ◌∷◌,
  refl,
}
use arktion_sui_overflow.Catalog.Creator.{
  get_earnings, by_confirmation, insert_tip_by_time, is_confirmed_for,
}
use arktion_sui_overflow.Payment.Rows.{TipTransaction}
use arktion_sui_overflow.Pagination.{take}

abbrev pub amount_of : List TipTransaction → ℕ
amount_of = sum_where (λ t. true) (λ t. t.amount_usdc)

insert_tip_amount :
    (t : TipTransaction) (ts : List TipTransaction)
    → amount_of (insert_tip_by_time t ts) ≡ t.amount_usdc + amount_of ts
unfolding insert_tip_by_time
insert_tip_amount t [] = refl
insert_tip_amount t (u ∷ us) = ground (arith, insert_tip_amount t us)

by_confirmation_amount : (ts : List TipTransaction) → amount_of (by_confirmation ts) ≡ amount_of ts
unfolding by_confirmation
by_confirmation_amount [] = refl
by_confirmation_amount (t ∷ ts) =
    ground (arith, by_confirmation_amount ts, insert_tip_amount t (by_confirmation ts))

insert_tip_length :
    (t : TipTransaction) (ts : List TipTransaction)
    → length (insert_tip_by_time t ts) ≡ suc (length ts)
unfolding insert_tip_by_time
insert_tip_length t [] = refl
insert_tip_length t (u ∷ us) = ground (arith, insert_tip_length t us)

length-by_confirmationb : (ts : List TipTransaction) → length (by_confirmation ts) ≡ length ts
unfolding by_confirmation
length-by_confirmationb [] = refl
length-by_confirmationb (t ∷ ts) =
    ground (arith, length-by_confirmationb ts, insert_tip_length t (by_confirmation ts))

take_amount : (n : ℕ) (ts : List TipTransaction) → amount_of (take n ts) ≤ amount_of ts
take_amount zero ts = omega arith
take_amount (suc n) [] = omega arith
take_amount (suc n) (t ∷ ts) = omega (arith, take_amount n ts)

take_all : (n : ℕ) (ts : List TipTransaction) → length ts ≤ n → take n ts ≡ ts
take_all zero [] h = refl
take_all zero (t ∷ ts) h = absurd (omega arith)
take_all (suc n) [] h = refl
take_all (suc n) (t ∷ ts) h = rw (take_all n ts (omega arith)) refl

-- The total that a creator is shown is at most what the confirmed tips to them come to, and it is
-- that sum when there are at most 50 of them.
pub get_earnings_total :
    (user : ℕ) (rows : List TipTransaction)
    → let mine = select (is_confirmed_for user) rows in
      let total = (get_earnings user rows).total_usdc_received in
      (total ≤ amount_of mine) × ((50 < length mine) ⊎ (total ≡ amount_of mine))
unfolding get_earnings
get_earnings_total user rows =
    let mine = select (is_confirmed_for user) rows in
    ground (
      arith,
      take_amount 50 (by_confirmation mine),
      by_confirmation_amount mine,
      length-by_confirmationb mine,
      take_all 50 (by_confirmation mine),
    )
