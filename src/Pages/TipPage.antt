-- ===== src/Pages/TipPage.antt =====
-- app/(protected)/(reader)/tip/[seriesId]/page.tsx: the amount of a tip, and the key of an attempt.
use arktion_sui_overflow.Prelude.{
  ℕ, Bool, List, ◌∷◌, suc, [], ◌++◌, Option, none, or_else, ◌*◌, zero, true, if◌then◌else◌, leb,
  ◌+◌, length, ◌&&◌, some, ◌-◌, false,
}
use arktion_sui_overflow.Stores.Flows.{success, FlowStage}
use arktion_sui_overflow.Payment.Rows.{Payments}
use arktion_sui_overflow.Text.{Text, split}
use arktion_sui_overflow.Stores.Payments.{Setting, PaymentState, send_tip}
use arktion_sui_overflow.Pagination.{take}

abbrev pub is_digit : ℕ → Bool
is_digit c = leb b'0' c && leb c b'9'

abbrev pub all_digits : Text → Bool
all_digits [] = true
all_digits (c ∷ s) = is_digit c && all_digits s

-- `\d+`
abbrev pub is_number : Text → Bool
is_number [] = false
is_number (c ∷ s) = is_digit c && all_digits s

-- `/^\d+(\.\d{1,6})?$/`
abbrev pub has_form : List Text → Bool
has_form (whole ∷ []) = is_number whole
has_form (whole ∷ decimals ∷ []) =
    is_number whole && (is_number decimals && leb (length decimals) 6)
has_form _ = false

-- The value of a text of digits that follows on a number.
abbrev pub digits_value : ℕ → Text → ℕ
digits_value n [] = n
digits_value n (c ∷ s) = digits_value (10 * n + (c - b'0')) s

abbrev pub ten_to : ℕ → ℕ
ten_to zero = 1
ten_to (suc n) = 10 * ten_to n

-- `const [whole, decimals = ''] = usdc.split('.')`
abbrev pub whole_of : List Text → Text
whole_of [] = []
whole_of (w ∷ ps) = w

abbrev pub decimals_of : List Text → Text
decimals_of (w ∷ d ∷ ps) = d
decimals_of _ = []

-- `parseFloat(v) >= 0.01`: the digits as a number, over a power of ten.
abbrev pub is_least : Text → Text → Bool
is_least whole decimals =
    leb (ten_to (length decimals)) (100 * digits_value (digits_value 0 whole) decimals)

-- `TipSchema`
unfoldable pub is_tip_amount : Text → Bool
unfolding split
is_tip_amount v =
    let parts = split b'.' v in has_form parts && is_least (whole_of parts) (decimals_of parts)

abbrev pub zeros : ℕ → Text
zeros zero = []
zeros (suc n) = b'0' ∷ zeros n

-- `decimals.padEnd(6, '0').slice(0, 6)`
abbrev pub six_decimals : Text → Text
six_decimals d = take 6 (d ++ zeros (6 - length d))

-- `toMicroUsdc`
unfoldable pub to_micro_usdc : Text → ℕ
unfolding split
to_micro_usdc v =
    let parts = split b'.' v in digits_value 0 (whole_of parts ++ six_decimals (decimals_of parts))

-- The page: the text of the amount, and `idempotencyKeyRef`.
pub record TipForm : Type 0 where
  pub amount : Text
  pub key : Option ℕ
  pub payment : PaymentState

-- `handlePreset`, and a change of the amount's field.
unfoldable pub set_amount : Text → TipForm → TipForm
set_amount v f = record f { amount = v; key = none }

abbrev pub is_success : FlowStage → Bool
is_success success = true
is_success _ = false

-- `handleSubmit`, with the key that `makeIdempotencyKey` would draw.
unfoldable pub handle_submit : Setting → ℕ → ℕ → ℕ → TipForm → Payments → TipForm × Payments
unfolding is_tip_amount to_micro_usdc
handle_submit w user series fresh f s =
    if is_tip_amount f.amount
    then (let key = or_else f.key fresh in
        let (payment, s') =
          send_tip w
            (record {
              sender_id = user;
              series_id = series;
              amount_usdc = to_micro_usdc f.amount;
              idempotency_key = key;
            })
            f.payment s in
        (
          record f {
            payment = payment;
            key = if is_success payment.tip.stage then none else some key;
          },
          s',
        ))
    else (f, s)
