-- ===== src/Payment/Tips.antt =====
-- Tips of payment.service.ts.
use arktion_sui_overflow.Prelude.{
  ok, err, throw_if, find, List, ℕ, select, ◌&&◌, pure, or_throw, ltb, some, ◌>>◌, not, gets,
  Option, ◌>>=◌, count, ◌∷◌, if◌then◌else◌, Bool, ◌==◌, update_where, none,
}
use arktion_sui_overflow.Payment.Rows.{
  pending, confirmed, failed, TipTransaction, Payments, below_minimum, parameters_differ,
  already_processed, sender_not_found, series_not_found, no_creator, own_series, unique_violation,
  not_found, not_owner, not_pending, Client, Handler, min_tip_usdc, is_pending, run_signed,
  build_transfer,
}
use arktion_sui_overflow.Prelude.{
  update_where, ltb, some, ◌&&◌, if◌then◌else◌, not, ◌>>◌, ◌==◌, find, ℕ, gets, Option, ok, err,
  none, Bool, ◌∷◌, count, or_throw, pure, select, List, ◌>>=◌, throw_if,
}
use arktion_sui_overflow.Pagination.{page_of}

pub record BuildTipResult : Type 0 where
  pub tip_transaction_id : ℕ
  pub tx_bytes : ℕ

pub record TipParams : Type 0 where
  pub sender_id : ℕ
  pub series_id : ℕ
  pub amount_usdc : ℕ
  pub idempotency_key : ℕ

abbrev pub tip_by_id : ℕ → List TipTransaction → Option TipTransaction
tip_by_id id = find (λ t. t.id == id)

abbrev pub tip_by_key : ℕ → List TipTransaction → Option TipTransaction
tip_by_key key = find (λ t. t.idempotency_key == key)

abbrev pub same_tip : TipParams → TipTransaction → Bool
same_tip p t =
    t.sender_id == p.sender_id && (t.series_id == p.series_id && t.amount_usdc == p.amount_usdc)

-- A repeated key may only rebuild a pending tip with the same parameters.
unfoldable pub check_tip_retry : TipParams → Option TipTransaction → Handler (Unit {0})
check_tip_retry p none = pure tt
check_tip_retry p (some t) =
    throw_if (not (same_tip p t)) parameters_differ
    >> throw_if (not (is_pending t.status)) already_processed

-- The creator who is paid, with their wallet.
unfoldable pub tip_receiver : TipParams → Handler (ℕ × ℕ)
tip_receiver p = do
  found ← gets (λ s. s.series p.series_id)
  series ← or_throw found series_not_found
  creator ← or_throw series no_creator
  known ← gets (λ s. s.users creator)
  wallet ← or_throw known no_creator
  throw_if (creator == p.sender_id) own_series
  pure (creator, wallet)

-- Everything up to the insertion: the row that was found, the receiver and the bytes.
pub record TipPlan : Type 0 where
  pub existing : Option TipTransaction
  pub receiver : ℕ
  pub tx_bytes : ℕ

unfoldable pub prepare_tip : Client → TipParams → Handler TipPlan
prepare_tip client p = do
  throw_if (ltb p.amount_usdc min_tip_usdc) below_minimum
  existing ← gets (λ s. tip_by_key p.idempotency_key s.tip_transactions)
  check_tip_retry p existing
  sender ← gets (λ s. s.users p.sender_id)
  wallet ← or_throw sender sender_not_found
  (creator, creator_wallet) ← tip_receiver p
  tx_bytes ← build_transfer client wallet creator_wallet p.amount_usdc
  pure (record { existing = existing; receiver = creator; tx_bytes = tx_bytes })

abbrev pub new_tip : ℕ → TipParams → ℕ → TipTransaction
new_tip id p receiver = record {
  id = id;
  sender_id = p.sender_id;
  receiver_id = receiver;
  series_id = p.series_id;
  amount_usdc = p.amount_usdc;
  idempotency_key = p.idempotency_key;
  status = pending;
  sui_tx_digest = none;
  confirmed_at = none;
}

-- `tipTransaction.create`: the key is unique in the table. `id` is the one that the database gives.
unfoldable pub create_tip : ℕ → TipParams → ℕ → Handler ℕ
create_tip id p receiver s = elim (tip_by_key p.idempotency_key s.tip_transactions) [
  | some t ↦ (err unique_violation, s)
  | none ↦ (ok id, record s { tip_transactions = new_tip id p receiver ∷ s.tip_transactions })
]

-- After the unique constraint, the row that won is returned.
unfoldable pub insert_tip : ℕ → TipParams → ℕ → Handler ℕ
unfolding create_tip
insert_tip id p receiver s =
    let (r, s') = create_tip id p receiver s in
    elim r [
      | ok new ↦ (ok new, s')
      | err unique_violation ↦ elim (tip_by_key p.idempotency_key s'.tip_transactions) [
        | some raced ↦ (ok raced.id, s')
        | none ↦ (err unique_violation, s')
      ]
      | err e ↦ (err e, s')
    ]

-- The rest of `buildTipTransaction`; other requests may have run since the plan was made.
unfoldable pub finish_tip : ℕ → TipParams → TipPlan → Handler BuildTipResult
finish_tip id p plan = do
  tip ← elim plan.existing [ some t ↦ pure t.id | none ↦ insert_tip id p plan.receiver ]
  pure (record { tip_transaction_id = tip; tx_bytes = plan.tx_bytes })

unfoldable pub build_tip_transaction : Client → ℕ → TipParams → Handler BuildTipResult
build_tip_transaction client id p = prepare_tip client p >>= finish_tip id p

abbrev pub set_tip : ℕ → (TipTransaction → TipTransaction) → Payments → Payments
set_tip id f s = record s { tip_transactions = update_where (λ t. t.id == id) f s.tip_transactions }

-- What the client's report on the execution of the bytes does to the tip: an exception marks it failed
-- too, although the bytes may have been executed.
unfoldable pub settle_tip : Client → ℕ → ℕ → ℕ → ℕ → Handler ℕ
unfolding run_signed
settle_tip client id tx_bytes signature now s = elim (run_signed client tx_bytes signature) [
  | err e ↦ (err e, set_tip id (λ t. record t { status = failed }) s)
  | ok digest ↦ (
    ok digest,
    set_tip id
        (λ t. record t { status = confirmed; sui_tx_digest = some digest; confirmed_at = some now })
        s,
  )
]

unfoldable pub confirm_tip : Client → ℕ → ℕ → ℕ → ℕ → ℕ → Handler ℕ
unfolding settle_tip
confirm_tip client sender id tx_bytes signature now = do
  found ← gets (λ s. tip_by_id id s.tip_transactions)
  tip ← or_throw found not_found
  throw_if (not (tip.sender_id == sender)) not_owner
  throw_if (not (is_pending tip.status)) not_pending
  settle_tip client id tx_bytes signature now

-- `getTipHistory`; the newest tips come first.
unfoldable pub get_tip_history : ℕ → Bool → ℕ → ℕ → Handler (List TipTransaction × ℕ)
get_tip_history user sent page limit = gets (λ s.
    let mine : TipTransaction → Bool = λ t. (if sent then t.sender_id else t.receiver_id) == user in
    (page_of page limit (select mine s.tip_transactions), count mine s.tip_transactions))
