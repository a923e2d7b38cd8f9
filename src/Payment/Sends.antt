-- ===== src/Payment/Sends.antt =====
-- Sends of payment.service.ts.
use arktion_sui_overflow.Prelude.{
  ok, err, ℕ, Bool, Option, throw_if, find, List, select, pure, ◌&&◌, or_throw, ltb, some, ◌>>◌,
  not, gets, ◌>>=◌, count, ◌∷◌, ◌==◌, update_where, none,
}
use arktion_sui_overflow.Payment.Rows.{
  pending, confirmed, failed, SendTransaction, Payments, below_minimum, parameters_differ,
  already_processed, sender_not_found, unique_violation, not_found, not_owner, not_pending, Client,
  Handler, min_tip_usdc, is_pending, run_signed, build_transfer,
}
use arktion_sui_overflow.Pagination.{page_of}

pub record BuildSendResult : Type 0 where
  pub send_transaction_id : ℕ
  pub tx_bytes : ℕ

pub record SendParams : Type 0 where
  pub sender_id : ℕ
  pub recipient_address : ℕ
  pub amount_usdc : ℕ
  pub idempotency_key : ℕ

abbrev pub send_by_id : ℕ → List SendTransaction → Option SendTransaction
send_by_id id = find (λ t. t.id == id)

abbrev pub send_by_key : ℕ → List SendTransaction → Option SendTransaction
send_by_key key = find (λ t. t.idempotency_key == key)

abbrev pub same_send : SendParams → SendTransaction → Bool
same_send p t =
    t.sender_id == p.sender_id
    && (t.recipient_address == p.recipient_address && t.amount_usdc == p.amount_usdc)

-- A repeated key may only rebuild a pending send with the same parameters.
unfoldable pub check_send_retry : SendParams → Option SendTransaction → Handler (Unit {0})
check_send_retry p none = pure tt
check_send_retry p (some t) =
    throw_if (not (same_send p t)) parameters_differ
    >> throw_if (not (is_pending t.status)) already_processed

-- Everything up to the insertion: the row that was found and the bytes.
pub record SendPlan : Type 0 where
  pub existing : Option SendTransaction
  pub tx_bytes : ℕ

unfoldable pub prepare_send : Client → SendParams → Handler SendPlan
prepare_send client p = do
  throw_if (ltb p.amount_usdc min_tip_usdc) below_minimum
  existing ← gets (λ s. send_by_key p.idempotency_key s.send_transactions)
  check_send_retry p existing
  sender ← gets (λ s. s.users p.sender_id)
  wallet ← or_throw sender sender_not_found
  tx_bytes ← build_transfer client wallet p.recipient_address p.amount_usdc
  pure (record { existing = existing; tx_bytes = tx_bytes })

abbrev pub new_send : ℕ → SendParams → SendTransaction
new_send id p = record {
  id = id;
  sender_id = p.sender_id;
  recipient_address = p.recipient_address;
  amount_usdc = p.amount_usdc;
  idempotency_key = p.idempotency_key;
  status = pending;
  sui_tx_digest = none;
  confirmed_at = none;
}

-- `sendTransaction.create`: the key is unique in the table. `id` is the one that the database gives.
unfoldable pub create_send : ℕ → SendParams → Handler ℕ
create_send id p s = elim (send_by_key p.idempotency_key s.send_transactions) [
  | some t ↦ (err unique_violation, s)
  | none ↦ (ok id, record s { send_transactions = new_send id p ∷ s.send_transactions })
]

-- After the unique constraint, the row that won is returned.
unfoldable pub insert_send : ℕ → SendParams → Handler ℕ
unfolding create_send
insert_send id p s =
    let (r, s') = create_send id p s in
    elim r [
      | ok new ↦ (ok new, s')
      | err unique_violation ↦ elim (send_by_key p.idempotency_key s'.send_transactions) [
        | some raced ↦ (ok raced.id, s')
        | none ↦ (err unique_violation, s')
      ]
      | err e ↦ (err e, s')
    ]

-- The rest of `buildSendTransaction`; other requests may have run since the plan was made.
unfoldable pub finish_send : ℕ → SendParams → SendPlan → Handler BuildSendResult
finish_send id p plan = do
  send ← elim plan.existing [ some t ↦ pure t.id | none ↦ insert_send id p ]
  pure (record { send_transaction_id = send; tx_bytes = plan.tx_bytes })

unfoldable pub build_send_transaction : Client → ℕ → SendParams → Handler BuildSendResult
build_send_transaction client id p = prepare_send client p >>= finish_send id p

abbrev pub set_send : ℕ → (SendTransaction → SendTransaction) → Payments → Payments
set_send id f s = record s {
  send_transactions = update_where (λ t. t.id == id) f s.send_transactions;
}

-- What the execution of the bytes comes to for the send.
unfoldable pub settle_send : Client → ℕ → ℕ → ℕ → ℕ → Handler ℕ
unfolding run_signed
settle_send client id tx_bytes signature now s = elim (run_signed client tx_bytes signature) [
  | err e ↦ (err e, set_send id (λ t. record t { status = failed }) s)
  | ok digest ↦ (
    ok digest,
    set_send id
        (λ t. record t { status = confirmed; sui_tx_digest = some digest; confirmed_at = some now })
        s,
  )
]

unfoldable pub submit_send : Client → ℕ → ℕ → ℕ → ℕ → ℕ → Handler ℕ
unfolding settle_send
submit_send client sender id tx_bytes signature now = do
  found ← gets (λ s. send_by_id id s.send_transactions)
  send ← or_throw found not_found
  throw_if (not (send.sender_id == sender)) not_owner
  throw_if (not (is_pending send.status)) not_pending
  settle_send client id tx_bytes signature now

-- `getSendHistory`; the newest sends come first.
unfoldable pub get_send_history : ℕ → ℕ → ℕ → Handler (List SendTransaction × ℕ)
get_send_history user page limit = gets (λ s.
    let mine : SendTransaction → Bool = λ t. t.sender_id == user in
    (page_of page limit (select mine s.send_transactions), count mine s.send_transactions))
