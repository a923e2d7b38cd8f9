-- ===== src/Payment/Building.antt =====
-- `buildTipTransaction` of payment.service.ts: the rows it makes, one for each idempotency key.
use arktion_sui_overflow.Payment.Rows.{
  confirmed, failed, TipTransaction, Payments, Client, is_pending, run_signed, min_tip_usdc,
  build_transfer, PaymentError,
}
use Prim.Native.Nat.{ℕ}
use arktion_sui_overflow.Prelude.{
  update_where, ◌≢◌, ℕ, count, none, false, some, ◌∷◌, inl, ◌≤◌, refl, inr, ◌==◌, ◌&&◌, arith,
  is_ok, Result-cases, ◌≡◌, ok, List, [], true, Option-cases, Result, Option, err, Bool, ◌∙◌, ap,
}
use arktion_sui_overflow.Payment.Tips.{
  finish_tip, build_tip_transaction, confirm_tip, tip_by_key, insert_tip, settle_tip, prepare_tip,
  TipParams, create_tip, BuildTipResult, TipPlan, check_tip_retry, tip_receiver, same_tip, new_tip,
}

-- How many tips have the key.
abbrev pub tips_with : ℕ → List TipTransaction → ℕ
tips_with key = count (λ t. t.idempotency_key == key)

tips_with-none :
    (key : ℕ) (rows : List TipTransaction) → tip_by_key key rows ≡ none → tips_with key rows ≡ 0
tips_with-none key [] h = refl
tips_with-none key (t ∷ ts) h = ground (arith, tips_with-none key ts)

tips_with-update :
    (key id : ℕ) (f : TipTransaction → TipTransaction) (rows : List TipTransaction)
    → ((t : TipTransaction) → (f t).idempotency_key ≡ t.idempotency_key)
    → tips_with key (update_where (λ t. t.id == id) f rows) ≡ tips_with key rows
tips_with-update key id f [] keeps = refl
tips_with-update key id f (t ∷ ts) keeps =
    ground (arith, keeps t, tips_with-update key id f ts keeps)

-- No two tips have one idempotency key.
pub record IsKeyed (s : Payments) : Type 0 where
  pub one_each : (key : ℕ) → tips_with key s.tip_transactions ≤ 1

-- The second half of buildTipTransaction keeps the keys apart in whatever state it finds, so also
-- when other requests ran since the first half looked the key up.
pub finish_tip-IsKeyed :
    (id : ℕ) (p : TipParams) (plan : TipPlan) (s : Payments)
    → IsKeyed s
    → IsKeyed (finish_tip id p plan s).1
unfolding finish_tip insert_tip create_tip
finish_tip-IsKeyed id p plan s k = record {
  one_each = λ key. ground (arith, k.one_each key, tips_with-none key s.tip_transactions);
}

-- confirmTip keeps the keys apart.
pub confirm_tip-IsKeyed :
    (client : Client) (sender id tx_bytes signature now : ℕ) (s : Payments)
    → IsKeyed s
    → IsKeyed (confirm_tip client sender id tx_bytes signature now s).1
unfolding confirm_tip settle_tip
confirm_tip-IsKeyed client sender id tx_bytes signature now s k = record {
  one_each = λ key. elim (Result-cases (run_signed client tx_bytes signature)) [
    | inl (digest, e) ↦ ground (
      arith,
      e,
      k.one_each key,
      tips_with-update key id
          (λ t. record t {
            status = confirmed;
            sui_tx_digest = some digest;
            confirmed_at = some now;
          })
          s.tip_transactions (λ t. refl),
    )
    | inr (x, e) ↦ ground (
      arith,
      e,
      k.one_each key,
      tips_with-update key id (λ t. record t { status = failed }) s.tip_transactions (λ t. refl),
    )
  ];
}

-- What the first half checks, and that it writes nothing.
pub prepare_tip_ok :
    (client : Client) (p : TipParams) (s : Payments) (plan : TipPlan)
    → (prepare_tip client p s).0 ≡ ok plan
    → ((prepare_tip client p s).1 ≡ s)
      × (plan.existing ≡ tip_by_key p.idempotency_key s.tip_transactions)
      × (min_tip_usdc ≤ p.amount_usdc)
      × (is_ok (check_tip_retry p plan.existing s).0 ≡ true)
      × (s.series p.series_id ≢ some (some p.sender_id))
unfolding prepare_tip tip_receiver check_tip_retry build_transfer
prepare_tip_ok client p s plan o = ground (arith, o)

pub build_tip_transaction-finish :
    (client : Client) (id : ℕ) (p : TipParams) (s : Payments) (plan : TipPlan)
    → (prepare_tip client p s).0 ≡ ok plan
    → (prepare_tip client p s).1 ≡ s
    → build_tip_transaction client id p s ≡ finish_tip id p plan s
unfolding build_tip_transaction
build_tip_transaction-finish client id p s plan o same =
    go (prepare_tip client p s).0 o ∙ ap (finish_tip id p plan) same
  where
    go :
        (r : Result PaymentError TipPlan)
        → r ≡ ok plan
        → let out : Result PaymentError BuildTipResult × Payments = elim r [
          | ok a ↦ finish_tip id p a (prepare_tip client p s).1
          | err e ↦ (err e, (prepare_tip client p s).1)
        ] in
          out ≡ finish_tip id p plan (prepare_tip client p s).1
    go r h = rw h refl

pub finish_tip_row :
    (id : ℕ) (p : TipParams) (plan : TipPlan) (s : Payments)
    → plan.existing ≡ tip_by_key p.idempotency_key s.tip_transactions
    → is_ok (check_tip_retry p plan.existing s).0 ≡ true
    → (t : TipTransaction) × (tip_by_key p.idempotency_key
          (finish_tip id p plan s).1.tip_transactions
        ≡ some t)
      × (same_tip p t ≡ true)
      × (is_pending t.status ≡ true)
      × ((finish_tip id p plan s).0
          ≡ ok (record { tip_transaction_id = t.id; tx_bytes = plan.tx_bytes }))
unfolding finish_tip insert_tip create_tip check_tip_retry
finish_tip_row id p plan s e c =
    elim (Option-cases (tip_by_key p.idempotency_key s.tip_transactions)) [
      | inl n ↦ (
        new_tip id p plan.receiver,
        ground (arith, n),
        ground (arith, n),
        ground (arith, n),
        ground (arith, n),
      )
      | inr (t, n) ↦ (t, ground (arith, n), ground (arith, n), ground (arith, n), ground (arith, n))
    ]

-- The row that was found has these parameters, and is pending.
unfoldable pub is_open_tip : TipParams → Option TipTransaction → Bool
is_open_tip p none = false
is_open_tip p (some t) = same_tip p t && is_pending t.status

pub build_tip_transaction-refused :
    (client : Client) (id : ℕ) (p : TipParams) (s : Payments) (x : PaymentError)
    → (prepare_tip client p s).0 ≡ err x
    → is_ok (build_tip_transaction client id p s).0 ≡ true
    → ⊥
unfolding build_tip_transaction
build_tip_transaction-refused client id p s x e o = ground (arith, e)
