-- ===== src/Payment/Settling.antt =====
-- `confirmTip` of payment.service.ts: what becomes of the rows.
use mathlib.Core.Option
use arktion_sui_overflow.Payment.Rows.{
  confirmed, failed, TipTransaction, Payments, Client, is_pending, run_signed,
}
use arktion_sui_overflow.Prelude.{
  some, if◌then◌else◌, update_where, false, List, ◌∷◌, ◌&&◌, ◌==◌, refl, ℕ, ◌≡◌, arith, [], inl,
  Result-cases, inr,
}
use arktion_sui_overflow.Payment.Tips.{confirm_tip, tip_by_id, settle_tip}

-- What is found of a row once a row is changed.
pub find-set_tip :
    (j id : ℕ) (f : TipTransaction → TipTransaction) (rows : List TipTransaction)
    → ((t : TipTransaction) → (f t).id ≡ t.id)
    → tip_by_id j (update_where (λ t. t.id == id) f rows)
      ≡ (if j == id then Option.map f (tip_by_id j rows) else tip_by_id j rows)
find-set_tip j id f [] keeps = ground arith
find-set_tip j id f (t ∷ ts) keeps = ground (arith, keeps t, find-set_tip j id f ts keeps)

-- confirmTip leaves the row of every other tip as it was, and that of its own tip if it is not
-- pending.
pub confirm_tip_final :
    (client : Client) (sender id tx_bytes signature now j : ℕ) (t : TipTransaction) (s : Payments)
    → tip_by_id j s.tip_transactions ≡ some t
    → ((j == id) && is_pending t.status) ≡ false
    → tip_by_id j (confirm_tip client sender id tx_bytes signature now s).1.tip_transactions
      ≡ some t
unfolding confirm_tip settle_tip
confirm_tip_final client sender id tx_bytes signature now j t s h k =
    elim (Result-cases (run_signed client tx_bytes signature)) [
      | inl (digest, e) ↦ ground (
        arith,
        e,
        find-set_tip j id
            (λ t. record t {
              status = confirmed;
              sui_tx_digest = some digest;
              confirmed_at = some now;
            })
            s.tip_transactions (λ t. refl),
      )
      | inr (x, e) ↦ ground (
        arith,
        e,
        find-set_tip j id (λ t. record t { status = failed }) s.tip_transactions (λ t. refl),
      )
    ]
