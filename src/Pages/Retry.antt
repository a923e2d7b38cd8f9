-- ===== src/Pages/Retry.antt =====
-- The tip page after a tip that failed on the chain.
use arktion_sui_overflow.Stores.Flows.{error_stage, Run, run_flow, run_flow_cases}
use arktion_sui_overflow.Prelude.{
  ℕ, refl, ◌≡◌, List, [], is_ok, false, ◌∷◌, some, arith, inl, inr, Bool-cases, subst, sym, ap, ◌∙◌,
}
use arktion_sui_overflow.Payment.Rows.{Payments, Client, TipTransaction, is_pending}
use arktion_sui_overflow.Payment.Tips.{
  build_tip_transaction, prepare_tip, TipParams, check_tip_retry, tip_by_key,
}
use arktion_sui_overflow.Pages.TipPage.{handle_submit, TipForm, to_micro_usdc, is_tip_amount}
use arktion_sui_overflow.Stores.Payments.{Setting, send_tip, tip_requests, PaymentState}
use arktion_sui_overflow.Text.{Text}

-- A build under the key of a tip that is not pending is refused, and writes nothing.
build_tip-refused :
    (client : Client) (id : ℕ) (p : TipParams) (s : Payments) (t : TipTransaction)
    → tip_by_key p.idempotency_key s.tip_transactions ≡ some t
    → is_pending t.status ≡ false
    → (is_ok (build_tip_transaction client id p s).0 ≡ false)
      × ((build_tip_transaction client id p s).1 ≡ s)
unfolding build_tip_transaction prepare_tip check_tip_retry
build_tip-refused client id p s t h k = ground (arith, h, k)

Refused : Payments → Run Payments → Type 0
Refused s out = (out.backend ≡ s) × (out.flow.stage ≡ error_stage)

flow-Refused :
    (w : Setting) (p : TipParams) (s : Payments) (t : TipTransaction)
    → tip_by_key p.idempotency_key s.tip_transactions ≡ some t
    → is_pending t.status ≡ false
    → Refused s (run_flow w.lib w.browser (tip_requests w p) s)
unfolding Refused
flow-Refused w p s t h k =
    let (bad, same) = build_tip-refused w.client w.new_id p s t h k in
    run_flow_cases (Refused s) w.lib w.browser (tip_requests w p) s (λ m. (refl, refl))
      (λ m. (refl, refl)) (λ m. (same, refl))
      (λ zk epoch built signature _ _ _ answer _. absurd (ground (arith, bad, answer)))

-- The submits of a page, one after the other, each in its setting and with the key it would draw.
unfoldable pub submit_all : ℕ → ℕ → List (Setting × ℕ) → TipForm × Payments → TipForm × Payments
unfolding handle_submit
submit_all user series [] x = x
submit_all user series ((w, fresh) ∷ ws) x =
    submit_all user series ws (handle_submit w user series fresh x.0 x.1)

-- What a form that keeps a refused key does with the next submit.
stuck_form :
    (w : Setting) (user series fresh key : ℕ) (amount : Text) (payment : PaymentState)
    (s : Payments) (t : TipTransaction)
    → tip_by_key key s.tip_transactions ≡ some t
    → is_pending t.status ≡ false
    → let out =
        handle_submit w user series fresh
          (record { amount = amount; key = some key; payment = payment })
          s in
      (out.1 ≡ s) × (out.0.key ≡ some key)
unfolding handle_submit send_tip Refused
stuck_form w user series fresh key amount payment s t k l =
    let p : TipParams = record {
      sender_id = user;
      series_id = series;
      amount_usdc = to_micro_usdc amount;
      idempotency_key = key;
    } in
    let (same, ended) = flow-Refused w p s t k l in
    elim (Bool-cases (is_tip_amount amount)) [
      | inl b ↦ (ground (arith, b, same), ground (arith, b, ended))
      | inr b ↦ (ground (arith, b), ground (arith, b))
    ]

-- Once the tip under the key that a page's form holds is confirmed or has failed, the form is stuck with
-- it: however often it is submitted, in whatever settings, the backend keeps its tables and the form
-- its key.
pub submit_all_refused :
    (user series key : ℕ) (ws : List (Setting × ℕ)) (f : TipForm) (s : Payments)
    (t : TipTransaction)
    → f.key ≡ some key
    → tip_by_key key s.tip_transactions ≡ some t
    → is_pending t.status ≡ false
    → let (f', s') = submit_all user series ws (f, s) in (s' ≡ s) × (f'.key ≡ some key)
unfolding submit_all
submit_all_refused user series key [] f s t h k l = (refl, h)
submit_all_refused user series key ((w, fresh) ∷ ws) f s t h k l =
    let out = handle_submit w user series fresh f s in
    let (same, kept) : (out.1 ≡ s) × (out.0.key ≡ some key) =
      subst
        (λ o.
          let out' =
            handle_submit w user series fresh
              (record { amount = f.amount; key = o; payment = f.payment }) s in
          (out'.1 ≡ s) × (out'.0.key ≡ some key))
        (sym h) (stuck_form w user series fresh key f.amount f.payment s t k l) in
    let (rest, kept') =
      submit_all_refused user series key ws out.0 out.1 t kept
        (ap (λ x. tip_by_key key x.tip_transactions) same ∙ k) l in
    (rest ∙ same, kept')
