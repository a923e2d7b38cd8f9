-- ===== src/Stores/Paid.antt =====
-- What a tip's flow shows, and what the backend has recorded of the tip.
use arktion_sui_overflow.Stores.Flows.{
  success, error_stage, FlowStage, stopped_run, arriving, answer_of, Built, run_flow_cases,
}
use arktion_sui_overflow.Prelude.{
  ℕ, ok, err, List, ◌≤◌, arith, true, ◌≡◌, ◌==◌, some, [], ◌∷◌, update_where, Option, Bool, sym,
  inl, ap, inr, false, Result-cases, ◌∙◌, bind-keeps, Result, subst, refl, is_ok, ◌⊎◌,
}
use arktion_sui_overflow.Payment.Rows.{
  Payments, Client, PaymentError, TipTransaction, confirmed, run_signed, failed, build_transfer,
}
use arktion_sui_overflow.Stores.Payments.{Setting, tip_requests, built_tip, send_tip, PaymentState}
use arktion_sui_overflow.Payment.Settling.{find-set_tip}
use arktion_sui_overflow.Payment.Tips.{
  TipParams, tip_by_key, same_tip, confirm_tip, BuildTipResult, settle_tip, build_tip_transaction,
  set_tip, prepare_tip, tip_receiver, finish_tip, check_tip_retry, insert_tip, create_tip, TipPlan,
  tip_by_id,
}
use arktion_sui_overflow.Stores.Signing.{StoredZkState}
use arktion_sui_overflow.Stores.Flows.{Run, submitted_run}
use arktion_sui_overflow.Payment.Building.{
  prepare_tip_ok, finish_tip_row, build_tip_transaction-finish, build_tip_transaction-refused,
}
use arktion_sui_overflow.Catalog.MangaDex.{failed}

abbrev confirm_row : ℕ → ℕ → TipTransaction → TipTransaction
confirm_row digest now t = record t {
  status = confirmed;
  sui_tx_digest = some digest;
  confirmed_at = some now;
}

confirm_tip_ok :
    (client : Client) (sender id tx_bytes signature now digest : ℕ) (s : Payments)
    → (confirm_tip client sender id tx_bytes signature now s).0 ≡ ok digest
    → (confirm_tip client sender id tx_bytes signature now s).1
      ≡ set_tip id (confirm_row digest now) s
unfolding confirm_tip settle_tip
confirm_tip_ok client sender id tx_bytes signature now digest s h =
    elim (Result-cases (run_signed client tx_bytes signature)) [
      | inl (d, e) ↦ ground (arith, e, h)
      | inr (x, e) ↦ ground (arith, e, h)
    ]

find-by_key-set :
    (key id digest now : ℕ) (rows : List TipTransaction) (t : TipTransaction)
    → tip_by_key key rows ≡ some t
    → t.id ≡ id
    → tip_by_key key (update_where (λ x. x.id == id) (confirm_row digest now) rows)
      ≡ some (confirm_row digest now t)
find-by_key-set key id digest now [] t h k = ground (arith, h)
find-by_key-set key id digest now (x ∷ xs) t h k =
    ground (arith, h, k, find-by_key-set key id digest now xs t)

-- The row of a tip that is built, found under its key.
built_row :
    (client : Client) (id : ℕ) (p : TipParams) (s : Payments) (r : BuildTipResult)
    → (build_tip_transaction client id p s).0 ≡ ok r
    → (t : TipTransaction) × (tip_by_key p.idempotency_key
          (build_tip_transaction client id p s).1.tip_transactions
        ≡ some t)
      × (same_tip p t ≡ true)
      × (t.id ≡ r.tip_transaction_id)
built_row client id p s r o = elim (Result-cases (prepare_tip client p s).0) [
  | inl (plan, e) ↦
      let (same, found, least, retry, other) = prepare_tip_ok client p s plan e in
      let (t, at_key, params, open_, answer) = finish_tip_row id p plan s found retry in
      let built = build_tip_transaction-finish client id p s plan e same in
      (
        t,
        ap (λ x. tip_by_key p.idempotency_key x.1.tip_transactions) built ∙ at_key,
        params,
        ground (arith, sym o ∙ (ap (λ x. x.0) built ∙ answer)),
      )
  | inr (x, e) ↦ absurd (build_tip_transaction-refused client id p s x e (ground (arith, o)))
]

-- The signing session covers the epoch, and the tip under the request's key is confirmed with the digest:
-- it has the request's sender, series and amount.
pub record IsPaid (w : Setting) (p : TipParams) (digest : Option ℕ) (s : Payments) : Type 0 where
  pub zk : StoredZkState
  pub epoch : ℕ
  pub row : TipTransaction
  pub signed : w.browser.zk_proof ≡ some zk
  pub current : w.epoch ≡ ok epoch
  pub covered : epoch ≤ zk.max_epoch
  pub found : tip_by_key p.idempotency_key s.tip_transactions ≡ some row
  pub same : same_tip p row ≡ true
  pub settled : row.status ≡ confirmed
  pub recorded : row.sui_tx_digest ≡ digest

-- A tip that is confirmed now was confirmed before, as it is, but for one that the sender may have had
-- confirmed by a last request whose answer was lost.
abbrev pub IsUnpaid : Bool → ℕ → Payments → Payments → Type 0
IsUnpaid arrives sender s s' =
    (id : ℕ) (t : TipTransaction)
    → tip_by_id id s'.tip_transactions ≡ some t
    → t.status ≡ confirmed
    → (tip_by_id id s.tip_transactions ≡ some t) ⊎ ((arrives ≡ false) × (t.sender_id ≡ sender))

-- What a flow that ended shows is what happened.
abbrev pub Reports : Setting → TipParams → Payments → FlowStage → Option ℕ → Payments → Type 0
Reports w p s success digest s' = IsPaid w p digest s'
Reports w p s error_stage digest s' = IsUnpaid w.arrives p.sender_id s s'
Reports w p s stage digest s' = ⊥

-- What confirmTip does to the other rows, and to its own.
confirm_tip_rows :
    (client : Client) (sender id tx_bytes signature now j : ℕ) (t : TipTransaction) (s : Payments)
    → let (r, s') = confirm_tip client sender id tx_bytes signature now s in
      tip_by_id j s'.tip_transactions ≡ some t
      → t.status ≡ confirmed
      → (tip_by_id j s.tip_transactions ≡ some t) ⊎ ((is_ok r ≡ true) × (t.sender_id ≡ sender))
unfolding confirm_tip settle_tip
confirm_tip_rows client sender id tx_bytes signature now j t s h k =
    elim (Result-cases (run_signed client tx_bytes signature)) [
      | inl (digest, e) ↦ ground (
        arith,
        e,
        h,
        k,
        find-set_tip j id (confirm_row digest now) s.tip_transactions (λ t. refl),
      )
      | inr (x, e) ↦ ground (
        arith,
        e,
        h,
        k,
        find-set_tip j id (λ t. record t { status = failed }) s.tip_transactions (λ t. refl),
      )
    ]

pub prepare_tip_state :
    (client : Client) (p : TipParams) (s : Payments) → (prepare_tip client p s).1 ≡ s
unfolding prepare_tip tip_receiver check_tip_retry build_transfer
prepare_tip_state client p s = ground arith

finish_tip_rows :
    (id : ℕ) (p : TipParams) (plan : TipPlan) (s : Payments) (j : ℕ) (t : TipTransaction)
    → tip_by_id j (finish_tip id p plan s).1.tip_transactions ≡ some t
    → t.status ≡ confirmed
    → tip_by_id j s.tip_transactions ≡ some t
unfolding finish_tip insert_tip create_tip
finish_tip_rows id p plan s j t h k = ground (arith, h, k)

-- The rows that are confirmed after a build were there before.
abbrev KeepsConfirmed : Payments → Payments → Type 0
KeepsConfirmed s s' =
    (j : ℕ) (t : TipTransaction)
    → tip_by_id j s'.tip_transactions ≡ some t
    → t.status ≡ confirmed
    → tip_by_id j s.tip_transactions ≡ some t

build_tip_rows :
    (client : Client) (id : ℕ) (p : TipParams) (s : Payments)
    → KeepsConfirmed s (build_tip_transaction client id p s).1
unfolding build_tip_transaction
build_tip_rows client id p s =
    bind-keeps (KeepsConfirmed s) (prepare_tip client p) (finish_tip id p) s
      (subst (KeepsConfirmed s) (sym (prepare_tip_state client p s)) (λ j t h k. h))
      (λ plan _ kept j t h k.
        kept j t (finish_tip_rows id p plan (prepare_tip client p s).1 j t h k) k)

module _ (w : Setting) (p : TipParams) (s : Payments) where
  abbrev Ended : Run Payments → Type 0
  Ended out = Reports w p s out.flow.stage out.flow.tx_digest out.backend

  built_Ended :
      (message : ℕ) → Ended (stopped_run message (build_tip_transaction w.client w.new_id p s).1)
  built_Ended message = λ j t h k. inl (build_tip_rows w.client w.new_id p s j t h k)

  -- After an error of the last request, and after a lost answer.
  confirmed_by :
      (r : BuildTipResult) (signature : ℕ)
      → let s₁ = (build_tip_transaction w.client w.new_id p s).1 in
        let out =
          confirm_tip w.client p.sender_id r.tip_transaction_id r.tx_bytes signature w.now s₁ in
        (is_ok out.0 ≡ true → w.arrives ≡ false) → IsUnpaid w.arrives p.sender_id s out.1
  confirmed_by r signature lost j t h k =
      let s₁ = (build_tip_transaction w.client w.new_id p s).1 in
      elim (confirm_tip_rows w.client p.sender_id r.tip_transaction_id r.tx_bytes signature w.now j
        t s₁ h k) [
          | inl e ↦ inl (build_tip_rows w.client w.new_id p s j t e k)
          | inr (o, e) ↦ inr (lost o, e)
        ]

  paid :
      (zk : StoredZkState) (epoch : ℕ) (r : BuildTipResult) (signature digest : ℕ)
      → w.browser.zk_proof ≡ some zk
      → w.epoch ≡ ok epoch
      → epoch ≤ zk.max_epoch
      → (build_tip_transaction w.client w.new_id p s).0 ≡ ok r
      → let s₁ = (build_tip_transaction w.client w.new_id p s).1 in
        let out =
          confirm_tip w.client p.sender_id r.tip_transaction_id r.tx_bytes signature w.now s₁ in
        out.0 ≡ ok digest → IsPaid w p (some digest) out.1
  paid zk epoch r signature digest signed current covered built confirmed_ =
      let (t, at_key, params, id) = built_row w.client w.new_id p s r built in
      let s₁ = (build_tip_transaction w.client w.new_id p s).1 in
      let end =
        confirm_tip_ok w.client p.sender_id r.tip_transaction_id r.tx_bytes signature w.now digest
          s₁ confirmed_ in
      record {
        zk = zk;
        epoch = epoch;
        row = confirm_row digest w.now t;
        signed = signed;
        current = current;
        covered = covered;
        found =
            ap (λ x. tip_by_key p.idempotency_key x.tip_transactions) end
            ∙ find-by_key-set p.idempotency_key r.tip_transaction_id digest w.now
                s₁.tip_transactions t at_key id;
        same = params;
        settled = refl;
        recorded = refl;
      }

  submitted_Ended :
      (zk : StoredZkState) (epoch : ℕ) (r : BuildTipResult) (signature : ℕ)
      → w.browser.zk_proof ≡ some zk
      → w.epoch ≡ ok epoch
      → epoch ≤ zk.max_epoch
      → (build_tip_transaction w.client w.new_id p s).0 ≡ ok r
      → let s₁ = (build_tip_transaction w.client w.new_id p s).1 in
        Ended (submitted_run ((tip_requests w p).submit (built_tip r) signature s₁))
  submitted_Ended zk epoch r signature signed current covered built =
      by_answer w.arrives refl out.0 refl
    where
      s₁ : Payments
      s₁ = (build_tip_transaction w.client w.new_id p s).1

      out : Result PaymentError ℕ × Payments
      out = confirm_tip w.client p.sender_id r.tip_transaction_id r.tx_bytes signature w.now s₁

      by_answer :
          (b : Bool)
          → w.arrives ≡ b
          → (a : Result PaymentError ℕ) → out.0 ≡ a
          → Ended (submitted_run (arriving b (answer_of w.texts (λ d. d) (a, out.1))))
      by_answer true h (ok digest) k =
          paid zk epoch r signature digest signed current covered built k
      by_answer true h (err x) k = confirmed_by r signature (λ o. absurd (ground (arith, o, k)))
      by_answer false h (ok digest) k = confirmed_by r signature (λ _. h)
      by_answer false h (err x) k = confirmed_by r signature (λ _. h)

  answered_tip :
      (r : Result PaymentError BuildTipResult) (s' : Payments) (b : Built)
      → (answer_of w.texts built_tip (r, s')).0 ≡ ok b
      → (x : BuildTipResult) × (r ≡ ok x) × (b ≡ built_tip x)
  answered_tip (ok x) s' b h = (x, refl, ground (arith, h))
  answered_tip (err e) s' b h = absurd (ground (arith, h))

-- A tip's flow always ends in success or in an error. On success the signing session covered the epoch,
-- and the tip under the request's key is confirmed in the backend, with the request's sender, series and
-- amount and the digest that is shown. On an error every tip that is confirmed afterwards was so
-- before, with the same row; only if the answer to the last request was lost, a tip of this sender
-- may be confirmed nevertheless.
pub send_tip-Reports :
    (w : Setting) (p : TipParams) (state : PaymentState) (s : Payments)
    → let (state', s') = send_tip w p state s in
      Reports w p s state'.tip.stage state'.tip.tx_digest s'
unfolding send_tip
send_tip-Reports w p state s =
    run_flow_cases (Ended w p s) w.lib w.browser (tip_requests w p) s (λ m j t h k. inl h)
      (λ m j t h k. inl h) (built_Ended w p s)
      (λ zk epoch built signature signed current covered answer _.
        let (r, made, same) =
          answered_tip w p s (build_tip_transaction w.client w.new_id p s).0 s built answer in
        subst
          (λ b. Ended w p s (
            submitted_run (
              (tip_requests w p).submit b signature
                (build_tip_transaction w.client w.new_id p s).1)))
          (sym same) (submitted_Ended w p s zk epoch r signature signed current covered made))
