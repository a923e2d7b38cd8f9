-- ===== src/Stores/Payments.antt =====
-- payment.store.ts: tips and sends, the balance, and the history of tips.
use arktion_sui_overflow.Prelude.{ℕ, Bool, List}
use arktion_sui_overflow.Payment.Rows.{Payments, Client, PaymentError, TipTransaction}
use arktion_sui_overflow.Payment.Tips.{
  TipParams, BuildTipResult, build_tip_transaction, confirm_tip,
}
use arktion_sui_overflow.Payment.Sends.{
  BuildSendResult, SendParams, build_send_transaction, submit_send,
}
use arktion_sui_overflow.Stores.Flows.{
  idle_flow, Flow, Built, Requests, run_flow, answer_of, arriving,
}
use arktion_sui_overflow.Stores.Signing.{ZkLibrary, Browser}
use arktion_sui_overflow.Stores.{Answer}
use arktion_sui_overflow.Stores.Fetching.{Fetched, not_fetched, fetch_value}

pub record PaymentState : Type 0 where
  pub tip : Flow
  pub send : Flow
  pub usdc_balance : Fetched ℕ
  pub history : Fetched (List TipTransaction × ℕ)

abbrev pub initial_payments : PaymentState
initial_payments = record {
  tip = idle_flow;
  send = idle_flow;
  usdc_balance = not_fetched;
  history = not_fetched;
}

-- What a flow of the user finds around it: the browser, the client of the backend, the epoch that the
-- backend gives, the id that the database draws, the time, whether the answer to the last request
-- arrives, and the messages of the backend's errors.
pub record Setting : Type 0 where
  pub lib : ZkLibrary
  pub browser : Browser
  pub client : Client
  pub epoch : Answer ℕ
  pub new_id : ℕ
  pub now : ℕ
  pub arrives : Bool
  pub texts : PaymentError → ℕ

abbrev pub built_tip : BuildTipResult → Built
built_tip r = record { transaction_id = r.tip_transaction_id; tx_bytes = r.tx_bytes }

abbrev pub built_send : BuildSendResult → Built
built_send r = record { transaction_id = r.send_transaction_id; tx_bytes = r.tx_bytes }

-- The requests of `sendTip`, which the backend handles as the user who is signed in.
abbrev pub tip_requests : Setting → TipParams → Requests Payments
tip_requests w p = record {
  get_epoch = λ s. (w.epoch, s);
  build = λ s. answer_of w.texts built_tip (build_tip_transaction w.client w.new_id p s);
  submit = λ built signature s. arriving w.arrives (
      answer_of w.texts (λ digest. digest)
        (confirm_tip w.client p.sender_id built.transaction_id built.tx_bytes signature w.now s));
}

abbrev pub send_requests : Setting → SendParams → Requests Payments
send_requests w p = record {
  get_epoch = λ s. (w.epoch, s);
  build = λ s. answer_of w.texts built_send (build_send_transaction w.client w.new_id p s);
  submit = λ built signature s. arriving w.arrives (
      answer_of w.texts (λ digest. digest)
        (submit_send w.client p.sender_id built.transaction_id built.tx_bytes signature w.now s));
}

unfoldable pub send_tip : Setting → TipParams → PaymentState → Payments → PaymentState × Payments
send_tip w p state s =
    let out = run_flow w.lib w.browser (tip_requests w p) s in
    (record state { tip = out.flow }, out.backend)

unfoldable pub execute_send :
    Setting → SendParams → PaymentState → Payments → PaymentState × Payments
execute_send w p state s =
    let out = run_flow w.lib w.browser (send_requests w p) s in
    (record state { send = out.flow }, out.backend)

unfoldable pub reset_send : PaymentState → PaymentState
reset_send state = record state { send = idle_flow }

unfoldable pub fetch_usdc_balance : Answer ℕ → PaymentState → PaymentState
unfolding fetch_value
fetch_usdc_balance answer state = record state {
  usdc_balance = fetch_value answer state.usdc_balance;
}

unfoldable pub fetch_history : Answer (List TipTransaction × ℕ) → PaymentState → PaymentState
unfolding fetch_value
fetch_history answer state = record state { history = fetch_value answer state.history }

unfoldable pub reset_payments : PaymentState → PaymentState
reset_payments state = initial_payments
