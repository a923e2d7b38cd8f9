-- ===== src/Tests/Payment.antt =====
-- The theorems of Payment on a state.
use arktion_sui_overflow.Payment.Rows.{pending, TipTransaction, Payments, Client, executed}
use arktion_sui_overflow.Prelude.{none, some, [], ◌∷◌, ◌+◌}
use arktion_sui_overflow.Payment.Tips.{TipParams}

abbrev client : Client
client = record {
  get_balance = λ w. some 50000;
  build = λ a b c. some 8;
  execute = λ b s. executed 77;
}

abbrev tip : TipTransaction
tip = record {
  id = 4;
  sender_id = 1;
  receiver_id = 2;
  series_id = 3;
  amount_usdc = 20000;
  idempotency_key = 6;
  status = pending;
  sui_tx_digest = none;
  confirmed_at = none;
}

abbrev other : TipTransaction
other = record tip { id = 5; idempotency_key = 7 }

abbrev state : Payments
state = record {
  users = λ u. some (100 + u);
  series = λ s. some (some 2);
  tip_transactions = tip ∷ other ∷ [];
  send_transactions = [];
}

abbrev params : TipParams
params = record { sender_id = 1; series_id = 3; amount_usdc = 30000; idempotency_key = 9 }
