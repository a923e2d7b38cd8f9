-- ===== src/Payment/Rows.antt =====
-- The tables of payment.service.ts, the Sui client as it uses it, and what it throws.
use arktion_sui_overflow.Prelude.{
  ok, err, throw_if, Action, List, or_throw, ltb, ℕ, ◌>>◌, true, gets, ◌>>=◌, Option, if◌then◌else◌,
  Bool, false, Result,
}
use arktion_sui_overflow.Prelude.{
  gets, or_throw, ltb, Option, ok, false, Result, true, Action, if◌then◌else◌, err, List, ◌>>=◌,
  ◌>>◌, Bool, ℕ, throw_if,
}

pub data TipStatus : Type 0 where
  pending confirmed failed : TipStatus

pub record TipTransaction : Type 0 where
  pub id : ℕ
  pub sender_id : ℕ
  pub receiver_id : ℕ
  pub series_id : ℕ
  pub amount_usdc : ℕ
  pub idempotency_key : ℕ
  pub status : TipStatus
  pub sui_tx_digest : Option ℕ
  pub confirmed_at : Option ℕ

pub record SendTransaction : Type 0 where
  pub id : ℕ
  pub sender_id : ℕ
  pub recipient_address : ℕ
  pub amount_usdc : ℕ
  pub idempotency_key : ℕ
  pub status : TipStatus
  pub sui_tx_digest : Option ℕ
  pub confirmed_at : Option ℕ

-- Users are their wallets; a series has its creator, if it has one.
pub record Payments : Type 0 where
  pub users : ℕ → Option ℕ
  pub series : ℕ → Option (Option ℕ)
  pub tip_transactions : List TipTransaction
  pub send_transactions : List SendTransaction

pub data PaymentError : Type 0 where
  below_minimum parameters_differ already_processed : PaymentError
  sender_not_found series_not_found no_creator own_series : PaymentError
  client_failed insufficient_usdc unique_violation : PaymentError
  not_found not_owner not_pending signature_invalid transaction_failed : PaymentError

-- What the service sees of `executeTransaction`: an exception, whose text may speak of the signature and
-- which does not say whether the bytes were executed, a transaction that failed on the chain, or
-- one that was executed.
pub data Execution : Type 0 where
  threw : Bool → Execution
  failed_transaction : Bool → Execution
  executed : ℕ → Execution

-- The Sui client: a wallet's USDC, the bytes of a transfer, and the execution of signed bytes.
pub record Client : Type 0 where
  pub get_balance : ℕ → Option ℕ
  pub build : ℕ → ℕ → ℕ → Option ℕ
  pub execute : ℕ → ℕ → Execution

abbrev pub Handler : Type 0 → Type 0
Handler A = Action PaymentError Payments A

abbrev pub min_tip_usdc : ℕ
min_tip_usdc = 10000

abbrev pub is_pending : TipStatus → Bool
is_pending pending = true
is_pending _ = false

-- What is thrown to the user after an exception or a failure.
abbrev pub failure : Bool → PaymentError
failure names_signature = if names_signature then signature_invalid else transaction_failed

-- The digest if the client reports that the signed bytes were executed, else the error.
unfoldable pub run_signed : Client → ℕ → ℕ → Result PaymentError ℕ
run_signed client tx_bytes signature = elim (client.execute tx_bytes signature) [
  | threw names_signature ↦ err (failure names_signature)
  | failed_transaction names_signature ↦ err (failure names_signature)
  | executed digest ↦ ok digest
]

-- The sender's balance suffices, and the client builds the transfer.
unfoldable pub build_transfer : Client → ℕ → ℕ → ℕ → Handler ℕ
build_transfer client wallet recipient amount = do
  total_balance ← or_throw (client.get_balance wallet) client_failed
  throw_if (ltb total_balance amount) insufficient_usdc
  or_throw (client.build wallet recipient amount) client_failed

-- `getUsdcBalance`
unfoldable pub get_usdc_balance : Client → ℕ → Handler ℕ
get_usdc_balance client user = do
  found ← gets (λ s. s.users user)
  wallet ← or_throw found sender_not_found
  or_throw (client.get_balance wallet) client_failed
