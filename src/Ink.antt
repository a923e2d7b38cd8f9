-- ===== src/Ink.antt =====
-- ink.service.ts.
pub mod Levels
pub mod Pays
pub mod Replay
pub mod Mirror
pub mod Minting
use arktion_sui_overflow.Prelude.{
  ℕ, suc, ◌+◌, Option, none, some, List, [], ◌∷◌, if◌then◌else◌, leb, is_some, find, update_where,
  put, ok, err, ◌>>=◌, ◌>>◌, throw, gets, count, select, ◌==◌,
}
use arktion_sui_overflow.Sui.{Key, key_eq, earn_call}
use arktion_sui_overflow.World.{
  World, Db, Service, write, transaction, InkLedgerEntry, InkBalance, Passport, record_not_found,
  execution_failed, ink_already_minted,
}
use arktion_sui_overflow.Gas.{execute_as_admin, Receipt}
use arktion_sui_overflow.Pagination.{page_of}

pub data InkTrigger : Type 0 where
  chapter_read series_complete submission_approved : InkTrigger

-- The numbers of `InkTrigger`, which are the trigger types of the contract.
abbrev pub trigger_code : InkTrigger → ℕ
trigger_code chapter_read = 0
trigger_code series_complete = 1
trigger_code submission_approved = 2

unfoldable pub ink_amounts : InkTrigger → ℕ
ink_amounts chapter_read = 10
ink_amounts series_complete = 100
ink_amounts submission_approved = 50

abbrev pub level_thresholds : List ℕ
level_thresholds = 0 ∷ 500 ∷ 2000 ∷ 6000 ∷ 15000 ∷ 40000 ∷ []

-- The loop of `calculateLevel` over the thresholds that are left, at `i = level`.
unfoldable pub climb : ℕ → ℕ → List ℕ → ℕ
climb ink level [] = level
climb ink level (t ∷ ts) = let rest = climb ink (suc level) ts in if leb t ink then rest else level

unfoldable pub calculate_level : ℕ → ℕ
unfolding climb
calculate_level ink = elim level_thresholds [ [] ↦ 1 | first ∷ others ↦ climb ink 1 others ]

pub record EarnParams : Type 0 where
  pub user_id : ℕ
  pub wallet_address : ℕ
  pub trigger_type : InkTrigger
  pub idempotency_key : Key

pub record MintEarningResult : Type 0 where
  pub tx_digest : ℕ
  pub amount : ℕ
  pub new_balance : ℕ
  pub new_level : ℕ

abbrev pub find_entry : Key → List InkLedgerEntry → Option InkLedgerEntry
find_entry key = find (λ e. key_eq e.idempotency_key key)

-- `row?.balance ?? 0n`
abbrev pub balance_or : ℕ → Option InkBalance → ℕ
balance_or d none = d
balance_or d (some b) = b.balance

-- `passport?.totalInkEarned ?? 0n`
abbrev pub ink_earned_or_0 : Option Passport → ℕ
ink_earned_or_0 none = 0
ink_earned_or_0 (some p) = p.total_ink_earned

-- `inkLedgerEntry.upsert`
unfoldable pub upsert_entry : InkLedgerEntry → List InkLedgerEntry → List InkLedgerEntry
upsert_entry e ledger =
    if is_some (find_entry e.idempotency_key ledger)
    then update_where (λ x. key_eq x.idempotency_key e.idempotency_key)
        (λ x. record x { sui_tx_digest = e.sui_tx_digest }) ledger
    else e ∷ ledger

-- `inkBalance.upsert` with an increment
unfoldable pub upsert_balance : ℕ → ℕ → ℕ → (ℕ → Option InkBalance) → ℕ → Option InkBalance
upsert_balance user amount now t =
    put user (record { balance = balance_or 0 (t user) + amount; last_updated_at = now }) t

-- `passport.update` with an increment of `totalInkEarned`; none where there is no row.
unfoldable pub add_ink_earned : ℕ → ℕ → Db → Option Db
add_ink_earned user amount d = elim (d.passports user) [
  | none ↦ none
  | some p ↦ some (record d {
    passports = put user (record p { total_ink_earned = p.total_ink_earned + amount }) d.passports;
  })
]

-- The three writes that follow a mint.
unfoldable pub record_earning : InkLedgerEntry → ℕ → Service (Unit {0})
unfolding upsert_entry upsert_balance add_ink_earned
record_earning e now = do
  write (λ d. record d { ink_ledger = upsert_entry e d.ink_ledger })
  write (λ d. record d { ink_balances = upsert_balance e.user_id e.amount now d.ink_balances })
  d ← gets (λ w. add_ink_earned e.user_id e.amount w.db)
  elim d [ none ↦ throw record_not_found | some d' ↦ write (λ _. d') ]

-- The result of an earning that was recorded before.
unfoldable pub recorded_result : EarnParams → ℕ → ℕ → World → MintEarningResult
recorded_result p digest amount w = record {
  tx_digest = digest;
  amount = amount;
  new_balance = balance_or 0 (w.db.ink_balances p.user_id);
  new_level = calculate_level (ink_earned_or_0 (w.db.passports p.user_id));
}

-- The `catch` round `executeAsAdmin`.
unfoldable pub send_earning : EarnParams → Service Receipt
send_earning p w =
    let (r, w') =
      execute_as_admin
        (earn_call p.wallet_address (trigger_code p.trigger_type) p.idempotency_key ∷ []) w in
    elim r [
      | ok receipt ↦ (ok receipt, w')
      | err (execution_failed a) ↦ (
        err (if w'.env.names_duplicate_key a then ink_already_minted else execution_failed a),
        w',
      )
      | err e ↦ (err e, w')
    ]

-- The row that is written for a mint.
abbrev pub earning_entry : EarnParams → ℕ → ℕ → InkLedgerEntry
earning_entry p digest now = record {
  user_id = p.user_id;
  action_type = trigger_code p.trigger_type;
  amount = ink_amounts p.trigger_type;
  idempotency_key = p.idempotency_key;
  sui_tx_digest = some digest;
  created_at = now;
}

-- The result of a mint, read back from the tables.
unfoldable pub minted_result : EarnParams → ℕ → World → MintEarningResult
minted_result p digest w = record {
  tx_digest = digest;
  amount = ink_amounts p.trigger_type;
  new_balance = balance_or (ink_amounts p.trigger_type) (w.db.ink_balances p.user_id);
  new_level = calculate_level (ink_earned_or_0 (w.db.passports p.user_id));
}

-- What follows a call to the chain that returned.
unfoldable pub record_mint : EarnParams → ℕ → Receipt → Service MintEarningResult
record_mint p now receipt = do
  transaction (record_earning (earning_entry p receipt.digest now) now)
  gets (minted_result p receipt.digest)

-- `mintEarning` past its first look-up.
unfoldable pub mint_new : EarnParams → ℕ → Service MintEarningResult
mint_new p now = do receipt ← send_earning p; record_mint p now receipt

-- The recorded digest and amount, if `existing?.suiTxDigest`.
abbrev pub recorded : Option InkLedgerEntry → Option (ℕ × ℕ)
recorded none = none
recorded (some e) = elim e.sui_tx_digest [ none ↦ none | some digest ↦ some (digest, e.amount) ]

unfoldable pub mint_earning : EarnParams → ℕ → Service MintEarningResult
mint_earning p now w = elim (recorded (find_entry p.idempotency_key w.db.ink_ledger)) [
  | some (digest, amount) ↦ (ok (recorded_result p digest amount w), w)
  | none ↦ mint_new p now w
]

pub record InkBalanceDto : Type 0 where
  pub balance : ℕ
  pub level : ℕ
  pub total_ink_earned : ℕ

unfoldable pub get_balance : ℕ → World → InkBalanceDto
get_balance user w = record {
  balance = balance_or 0 (w.db.ink_balances user);
  level = elim (w.db.passports user) [ none ↦ 1 | some p ↦ p.level ];
  total_ink_earned = ink_earned_or_0 (w.db.passports user);
}

pub record InkLedgerPage : Type 0 where
  pub entries : List InkLedgerEntry
  pub total : ℕ
  pub page : ℕ
  pub limit : ℕ

-- `getLedger`; the rows come newest first.
unfoldable pub get_ledger : ℕ → ℕ → ℕ → World → InkLedgerPage
get_ledger user page limit w = record {
  entries = page_of page limit (select (λ e. e.user_id == user) w.db.ink_ledger);
  total = count (λ e. e.user_id == user) w.db.ink_ledger;
  page = page;
  limit = limit;
}
