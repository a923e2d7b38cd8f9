-- ===== src/Ink/Minting.antt =====
-- What `mintEarning` does to the chain and to the tables, branch by branch.
use arktion_sui_overflow.Prelude.{
  ◌≡◌, Result, [], is_err, inr, ◌==◌, ◌+◌, if◌then◌else◌, true, ℕ, none, arith, ◌∷◌, List, inl, ◌⊎◌,
  ok, some, err, put, refl, Option,
}
use arktion_sui_overflow.Ink.{
  chapter_read, series_complete, submission_approved, send_earning, EarnParams, ink_amounts,
  InkTrigger, trigger_code, record_earning, add_ink_earned, upsert_entry, upsert_balance,
  earning_entry, minted_result, record_mint, mint_new, MintEarningResult,
}
use arktion_sui_overflow.Sui.{
  run_block, earn, Key, Chain, run_command, Command, committed, earn_call, find_record,
}
use arktion_sui_overflow.World.{
  World, Error, InkLedgerEntry, Passport, transaction, Db, record_not_found,
}
use arktion_sui_overflow.Gas.{execute_as_admin, Receipt}
use arktion_sui_overflow.Gas.Effects.{execute_as_admin-Executed}

-- The chain after `amount` INK has been paid to `user` under `key`.
abbrev pub paid : ℕ → ℕ → Key → ℕ → Chain → Chain
paid user trigger key amount c = record c {
  records =
      record { idempotency_key = key; user = user; trigger_type = trigger; amount = amount }
      ∷ c.records;
  coins = λ a. if a == user then c.coins a + amount else c.coins a;
}

-- An earning that commits had a fresh key, and pays what INK_AMOUNTS says.
pub earn_committed :
    (user : ℕ) (t : InkTrigger) (key : Key) (c c' : Chain)
    → earn user (trigger_code t) key c ≡ committed c'
    → (find_record key c.records ≡ none) × (c' ≡ paid user (trigger_code t) key (ink_amounts t) c)
unfolding earn ink_amounts
earn_committed user chapter_read key c c' h = ground arith
earn_committed user series_complete key c c' h = ground arith
earn_committed user submission_approved key c c' h = ground arith

abbrev pub paid_for : EarnParams → Chain → Chain
paid_for p =
    paid p.wallet_address (trigger_code p.trigger_type) p.idempotency_key
      (ink_amounts p.trigger_type)

-- The call to the chain: it throws and nothing has happened, or the INK is paid under a fresh key.
pub record Sent (p : EarnParams) (w : World) (r : Result Error Receipt) (w' : World) : Type 0 where
  pub same_db : w'.db ≡ w.db
  pub same_env : w'.env ≡ w.env
  pub chain_effect :
      ((w'.chain ≡ w.chain) × (is_err r ≡ true))
      ⊎ ((find_record p.idempotency_key w.chain.records ≡ none) × (w'.chain ≡ paid_for p w.chain))

abbrev earn_block : EarnParams → List Command
earn_block p = earn_call p.wallet_address (trigger_code p.trigger_type) p.idempotency_key ∷ []

earn_block_lem :
    (p : EarnParams) (c c' : Chain)
    → run_block (earn_block p) c ≡ committed c'
    → earn p.wallet_address (trigger_code p.trigger_type) p.idempotency_key c ≡ committed c'
unfolding run_block run_command
earn_block_lem p c c' h = ground arith

execute_earn-Sent :
    (p : EarnParams) (w : World) → let (r, w') = execute_as_admin (earn_block p) w in Sent p w r w'
execute_earn-Sent p w =
    let done = execute_as_admin-Executed (earn_block p) w in
    record {
      same_db = done.same_db;
      same_env = done.same_env;
      chain_effect = elim done.chain_effect [
        | inl kept ↦ inl kept
        | inr ran ↦ inr (
            earn_committed p.wallet_address p.trigger_type p.idempotency_key w.chain _
              (earn_block_lem p w.chain _ ran))
      ];
    }

pub send_earning-Sent :
    (p : EarnParams) (w : World) → let (r, w') = send_earning p w in Sent p w r w'
unfolding send_earning
send_earning-Sent p w = record {
  same_db = ground (arith, execute_earn-Sent p w);
  same_env = ground (arith, execute_earn-Sent p w);
  chain_effect = ground (arith, execute_earn-Sent p w);
}

-- The tables after an earning has been recorded for a user with passport `p`.
abbrev pub credited : InkLedgerEntry → ℕ → Passport → Db → Db
credited e now p d = record d {
  ink_ledger = upsert_entry e d.ink_ledger;
  ink_balances = upsert_balance e.user_id e.amount now d.ink_balances;
  passports =
      put e.user_id (record p { total_ink_earned = p.total_ink_earned + e.amount }) d.passports;
}

-- The three writes are made together, or the user has no passport and none is made.
pub record_earning_lem :
    (e : InkLedgerEntry) (now : ℕ) (w : World)
    → transaction (record_earning e now) w ≡ elim (w.db.passports e.user_id) [
      | none ↦ (err record_not_found, w)
      | some p ↦ (ok tt, record w { db = credited e now p w.db })
    ]
unfolding record_earning add_ink_earned
record_earning_lem e now w = ground arith

pub record_mint_lem :
    (p : EarnParams) (now : ℕ) (receipt : Receipt) (w : World)
    → record_mint p now receipt w ≡ elim (w.db.passports p.user_id) [
      | none ↦ (err record_not_found, w)
      | some q ↦
          let w' : World = record w {
            db = credited (earning_entry p receipt.digest now) now q w.db;
          } in
          (ok (minted_result p receipt.digest w'), w')
    ]
unfolding record_mint
record_mint_lem p now receipt w =
    ground (arith, record_earning_lem (earning_entry p receipt.digest now) now w)

-- The three ways in which a call of `mint_new` can end.
pub data Minting (p : EarnParams) (now : ℕ) (w : World) (r : Result Error MintEarningResult)
    (w' : World) : Type 0 where
  refused : is_err r ≡ true → w'.db ≡ w.db → w'.chain ≡ w.chain → Minting p now w r w'
  unrecorded :
      is_err r ≡ true
      → find_record p.idempotency_key w.chain.records ≡ none
      → w'.db ≡ w.db
      → w'.chain ≡ paid_for p w.chain
      → Minting p now w r w'
  minted :
      (digest : ℕ) (q : Passport)
      → find_record p.idempotency_key w.chain.records ≡ none
      → w.db.passports p.user_id ≡ some q
      → w'.db ≡ credited (earning_entry p digest now) now q w.db
      → w'.chain ≡ paid_for p w.chain
      → r ≡ ok (minted_result p digest w')
      → Minting p now w r w'

pub mint_new-Minting :
    (p : EarnParams) (now : ℕ) (w : World)
    → Minting p now w (mint_new p now w).0 (mint_new p now w).1
unfolding mint_new
mint_new-Minting p now w =
    let sent = send_earning-Sent p w in go (send_earning p w).0 (send_earning p w).1 sent
  where
    recorded_case :
        (receipt : Receipt) (w' : World) (o : Option Passport)
        → Sent p w (ok receipt) w'
        → w'.db.passports p.user_id ≡ o
        → Minting p now w (record_mint p now receipt w').0 (record_mint p now receipt w').1
    recorded_case receipt w' none sent e =
        let step = record_mint_lem p now receipt w' in
        unrecorded (ground (arith, step)) (ground arith) (ground (arith, step))
          (ground (arith, step))
    recorded_case receipt w' (some q) sent e =
        let step = record_mint_lem p now receipt w' in
        minted receipt.digest q (ground arith) (ground arith) (ground (arith, step))
          (ground (arith, step)) (ground (arith, step))

    go :
        (r : Result Error Receipt) (w' : World)
        → Sent p w r w'
        → let out : Result Error MintEarningResult × World = elim r [
          | ok receipt ↦ record_mint p now receipt w'
          | err e ↦ (err e, w')
        ] in
          Minting p now w out.0 out.1
    go (ok receipt) w' sent = recorded_case receipt w' (w'.db.passports p.user_id) sent refl
    go (err e) w' sent = elim sent.chain_effect [
      | inl (same, _) ↦ refused refl sent.same_db same
      | inr (fresh, pay) ↦ unrecorded refl fresh sent.same_db pay
    ]
