-- ===== src/Submission/Outcomes.antt =====
-- How `_executeApproval` can end, on the chain and in the tables.
use Prim.Native.Nat.{ℕ}
use arktion_sui_overflow.Prelude.{
  ◌⊎◌, none, Bool, Result, is_err, arith, update_where, some, ◌≡◌, List, refl, ok, ℕ, true, is_some,
  false, Option, inl, err, inr, ◌∙◌, ap,
}
use arktion_sui_overflow.Ink.{
  record_earning, EarnParams, add_ink_earned, trigger_code, earning_entry,
}
use arktion_sui_overflow.Submission.Approval.{
  record_approval, record_badge, approval_block, contributor_badge, approve_for,
  has_contributor_badge,
}
use arktion_sui_overflow.Sui.{
  run_block, Chain, run_command, find_record, Outcome, earn, committed, aborted,
}
use arktion_sui_overflow.World.{
  Passport, World, BadgeEarned, Error, InkLedgerEntry, Db, transaction,
}
use arktion_sui_overflow.Submission.Rows.{update_submission, has_id, approve}
use arktion_sui_overflow.Badges.{create_badge, find_created_badge}
use arktion_sui_overflow.Gas.{Receipt, execute_as_admin}
use arktion_sui_overflow.Ink.Minting.{paid_for, credited, earn_committed}
use arktion_sui_overflow.Gas.Effects.{Executed, execute_as_admin-Executed}
use arktion_sui_overflow.Badges.Effects.{badge_block_keeps}

-- The chain has been paid the reward, and may have a badge more.
pub record Rewarded (p : EarnParams) (c c' : Chain) : Type 0 where
  pub fresh : find_record p.idempotency_key c.records ≡ none
  pub records : c'.records ≡ (paid_for p c).records
  pub coins : c'.coins ≡ (paid_for p c).coins

approval_block_lem :
    (p : EarnParams) (has_badge : Bool) (c c' : Chain) (o : Outcome)
    → earn p.wallet_address (trigger_code p.trigger_type) p.idempotency_key c ≡ o
    → run_block (approval_block p has_badge) c ≡ committed c'
    → Rewarded p c c'
unfolding approval_block run_block run_command
approval_block_lem p true c c' (committed c₁) e h =
    let paid = earn_committed p.wallet_address p.trigger_type p.idempotency_key c c₁ e in
    record { fresh = ground arith; records = ground arith; coins = ground arith }
approval_block_lem p false c c' (committed c₁) e h =
    let paid = earn_committed p.wallet_address p.trigger_type p.idempotency_key c c₁ e in
    let kept = badge_block_keeps (contributor_badge p.user_id p.wallet_address) c₁ c' in
    record { fresh = ground arith; records = ground (arith, kept); coins = ground (arith, kept) }
approval_block_lem p b c c' (aborted a) e h = absurd (ground arith)

-- A transaction that approves writes the status, the earning and perhaps a badge.
abbrev pub approved_db : ℕ → EarnParams → ℕ → ℕ → Passport → List BadgeEarned → Db → Db
approved_db id p now digest q badges d =
    record (credited (earning_entry p digest now) now q
      (record d { submissions = update_where (has_id id) (approve now) d.submissions })) {
        badges_earned = badges;
      }

pub data Approving (id : ℕ) (p : EarnParams) (now : ℕ) (w : World) (r : Result Error (Unit {0}))
    (w' : World) : Type 0 where
  refused : is_err r ≡ true → w'.db ≡ w.db → w'.chain ≡ w.chain → Approving id p now w r w'
  unrecorded :
      is_err r ≡ true → w'.db ≡ w.db → Rewarded p w.chain w'.chain → Approving id p now w r w'
  done :
      (digest : ℕ) (q : Passport) (badges : List BadgeEarned)
      → r ≡ ok tt
      → Rewarded p w.chain w'.chain
      → w.db.passports p.user_id ≡ some q
      → w'.db ≡ approved_db id p now digest q badges w.db
      → Approving id p now w r w'

record_badge_keeps :
    (p : EarnParams) (o : Option ℕ) (w : World)
    → let w' = (record_badge p o w).1 in
      w' ≡ record w { db = record w.db { badges_earned = w'.db.badges_earned } }
unfolding record_badge create_badge
record_badge_keeps p none w = refl
record_badge_keeps p (some object) w = ground arith

record_earning_known :
    (e : InkLedgerEntry) (now : ℕ) (w : World) (q : Passport)
    → w.db.passports e.user_id ≡ some q
    → record_earning e now w ≡ (ok tt, record w { db = credited e now q w.db })
unfolding record_earning add_ink_earned
record_earning_known e now w q h = ground arith

record_earning_unknown :
    (e : InkLedgerEntry) (now : ℕ) (w : World)
    → w.db.passports e.user_id ≡ none
    → (is_err (record_earning e now w).0 ≡ true) × ((record_earning e now w).1.chain ≡ w.chain)
unfolding record_earning add_ink_earned
record_earning_unknown e now w h = ground arith

-- The database transaction: all of it, or a throw and nothing.
record_approval_cases :
    (id : ℕ) (p : EarnParams) (now : ℕ) (receipt : Receipt) (w : World) (o : Option Passport)
    → w.db.passports p.user_id ≡ o
    → let (r, w') = transaction (record_approval id p now receipt) w in
      (w'.chain ≡ w.chain)
      × (((is_err r ≡ true) × (w'.db ≡ w.db))
          ⊎ ((r ≡ ok tt)
              × (w'.db ≡ elim o [
                | none ↦ w.db
                | some q ↦ approved_db id p now receipt.digest q w'.db.badges_earned w.db
              ])
              × (is_some o ≡ true)))
unfolding record_approval update_submission
record_approval_cases id p now receipt w none e =
    let entry : InkLedgerEntry = earning_entry p receipt.digest now in
    let w₁ : World = record w {
      db = record w.db { submissions = update_where (has_id id) (approve now) w.db.submissions };
    } in
    let unknown = record_earning_unknown entry now w₁ e in ground (arith, unknown)
record_approval_cases id p now receipt w (some q) e =
    let entry : InkLedgerEntry = earning_entry p receipt.digest now in
    let w₁ : World = record w {
      db = record w.db { submissions = update_where (has_id id) (approve now) w.db.submissions };
    } in
    let known = record_earning_known entry now w₁ q e in
    let w₂ : World = record w₁ { db = credited entry now q w₁.db } in
    let kept = record_badge_keeps p (find_created_badge receipt.changed_objects) w₂ in
    ground (arith, known, kept)

execute_approval_Executed :
    (p : EarnParams) (has_badge : Bool) (w : World) (r : Result Error Receipt) (w' : World)
    → Executed (approval_block p has_badge) w r w'
    → (w'.db ≡ w.db) × (((w'.chain ≡ w.chain) × (is_err r ≡ true)) ⊎ Rewarded p w.chain w'.chain)
execute_approval_Executed p has_badge w r w' run = (
  run.same_db,
  elim run.chain_effect [
    | inl kept ↦ inl kept
    | inr ran ↦ inr (approval_block_lem p has_badge w.chain w'.chain _ refl ran)
  ],
)

-- Every call of `_executeApproval` ends in one of three ways.
pub approve_for-Approving :
    (id : ℕ) (p : EarnParams) (now : ℕ) (w : World)
    → Approving id p now w (approve_for id p now w).0 (approve_for id p now w).1
unfolding approve_for
approve_for-Approving id p now w =
    let block = approval_block p (has_contributor_badge p.user_id w) in
    let (r, w₁) = execute_as_admin block w in
    let facts =
      execute_approval_Executed p (has_contributor_badge p.user_id w) w r w₁
        (execute_as_admin-Executed block w) in
    go r w₁ facts.0 facts.1
  where
    finish :
        (receipt : Receipt) (w₁ : World) (o : Option Passport)
        → w₁.db.passports p.user_id ≡ o
        → w₁.db ≡ w.db
        → Rewarded p w.chain w₁.chain
        → let out = transaction (record_approval id p now receipt) w₁ in
          Approving id p now w out.0 out.1
    finish receipt w₁ none e db paid =
        let cases = record_approval_cases id p now receipt w₁ none e in
        elim cases.1 [
          | inl (threw, same) ↦ unrecorded threw (same ∙ db) (rw cases.0 paid)
          | inr (_, _, absent) ↦ absurd (ground arith)
        ]
    finish receipt w₁ (some q) e db paid =
        let cases = record_approval_cases id p now receipt w₁ (some q) e in
        elim cases.1 [
          | inl (threw, same) ↦ unrecorded threw (same ∙ db) (rw cases.0 paid)
          | inr (returned, new, _) ↦
              done receipt.digest q _ returned (rw cases.0 paid) (rw (← db) e)
                (new ∙ ap (approved_db id p now receipt.digest q _) db)
        ]

    go :
        (r : Result Error Receipt) (w₁ : World)
        → w₁.db ≡ w.db
        → ((w₁.chain ≡ w.chain) × (is_err r ≡ true)) ⊎ Rewarded p w.chain w₁.chain
        → let out : Result Error (Unit {0}) × World = elim r [
          | ok receipt ↦ transaction (record_approval id p now receipt) w₁
          | err e ↦ (err e, w₁)
        ] in
          Approving id p now w out.0 out.1
    go (ok receipt) w₁ db (inl kept) = absurd (ground arith)
    go (ok receipt) w₁ db (inr paid) = finish receipt w₁ (w₁.db.passports p.user_id) refl db paid
    go (err e) w₁ db (inl kept) = refused refl db kept.0
    go (err e) w₁ db (inr paid) = unrecorded refl db paid
