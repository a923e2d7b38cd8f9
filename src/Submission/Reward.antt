-- ===== src/Submission/Reward.antt =====
-- The reward of an approval, when its key has already been spent on the chain.
use Prim.Native.Nat.{ℕ}
use arktion_sui_overflow.Prelude.{ℕ, is_err, refl, arith, ◌≡◌, some, Result, true, ap}
use arktion_sui_overflow.Submission.Voting.{admin_approve}
use arktion_sui_overflow.World.{World, Error, Submission}
use arktion_sui_overflow.Ink.{EarnParams}
use arktion_sui_overflow.Submission.Rows.{find_submission, is_pending}
use arktion_sui_overflow.Sui.{EarningRecord, find_record, submission_approved_key}
use arktion_sui_overflow.Submission.Outcomes.{Approving, refused, unrecorded, done}
use arktion_sui_overflow.Submission.Approval.{execute_approval}
use arktion_sui_overflow.Submission.Cases.{
  Resolution, rejecting, no_submitter, approving, execute_approval-Resolution,
}

-- An approval whose reward the chain has paid before ends in a throw and changes neither side.
Approving-spent :
    (id : ℕ) (p : EarnParams) (now : ℕ) (w : World) (r : Result Error (Unit {0})) (w' : World)
    (spent : EarningRecord)
    → find_record p.idempotency_key w.chain.records ≡ some spent
    → Approving id p now w r w'
    → (is_err r ≡ true) × (w'.db ≡ w.db) × (w'.chain ≡ w.chain)
Approving-spent id p now w r w' spent h (refused bad db chain) = (bad, db, chain)
Approving-spent id p now w r w' spent h (unrecorded _ _ paid) =
    let fresh = paid.fresh in absurd (ground arith)
Approving-spent id p now w r w' spent h (done _ _ _ _ paid _ _) =
    let fresh = paid.fresh in absurd (ground arith)

admin_approve_lem :
    (id now : ℕ) (w : World) (s : Submission)
    → find_submission id w ≡ some s
    → is_pending s.status ≡ true
    → is_err (execute_approval s now w).0 ≡ true
    → (is_err (admin_approve id now w).0 ≡ true)
      × ((admin_approve id now w).1 ≡ (execute_approval s now w).1)
unfolding admin_approve
admin_approve_lem id now w s found open_ bad = ground arith

-- A submission whose reward was paid on the chain, but not recorded in the tables, cannot be approved any more: every
-- attempt throws, pays nothing, and leaves the submission pending.
pub admin_approve_spent :
    (id now : ℕ) (w : World) (s : Submission) (spent : EarningRecord)
    → find_submission id w ≡ some s
    → is_pending s.status ≡ true
    → find_record (submission_approved_key s.submitter_id s.id) w.chain.records ≡ some spent
    → (is_err (admin_approve id now w).0 ≡ true)
      × (find_submission id (admin_approve id now w).1 ≡ some s)
      × ((admin_approve id now w).1.chain ≡ w.chain)
admin_approve_spent id now w s spent found open_ paid =
    conclude (failed _ _ (execute_approval-Resolution s now w _ refl))
  where
    conclude :
        (is_err (execute_approval s now w).0 ≡ true)
          × ((execute_approval s now w).1.db ≡ w.db)
          × ((execute_approval s now w).1.chain ≡ w.chain)
        → (is_err (admin_approve id now w).0 ≡ true)
          × (find_submission id (admin_approve id now w).1 ≡ some s)
          × ((admin_approve id now w).1.chain ≡ w.chain)
    conclude (bad, db, chain) =
        let fail = admin_approve_lem id now w s found open_ bad in ground (arith, fail)

    failed :
        (r : Result Error (Unit {0})) (w' : World)
        → Resolution s true now w r w'
        → (is_err r ≡ true) × (w'.db ≡ w.db) × (w'.chain ≡ w.chain)
    failed r w' (rejecting e _) = absurd (ground arith)
    failed r w' (no_submitter _ bad same) = (bad, rw same, rw same)
    failed r w' (approving user _ _ ap) = Approving-spent s.id _ now w r w' spent paid ap
