-- ===== src/Submission/Approval.antt =====
-- `_executeApproval` of submission.service.ts: the block on the chain and the rows that follow it.
use Prim.Native.Nat.{ℕ}
use arktion_sui_overflow.Ink.{EarnParams, InkTrigger, trigger_code, record_earning, earning_entry}
use arktion_sui_overflow.Prelude.{
  ℕ, Bool, or_throw, ◌∷◌, some, find, gets, when, is_some, if◌then◌else◌, not, [], ◌>>=◌, pure,
  ◌>>◌, none, List, Option,
}
use arktion_sui_overflow.World.{Submission, World, Service, record_not_found, transaction}
use arktion_sui_overflow.Sui.{Command, submission_approved_key, earn_call}
use arktion_sui_overflow.Gas.{Receipt, execute_as_admin}
use arktion_sui_overflow.Badges.{
  MintBadgeParams, contributor, is_same_badge, create_badge, submission_approved_badge, badge_row,
  badge_block, find_created_badge,
}
use arktion_sui_overflow.Submission.Rows.{update_submission, approve}

-- The reward of an approval: 50 INK under the submission's own key.
abbrev pub reward : ℕ → ℕ → ℕ → EarnParams
reward id submitter wallet = record {
  user_id = submitter;
  wallet_address = wallet;
  trigger_type = InkTrigger.submission_approved;
  idempotency_key = submission_approved_key submitter id;
}

abbrev pub contributor_badge : ℕ → ℕ → MintBadgeParams
contributor_badge submitter wallet = record {
  user_id = submitter;
  wallet_address = wallet;
  category = contributor;
  badge_type = submission_approved_badge;
  series_key = none;
  tier = 0;
  series_db_id = none;
}

unfoldable pub has_contributor_badge : ℕ → World → Bool
has_contributor_badge submitter w =
    is_some
      (find (is_same_badge submitter contributor submission_approved_badge none) w.db.badges_earned)

-- The commands of the approval's block.
unfoldable pub approval_block : EarnParams → Bool → List Command
approval_block p already_has_badge =
    earn_call p.wallet_address (trigger_code p.trigger_type) p.idempotency_key
    ∷ (if already_has_badge then [] else badge_block (contributor_badge p.user_id p.wallet_address))

-- The badge's row, if the transaction made a badge and the table has none.
unfoldable pub record_badge : EarnParams → Option ℕ → Service (Unit {0})
record_badge p none = pure tt
record_badge p (some object) = do
  existing ← gets (has_contributor_badge p.user_id)
  when (not existing)
      (create_badge (badge_row (contributor_badge p.user_id p.wallet_address) object))

-- The database transaction of `_executeApproval`.
unfoldable pub record_approval : ℕ → EarnParams → ℕ → Receipt → Service (Unit {0})
record_approval id p now receipt = do
  update_submission id (approve now)
  record_earning (earning_entry p receipt.digest now) now
  record_badge p (find_created_badge receipt.changed_objects)

-- `_executeApproval` with the submitter's row.
unfoldable pub approve_for : ℕ → EarnParams → ℕ → Service (Unit {0})
approve_for id p now = do
  already_has_badge ← gets (has_contributor_badge p.user_id)
  receipt ← execute_as_admin (approval_block p already_has_badge)
  transaction (record_approval id p now receipt)

-- `_executeApproval`; the submitter comes with the submission, by a foreign key.
unfoldable pub execute_approval : Submission → ℕ → Service (Unit {0})
execute_approval s now = do
  submitter ← gets (λ w. w.db.users s.submitter_id)
  user ← or_throw submitter record_not_found
  approve_for s.id (reward s.id s.submitter_id user.wallet_address) now
