-- ===== src/Tests/Submission.antt =====
-- The theorems of Submission on a state.
use arktion_sui_overflow.Sui.{
  key_eq, run_block, run_command, earn, get_amount_for_trigger, mint_badge,
}
use arktion_sui_overflow.Submission.Voting.{record_vote, finalise, resolve, decide}
use arktion_sui_overflow.Submission.Rows.{upsert_vote, update_submission}
use arktion_sui_overflow.Submission.Tally.{should_approve, count_votes, share}
use arktion_sui_overflow.Submission.Approval.{
  execute_approval, approve_for, approval_block, has_contributor_badge, record_approval,
  record_badge,
}
use arktion_sui_overflow.Gas.{execute_as_admin, sign_and_execute}
use arktion_sui_overflow.Badges.{create_badge, find_created_badge}
use arktion_sui_overflow.Ink.{
  add_ink_earned, ink_amounts, record_earning, upsert_balance, upsert_entry,
}
use arktion_sui_overflow.Prelude.{
  true, List, refl, is_err, ◌↔◌, false, [], find, ◌≡◌, ◌⊎◌, ◌*◌, some, ◌<◌, is_ok, ◌∷◌, ◌≤◌,
}
use arktion_sui_overflow.Submission.Rows.{find_submission, votes_of, is_vote_of}
use arktion_sui_overflow.Submission.Tally.{build_tally}
use arktion_sui_overflow.Submission.Outcome.{status_of, dao_outcome, cast_vote_outcome}
use arktion_sui_overflow.Submission.Voting.{cast_vote, admin_approve, ink_balance}
use arktion_sui_overflow.Tests.Worlds.{
  world, decided_world, decided, spent_world, submission, world-IsMirrored, reward_record,
}
use arktion_sui_overflow.World.{SubmissionVote}
use arktion_sui_overflow.Submission.Tally.Shares.{cast_ink, approving_ink, finalisable_iff}
use arktion_sui_overflow.Ink.Mirror.{IsMirrored}
use arktion_sui_overflow.Submission.Finality.{cast_vote_final}
use arktion_sui_overflow.Submission.Mirror.{cast_vote-IsMirrored}
use arktion_sui_overflow.Submission.Ballots.{cast_vote_recorded}
use arktion_sui_overflow.Submission.Reward.{admin_approve_spent}

-- The vote is accepted, and it approves the submission.
vote_is_ok : is_ok (cast_vote 5 2 true 10 world).0 ≡ true
unfolding cast_vote record_vote build_tally upsert_vote finalise resolve decide should_approve
    execute_approval approve_for execute_as_admin run_block approval_block run_command key_eq
    has_contributor_badge record_approval update_submission create_badge find_created_badge
    sign_and_execute add_ink_earned ink_amounts record_earning upsert_balance upsert_entry
    record_badge count_votes share earn get_amount_for_trigger mint_badge
vote_is_ok = refl

cast_vote_outcome_example :
    status_of 5 (cast_vote 5 2 true 10 world).1
    ≡ some (dao_outcome (votes_of 5 (cast_vote 5 2 true 10 world).1))
cast_vote_outcome_example = cast_vote_outcome 5 2 true 10 world vote_is_ok

cast_vote-IsMirrored_example : let w' = (cast_vote 5 2 true 10 world).1 in IsMirrored w'.db w'.chain
cast_vote-IsMirrored_example = cast_vote-IsMirrored 5 2 true 10 world world-IsMirrored

cast_vote_final_example : find_submission 5 (cast_vote 5 2 true 10 decided_world).1 ≡ some decided
cast_vote_final_example = cast_vote_final 5 2 5 true 10 decided_world decided refl refl

cast_vote_recorded_example :
    let w' = (cast_vote 5 2 true 10 world).1 in
    (1 ≤ ink_balance 2 world)
    × (find (is_vote_of 5 2) w'.db.votes
        ≡ some (record {
          submission_id = 5;
          voter_id = 2;
          vote = true;
          ink_weight = ink_balance 2 world;
        }))
cast_vote_recorded_example = cast_vote_recorded 5 2 true 10 world vote_is_ok

admin_approve_spent_example :
    (is_err (admin_approve 5 10 spent_world).0 ≡ true)
    × (find_submission 5 (admin_approve 5 10 spent_world).1 ≡ some submission)
    × ((admin_approve 5 10 spent_world).1.chain ≡ spent_world.chain)
unfolding key_eq
admin_approve_spent_example =
    admin_approve_spent 5 10 spent_world submission reward_record refl refl refl

abbrev votes : List SubmissionVote
votes =
    record { submission_id = 5; voter_id = 2; vote = true; ink_weight = 600 }
    ∷ record { submission_id = 5; voter_id = 3; vote = false; ink_weight = 300 }
    ∷ []

finalisable_iff_example : ((build_tally votes 1000 10).finalisable ≡ true) ↔ (
    (500 ≤ cast_ink votes)
    × ((6000 * cast_ink votes ≤ 10000 * approving_ink votes)
        ⊎ (10000 * approving_ink votes < 4000 * cast_ink votes)))
finalisable_iff_example = finalisable_iff votes 1000 10
