-- ===== src/Submission/Voting.antt =====
-- `castVote`, `_finalise` and the admin's overrides of submission.service.ts.
use Prim.Native.Nat.{ℕ}
use arktion_sui_overflow.Prelude.{
  not, ◌>>◌, ltb, pure, some, Bool, throw_if, ok, List, throw, ℕ, or_throw, ◌>>=◌, Option, gets,
  none, when, if◌then◌else◌, false,
}
use arktion_sui_overflow.World.{
  Submission, SubmissionVote, World, Service, not_enough_ink, submission_not_found, write,
  already_finalised, record_not_found, voting_closed,
}
use arktion_sui_overflow.Submission.Tally.{build_tally, should_approve}
use arktion_sui_overflow.Ink.{balance_or}
use arktion_sui_overflow.Submission.Rows.{
  min_ink_to_vote, find_submission, update_submission, is_pending, reject, upsert_vote, votes_of,
}
use arktion_sui_overflow.Submission.Approval.{execute_approval}

-- The decision of `_finalise`.
unfoldable pub decide : Option Bool → List SubmissionVote → ℕ → ℕ → Bool
decide (some force_approve) votes ends now = force_approve
decide none votes ends now =
    let t = build_tally votes ends now in if t.quorum_met then should_approve t else false

-- `_finalise` of a submission that is there and pending.
unfoldable pub resolve : Submission → List SubmissionVote → Option Bool → ℕ → Service (Unit {0})
resolve s votes force now =
    if decide force votes s.voting_ends_at now
    then execute_approval s now
    else update_submission s.id (reject now)

unfoldable pub finalise : ℕ → List SubmissionVote → Option Bool → ℕ → Service (Unit {0})
finalise id votes force now w = elim (find_submission id w) [
  | none ↦ (ok tt, w)
  | some s ↦ if is_pending s.status then resolve s votes force now w else (ok tt, w)
]

pub record CastVoteResponse : Type 0 where
  pub submission_id : ℕ
  pub vote : Bool
  pub ink_weight : ℕ
  pub auto_finalised : Bool

abbrev pub ink_balance : ℕ → World → ℕ
ink_balance user w = balance_or 0 (w.db.ink_balances user)

-- `castVote` in the voting window: the vote is written, and the tally decides what follows.
unfoldable pub record_vote : Submission → ℕ → Bool → ℕ → Service CastVoteResponse
record_vote s user vote now = do
  weight ← gets (ink_balance user)
  throw_if (ltb weight min_ink_to_vote) not_enough_ink
  write (λ d. record d {
    votes =
        upsert_vote
          (record { submission_id = s.id; voter_id = user; vote = vote; ink_weight = weight })
          d.votes;
  })
  votes ← gets (votes_of s.id)
  let tally = build_tally votes s.voting_ends_at now
  when tally.finalisable (finalise s.id votes (some (should_approve tally)) now)
  pure (record {
    submission_id = s.id;
    vote = vote;
    ink_weight = weight;
    auto_finalised = tally.finalisable;
  })

unfoldable pub cast_vote : ℕ → ℕ → Bool → ℕ → Service CastVoteResponse
cast_vote id user vote now = do
  found ← gets (find_submission id)
  s ← or_throw found submission_not_found
  throw_if (not (is_pending s.status)) already_finalised
  votes ← gets (votes_of id)
  if ltb s.voting_ends_at now
      then finalise id votes none now >> throw voting_closed
      else record_vote s user vote now

unfoldable pub admin_approve : ℕ → ℕ → Service Submission
admin_approve id now = do
  found ← gets (find_submission id)
  s ← or_throw found submission_not_found
  throw_if (not (is_pending s.status)) already_finalised
  execute_approval s now
  updated ← gets (find_submission id)
  or_throw updated record_not_found

unfoldable pub admin_reject : ℕ → ℕ → Service Submission
admin_reject id now = do
  found ← gets (find_submission id)
  s ← or_throw found submission_not_found
  throw_if (not (is_pending s.status)) already_finalised
  update_submission id (reject now)
  updated ← gets (find_submission id)
  or_throw updated record_not_found
