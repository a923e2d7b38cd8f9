-- ===== src/Submission/Rows.antt =====
-- The rows of submission.service.ts: submissions, votes, and the writes to them.
use Prim.Native.Nat.{ℕ}
use arktion_sui_overflow.Prelude.{
  Bool, select, ok, if◌then◌else◌, [], some, find, is_some, update_where, false, List, err, ◌∷◌,
  true, ◌&&◌, ◌==◌, ℕ, Option,
}
use arktion_sui_overflow.World.{
  SubmissionStatus, SubmissionVote, Submission, World, pending, Service, rejected, approved,
  record_not_found,
}

abbrev pub min_ink_to_vote : ℕ
min_ink_to_vote = 1

abbrev pub is_pending : SubmissionStatus → Bool
is_pending pending = true
is_pending _ = false

abbrev pub has_id : ℕ → Submission → Bool
has_id id s = s.id == id

abbrev pub find_submission : ℕ → World → Option Submission
find_submission id w = find (has_id id) w.db.submissions

abbrev pub of_submission : ℕ → SubmissionVote → Bool
of_submission id v = v.submission_id == id

-- `include: { votes: true }`
abbrev pub votes_of : ℕ → World → List SubmissionVote
votes_of id w = select (of_submission id) w.db.votes

abbrev pub is_vote_of : ℕ → ℕ → SubmissionVote → Bool
is_vote_of id voter v = v.submission_id == id && v.voter_id == voter

-- `submissionVote.upsert`
unfoldable pub upsert_vote : SubmissionVote → List SubmissionVote → List SubmissionVote
upsert_vote row [] = row ∷ []
upsert_vote row (v ∷ vs) =
    if is_vote_of row.submission_id row.voter_id v
    then record v { vote = row.vote; ink_weight = row.ink_weight } ∷ vs
    else v ∷ upsert_vote row vs

-- `submission.update`
unfoldable pub update_submission : ℕ → (Submission → Submission) → Service (Unit {0})
update_submission id f w =
    if is_some (find_submission id w)
    then (
      ok tt,
      record w { db = record w.db { submissions = update_where (has_id id) f w.db.submissions } },
    )
    else (err record_not_found, w)

abbrev pub reject : ℕ → Submission → Submission
reject now s = record s { status = rejected; reviewed_at = some now }

abbrev pub approve : ℕ → Submission → Submission
approve now s = record s { status = approved; reward_claimed = true; reviewed_at = some now }
