-- ===== src/Submission/Ballots.antt =====
-- The votes table: one row for each submission and reader.
use Prim.Native.Nat.{ℕ}
use arktion_sui_overflow.Prelude.{
  [], ◌≡◌, if◌then◌else◌, count, some, find, arith, ℕ, max, List, ◌∷◌, Bool, Result, true, sym, ◌≤◌,
  refl, ok, is_ok, subst, err,
}
use arktion_sui_overflow.Submission.Rows.{
  upsert_vote, is_vote_of, update_submission, find_submission,
}
use arktion_sui_overflow.World.{SubmissionVote, World, Submission, Error}
use arktion_sui_overflow.Submission.Voting.{CastVoteResponse, cast_vote, ink_balance}
use arktion_sui_overflow.Submission.Cases.{
  voted, Resolution, settle, cast_vote_cases, rejecting, response, no_submitter, find_id, approving,
}
use arktion_sui_overflow.Submission.Outcomes.{refused, unrecorded, done}

abbrev pub ballots : ℕ → ℕ → List SubmissionVote → ℕ
ballots id voter = count (is_vote_of id voter)

-- `upsert` gives the reader a row or changes the one there is; no other reader's row moves.
upsert_vote-ballots :
    (id voter : ℕ) (row : SubmissionVote) (vs : List SubmissionVote)
    → ballots id voter (upsert_vote row vs)
      ≡ (if is_vote_of id voter row then max 1 (ballots id voter vs) else ballots id voter vs)
unfolding upsert_vote
upsert_vote-ballots id voter row [] = ground arith
upsert_vote-ballots id voter row (v ∷ vs) = ground (arith, upsert_vote-ballots id voter row vs)

pub find-upsert_vote :
    (row : SubmissionVote) (vs : List SubmissionVote)
    → let o = find (is_vote_of row.submission_id row.voter_id) (upsert_vote row vs) in o ≡ some row
unfolding upsert_vote
find-upsert_vote row [] = ground arith
find-upsert_vote row (v ∷ vs) = ground (arith, find-upsert_vote row vs)

-- No reader has two rows for one submission.
abbrev pub OneEach : World → Type 0
OneEach w = (id voter : ℕ) → ballots id voter w.db.votes ≤ 1

Resolution-votes :
    (s : Submission) (b : Bool) (now : ℕ) (w : World) (r : Result Error (Unit {0})) (w' : World)
    → Resolution s b now w r w'
    → w'.db.votes ≡ w.db.votes
unfolding update_submission
Resolution-votes s b now w r w' (rejecting e out) = ground arith
Resolution-votes s b now w r w' (no_submitter _ _ same) = rw same
Resolution-votes s b now w r w' (approving user e _ (refused _ db _)) = rw db
Resolution-votes s b now w r w' (approving user e _ (unrecorded _ db _)) = rw db
Resolution-votes s b now w r w' (approving user e _ (done digest q badges _ _ _ db)) = rw db

settle-votes :
    (c : CastVoteResponse) (r : Result Error (Unit {0})) (w : World)
    → (settle c (r, w)).1.db.votes ≡ w.db.votes
settle-votes c (ok _) w = refl
settle-votes c (err e) w = refl

voted-OneEach :
    (s : Submission) (user : ℕ) (vote : Bool) (w : World)
    → OneEach w
    → OneEach (voted s user vote w)
voted-OneEach s user vote w one id voter =
    let row : SubmissionVote = record {
      submission_id = s.id;
      voter_id = user;
      vote = vote;
      ink_weight = ink_balance user w;
    } in
    ground (arith, upsert_vote-ballots id voter row w.db.votes, one id voter)

-- However often a reader votes, and whatever else happens, there is one row for each reader and
-- submission at most.
pub cast_vote-OneEach :
    (id user : ℕ) (vote : Bool) (now : ℕ) (w : World)
    → OneEach w
    → OneEach (cast_vote id user vote now w).1
cast_vote-OneEach id user vote now w one =
    cast_vote_cases (λ _ w'. OneEach w') id user vote now w (λ e. one)
      (λ s e r w' _ _ _ res i v. rw (Resolution-votes s _ now w r w' res) (one i v))
      (λ s _ _ _ _ _. voted-OneEach s user vote w one)
      (λ s r w' _ _ _ _ _ res i v.
        rw
          (
            settle-votes (response s user vote now w) r w',
            Resolution-votes s _ now (voted s user vote w) r w' res,
          )
          (voted-OneEach s user vote w one i v))

-- An accepted vote is cast by a holder of INK, and is the reader's row from then on, with the
-- weight of the balance at that moment.
pub cast_vote_recorded :
    (id user : ℕ) (vote : Bool) (now : ℕ) (w : World)
    → is_ok (cast_vote id user vote now w).0 ≡ true
    → let w' = (cast_vote id user vote now w).1 in
      (1 ≤ ink_balance user w)
      × (find (is_vote_of id user) w'.db.votes
          ≡ some (record {
            submission_id = id;
            voter_id = user;
            vote = vote;
            ink_weight = ink_balance user w;
          }))
cast_vote_recorded id user vote now w =
    cast_vote_cases Recorded id user vote now w (λ e bad. absurd (ground arith))
      (λ s e r w' _ _ _ _ bad. absurd (ground arith))
      (λ s found _ _ rich _ good. (rich, row_found s found))
      (λ s r w' found _ _ rich _ res good. (
        rich,
        rw
            (
              settle-votes (response s user vote now w) r w',
              Resolution-votes s _ now (voted s user vote w) r w' res,
            )
            (row_found s found),
      ))
  where
    Recorded : Result Error CastVoteResponse → World → Type 0
    Recorded r w' =
        is_ok r ≡ true
        → (1 ≤ ink_balance user w)
          × (find (is_vote_of id user) w'.db.votes
              ≡ some (record {
                submission_id = id;
                voter_id = user;
                vote = vote;
                ink_weight = ink_balance user w;
              }))

    row_found :
        (s : Submission)
        → find_submission id w ≡ some s
        → find (is_vote_of id user) (voted s user vote w).db.votes
          ≡ some (record {
            submission_id = id;
            voter_id = user;
            vote = vote;
            ink_weight = ink_balance user w;
          })
    row_found s found =
        let row : ℕ → SubmissionVote = λ k. record {
          submission_id = k;
          voter_id = user;
          vote = vote;
          ink_weight = ink_balance user w;
        } in
        subst
          (λ (k : ℕ). find (is_vote_of id user) (upsert_vote (row k) w.db.votes) ≡ some (row id))
          (sym (find_id id w.db.submissions s found)) (find-upsert_vote (row id) w.db.votes)
