-- ===== src/Submission/Outcome.antt =====
-- What the votes decide: the DAO's rules, and `castVote` against them.
use mathlib.Core.Option
use Prim.Native.Nat.{ℕ}
use arktion_sui_overflow.Submission.Outcomes.{refused, unrecorded, done}
use arktion_sui_overflow.Prelude.{
  some, [], ltb, if◌then◌else◌, refl, update_where, arith, ◌*◌, ◌≡◌, Option, is_ok, leb, List, true,
  find, Result, ℕ, Bool, ◌∷◌, ap, err, false, ok, ◌∙◌,
}
use arktion_sui_overflow.Submission.Rows.{
  update_submission, find_submission, has_id, votes_of, reject, is_pending, approve,
}
use arktion_sui_overflow.World.{
  World, Submission, SubmissionVote, SubmissionStatus, approved, Error, pending, rejected,
}
use arktion_sui_overflow.Submission.Tally.{build_tally, should_approve}
use arktion_sui_overflow.Submission.Voting.{cast_vote, CastVoteResponse}
use arktion_sui_overflow.Submission.Cases.{
  Resolution, rejecting, no_submitter, approving, tally_now, cast_vote_cases, voted, response,
  settle, find_id,
}
use arktion_sui_overflow.Submission.Tally.Shares.{
  cast_ink, finalisable_iff, approving_ink, should_approve_iff,
}

-- The rules of the README: 500 INK of quorum, approval at 60 %, rejection below 40 %.
abbrev pub dao_outcome : List SubmissionVote → SubmissionStatus
dao_outcome vs =
    if ltb (cast_ink vs) 500
    then pending
    else if leb (6000 * cast_ink vs) (10000 * approving_ink vs)
    then approved
    else if ltb (10000 * approving_ink vs) (4000 * cast_ink vs)
    then rejected
    else pending

abbrev pub status_of : ℕ → World → Option SubmissionStatus
status_of id w = Option.map (λ s. s.status) (find_submission id w)

-- The status that a resolution writes.
abbrev resolved : Bool → SubmissionStatus
resolved b = if b then approved else rejected

find-update :
    (id : ℕ) (f : Submission → Submission) (xs : List Submission) (s : Submission)
    → ((x : Submission) → (f x).id ≡ x.id)
    → find (has_id id) xs ≡ some s
    → find (has_id id) (update_where (has_id id) f xs) ≡ some (f s)
find-update id f [] s k h = absurd (ground arith)
find-update id f (x ∷ xs) s k h = ground (arith, find-update id f xs s k, k x)

-- A resolution that returns has written its decision, and it leaves the votes alone.
Resolution-status :
    (s : Submission) (b : Bool) (now id : ℕ) (w : World) (r : Result Error (Unit {0})) (w' : World)
    → find_submission id w ≡ some s
    → s.id ≡ id
    → is_ok r ≡ true
    → Resolution s b now w r w'
    → (status_of id w' ≡ some (resolved b)) × (w'.db.votes ≡ w.db.votes)
unfolding update_submission
Resolution-status s b now id w r w' found same good (rejecting e out) =
    ground (arith, find-update id (reject now) w.db.submissions s (λ x. refl) found)
Resolution-status s b now id w r w' found same good (no_submitter _ bad _) = absurd (ground arith)
Resolution-status s b now id w r w' found same good (approving user e _ (refused bad _ _)) =
    absurd (ground arith)
Resolution-status s b now id w r w' found same good (approving user e _ (unrecorded bad _ _)) =
    absurd (ground arith)
Resolution-status s b now id w r w' found same good
      (approving user e _ (done digest q badges _ _ _ db)) =
    ground (arith, find-update id (approve now) w.db.submissions s (λ x. refl) found)

decided_outcome :
    (vs : List SubmissionVote) (ends now : ℕ)
    → dao_outcome vs ≡ (
        let t = build_tally vs ends now in
        if t.finalisable then resolved (should_approve t) else pending)
decided_outcome vs ends now =
    ground (arith, finalisable_iff vs ends now, should_approve_iff vs ends now)

find_of_other : (id : ℕ) (s : Submission) (w : World) → s.id ≡ id → votes_of s.id w ≡ votes_of id w
find_of_other id s w e = ap (λ (k : ℕ). votes_of k w) e

module _ (id user : ℕ) (vote : Bool) (now : ℕ) (w : World) where
  -- What an accepted vote has to leave behind.
  abbrev Follows : Result Error CastVoteResponse → World → Type 0
  Follows r w' = is_ok r ≡ true → status_of id w' ≡ some (dao_outcome (votes_of id w'))

  counted_Follows :
      (s : Submission)
      → find_submission id w ≡ some s
      → is_pending s.status ≡ true
      → (tally_now s now (voted s user vote w)).finalisable ≡ false
      → Follows (ok (response s user vote now w)) (voted s user vote w)
  counted_Follows s found open_ undecided _ =
      let w₁ = voted s user vote w in
      let same = find_id id w.db.submissions s found in
      ground (
        arith,
        same,
        decided_outcome (votes_of s.id w₁) s.voting_ends_at now,
        find_of_other id s w₁ same,
      )

  finalised_Follows :
      (s : Submission) (r : Result Error (Unit {0})) (w' : World)
      → find_submission id w ≡ some s
      → (tally_now s now (voted s user vote w)).finalisable ≡ true
      → Resolution s
          (should_approve (tally_now s now (voted s user vote w)))
          now
          (voted s user vote w)
          r
          w'
      → let out = settle (response s user vote now w) (r, w') in Follows out.0 out.1
  finalised_Follows s (err e) w' found decisive res bad = absurd (ground arith)
  finalised_Follows s (ok _) w' found decisive res _ =
      let w₁ = voted s user vote w in
      let same = find_id id w.db.submissions s found in
      let end = Resolution-status s _ now id w₁ _ w' found same refl res in
      rw end.1 (
        end.0
        ∙ ground (
          arith,
          same,
          decided_outcome (votes_of s.id w₁) s.voting_ends_at now,
          find_of_other id s w₁ same,
        ))

-- A vote that is accepted leaves the submission in the status that the DAO's rules give for the
-- votes then recorded.
pub cast_vote_outcome :
    (id user : ℕ) (vote : Bool) (now : ℕ) (w : World)
    → is_ok (cast_vote id user vote now w).0 ≡ true
    → let w' = (cast_vote id user vote now w).1 in
      status_of id w' ≡ some (dao_outcome (votes_of id w'))
cast_vote_outcome id user vote now w =
    cast_vote_cases (Follows id user vote now w) id user vote now w (λ e bad. absurd (ground arith))
      (λ s e r w' _ _ _ _ bad. absurd (ground arith))
      (λ s found open_ _ _. counted_Follows id user vote now w s found open_)
      (λ s r w' found _ _ _. finalised_Follows id user vote now w s r w' found)
