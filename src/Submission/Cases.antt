-- ===== src/Submission/Cases.antt =====
-- Case rules for the operations of submission.service.ts: what has to be shown of every way out.
use arktion_sui_overflow.Prelude.{
  refl, Option, if◌then◌else◌, is_err, none, Bool, List, Result, true, some, false, ◌≡◌, ℕ, arith,
  find, ◌∷◌, [], ◌≤◌, ◌<◌, ok, ltb, err, Option-cases, not, subst, inl, sym, Bool-cases, inr,
}
use arktion_sui_overflow.World.{
  Submission, World, SubmissionVote, Error, User, voting_closed, already_finalised, not_enough_ink,
  submission_not_found,
}
use arktion_sui_overflow.Submission.Voting.{
  resolve, decide, ink_balance, finalise, CastVoteResponse, record_vote, cast_vote,
}
use arktion_sui_overflow.Submission.Approval.{execute_approval, reward}
use arktion_sui_overflow.Submission.Tally.{VoteTally, build_tally, should_approve}
use arktion_sui_overflow.Submission.Rows.{
  upsert_vote, update_submission, reject, votes_of, has_id, find_submission, is_pending,
  min_ink_to_vote,
}
use arktion_sui_overflow.Submission.Outcomes.{approve_for-Approving, Approving}

-- How `_finalise` ends for a submission that is there and pending.
pub data Resolution (s : Submission) (decision : Bool) (now : ℕ) (w : World)
    (r : Result Error (Unit {0})) (w' : World) : Type 0 where
  rejecting :
      decision ≡ false
      → (r, w') ≡ update_submission s.id (reject now) w
      → Resolution s decision now w r w'
  no_submitter : decision ≡ true → is_err r ≡ true → w' ≡ w → Resolution s decision now w r w'
  approving :
      (user : User)
      → decision ≡ true
      → w.db.users s.submitter_id ≡ some user
      → Approving s.id (reward s.id s.submitter_id user.wallet_address) now w r w'
      → Resolution s decision now w r w'

pub execute_approval-Resolution :
    (s : Submission) (now : ℕ) (w : World) (o : Option User)
    → w.db.users s.submitter_id ≡ o
    → Resolution s true now w (execute_approval s now w).0 (execute_approval s now w).1
unfolding execute_approval
execute_approval-Resolution s now w none e = no_submitter refl (ground arith) (ground arith)
execute_approval-Resolution s now w (some user) e = approving user refl e (
    rw (e, execute_approval)
      (approve_for-Approving s.id (reward s.id s.submitter_id user.wallet_address) now w))

pub resolve-Resolution :
    (s : Submission) (votes : List SubmissionVote) (force : Option Bool) (now : ℕ) (w : World)
    → let (r, w') = resolve s votes force now w in
      Resolution s (decide force votes s.voting_ends_at now) now w r w'
unfolding resolve
resolve-Resolution s votes force now w = go (decide force votes s.voting_ends_at now)
  where
    go :
        (b : Bool)
        → let out : Result Error (Unit {0}) × World =
            (if b then execute_approval s now else update_submission s.id (reject now)) w in
          Resolution s b now w out.0 out.1
    go true = execute_approval-Resolution s now w _ refl
    go false = rejecting refl refl

-- A world after a vote has been written.
abbrev pub voted : Submission → ℕ → Bool → World → World
voted s user vote w = record w {
  db = record w.db {
    votes =
        upsert_vote
          (record {
            submission_id = s.id;
            voter_id = user;
            vote = vote;
            ink_weight = ink_balance user w;
          })
          w.db.votes;
  };
}

abbrev pub tally_now : Submission → ℕ → World → VoteTally
tally_now s now w = build_tally (votes_of s.id w) s.voting_ends_at now

pub find_id :
    (id : ℕ) (xs : List Submission) (s : Submission) → find (has_id id) xs ≡ some s → s.id ≡ id
find_id id [] s h = absurd (ground arith)
find_id id (x ∷ xs) s h = ground (arith, find_id id xs s)

finalise_lem :
    (id : ℕ) (votes : List SubmissionVote) (force : Option Bool) (now : ℕ) (w : World)
    (s : Submission)
    → find_submission id w ≡ some s
    → is_pending s.status ≡ true
    → finalise id votes force now w ≡ resolve s votes force now w
unfolding finalise
finalise_lem id votes force now w s found p = rw (found, finalise, p)

abbrev pub response : Submission → ℕ → Bool → ℕ → World → CastVoteResponse
response s user vote now w = record {
  submission_id = s.id;
  vote = vote;
  ink_weight = ink_balance user w;
  auto_finalised = (tally_now s now (voted s user vote w)).finalisable;
}

-- The end of `castVote` after `_finalise`.
abbrev pub settle :
    CastVoteResponse → Result Error (Unit {0}) × World → Result Error CastVoteResponse × World
settle c (ok _, w) = (ok c, w)
settle c (err e, w) = (err e, w)

-- The end of `castVote` past the window.
abbrev pub close : Result Error (Unit {0}) × World → Result Error CastVoteResponse × World
close (ok _, w) = (err voting_closed, w)
close (err e, w) = (err e, w)

record_vote_lem :
    (s : Submission) (user : ℕ) (vote : Bool) (now : ℕ) (w : World)
    → record_vote s user vote now w ≡ (
        let w₁ = voted s user vote w in
        let t = tally_now s now w₁ in
        if ltb (ink_balance user w) min_ink_to_vote
        then (err not_enough_ink, w)
        else if t.finalisable
        then settle
            (response s user vote now w)
            (finalise s.id (votes_of s.id w₁) (some (should_approve t)) now w₁)
        else (ok (response s user vote now w), w₁))
unfolding record_vote
record_vote_lem s user vote now w = ground arith

cast_vote_lem :
    (id user : ℕ) (vote : Bool) (now : ℕ) (w : World) (s : Submission)
    → find_submission id w ≡ some s
    → cast_vote id user vote now w ≡ (
        if not (is_pending s.status)
        then (err already_finalised, w)
        else if ltb s.voting_ends_at now
        then close (finalise id (votes_of id w) none now w)
        else record_vote s user vote now w)
unfolding cast_vote
cast_vote_lem id user vote now w s h = ground arith

module _ (P : Result Error CastVoteResponse → World → Type 0) (id user : ℕ) (vote : Bool) (now : ℕ)
    (w : World) (refused : (e : Error) → P (err e) w)
    (late : (s : Submission) (e : Error) (r : Result Error (Unit {0})) (w' : World)
      → find_submission id w ≡ some s
      → is_pending s.status ≡ true
      → s.voting_ends_at < now
      → Resolution s (decide none (votes_of id w) s.voting_ends_at now) now w r w'
      → P (err e) w')
    (counted : (s : Submission)
      → find_submission id w ≡ some s
      → is_pending s.status ≡ true
      → now ≤ s.voting_ends_at
      → min_ink_to_vote ≤ ink_balance user w
      → (tally_now s now (voted s user vote w)).finalisable ≡ false
      → P (ok (response s user vote now w)) (voted s user vote w))
    (finalised : (s : Submission) (r : Result Error (Unit {0})) (w' : World)
      → find_submission id w ≡ some s
      → is_pending s.status ≡ true
      → now ≤ s.voting_ends_at
      → min_ink_to_vote ≤ ink_balance user w
      → (tally_now s now (voted s user vote w)).finalisable ≡ true
      → Resolution s
          (should_approve (tally_now s now (voted s user vote w)))
          now
          (voted s user vote w)
          r
          w'
      → let out = settle (response s user vote now w) (r, w') in P out.0 out.1) where
  settled_cases :
      (s : Submission) (b : Bool)
      → find_submission id w ≡ some s
      → is_pending s.status ≡ true
      → now ≤ s.voting_ends_at
      → min_ink_to_vote ≤ ink_balance user w
      → (tally_now s now (voted s user vote w)).finalisable ≡ b
      → let w₁ = voted s user vote w in
        let c = response s user vote now w in
        let out : Result Error CastVoteResponse × World =
          if b
          then settle c
              (resolve s (votes_of s.id w₁) (some (should_approve (tally_now s now w₁))) now w₁)
          else (ok c, w₁) in
        P out.0 out.1
  unfolding decide
  settled_cases s true found open_ in_time rich decisive =
      let w₁ = voted s user vote w in
      finalised s _ _ found open_ in_time rich decisive (
        resolve-Resolution s (votes_of s.id w₁) (some (should_approve (tally_now s now w₁))) now w₁)
  settled_cases s false found open_ in_time rich undecided =
      counted s found open_ in_time rich undecided

  record_vote_cases :
      (s : Submission)
      → find_submission id w ≡ some s
      → is_pending s.status ≡ true
      → now ≤ s.voting_ends_at
      → P (record_vote s user vote now w).0 (record_vote s user vote now w).1
  record_vote_cases s found open_ in_time =
      let w₁ = voted s user vote w in
      let t = tally_now s now w₁ in
      let same = find_id id w.db.submissions s found in
      let there = subst (λ (k : ℕ). find (has_id k) w.db.submissions ≡ some s) (sym same) found in
      let final =
        finalise_lem s.id (votes_of s.id w₁) (some (should_approve t)) now w₁ s there open_ in
      rw (record_vote_lem s user vote now w)
        (elim (Bool-cases (ltb (ink_balance user w) min_ink_to_vote)) [
          | inl poor ↦ rw poor (refused not_enough_ink)
          | inr rich ↦
              rw (rich, final)
                (settled_cases s t.finalisable found open_ in_time (ground arith) refl)
        ])

  late_cases :
      (s : Submission) (r : Result Error (Unit {0})) (w' : World)
      → find_submission id w ≡ some s
      → is_pending s.status ≡ true
      → s.voting_ends_at < now
      → Resolution s (decide none (votes_of id w) s.voting_ends_at now) now w r w'
      → let out = close (r, w') in P out.0 out.1
  late_cases s (ok _) w' found open_ closed res = late s voting_closed _ w' found open_ closed res
  late_cases s (err e) w' found open_ closed res = late s e _ w' found open_ closed res

  found_cases :
      (s : Submission)
      → find_submission id w ≡ some s
      → P (cast_vote id user vote now w).0 (cast_vote id user vote now w).1
  found_cases s found =
      rw (cast_vote_lem id user vote now w s found) (elim (Bool-cases (is_pending s.status)) [
        | inr over ↦ rw over (refused already_finalised)
        | inl open_ ↦ elim (Bool-cases (ltb s.voting_ends_at now)) [
          | inl closed ↦
              rw (open_, closed, finalise_lem id (votes_of id w) none now w s found open_)
                (late_cases s _ _ found open_ (ground arith)
                  (resolve-Resolution s (votes_of id w) none now w))
          | inr in_time ↦ rw (open_, in_time) (record_vote_cases s found open_ (ground arith))
        ]
      ])

  -- Every way through `castVote`.
  pub cast_vote_cases : P (cast_vote id user vote now w).0 (cast_vote id user vote now w).1
  unfolding cast_vote
  cast_vote_cases = elim (Option-cases (find_submission id w)) [
    | inl missing ↦ rw (missing, cast_vote) (refused submission_not_found)
    | inr (s, found) ↦ found_cases s found
  ]
