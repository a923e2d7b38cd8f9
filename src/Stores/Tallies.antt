-- ===== src/Stores/Tallies.antt =====
-- The tally that submission.store.ts shows after a vote, and the one that the backend counts.
use mathlib.Core.Option
use arktion_sui_overflow.Prelude.{
  ℕ, Option, find, if◌then◌else◌, arith, Bool, List, ◌≡◌, ◌+◌, some, none, sum_where, count, true,
  not, ◌≤◌, inl, false, Bool-cases, ◌&&◌, ◌∷◌, leb, ltb, [], inr, ◌||◌, select, ◌==◌, refl,
  update_where, ok, Result, err, sym, subst,
}
use arktion_sui_overflow.Submission.Tally.{
  Counts, VoteTally, share, tally_of, count_votes, count_vote, no_votes, build_tally,
}
use arktion_sui_overflow.Submission.Tally.Shares.{share_iff}
use arktion_sui_overflow.Stores.Voting.{
  ShownTally, Running, shown_tally_of, ShownSubmission, apply_vote, undo_vote, approval_pct,
  is_finalisable, revote, is_shown, SubmissionState, vote, start_vote, finish_vote,
}
use arktion_sui_overflow.Submission.Rows.{
  upsert_vote, is_vote_of, of_submission, votes_of, find_submission,
}
use arktion_sui_overflow.Submission.Listing.{SubmissionDto, to_dto}
use arktion_sui_overflow.World.{SubmissionVote, Submission, World, Error}
use arktion_sui_overflow.Stores.Numbers.{pos}
use arktion_sui_overflow.Submission.Voting.{CastVoteResponse, ink_balance, cast_vote}
use arktion_sui_overflow.Submission.Cases.{
  voted, response, find_id, settle, cast_vote_cases, tally_now,
}
use arktion_sui_overflow.Submission.Ballots.{find-upsert_vote}

-- A tally as the frontend reads it from the backend.
abbrev pub shown_tally : VoteTally → ShownTally
shown_tally t = record {
  approve_count = t.approve_count;
  reject_count = t.reject_count;
  approve_ink = pos t.approve_ink;
  reject_ink = pos t.reject_ink;
  total_ink = pos t.total_ink;
  approval_permille = pos t.approval_permille;
  quorum_met = t.quorum_met;
  finalisable = t.finalisable;
  expired = t.expired;
}

abbrev pub shown : SubmissionDto → ShownSubmission
shown d = record { row = d.row; votes = shown_tally d.votes; my_vote = d.my_vote }

abbrev running : Counts → Running
running c = record {
  approve_ink = pos c.approve_ink;
  reject_ink = pos c.reject_ink;
  approve_count = c.approve_count;
  reject_count = c.reject_count;
}

-- The reader's row has the weight of the reader's balance now, if there is one.
abbrev pub KeepsWeight : Option SubmissionVote → ℕ → Type 0
KeepsWeight none weight = Unit
KeepsWeight (some v) weight = v.ink_weight ≡ weight

-- The votes on one side: their weight and their number.
abbrev weight_for : Bool → List SubmissionVote → ℕ
weight_for b = sum_where (λ v. if b then v.vote else not v.vote) (λ v. v.ink_weight)

abbrev number_for : Bool → List SubmissionVote → ℕ
number_for b = count (λ v. if b then v.vote else not v.vote)

abbrev sides : List SubmissionVote → Counts
sides vs = record {
  approve_ink = weight_for true vs;
  reject_ink = weight_for false vs;
  approve_count = number_for true vs;
  reject_count = number_for false vs;
}

count_votes_sides :
    (c : Counts) (vs : List SubmissionVote)
    → count_votes c vs ≡ record {
      approve_ink = c.approve_ink + weight_for true vs;
      reject_ink = c.reject_ink + weight_for false vs;
      approve_count = c.approve_count + number_for true vs;
      reject_count = c.reject_count + number_for false vs;
    }
unfolding count_votes
count_votes_sides c [] = ground arith
count_votes_sides c (v ∷ vs) = ground (arith, count_votes_sides (count_vote c v) vs)

-- What a row adds to a side.
abbrev part : Bool → Option SubmissionVote → ℕ × ℕ
part b none = (0, 0)
part b (some v) = if (if b then v.vote else not v.vote) then (v.ink_weight, 1) else (0, 0)

-- The upsert takes what the reader's row adds to a side off, and adds what the new row adds.
upsert_vote-part :
    (b : Bool) (row : SubmissionVote) (vs : List SubmissionVote)
    → let o = find (is_vote_of row.submission_id row.voter_id) vs in
      (weight_for b (upsert_vote row vs) + (part b o).0 ≡ weight_for b vs + (part b (some row)).0)
      × (number_for b (upsert_vote row vs) + (part b o).1 ≡ number_for b vs + (part b (some row)).1)
      × ((part b o).0 ≤ weight_for b vs)
      × ((part b o).1 ≤ number_for b vs)
unfolding upsert_vote
upsert_vote-part b row [] = ground arith
upsert_vote-part true row (v ∷ vs) = ground (arith, upsert_vote-part true row vs)
upsert_vote-part false row (v ∷ vs) = ground (arith, upsert_vote-part false row vs)

-- Taking the reader's row out and putting the new one in counts like the votes after the upsert.
revote_counts :
    (row : SubmissionVote) (vs : List SubmissionVote) (o : Option SubmissionVote)
    → find (is_vote_of row.submission_id row.voter_id) vs ≡ o
    → KeepsWeight o row.ink_weight
    → apply_vote row.vote row.ink_weight
        (undo_vote (Option.map (λ v. v.vote) o) row.ink_weight (running (count_votes no_votes vs)))
      ≡ running (count_votes no_votes (upsert_vote row vs))
unfolding apply_vote undo_vote
revote_counts row vs none h k = ground (
  arith,
  h,
  count_votes_sides no_votes vs,
  count_votes_sides no_votes (upsert_vote row vs),
  upsert_vote-part true row vs,
  upsert_vote-part false row vs,
)
revote_counts row vs (some v) h k = ground (
  arith,
  h,
  k,
  count_votes_sides no_votes vs,
  count_votes_sides no_votes (upsert_vote row vs),
  upsert_vote-part true row vs,
  upsert_vote-part false row vs,
)

decisive_same :
    (a r : ℕ)
    → is_finalisable (pos a) (pos (a + r))
      ≡ (let bps = share 10000 a (a + r) in leb 500 (a + r) && (leb 6000 bps || ltb bps 4000))
unfolding share
decisive_same a r = elim (Bool-cases (leb 500 (a + r))) [
  | inl h ↦ ground (arith, h, share_iff a (a + r))
  | inr h ↦ ground (arith, h)
]

-- The tally of the sums, but for the approval in percent, which the store rounds.
tally_shown :
    (c : Counts) (ends now : ℕ) (expired : Bool)
    → shown_tally_of (running c) expired ≡ record (shown_tally (tally_of c ends now)) {
      approval_permille = approval_pct (pos c.approve_ink) (pos (c.approve_ink + c.reject_ink));
      expired = expired;
    }
unfolding shown_tally_of
tally_shown c ends now expired = rw (decisive_same c.approve_ink c.reject_ink)

select-upsert_vote :
    (row : SubmissionVote) (vs : List SubmissionVote)
    → select (of_submission row.submission_id) (upsert_vote row vs)
      ≡ upsert_vote row (select (of_submission row.submission_id) vs)
unfolding upsert_vote
select-upsert_vote row [] = ground arith
select-upsert_vote row (v ∷ vs) = ground (arith, select-upsert_vote row vs)

find_voter :
    (id user : ℕ) (vs : List SubmissionVote)
    → find (λ v. v.voter_id == user) (select (of_submission id) vs)
      ≡ find (is_vote_of id user) (select (of_submission id) vs)
find_voter id user [] = refl
find_voter id user (v ∷ vs) = ground (arith, find_voter id user vs)

-- What the store is expected to show after an accepted vote: nothing once the submission is final,
-- else what the backend would answer, with the approval in percent rounded and not cut off, and
-- without a new look at the clock.
abbrev pub expected : CastVoteResponse → Bool → SubmissionDto → Option ShownSubmission
expected c expired d =
    if c.auto_finalised
    then none
    else some (record (shown d) {
      votes = record (shown_tally d.votes) {
        approval_permille = approval_pct (pos d.votes.approve_ink) (pos d.votes.total_ink);
        expired = expired;
      };
    })

find_shown-vote :
    (id : ℕ) (b : Bool) (r : CastVoteResponse) (sub : ShownSubmission) (subs : List ShownSubmission)
    → find (is_shown id) subs ≡ some sub
    → find (is_shown id) (update_where (is_shown id) (revote b r) subs) ≡ some (revote b r sub)
unfolding revote
find_shown-vote id b r sub [] h = absurd (ground arith)
find_shown-vote id b r sub (x ∷ xs) h = ground (arith, find_shown-vote id b r sub xs)

find_shown-removed :
    (id : ℕ) (subs : List ShownSubmission)
    → find (is_shown id) (select (λ x. not (is_shown id x)) subs) ≡ none
find_shown-removed id [] = refl
find_shown-removed id (x ∷ xs) = ground (arith, find_shown-removed id xs)

-- The store's update of a submission, and the backend's answer after the vote is recorded.
revote_lem :
    (s : Submission) (user : ℕ) (b : Bool) (at now : ℕ) (w : World)
    → KeepsWeight (find (is_vote_of s.id user) (votes_of s.id w)) (ink_balance user w)
    → let d = to_dto (some user) now (voted s user b w) s in
      let old = shown (to_dto (some user) at w s) in
      revote b (response s user b now w) old ≡ record (shown d) {
        votes = record (shown_tally d.votes) {
          approval_permille = approval_pct (pos d.votes.approve_ink) (pos d.votes.total_ink);
          expired = old.votes.expired;
        };
      }
unfolding revote to_dto build_tally
revote_lem s user b at now w k =
    let row : SubmissionVote = record {
      submission_id = s.id;
      voter_id = user;
      vote = b;
      ink_weight = ink_balance user w;
    } in
    let vs : List SubmissionVote = votes_of s.id w in
    rw (
      find_voter s.id user w.db.votes,
      find_voter s.id user (upsert_vote row w.db.votes),
      select-upsert_vote row w.db.votes,
      find-upsert_vote row vs,
      revote_counts row vs (find (is_vote_of s.id user) vs) refl k,
      tally_shown (count_votes no_votes (upsert_vote row vs)) s.voting_ends_at now
          (ltb s.voting_ends_at at),
    )

find_shown-answered :
    (id : ℕ) (b : Bool) (c : CastVoteResponse) (sub after : ShownSubmission) (st : SubmissionState)
    → find (is_shown id) st.submissions ≡ some sub
    → (c.auto_finalised ≡ false → revote b c sub ≡ after)
    → find (is_shown id) (vote id b (ok c) st).submissions
      ≡ (if c.auto_finalised then none else some after)
unfolding vote start_vote finish_vote
find_shown-answered id b c sub after st seen next = elim (Bool-cases c.auto_finalised) [
  | inl f ↦
      ground
        (arith, f, find_shown-removed id (update_where (is_shown id) (revote b c) st.submissions))
  | inr f ↦ ground (arith, f, next f, find_shown-vote id b c sub st.submissions seen)
]

module _ (id user : ℕ) (b : Bool) (at now : ℕ) (w : World) (s : Submission)
    (there : find_submission id w ≡ some s)
    (keeps : KeepsWeight (find (is_vote_of id user) (votes_of id w)) (ink_balance user w))
    (st : SubmissionState)
    (seen : find (is_shown id) st.submissions ≡ some (shown (to_dto (some user) at w s))) where
  -- What the page shows when the answer has arrived.
  abbrev Shows : Result Error CastVoteResponse → World → Type 0
  Shows (ok c) w' =
      find (is_shown id) (vote id b (ok c) st).submissions
      ≡ expected c (ltb s.voting_ends_at at) (to_dto (some user) now w' s)
  Shows (err e) w' = Unit

  counted_Shows :
      (response s user b now w).auto_finalised ≡ false
      → Shows (ok (response s user b now w)) (voted s user b w)
  unfolding to_dto build_tally
  counted_Shows f =
      let same = find_id id w.db.submissions s there in
      find_shown-answered id b (response s user b now w) (shown (to_dto (some user) at w s)) _ st
        seen
        (λ _. revote_lem s user b at now w (
          subst (λ k. KeepsWeight (find (is_vote_of k user) (votes_of k w)) (ink_balance user w))
            (sym same) keeps))

  final_Shows :
      (w' : World)
      → (response s user b now w).auto_finalised ≡ true
      → Shows (ok (response s user b now w)) w'
  final_Shows w' f =
      find_shown-answered id b (response s user b now w) (shown (to_dto (some user) at w s)) _ st
        seen (λ g. absurd (ground (arith, f, g)))

  settle-Shows :
      (r : Result Error (Unit {0})) (w' : World)
      → (response s user b now w).auto_finalised ≡ true
      → let out = settle (response s user b now w) (r, w') in Shows out.0 out.1
  settle-Shows (ok _) w' f = final_Shows w' f
  settle-Shows (err e) w' f = tt

-- When a vote has been accepted, the page shows of its submission what the backend would answer about
-- it now, or no longer shows it if the vote has made it final: the store's own arithmetic on the votes
-- agrees with the backend's count over the recorded rows. The approval in percent is rounded, where the
-- backend cuts it off, and `expired` is as it was. The conditions are that the page shows the submission
-- with the votes that are recorded when this vote comes, `expired` being that of any earlier time, and
-- that the reader's row, if there is one, has the weight of the reader's balance.
pub vote_shown :
    (id user : ℕ) (b : Bool) (at now : ℕ) (w : World) (s : Submission) (st : SubmissionState)
    (c : CastVoteResponse)
    → find_submission id w ≡ some s
    → KeepsWeight (find (is_vote_of id user) (votes_of id w)) (ink_balance user w)
    → find (is_shown id) st.submissions ≡ some (shown (to_dto (some user) at w s))
    → (cast_vote id user b now w).0 ≡ ok c
    → find (is_shown id) (vote id b (ok c) st).submissions
      ≡ expected c
          (ltb s.voting_ends_at at)
          (to_dto (some user) now (cast_vote id user b now w).1 s)
vote_shown id user b at now w s st c there keeps seen accepted =
    let P = Shows id user b at now w s there keeps st seen in
    let same : (x : Submission) → find_submission id w ≡ some x → s ≡ x =
      λ x found. ground (arith, there, found) in
    subst (λ r. P r (cast_vote id user b now w).1) accepted
      (cast_vote_cases P id user b now w (λ e. tt) (λ x e r w' _ _ _ _. tt)
        (λ x found _ _ _.
          subst
            (λ y.
              (tally_now y now (voted y user b w)).finalisable ≡ false
              → P (ok (response y user b now w)) (voted y user b w))
            (same x found) (counted_Shows id user b at now w s there keeps st seen))
        (λ x r w' found _ _ _ f _.
          subst
            (λ y.
              (tally_now y now (voted y user b w)).finalisable ≡ true
              → let out = settle (response y user b now w) (r, w') in P out.0 out.1)
            (same x found) (settle-Shows id user b at now w s there keeps st seen r w') f))
