-- ===== src/Stores/Voting.antt =====
-- submission.store.ts: the submissions that the DAO's page shows, and a vote on one of them.
use arktion_sui_overflow.Prelude.{
  ℕ, ok, err, Option, List, [], Bool, true, update_where, ◌-◌, if◌then◌else◌, ◌==◌, not, ltb, ◌+◌,
  ◌*◌, select, ◌&&◌, none, some, leb, ◌||◌, false,
}
use arktion_sui_overflow.World.{Submission}
use arktion_sui_overflow.Stores.{Answer}
use arktion_sui_overflow.Stores.Numbers.{
  ℤ, sub_nat, add_nat, is_zero, pos, ◌+ℤ◌, round_permille, negsuc,
}
use arktion_sui_overflow.Submission.Voting.{CastVoteResponse}

-- `VoteTallyDto`, where the amounts of INK are what the store makes of them.
pub record ShownTally : Type 0 where
  pub approve_count : ℕ
  pub reject_count : ℕ
  pub approve_ink : ℤ
  pub reject_ink : ℤ
  pub total_ink : ℤ
  -- approvalPct in tenths of a percent
  pub approval_permille : ℤ
  pub quorum_met : Bool
  pub finalisable : Bool
  pub expired : Bool

-- `SubmissionDto` of the frontend.
pub record ShownSubmission : Type 0 where
  pub row : Submission
  pub votes : ShownTally
  pub my_vote : Option Bool

pub record SubmissionState : Type 0 where
  pub submissions : List ShownSubmission
  pub loading : Bool
  pub error : Option ℕ
  pub voting : ℕ → Bool
  pub vote_error : Option ℕ

abbrev pub initial : SubmissionState
initial = record {
  submissions = [];
  loading = false;
  error = none;
  voting = λ id. false;
  vote_error = none;
}

-- `fetchDao`
unfoldable pub fetch_dao : Answer (List ShownSubmission) → SubmissionState → SubmissionState
fetch_dao (ok rows) s = record s { submissions = rows; loading = false; error = none }
fetch_dao (err message) s = record s { loading = false; error = some message }

abbrev pub mark : ℕ → Bool → (ℕ → Bool) → ℕ → Bool
mark id b voting other = if other == id then b else voting other

-- The four numbers that the update of a tally works on.
pub record Running : Type 0 where
  pub approve_ink : ℤ
  pub reject_ink : ℤ
  pub approve_count : ℕ
  pub reject_count : ℕ

-- "Undo previous vote weight if changing"
unfoldable pub undo_vote : Option Bool → ℕ → Running → Running
undo_vote none weight r = r
undo_vote (some true) weight r = record r {
  approve_ink = sub_nat r.approve_ink weight;
  approve_count = r.approve_count - 1;
}
undo_vote (some false) weight r = record r {
  reject_ink = sub_nat r.reject_ink weight;
  reject_count = r.reject_count - 1;
}

-- "Apply new vote"
unfoldable pub apply_vote : Bool → ℕ → Running → Running
apply_vote true weight r = record r {
  approve_ink = add_nat r.approve_ink weight;
  approve_count = r.approve_count + 1;
}
apply_vote false weight r = record r {
  reject_ink = add_nat r.reject_ink weight;
  reject_count = r.reject_count + 1;
}

-- `Math.round((approveInk / totalInk) * 1000) / 10`, in tenths
unfoldable pub approval_pct : ℤ → ℤ → ℤ
unfolding round_permille
approval_pct approve total = if is_zero total then pos 0 else round_permille approve total

-- `totalInk >= 500`
abbrev pub is_quorum : ℤ → Bool
is_quorum (pos t) = leb 500 t
is_quorum (negsuc t) = false

-- `approveBps >= 6000 || approveBps < 4000` of a positive total. The comparison is that of the exact
-- quotients while the total is below 2 ^ 40: a quotient that is not 60 or 40 percent is further from
-- it than the rounding of doubles reaches, and the doubles of 0.6 and 0.4 times 10000 are 6000
-- and 4000.
abbrev pub is_decisive : ℤ → ℕ → Bool
is_decisive (pos a) t = leb (6000 * t) (a * 10000) || ltb (a * 10000) (4000 * t)
is_decisive (negsuc a) t = true

abbrev pub is_finalisable : ℤ → ℤ → Bool
is_finalisable a (pos t) = leb 500 t && is_decisive a t
is_finalisable a (negsuc t) = false

unfoldable pub shown_tally_of : Running → Bool → ShownTally
shown_tally_of r expired =
    let total = r.approve_ink +ℤ r.reject_ink in
    record {
      approve_count = r.approve_count;
      reject_count = r.reject_count;
      approve_ink = r.approve_ink;
      reject_ink = r.reject_ink;
      total_ink = total;
      approval_permille = approval_pct r.approve_ink total;
      quorum_met = is_quorum total;
      finalisable = is_finalisable r.approve_ink total;
      expired = expired;
    }

-- The update of the submission that was voted on.
unfoldable pub revote : Bool → CastVoteResponse → ShownSubmission → ShownSubmission
unfolding undo_vote apply_vote shown_tally_of
revote vote r sub =
    let before : Running = record {
      approve_ink = sub.votes.approve_ink;
      reject_ink = sub.votes.reject_ink;
      approve_count = sub.votes.approve_count;
      reject_count = sub.votes.reject_count;
    } in
    let after = apply_vote vote r.ink_weight (undo_vote sub.my_vote r.ink_weight before) in
    record { row = sub.row; my_vote = some r.vote; votes = shown_tally_of after sub.votes.expired }

abbrev pub is_shown : ℕ → ShownSubmission → Bool
is_shown id sub = sub.row.id == id

-- The first step of `vote`, before the request.
unfoldable pub start_vote : ℕ → SubmissionState → SubmissionState
start_vote id s = record s { voting = mark id true s.voting; vote_error = none }

-- What `vote` does with the answer.
unfoldable pub finish_vote : ℕ → Bool → Answer CastVoteResponse → SubmissionState → SubmissionState
unfolding revote
finish_vote id vote (ok r) s =
    let subs = update_where (is_shown id) (revote vote r) s.submissions in
    record s {
      voting = mark id false s.voting;
      submissions = if r.auto_finalised then select (λ x. not (is_shown id x)) subs else subs;
    }
finish_vote id vote (err message) s = record s {
  voting = mark id false s.voting;
  vote_error = some message;
}

unfoldable pub vote : ℕ → Bool → Answer CastVoteResponse → SubmissionState → SubmissionState
unfolding start_vote finish_vote
vote id v answer s = finish_vote id v answer (start_vote id s)

unfoldable pub reset_submissions : SubmissionState → SubmissionState
reset_submissions s = initial
