-- ===== src/Submission/Listing.antt =====
-- `create` and the listings of submission.service.ts.
use mathlib.Core.Option
use Prim.Native.Nat.{ℕ}
use mathlib.Core.Option.{Option}
use arktion_sui_overflow.Prelude.{
  ℕ, none, gets, ◌∷◌, is_some, find, ◌>>◌, false, List, Bool, throw_if, ◌>>=◌, map, ◌==◌, Option,
  select, ◌+◌, some,
}
use arktion_sui_overflow.World.{Submission, World, Service, unique_violation, pending, write}
use arktion_sui_overflow.Submission.Tally.{VoteTally, build_tally}
use arktion_sui_overflow.Submission.Rows.{find_submission, votes_of, is_pending}
use mathlib.Core.List.{reverse}

pub record CreateSubmissionDto : Type 0 where
  pub title : ℕ
  pub format_type : ℕ
  pub external_url : ℕ
  pub suggested_source : ℕ

pub record SubmissionDto : Type 0 where
  pub row : Submission
  pub votes : VoteTally
  pub my_vote : Option Bool

-- `toDto`
unfoldable pub to_dto : Option ℕ → ℕ → World → Submission → SubmissionDto
to_dto caller now w s = record {
  row = s;
  votes = build_tally (votes_of s.id w) s.voting_ends_at now;
  my_vote = elim caller [
    | none ↦ none
    | some user ↦ Option.map (λ v. v.vote) (find (λ v. v.voter_id == user) (votes_of s.id w))
  ];
}

-- The voting window that the table's default opens, 7 days in milliseconds.
abbrev pub voting_window : ℕ
voting_window = 604_800_000

-- `create`, under the id that the database draws.
unfoldable pub create : ℕ → ℕ → CreateSubmissionDto → ℕ → Service SubmissionDto
create id user dto now = do
  clash ← gets (λ w. is_some (find_submission id w))
  throw_if clash unique_violation
  let row : Submission = record {
    id = id;
    submitter_id = user;
    title = dto.title;
    format_type = dto.format_type;
    external_url = dto.external_url;
    suggested_source = dto.suggested_source;
    status = pending;
    reward_claimed = false;
    reviewed_at = none;
    created_at = now;
    voting_ends_at = now + voting_window;
  }
  write (λ d. record d { submissions = row ∷ d.submissions })
  gets (λ w. to_dto (some user) now w row)

-- `getMySubmissions`, newest first.
unfoldable pub get_my_submissions : ℕ → ℕ → World → List SubmissionDto
get_my_submissions user now w =
    map (to_dto (some user) now w) (select (λ s. s.submitter_id == user) w.db.submissions)

-- `getForDao`, and `getPending` with no caller, oldest first.
unfoldable pub get_pending : Option ℕ → ℕ → World → List SubmissionDto
get_pending caller now w =
    map (to_dto caller now w) (reverse (select (λ s. is_pending s.status) w.db.submissions))
