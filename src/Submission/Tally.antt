-- ===== src/Submission/Tally.antt =====
-- `buildTally` of submission.service.ts.
pub mod Shares
use Prim.Native.Nat.{ℕ}
use arktion_sui_overflow.World.{SubmissionVote}
use arktion_sui_overflow.Prelude.{
  ◌-◌, if◌then◌else◌, ◌∷◌, ltb, leb, ℕ, List, ◌&&◌, ◌*◌, ◌||◌, ◌/◌, ◌+◌, ◌==◌, Bool, [],
}

abbrev pub quorum_ink : ℕ
quorum_ink = 500

abbrev pub approval_bps : ℕ
approval_bps = 6000

pub record Counts : Type 0 where
  pub approve_ink : ℕ
  pub reject_ink : ℕ
  pub approve_count : ℕ
  pub reject_count : ℕ

-- The body of the loop over the votes.
abbrev pub count_vote : Counts → SubmissionVote → Counts
count_vote c v =
    if v.vote
    then record c {
      approve_ink = c.approve_ink + v.ink_weight;
      approve_count = c.approve_count + 1;
    }
    else record c { reject_ink = c.reject_ink + v.ink_weight; reject_count = c.reject_count + 1 }

unfoldable pub count_votes : Counts → List SubmissionVote → Counts
count_votes c [] = c
count_votes c (v ∷ vs) = count_votes (count_vote c v) vs

abbrev pub no_votes : Counts
no_votes = record { approve_ink = 0; reject_ink = 0; approve_count = 0; reject_count = 0 }

pub record VoteTally : Type 0 where
  pub approve_count : ℕ
  pub reject_count : ℕ
  pub approve_ink : ℕ
  pub reject_ink : ℕ
  pub total_ink : ℕ
  -- approvalPct in tenths of a percent
  pub approval_permille : ℕ
  pub quorum_met : Bool
  pub finalisable : Bool
  pub expired : Bool

-- `totalInk === 0n ? 0n : (approveInk * scale) / totalInk`
unfoldable pub share : ℕ → ℕ → ℕ → ℕ
share scale approve total = if total == 0 then 0 else approve * scale / total

abbrev pub tally_of : Counts → ℕ → ℕ → VoteTally
tally_of c voting_ends_at now =
    let total = c.approve_ink + c.reject_ink in
    let quorum = leb quorum_ink total in
    let bps = share 10000 c.approve_ink total in
    record {
      approve_count = c.approve_count;
      reject_count = c.reject_count;
      approve_ink = c.approve_ink;
      reject_ink = c.reject_ink;
      total_ink = total;
      approval_permille = share 1000 c.approve_ink total;
      quorum_met = quorum;
      finalisable = quorum && (leb approval_bps bps || ltb bps (10000 - approval_bps));
      expired = ltb voting_ends_at now;
    }

unfoldable pub build_tally : List SubmissionVote → ℕ → ℕ → VoteTally
unfolding count_votes share
build_tally votes voting_ends_at now = tally_of (count_votes no_votes votes) voting_ends_at now

-- `totalBig > 0n && (approveBig * 10000n) / totalBig >= DAO.APPROVAL_BPS`
unfoldable pub should_approve : VoteTally → Bool
should_approve t = ltb 0 t.total_ink && leb approval_bps (t.approve_ink * 10000 / t.total_ink)
