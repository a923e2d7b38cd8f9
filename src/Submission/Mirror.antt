-- ===== src/Submission/Mirror.antt =====
-- The INK mirror under the operations of submission.service.ts.
use Prim.Native.Nat.{ℕ}
use arktion_sui_overflow.World.{User, Submission, World, Error}
use arktion_sui_overflow.Prelude.{ok, Bool, err, arith, ◌≡◌, Result, ap, refl, ℕ, some}
use arktion_sui_overflow.Submission.Rows.{update_submission}
use arktion_sui_overflow.Ink.Mirror.{
  IsMirrored, paid-IsMirrored, credited-IsMirrored, same-IsMirrored,
}
use arktion_sui_overflow.Submission.Cases.{
  Resolution, rejecting, voted, no_submitter, settle, approving, response, cast_vote_cases,
}
use arktion_sui_overflow.Submission.Voting.{cast_vote}
use arktion_sui_overflow.Submission.Outcomes.{Approving, refused, unrecorded, done, approved_db}
use arktion_sui_overflow.Submission.Approval.{reward}
use arktion_sui_overflow.Ink.Minting.{paid_for, credited}
use arktion_sui_overflow.Ink.{earning_entry}

Approving-IsMirrored :
    (id submitter now : ℕ) (user : User) (w : World) (r : Result Error (Unit {0})) (w' : World)
    → w.db.users submitter ≡ some user
    → IsMirrored w.db w.chain
    → Approving id (reward id submitter user.wallet_address) now w r w'
    → IsMirrored w'.db w'.chain
Approving-IsMirrored id submitter now user w r w' owner m (refused _ db chain) = rw (db, chain) m
Approving-IsMirrored id submitter now user w r w' owner m (unrecorded _ db paid) =
    let p = reward id submitter user.wallet_address in
    rw db (
      same-IsMirrored w.db w.db (paid_for p w.chain) w'.chain refl refl refl refl paid.records
        paid.coins (paid-IsMirrored _ _ _ _ w.db w.chain m))
Approving-IsMirrored id submitter now user w r w' owner m (done digest q badges _ paid has db) =
    let p = reward id submitter user.wallet_address in
    let d = credited (earning_entry p digest now) now q w.db in
    rw db (
      same-IsMirrored d (approved_db id p now digest q badges w.db) (paid_for p w.chain) w'.chain
        refl refl refl refl paid.records paid.coins
        (credited-IsMirrored (earning_entry p digest now) now _ q w.db w.chain m user paid.fresh has
          owner))

Resolution-IsMirrored :
    (s : Submission) (b : Bool) (now : ℕ) (w : World) (r : Result Error (Unit {0})) (w' : World)
    → IsMirrored w.db w.chain
    → Resolution s b now w r w'
    → IsMirrored w'.db w'.chain
unfolding update_submission
Resolution-IsMirrored s b now w r w' m (rejecting _ e) =
    same-IsMirrored w.db w'.db w.chain w'.chain (ground arith) (ground arith) (ground arith)
      (ground arith) (ground arith) (ground arith) m
Resolution-IsMirrored s b now w r w' m (no_submitter _ _ e) = rw e m
Resolution-IsMirrored s b now w r w' m (approving user _ owner ap) =
    Approving-IsMirrored s.id s.submitter_id now user w r w' owner m ap

-- A vote, with all that it may set off, keeps the mirror of INK, whether it is accepted or
-- throws.
pub cast_vote-IsMirrored :
    (id user : ℕ) (vote : Bool) (now : ℕ) (w : World)
    → IsMirrored w.db w.chain
    → let w' = (cast_vote id user vote now w).1 in IsMirrored w'.db w'.chain
cast_vote-IsMirrored id user vote now w m =
    cast_vote_cases (λ _ w'. IsMirrored w'.db w'.chain) id user vote now w (λ e. m)
      (λ s e r w' _ _ _ res. Resolution-IsMirrored s _ now w r w' m res)
      (λ s _ _ _ _ _. voted_mirror s)
      (λ s r w' _ _ _ _ _ res.
        settled s r w'
          (Resolution-IsMirrored s _ now (voted s user vote w) r w' (voted_mirror s) res))
  where
    voted_mirror : (s : Submission) → IsMirrored (voted s user vote w).db w.chain
    voted_mirror s =
        same-IsMirrored w.db (voted s user vote w).db w.chain w.chain refl refl refl refl refl refl
          m

    settled :
        (s : Submission) (r : Result Error (Unit {0})) (w' : World)
        → IsMirrored w'.db w'.chain
        → let w'' = (settle (response s user vote now w) (r, w')).1 in IsMirrored w''.db w''.chain
    settled s (ok _) w' k = k
    settled s (err e) w' k = k
