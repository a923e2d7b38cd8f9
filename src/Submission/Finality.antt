-- ===== src/Submission/Finality.antt =====
-- What a vote leaves alone: a submission that has been decided, and a vote that comes too late.
use Prim.Native.Nat.{ℕ}
use arktion_sui_overflow.Submission.Outcomes.{refused, unrecorded, done}
use arktion_sui_overflow.Prelude.{
  ◌∷◌, find, ℕ, update_where, List, err, false, ◌≡◌, sym, true, [], Result, some, arith, ◌≢◌, refl,
  Bool, ok, ◌∙◌,
}
use arktion_sui_overflow.Submission.Rows.{
  update_submission, has_id, find_submission, is_pending, reject, approve,
}
use arktion_sui_overflow.World.{Submission, World, Error}
use arktion_sui_overflow.Submission.Cases.{
  Resolution, rejecting, find_id, settle, no_submitter, response, approving, cast_vote_cases, voted,
}
use arktion_sui_overflow.Submission.Voting.{cast_vote}

find-update_other :
    (id k : ℕ) (f : Submission → Submission) (xs : List Submission)
    → ((x : Submission) → (f x).id ≡ x.id)
    → k ≢ id
    → find (has_id k) (update_where (has_id id) f xs) ≡ find (has_id k) xs
find-update_other id k f [] keeps ne = refl
find-update_other id k f (x ∷ xs) keeps ne =
    ground (arith, find-update_other id k f xs keeps ne, keeps x)

-- A resolution touches the row of its own submission.
Resolution-others :
    (s : Submission) (b : Bool) (now k : ℕ) (w : World) (r : Result Error (Unit {0})) (w' : World)
    → k ≢ s.id
    → Resolution s b now w r w'
    → (find_submission k w' ≡ find_submission k w) × (w'.db.votes ≡ w.db.votes)
unfolding update_submission
Resolution-others s b now k w r w' ne (rejecting e out) =
    ground (arith, find-update_other s.id k (reject now) w.db.submissions (λ x. refl) ne)
Resolution-others s b now k w r w' ne (no_submitter _ _ same) = rw same (refl, refl)
Resolution-others s b now k w r w' ne (approving user e _ (refused _ db _)) = rw db (refl, refl)
Resolution-others s b now k w r w' ne (approving user e _ (unrecorded _ db _)) = rw db (refl, refl)
Resolution-others s b now k w r w' ne (approving user e _ (done digest q badges _ _ _ db)) =
    rw db (find-update_other s.id k (approve now) w.db.submissions (λ x. refl) ne, refl)

-- A decided submission and an open one are two.
apart :
    (id k : ℕ) (s d : Submission) (w : World)
    → find_submission id w ≡ some s
    → is_pending s.status ≡ true
    → find_submission k w ≡ some d
    → is_pending d.status ≡ false
    → k ≢ s.id
apart id k s d w found open_ other over e =
    let same : k ≡ id = e ∙ find_id id w.db.submissions s found in
    let twice : some d ≡ some s = sym (rw same at other) ∙ found in absurd (ground arith)

-- A submission that has been approved or rejected keeps its row, whoever votes on what.
pub cast_vote_final :
    (id user k : ℕ) (vote : Bool) (now : ℕ) (w : World) (d : Submission)
    → find_submission k w ≡ some d
    → is_pending d.status ≡ false
    → find_submission k (cast_vote id user vote now w).1 ≡ some d
cast_vote_final id user k vote now w d there over =
    cast_vote_cases (λ _ w'. find_submission k w' ≡ some d) id user vote now w (λ e. there)
      (λ s e r w' found open_ _ res.
        (Resolution-others s _ now k w r w' (apart id k s d w found open_ there over) res).0
        ∙ there)
      (λ s _ _ _ _ _. there)
      (λ s r w' found open_ _ _ _ res. settled s r w' (
        (Resolution-others s _ now k (voted s user vote w) r w'
          (apart id k s d w found open_ there over) res).0
        ∙ there))
  where
    settled :
        (s : Submission) (r : Result Error (Unit {0})) (w' : World)
        → find_submission k w' ≡ some d
        → find_submission k (settle (response s user vote now w) (r, w')).1 ≡ some d
    settled s (ok _) w' h = h
    settled s (err e) w' h = h
