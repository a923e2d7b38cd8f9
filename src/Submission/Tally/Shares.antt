-- ===== src/Submission/Tally/Shares.antt =====
-- What the tally says of the votes, in terms of INK alone.
use Prim.Native.Nat.{ℕ}
use arktion_sui_overflow.Prelude.{
  ◌∷◌, true, List, ◌+◌, [], ◌≤◌, length, ◌*◌, ◌↔◌, sum_where, arith, ℕ, ◌≡◌, ◌/◌, ◌<◌, ◌⊎◌,
}
use arktion_sui_overflow.Submission.Tally.{
  count_votes, build_tally, SubmissionVote, Counts, count_vote, no_votes, should_approve,
}
use arktion_sui_overflow.World.{SubmissionVote}
use native.Mathlib.Nat.{le-div_iff_mul-le, div-lt_iff_lt-mul}

abbrev pub approving_ink : List SubmissionVote → ℕ
approving_ink = sum_where (λ v. v.vote) (λ v. v.ink_weight)

abbrev pub cast_ink : List SubmissionVote → ℕ
cast_ink = sum_where (λ v. true) (λ v. v.ink_weight)

-- The loop adds up the weights on each side.
pub count_votes_sums :
    (c : Counts) (vs : List SubmissionVote)
    → let r = count_votes c vs in
      (r.approve_ink ≡ c.approve_ink + approving_ink vs)
      × (r.approve_ink + r.reject_ink ≡ c.approve_ink + c.reject_ink + cast_ink vs)
      × (r.approve_count + r.reject_count ≡ c.approve_count + c.reject_count + length vs)
unfolding count_votes
count_votes_sums c [] = omega arith
count_votes_sums c (v ∷ vs) = ground (arith, count_votes_sums (count_vote c v) vs)

-- The floor of the share in basis points reaches 60 %, or falls below 40 %, exactly where the share
-- does.
pub share_iff :
    (a t : ℕ)
    → 0 < t
    → ((6000 ≤ a * 10000 / t) ↔ (6000 * t ≤ 10000 * a))
      × ((a * 10000 / t < 4000) ↔ (10000 * a < 4000 * t))
share_iff a t h =
    let high = le-div_iff_mul-le {k = t} {x = 6000} {y = a * 10000} h in
    let low = div-lt_iff_lt-mul {k = t} {x = a * 10000} {y = 4000} h in
    (
      (λ p. omega (arith, high.0 p), λ p. high.1 (omega arith)),
      (λ p. omega (arith, low.0 p), λ p. low.1 (omega arith)),
    )

-- A tally can be finalised exactly when 500 INK have been cast and the approving share is at least
-- 60 % or below 40 %.
pub finalisable_iff :
    (vs : List SubmissionVote) (ends now : ℕ)
    → ((build_tally vs ends now).finalisable ≡ true) ↔ (
        (500 ≤ cast_ink vs)
        × ((6000 * cast_ink vs ≤ 10000 * approving_ink vs)
            ⊎ (10000 * approving_ink vs < 4000 * cast_ink vs)))
unfolding build_tally
finalisable_iff vs ends now =
    let sums = count_votes_sums no_votes vs in
    ground (arith, sums, share_iff (approving_ink vs) (cast_ink vs))

-- A tally is approved exactly when INK has been cast and 60 % of it approves.
pub should_approve_iff :
    (vs : List SubmissionVote) (ends now : ℕ)
    → (should_approve (build_tally vs ends now) ≡ true)
      ↔ ((0 < cast_ink vs) × (6000 * cast_ink vs ≤ 10000 * approving_ink vs))
unfolding build_tally should_approve
should_approve_iff vs ends now =
    let sums = count_votes_sums no_votes vs in
    ground (arith, sums, share_iff (approving_ink vs) (cast_ink vs))
