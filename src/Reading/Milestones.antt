-- ===== src/Reading/Milestones.antt =====
-- Which milestones an update of a reader's progress rewards.
use arktion_sui_overflow.Prelude.{
  ◌/◌, arith, ◌<◌, ◌+◌, List, ◌-◌, Bool, find, is_some, ℕ, true, ◌%◌, zero, suc, ◌++◌, ◌≤◌, ◌↔◌,
  ◌≡◌, ap,
}
use arktion_sui_overflow.Sui.{Key, key_eq, milestone_key}
use arktion_sui_overflow.Reading.Rewards.{milestones, crossed, Reward}
use native.Mathlib.Nat.{zero-add, add-zero, suc-add, add-suc}

abbrev pub has_key : Key → List Reward → Bool
has_key key rs = is_some (find (λ r. key_eq r.key key) rs)

milestones_split :
    (u s m a b : ℕ) → milestones u s m (a + b) ≡ milestones u s m a ++ milestones u s (m + a) b
unfolding milestones
milestones_split u s m zero b = simp (zero-add, add-zero)
milestones_split u s m (suc a) b = simp (suc-add, milestones_split u s (suc m) a b, add-suc)

-- Two updates that follow one another reward together the milestones that one update over the
-- whole way rewards, in the same order.
pub crossed-append :
    (u s a b c : ℕ) → a ≤ b → b ≤ c → crossed u s a b ++ crossed u s b c ≡ crossed u s a c
unfolding crossed
crossed-append u s a b c h k =
    let first = b / 25 - a / 25 in
    let second = c / 25 - b / 25 in
    let from : b / 25 + 1 ≡ a / 25 + 1 + first = omega arith in
    let whole : c / 25 - a / 25 ≡ first + second = omega arith in
    rw whole (
      rw (milestones_split u s (a / 25 + 1) first second)
        (ap (λ (t : ℕ). milestones u s (a / 25 + 1) first ++ milestones u s t second) from))

has_key-milestones :
    (u s m n mark : ℕ)
    → (has_key (milestone_key u s mark) (milestones u s m n) ≡ true)
      ↔ ((mark % 25 ≡ 0) × (m ≤ mark / 25) × (mark / 25 < m + n))
unfolding milestones key_eq
has_key-milestones u s m zero mark = ground arith
has_key-milestones u s m (suc n) mark = ground (arith, has_key-milestones u s (suc m) n mark)

-- The mark of a milestone is rewarded exactly when it is a multiple of 25 that lies behind the
-- chapter before and not behind the chapter after.
pub has_key-crossed :
    (u s before after mark : ℕ)
    → (has_key (milestone_key u s mark) (crossed u s before after) ≡ true)
      ↔ ((mark % 25 ≡ 0) × (before < mark) × (mark ≤ after))
unfolding crossed
has_key-crossed u s before after mark =
    ground (arith, has_key-milestones u s (before / 25 + 1) (after / 25 - before / 25) mark)
