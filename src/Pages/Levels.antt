-- ===== src/Pages/Levels.antt =====
-- lib/types/ink.ts and app/(protected)/(reader)/passport/page.tsx: the way to the next level.
use arktion_sui_overflow.Prelude.{
  ℕ, List, Bool, min, if◌then◌else◌, ◌*◌, zero, some, suc, false, ◌/◌, Option, ◌-◌, true, ◌∷◌, ◌==◌,
  [], none, or_else, ◌+◌,
}

-- `LEVEL_THRESHOLDS`, and the entry at an index.
abbrev pub shown_thresholds : List ℕ
shown_thresholds = 0 ∷ 500 ∷ 2000 ∷ 6000 ∷ 15000 ∷ 40000 ∷ []

abbrev pub entry_at : ℕ → List ℕ → Option ℕ
entry_at n [] = none
entry_at zero (x ∷ xs) = some x
entry_at (suc n) (x ∷ xs) = entry_at n xs

-- `inkToNextLevel`; a threshold of 0 counts as none.
unfoldable pub ink_to_next_level : ℕ → ℕ → ℕ
ink_to_next_level level total = elim (entry_at level shown_thresholds) [
  | none ↦ 0
  | some next ↦ if next == 0 then 0 else next - total
]

pub record LevelProgress : Type 0 where
  pub pct : ℕ
  pub earned_in_level : ℕ
  pub level_range : ℕ
  pub is_max_level : Bool

-- `Math.min(100, Math.round((earnedInLevel / levelRange) * 100))`
abbrev pub percent : ℕ → ℕ → ℕ
percent earned range = min 100 ((200 * earned + range) / (2 * range))

-- `levelProgress` of a level from 1 on whose threshold has been reached.
unfoldable pub level_progress : ℕ → ℕ → LevelProgress
level_progress level total = elim (entry_at level shown_thresholds) [
  | none ↦ record { pct = 100; earned_in_level = 0; level_range = 0; is_max_level = true }
  | some next ↦
      (let prev = or_else (entry_at (level - 1) shown_thresholds) 0 in
        record {
          pct = percent (total - prev) (next - prev);
          earned_in_level = total - prev;
          level_range = next - prev;
          is_max_level = false;
        })
]
