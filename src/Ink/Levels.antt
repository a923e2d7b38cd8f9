-- ===== src/Ink/Levels.antt =====
-- `calculateLevel`: the reader's level from the INK earned in a lifetime.
use arktion_sui_overflow.Ink.{calculate_level, level_thresholds}
use arktion_sui_overflow.Prelude.{ℕ, arith, ◌≡◌, leb, count, ◌≤◌}

-- The level is the number of thresholds that the earned INK reaches.
pub calculate_level-eq-count :
    (ink : ℕ) → calculate_level ink ≡ count (λ t. leb t ink) level_thresholds
unfolding calculate_level
calculate_level-eq-count ink = ground arith

-- Earning more INK never lowers the level.
pub calculate_level_mono : (a b : ℕ) → a ≤ b → calculate_level a ≤ calculate_level b
unfolding calculate_level
calculate_level_mono a b h = ground arith
