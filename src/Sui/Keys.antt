-- ===== src/Sui/Keys.antt =====
-- The idempotency keys that the services build: `ink:{userId}:{trigger}:{context}`, a constructor
-- for each template. Identifiers are UUIDs without a colon, so two templates never collide.
use arktion_sui_overflow.Prelude.{ℕ, ◌≡◌, ◌↔◌, refl, Bool, true, false, ◌&&◌, ◌==◌, arith}

pub data Key : Type 0 where
  -- `ink:${userId}:chapter_read:${seriesId}:chapter1`
  chapter1_key : ℕ → ℕ → Key
  -- `ink:${userId}:chapter_read:${seriesId}:milestone${chapterMark}`
  milestone_key : ℕ → ℕ → ℕ → Key
  -- `ink:${userId}:series_complete:${seriesId}`
  series_complete_key : ℕ → ℕ → Key
  -- `ink:${submitter.id}:submission_approved:${submissionId}`
  submission_approved_key : ℕ → ℕ → Key

unfoldable pub key_eq : Key → Key → Bool
key_eq (chapter1_key u s) (chapter1_key v t) = u == v && s == t
key_eq (milestone_key u s m) (milestone_key v t n) = u == v && (s == t && m == n)
key_eq (series_complete_key u s) (series_complete_key v t) = u == v && s == t
key_eq (submission_approved_key u s) (submission_approved_key v t) = u == v && s == t
key_eq _ _ = false

pub key_eq_iff : (a b : Key) → (key_eq a b ≡ true) ↔ (a ≡ b)
unfolding key_eq
key_eq_iff (chapter1_key u s) (chapter1_key v t) = ground arith
key_eq_iff (milestone_key u s m) (milestone_key v t n) = ground arith
key_eq_iff (series_complete_key u s) (series_complete_key v t) = ground arith
key_eq_iff (submission_approved_key u s) (submission_approved_key v t) = ground arith
key_eq_iff _ _ = ground arith

pub key_eq_self : (a : Key) → key_eq a a ≡ true
key_eq_self a = (key_eq_iff a a).1 refl
