-- ===== src/Reading/Rewards.antt =====
-- `checkAndFireMilestones` of reading.service.ts, and `upsertRecord` as a whole.
use Prim.Native.Nat.{ℕ}
use arktion_sui_overflow.Prelude.{
  ◌/◌, ◌&&◌, or_throw, ◌>>=◌, pure, Option, if◌then◌else◌, ◌+◌, ok, not, List, ◌-◌, ◌>>◌, Bool, ◌∷◌,
  gets, some, throw_if, ℕ, false, when, zero, suc, ◌++◌, err, ◌*◌, none, [],
}
use arktion_sui_overflow.Sui.{Key, milestone_key, chapter1_key, series_complete_key}
use arktion_sui_overflow.World.{
  Service, ReadingRecord, series_not_found, ink_already_minted, negative_chapter, record_not_found,
}
use arktion_sui_overflow.Reading.Progress.{
  Progress, update_passport, UpsertReadingRecordDto, write_progress, find_reading, progress,
}
use arktion_sui_overflow.Ink.{InkTrigger, mint_earning}
use arktion_sui_overflow.Badges.{
  mint, MintBadgeParams, reading_achievement, series_completionist, first_chapter,
}

abbrev pub chapter_milestone_interval : ℕ
chapter_milestone_interval = 25

pub record Reward : Type 0 where
  pub key : Key
  pub trigger : InkTrigger

-- The loop over the milestones, from number `m` on with `rounds` to go.
unfoldable pub milestones : ℕ → ℕ → ℕ → ℕ → List Reward
milestones user series m zero = []
milestones user series m (suc rounds) =
    record {
      key = milestone_key user series (m * chapter_milestone_interval);
      trigger = InkTrigger.chapter_read;
    }
    ∷ milestones user series (suc m) rounds

-- The milestones that lie behind `before` and not behind `after`.
unfoldable pub crossed : ℕ → ℕ → ℕ → ℕ → List Reward
unfolding milestones
crossed user series before after =
    let prev_milestone = before / chapter_milestone_interval in
    milestones user series (prev_milestone + 1)
      (after / chapter_milestone_interval - prev_milestone)

unfoldable pub rewards : Progress → List Reward
unfolding crossed
rewards p =
    (if p.is_new
      then record { key = chapter1_key p.user_id p.series_id; trigger = InkTrigger.chapter_read }
        ∷ []
      else [])
    ++ (crossed p.user_id p.series_id p.before p.after
        ++ (if p.now_completed && not p.was_completed
            then record {
              key = series_complete_key p.user_id p.series_id;
              trigger = InkTrigger.series_complete;
            }
              ∷ []
            else []))

-- The `catch` round one reward.
unfoldable pub fire_reward : Progress → Reward → ℕ → Service (Unit {0})
fire_reward p r now w =
    let (result, w') =
      mint_earning
        (record {
          user_id = p.user_id;
          wallet_address = p.wallet_address;
          trigger_type = r.trigger;
          idempotency_key = r.key;
        })
        now w in
    elim result [ ok _ ↦ (ok tt, w') | err ink_already_minted ↦ (ok tt, w') | err e ↦ (err e, w') ]

unfoldable pub fire_rewards : Progress → List Reward → ℕ → Service (Unit {0})
fire_rewards p [] now = pure tt
fire_rewards p (r ∷ rs) now = fire_reward p r now >> fire_rewards p rs now

abbrev pub reading_badge : Progress → ℕ → MintBadgeParams
reading_badge p badge_type = record {
  user_id = p.user_id;
  wallet_address = p.wallet_address;
  category = reading_achievement;
  badge_type = badge_type;
  series_key = none;
  tier = 0;
  series_db_id = none;
}

-- The counts of a series completed.
unfoldable pub count_completion : Progress → Service (Unit {0})
count_completion p =
    update_passport p.user_id (λ q. record q { series_completed = q.series_completed + 1 })

unfoldable pub count_chapters : Progress → Service (Unit {0})
count_chapters p =
    update_passport p.user_id (λ q. record q { chapters_read = q.chapters_read + p.after })

-- The badge between the counts; its error ends the firing.
unfoldable pub fire_completion : Progress → Service (Unit {0})
fire_completion p =
    count_completion p >> (mint (reading_badge p series_completionist) >> count_chapters p)

unfoldable pub fire_first : Progress → Service (Unit {0})
fire_first p = mint (reading_badge p first_chapter) >> pure tt

-- What follows the rewards.
unfoldable pub fire_badges : Progress → Service (Unit {0})
fire_badges p =
    when (p.now_completed && not p.was_completed) (fire_completion p)
    >> when p.is_new (fire_first p)

unfoldable pub check_and_fire_milestones : Progress → ℕ → Service (Unit {0})
check_and_fire_milestones p now = fire_rewards p (rewards p) now >> fire_badges p

-- The milestones are not awaited, and their error is logged; here they run before the next call.
abbrev pub logged : Service (Unit {0}) → Service (Unit {0})
logged m w = (ok tt, (m w).1)

-- `upsertRecord` past its checks.
unfoldable pub follow_progress : Progress → ℕ → Service ReadingRecord
follow_progress p now = do
  write_progress p now
  logged (check_and_fire_milestones p now)
  row ← gets (find_reading p.user_id p.series_id)
  or_throw row record_not_found

-- The series, if it is there and not deleted.
abbrev pub is_known : Option Bool → Bool
is_known none = false
is_known (some is_deleted) = not is_deleted

unfoldable pub upsert_record : ℕ → ℕ → UpsertReadingRecordDto → ℕ → Service ReadingRecord
upsert_record user wallet dto now = do
  known ← gets (λ w. is_known (w.db.series dto.series_id))
  throw_if (not known) series_not_found
  chapter ← or_throw dto.current_chapter negative_chapter
  p ← gets (progress user wallet dto.series_id dto.status chapter)
  follow_progress p now
