-- ===== src/Reading/Effects.antt =====
-- Each step of the milestones of reading.service.ts leaves the records and the count of series alone.
use arktion_sui_overflow.Badges.{MintBadgeParams, mint, series_completionist, first_chapter}
use arktion_sui_overflow.Prelude.{
  some, arith, when, Bool, Option, ok, Result, ◌≡◌, true, none, false, ℕ, err, put, refl, ◌>>=◌,
  ◌>>◌, ◌&&◌, ◌+◌, not,
}
use arktion_sui_overflow.Reading.Progress.{update_passport, Progress}
use arktion_sui_overflow.Reading.Rewards.{
  fire_completion, fire_first, check_and_fire_milestones, fire_rewards, rewards,
}
use arktion_sui_overflow.World.{Service, World, Passport, Error, record_not_found}
use arktion_sui_overflow.Reading.Rewards.{
  reading_badge, fire_badges, count_completion, count_chapters,
}
use arktion_sui_overflow.Reading.Keeps.{fire_rewards-Keeps, IsOwn, Keeps, Keeps-refl, Keeps-trans}
use arktion_sui_overflow.Badges.Effects.{mint_keeps}
use arktion_sui_overflow.Ink.Mirror.{same-IsMirrored}

bind-Keeps :
    {A B : Type 0} (m : Service A) (k : A → Service B) (w : World)
    → Keeps w (m w).1
    → ((a : A) → Keeps (m w).1 (k a (m w).1).1)
    → Keeps w ((m >>= k) w).1
bind-Keeps {A} {B} m k w first rest = go (m w).0 (m w).1 first rest
  where
    go :
        (r : Result Error A) (v : World)
        → Keeps w v
        → ((a : A) → Keeps v (k a v).1)
        → let out : Result Error B × World = elim r [ ok a ↦ k a v | err e ↦ (err e, v) ] in
          Keeps w out.1
    go (ok a) v x y = Keeps-trans x (y a)
    go (err e) v x y = x

-- A change of a passport that leaves INK and the series tracked alone.
update_passport-Keeps :
    (user : ℕ) (f : Passport → Passport) (w : World)
    → ((p : Passport)
        → ((f p).series_tracked ≡ p.series_tracked) × ((f p).total_ink_earned ≡ p.total_ink_earned))
    → Keeps w (update_passport user f w).1
unfolding update_passport
update_passport-Keeps user f w same = go (w.db.passports user) refl
  where
    go :
        (o : Option Passport)
        → w.db.passports user ≡ o
        → let out : Result Error (Unit {0}) × World = elim o [
          | none ↦ (err record_not_found, w)
          | some p ↦
              (ok tt, record w { db = record w.db { passports = put user (f p) w.db.passports } })
        ] in
          Keeps w out.1
    go none e = Keeps-refl w
    go (some q) e = record {
      rows = refl;
      users = refl;
      tracked = λ u. ground (arith, same q);
      mirrored = λ m. record {
        balances = m.balances;
        passports = λ u p h. ground (arith, same q, m.passports u p, m.passports user q e);
        spent = m.spent;
        covered = m.covered;
      };
    }

mint-Keeps : (b : MintBadgeParams) (w : World) → Keeps w (mint b w).1
mint-Keeps b w =
    let kept = mint_keeps b w in
    record {
      rows = ground (arith, kept);
      users = ground (arith, kept);
      tracked = λ u. ground (arith, kept);
      mirrored = λ m.
          same-IsMirrored w.db (mint b w).1.db w.chain (mint b w).1.chain (ground (arith, kept))
            (ground (arith, kept)) (ground (arith, kept)) (ground (arith, kept)) kept.1 kept.2 m;
    }

when-Keeps :
    (b : Bool) (m : Service (Unit {0})) (w : World) → Keeps w (m w).1 → Keeps w (when b m w).1
when-Keeps true m w k = k
when-Keeps false m w k = Keeps-refl w

then-Keeps :
    {A B : Type 0} (m : Service A) (n : Service B)
    → ((w : World) → Keeps w (m w).1)
    → ((w : World) → Keeps w (n w).1)
    → (w : World) → Keeps w ((m >> n) w).1
then-Keeps m n x y w = bind-Keeps m (λ _. n) w (x w) (λ _. y (m w).1)

fire_completion-Keeps : (p : Progress) (w : World) → Keeps w (fire_completion p w).1
unfolding fire_completion count_completion count_chapters
fire_completion-Keeps p =
    let badge = reading_badge p series_completionist in
    then-Keeps (count_completion p) (mint badge >> count_chapters p)
      (λ w.
        update_passport-Keeps p.user_id
          (λ q. record q { series_completed = q.series_completed + 1 }) w (λ q. (refl, refl)))
      (then-Keeps (mint badge) (count_chapters p) (mint-Keeps badge) (λ w.
        update_passport-Keeps p.user_id
          (λ q. record q { chapters_read = q.chapters_read + p.after }) w (λ q. (refl, refl))))

fire_first-Keeps : (p : Progress) (w : World) → Keeps w (fire_first p w).1
unfolding fire_first
fire_first-Keeps p =
    then-Keeps (mint (reading_badge p first_chapter)) (λ w. (ok tt, w))
      (mint-Keeps (reading_badge p first_chapter)) (λ w. Keeps-refl w)

fire_badges-Keeps : (p : Progress) (w : World) → Keeps w (fire_badges p w).1
unfolding fire_badges
fire_badges-Keeps p =
    let ended = p.now_completed && not p.was_completed in
    then-Keeps (when ended (fire_completion p)) (when p.is_new (fire_first p))
      (λ w. when-Keeps ended (fire_completion p) w (fire_completion-Keeps p w))
      (λ w. when-Keeps p.is_new (fire_first p) w (fire_first-Keeps p w))

pub check_and_fire_milestones-Keeps :
    (p : Progress) (now : ℕ) (w : World) → IsOwn p w → Keeps w (check_and_fire_milestones p now w).1
unfolding check_and_fire_milestones
check_and_fire_milestones-Keeps p now w own =
    bind-Keeps (fire_rewards p (rewards p) now) (λ _. fire_badges p) w
      (fire_rewards-Keeps p (rewards p) now w own) (λ _. fire_badges-Keeps p _)
