-- ===== src/Reading/Keeps.antt =====
-- What the milestones of reading.service.ts leave alone: the records, the number of series tracked,
-- the users, and the INK mirror.
use mathlib.Core.Option
use Prim.Native.Nat.{ℕ}
use arktion_sui_overflow.Prelude.{
  Result, arith, [], Option, List, some, ok, err, ◌∷◌, ◌≡◌, ℕ, none, refl, ◌∙◌,
}
use arktion_sui_overflow.Ink.{
  mint_earning, EarnParams, MintEarningResult, recorded_result, mint_new, recorded, find_entry,
}
use arktion_sui_overflow.World.{World, Db, User, Error}
use arktion_sui_overflow.Reading.Progress.{Progress}
use arktion_sui_overflow.Reading.Rewards.{fire_rewards, fire_reward, Reward}
use arktion_sui_overflow.Ink.Mirror.{IsMirrored, mint_earning-IsMirrored}
use arktion_sui_overflow.Ink.Minting.{Minting, refused, unrecorded, mint_new-Minting, minted}

abbrev pub tracked_of : ℕ → Db → Option ℕ
tracked_of u d = Option.map (λ p. p.series_tracked) (d.passports u)

pub record Keeps (w w' : World) : Type 0 where
  pub rows : w'.db.reading_records ≡ w.db.reading_records
  pub users : w'.db.users ≡ w.db.users
  pub tracked : (u : ℕ) → tracked_of u w'.db ≡ tracked_of u w.db
  pub mirrored : IsMirrored w.db w.chain → IsMirrored w'.db w'.chain

pub Keeps-refl : (w : World) → Keeps w w
Keeps-refl w = record { rows = refl; users = refl; tracked = λ u. refl; mirrored = λ m. m }

pub Keeps-trans : {u v w : World} → Keeps u v → Keeps v w → Keeps u w
Keeps-trans a b = record {
  rows = b.rows ∙ a.rows;
  users = b.users ∙ a.users;
  tracked = λ u. b.tracked u ∙ a.tracked u;
  mirrored = λ m. b.mirrored (a.mirrored m);
}

Minting-Keeps :
    (p : EarnParams) (now : ℕ) (w : World) (user : User)
    → w.db.users p.user_id ≡ some user
    → p.wallet_address ≡ user.wallet_address
    → (r : Result Error MintEarningResult) (w' : World) → Minting p now w r w'
    → (w'.db.reading_records ≡ w.db.reading_records)
      × (w'.db.users ≡ w.db.users)
      × ((u : ℕ) → tracked_of u w'.db ≡ tracked_of u w.db)
Minting-Keeps p now w user owner wallet r w' (refused _ db _) = rw db (refl, refl, λ u. refl)
Minting-Keeps p now w user owner wallet r w' (unrecorded _ _ db _) = rw db (refl, refl, λ u. refl)
Minting-Keeps p now w user owner wallet r w' (minted digest q _ has db _ _) =
    rw db (refl, refl, λ u. ground arith)

mint_earning-Keeps :
    (p : EarnParams) (now : ℕ) (w : World) (user : User)
    → w.db.users p.user_id ≡ some user
    → p.wallet_address ≡ user.wallet_address
    → Keeps w (mint_earning p now w).1
unfolding mint_earning
mint_earning-Keeps p now w user owner wallet = record {
  rows = (go (recorded (find_entry p.idempotency_key w.db.ink_ledger))).0;
  users = (go (recorded (find_entry p.idempotency_key w.db.ink_ledger))).1;
  tracked = (go (recorded (find_entry p.idempotency_key w.db.ink_ledger))).2;
  mirrored = mint_earning-IsMirrored p now w user owner wallet;
}
  where
    go :
        (o : Option (ℕ × ℕ))
        → let out : Result Error MintEarningResult × World = elim o [
          | some (digest, amount) ↦ (ok (recorded_result p digest amount w), w)
          | none ↦ mint_new p now w
        ] in
          (out.1.db.reading_records ≡ w.db.reading_records)
          × (out.1.db.users ≡ w.db.users)
          × ((u : ℕ) → tracked_of u out.1.db ≡ tracked_of u w.db)
    go (some (digest, amount)) = (refl, refl, λ u. refl)
    go none = Minting-Keeps p now w user owner wallet _ _ (mint_new-Minting p now w)

-- The user and the wallet that a progress is about.
abbrev pub IsOwn : Progress → World → Type 0
IsOwn p w =
    (user : User) × (w.db.users p.user_id ≡ some user) × (p.wallet_address ≡ user.wallet_address)

fire_reward-world :
    (p : Progress) (r : Reward) (now : ℕ) (w : World)
    → (fire_reward p r now w).1
      ≡ (mint_earning
          (record {
            user_id = p.user_id;
            wallet_address = p.wallet_address;
            trigger_type = r.trigger;
            idempotency_key = r.key;
          })
          now
          w).1
unfolding fire_reward
fire_reward-world p r now w = ground arith

fire_reward-Keeps :
    (p : Progress) (r : Reward) (now : ℕ) (w : World)
    → IsOwn p w
    → Keeps w (fire_reward p r now w).1
fire_reward-Keeps p r now w (user, owner, wallet) =
    rw (fire_reward-world p r now w) (mint_earning-Keeps _ now w user owner wallet)

pub Keeps-IsOwn : (p : Progress) (w w' : World) → Keeps w w' → IsOwn p w → IsOwn p w'
Keeps-IsOwn p w w' k (user, owner, wallet) = (user, rw k.users owner, wallet)

pub fire_rewards-Keeps :
    (p : Progress) (rs : List Reward) (now : ℕ) (w : World)
    → IsOwn p w
    → Keeps w (fire_rewards p rs now w).1
unfolding fire_rewards
fire_rewards-Keeps p [] now w own = Keeps-refl w
fire_rewards-Keeps p (r ∷ rs) now w own =
    let first = fire_reward-Keeps p r now w own in
    go (fire_reward p r now w).0 (fire_reward p r now w).1 first
      (fire_rewards-Keeps p rs now (fire_reward p r now w).1 (Keeps-IsOwn p w _ first own))
  where
    go :
        (o : Result Error (Unit {0})) (w₁ : World)
        → Keeps w w₁
        → Keeps w₁ (fire_rewards p rs now w₁).1
        → let out : Result Error (Unit {0}) × World = elim o [
          | ok _ ↦ fire_rewards p rs now w₁
          | err e ↦ (err e, w₁)
        ] in
          Keeps w out.1
    go (ok _) w₁ a b = Keeps-trans a b
    go (err e) w₁ a b = a
