-- ===== src/Badges.antt =====
-- badges.service.ts.
pub mod Effects
use Prim.Native.Nat.{ℕ}
use arktion_sui_overflow.Prelude.{
  if◌then◌else◌, ◌∷◌, throw_if, true, List, or_throw, none, is_some, find, ◌==◌, Bool, [], ok, ◌&&◌,
  pure, some, ℕ, gets, false, Option, select, ◌||◌, ◌>>=◌, ◌>>◌,
}
use arktion_sui_overflow.World.{
  Service, BadgeEarned, ChangedObject, World, unique_violation, write, badge_object_missing,
}
use arktion_sui_overflow.Sui.{opt_eq, Command, badge_call}
use arktion_sui_overflow.Gas.{execute_as_admin}

-- `BadgeCategory`, `ReadingBadgeType`, `ContributorBadgeType`
abbrev pub reading_achievement : ℕ
reading_achievement = 0

abbrev pub contributor : ℕ
contributor = 4

abbrev pub first_chapter : ℕ
first_chapter = 0

abbrev pub series_completionist : ℕ
series_completionist = 2

abbrev pub submission_approved_badge : ℕ
submission_approved_badge = 0

pub record MintBadgeParams : Type 0 where
  pub user_id : ℕ
  pub wallet_address : ℕ
  pub category : ℕ
  pub badge_type : ℕ
  pub series_key : Option ℕ
  pub tier : ℕ
  pub series_db_id : Option ℕ

pub record MintBadgeResult : Type 0 where
  pub sui_object_id : ℕ
  -- none is the empty text
  pub tx_digest : Option ℕ
  pub already_minted : Bool

-- The first object that the transaction created and that is a badge.
unfoldable pub find_created_badge : List ChangedObject → Option ℕ
find_created_badge [] = none
find_created_badge (c ∷ cs) =
    if c.is_created && c.is_badge then some c.object_id else find_created_badge cs

abbrev pub is_same_badge : ℕ → ℕ → ℕ → Option ℕ → BadgeEarned → Bool
is_same_badge user category badge_type series b =
    b.user_id == user
    && (b.category == category && (b.badge_type == badge_type && opt_eq b.series_id series))

-- The unique constraints of `badges_earned`; a null series makes the composite one void.
abbrev pub violates_unique : BadgeEarned → BadgeEarned → Bool
violates_unique row b =
    b.sui_object_id == row.sui_object_id
    || (is_some row.series_id
        && is_same_badge row.user_id row.category row.badge_type row.series_id b)

-- `badgeEarned.create`
unfoldable pub create_badge : BadgeEarned → Service (Unit {0})
create_badge row = do
  clash ← gets (λ w. is_some (find (violates_unique row) w.db.badges_earned))
  throw_if clash unique_violation
  write (λ d. record d { badges_earned = row ∷ d.badges_earned })

abbrev pub badge_row : MintBadgeParams → ℕ → BadgeEarned
badge_row p object = record {
  user_id = p.user_id;
  sui_object_id = object;
  category = p.category;
  badge_type = p.badge_type;
  series_id = p.series_db_id;
  tier = p.tier;
}

abbrev pub badge_block : MintBadgeParams → List Command
badge_block p =
    badge_call (record {
      recipient = p.wallet_address;
      category = p.category;
      badge_type = p.badge_type;
      series_id = p.series_key;
    })
    ∷ []

-- `mint` past its first look-up.
unfoldable pub mint_fresh : MintBadgeParams → Service MintBadgeResult
mint_fresh p = do
  receipt ← execute_as_admin (badge_block p)
  object ← or_throw (find_created_badge receipt.changed_objects) badge_object_missing
  create_badge (badge_row p object)
  pure (record { sui_object_id = object; tx_digest = some receipt.digest; already_minted = false })

unfoldable pub mint : MintBadgeParams → Service MintBadgeResult
mint p w =
    elim (find (is_same_badge p.user_id p.category p.badge_type p.series_db_id)
      w.db.badges_earned) [
        | some b ↦ (
          ok (record { sui_object_id = b.sui_object_id; tx_digest = none; already_minted = true }),
          w,
        )
        | none ↦ mint_fresh p w
      ]

-- `getMyBadges`; the rows come newest first.
unfoldable pub get_my_badges : ℕ → World → List BadgeEarned
get_my_badges user w = select (λ b. b.user_id == user) w.db.badges_earned
