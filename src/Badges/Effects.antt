-- ===== src/Badges/Effects.antt =====
-- What `mint` of badges.service.ts leaves alone.
use arktion_sui_overflow.Badges.{
  MintBadgeParams, mint, World, mint_fresh, execute_as_admin, create_badge, badge_block,
}
use arktion_sui_overflow.Prelude.{refl, inl, inr, arith, ◌≡◌}
use arktion_sui_overflow.Sui.{run_block, run_command, mint_badge, Chain, committed}
use arktion_sui_overflow.World.{World}
use arktion_sui_overflow.Gas.{execute_as_admin}
use arktion_sui_overflow.Gas.Effects.{execute_as_admin-Executed}

-- A badge moves no INK.
pub badge_block_keeps :
    (b : MintBadgeParams) (c c' : Chain)
    → run_block (badge_block b) c ≡ committed c'
    → (c'.records ≡ c.records) × (c'.coins ≡ c.coins)
unfolding run_block run_command mint_badge
badge_block_keeps b c c' h = ground arith

badge_executed :
    (b : MintBadgeParams) (w : World)
    → let w' = (execute_as_admin (badge_block b) w).1 in
      (w'.db ≡ w.db) × (w'.chain.records ≡ w.chain.records) × (w'.chain.coins ≡ w.chain.coins)
badge_executed b w =
    let run = execute_as_admin-Executed (badge_block b) w in
    (
      run.same_db,
      elim run.chain_effect [
        | inl (same, _) ↦ rw same refl
        | inr ran ↦ (badge_block_keeps b w.chain _ ran).0
      ],
      elim run.chain_effect [
        | inl (same, _) ↦ rw same refl
        | inr ran ↦ (badge_block_keeps b w.chain _ ran).1
      ],
    )

-- mint writes the badges table and no other, and on the chain no earning record and no coins.
pub mint_keeps :
    (b : MintBadgeParams) (w : World)
    → let w' = (mint b w).1 in
      (w'.db ≡ record w.db { badges_earned = w'.db.badges_earned })
      × (w'.chain.records ≡ w.chain.records)
      × (w'.chain.coins ≡ w.chain.coins)
unfolding mint mint_fresh create_badge
mint_keeps b w = ground (arith, badge_executed b w)
