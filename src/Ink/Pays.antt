-- ===== src/Ink/Pays.antt =====
-- What a first call of `mintEarning` pays, and what it tells the caller.
use arktion_sui_overflow.Ink.{
  minted_result, mint_earning, get_balance, upsert_balance, EarnParams, MintEarningResult,
  find_entry, ink_amounts, balance_or, calculate_level, mint_new, Option, recorded_result, recorded,
}
use arktion_sui_overflow.Prelude.{◌≡◌, ℕ, ok, ◌+◌, Result, none, arith, Option, refl, some}
use arktion_sui_overflow.World.{World, Error}
use arktion_sui_overflow.Ink.Mirror.{IsMirrored, earned}
use arktion_sui_overflow.Ink.Minting.{
  paid_for, Minting, refused, unrecorded, minted, mint_new-Minting,
}

minted_pays :
    (p : EarnParams) (now : ℕ) (w : World) (m : IsMirrored w.db w.chain)
    → (o : Result Error MintEarningResult) (w' : World) (r : MintEarningResult)
    → Minting p now w o w'
    → o ≡ ok r
    → (w'.chain ≡ paid_for p w.chain)
      × (r.amount ≡ ink_amounts p.trigger_type)
      × (r.new_balance ≡ balance_or 0 (w.db.ink_balances p.user_id) + ink_amounts p.trigger_type)
      × (r.new_level
          ≡ calculate_level (earned p.user_id w.db.ink_ledger + ink_amounts p.trigger_type))
unfolding minted_result upsert_balance
minted_pays p now w m o w' r (refused e _ _) h = absurd (ground arith)
minted_pays p now w m o w' r (unrecorded e _ _ _) h = absurd (ground arith)
minted_pays p now w m o w' r (minted digest q fresh has db chain e) h =
    ground (arith, m.passports p.user_id q has)

-- A call that returns, and that no earlier call had recorded, pays the amount of its trigger to the
-- wallet and returns that amount, the old balance plus it, and the level of the new lifetime total.
pub mint_earning_pays :
    (p : EarnParams) (now : ℕ) (w w' : World) (r : MintEarningResult)
    → IsMirrored w.db w.chain
    → find_entry p.idempotency_key w.db.ink_ledger ≡ none
    → mint_earning p now w ≡ (ok r, w')
    → (w'.chain ≡ paid_for p w.chain)
      × (r.amount ≡ ink_amounts p.trigger_type)
      × (r.new_balance ≡ balance_or 0 (w.db.ink_balances p.user_id) + ink_amounts p.trigger_type)
      × (r.new_level
          ≡ calculate_level (earned p.user_id w.db.ink_ledger + ink_amounts p.trigger_type))
unfolding mint_earning
mint_earning_pays p now w w' r m new returned =
    let fresh_call : mint_new p now w ≡ (ok r, w') = rw (new, mint_earning) at returned in
    minted_pays p now w m (ok r) w' r (rw fresh_call at (mint_new-Minting p now w)) refl

-- mintEarning leaves the level that getBalance reports as it was, for every user.
pub get_balance_level :
    (p : EarnParams) (now u : ℕ) (w : World)
    → (get_balance u (mint_earning p now w).1).level ≡ (get_balance u w).level
unfolding get_balance mint_earning
get_balance_level p now u w = go (recorded (find_entry p.idempotency_key w.db.ink_ledger))
  where
    kept :
        (o : Result Error MintEarningResult) (w' : World)
        → Minting p now w o w'
        → (get_balance u w').level ≡ (get_balance u w).level
    kept o w' (refused _ db _) = rw db
    kept o w' (unrecorded _ _ db _) = rw db
    kept o w' (minted digest q fresh has db _ _) = rw db (ground arith)

    go :
        (o : Option (ℕ × ℕ))
        → let out : Result Error MintEarningResult × World = elim o [
          | some (digest, amount) ↦ (ok (recorded_result p digest amount w), w)
          | none ↦ mint_new p now w
        ] in
          (get_balance u out.1).level ≡ (get_balance u w).level
    go (some (digest, amount)) = refl
    go none = kept _ _ (mint_new-Minting p now w)
