-- ===== src/Tests/Ink.antt =====
-- The theorems of Ink, Badges and Pagination on a state.
use arktion_sui_overflow.Sui.{key_eq}
use arktion_sui_overflow.Prelude.{refl, ok, none, [], ◌≡◌, ◌∷◌, ◌+◌, List, ℕ}
use arktion_sui_overflow.Badges.{MintBadgeParams, reading_achievement, first_chapter}
use arktion_sui_overflow.Ink.{
  MintEarningResult, mint_earning, calculate_level, EarnParams, InkTrigger, mint_new, send_earning,
  ink_amounts, balance_or, record_mint, record_earning, upsert_entry, upsert_balance,
  add_ink_earned, minted_result, climb,
}
use arktion_sui_overflow.Ink.Mirror.{IsMirrored, mint_earning-IsMirrored, earned}
use arktion_sui_overflow.Tests.Worlds.{world, old_key, world-IsMirrored, chain, db}
use arktion_sui_overflow.Ink.Replay.{mint_earning_replay, mint_earning_once}
use arktion_sui_overflow.Ink.Minting.{paid_for}
use arktion_sui_overflow.Ink.Pays.{mint_earning_pays}
use arktion_sui_overflow.Sui.{
  series_complete_key, run_block, run_command, earn, get_amount_for_trigger,
}
use arktion_sui_overflow.Gas.{execute_as_admin, sign_and_execute}
use arktion_sui_overflow.World.{World}

abbrev params : EarnParams
params = record {
  user_id = 1;
  wallet_address = 101;
  trigger_type = InkTrigger.series_complete;
  idempotency_key = series_complete_key 1 3;
}

-- The state and the result after one call.
abbrev after : World
unfolding key_eq mint_earning mint_new send_earning execute_as_admin sign_and_execute run_block
    run_command earn get_amount_for_trigger record_mint record_earning upsert_entry upsert_balance
    add_ink_earned minted_result calculate_level climb ink_amounts
after = (mint_earning params 5 world).1

abbrev result : MintEarningResult
result = record { tx_digest = 70; amount = 100; new_balance = 100; new_level = 1 }

mint_earning-result : mint_earning params 5 world ≡ (ok result, after)
unfolding key_eq mint_earning mint_new send_earning execute_as_admin sign_and_execute run_block
    run_command earn get_amount_for_trigger record_mint record_earning upsert_entry upsert_balance
    add_ink_earned minted_result calculate_level climb ink_amounts
mint_earning-result = refl

mint_earning-IsMirrored_example :
    IsMirrored (mint_earning params 5 world).1.db (mint_earning params 5 world).1.chain
mint_earning-IsMirrored_example =
    mint_earning-IsMirrored params 5 world (record { wallet_address = 101 }) refl refl
      world-IsMirrored

mint_earning_replay_example : mint_earning params 9 after ≡ (ok result, after)
mint_earning_replay_example =
    mint_earning_replay params 5 9 world after result world-IsMirrored mint_earning-result

mint_earning_once_example :
    (mint_earning (record params { idempotency_key = old_key }) 5 world).1.chain ≡ chain
unfolding key_eq
mint_earning_once_example =
    mint_earning_once (record params { idempotency_key = old_key }) 5 world
      (record { idempotency_key = old_key; user = 102; trigger_type = 0; amount = 600 }) refl

mint_earning_pays_example :
    (after.chain ≡ paid_for params chain)
    × (result.amount ≡ ink_amounts params.trigger_type)
    × (result.new_balance ≡ balance_or 0 (db.ink_balances 1) + ink_amounts params.trigger_type)
    × (result.new_level
        ≡ calculate_level (earned 1 db.ink_ledger + ink_amounts params.trigger_type))
unfolding key_eq
mint_earning_pays_example =
    mint_earning_pays params 5 world after result world-IsMirrored refl mint_earning-result

abbrev badge : MintBadgeParams
badge = record {
  user_id = 1;
  wallet_address = 101;
  category = reading_achievement;
  badge_type = first_chapter;
  series_key = none;
  tier = 0;
  series_db_id = none;
}

abbrev rows : List ℕ
rows = 1 ∷ 2 ∷ 3 ∷ 4 ∷ 5 ∷ []
