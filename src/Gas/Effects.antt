-- ===== src/Gas/Effects.antt =====
-- What `executeAsAdmin` can do to the world, whatever the network does.
use arktion_sui_overflow.Prelude.{List, Result, ◌≡◌, ◌⊎◌, arith, is_err, true}
use arktion_sui_overflow.World.{Reply, World, Error}
use arktion_sui_overflow.Sui.{Command, run_block, committed}
use arktion_sui_overflow.Gas.{sign_and_execute, Receipt, execute_as_admin}

-- The database stays as it is. Either nothing happened and the call throws, or the block ran as a
-- whole; an `ok` says that it ran.
pub record Executed (block : List Command) (w : World) (r : Result Error Receipt) (w' : World)
    : Type 0 where
  pub same_db : w'.db ≡ w.db
  pub same_env : w'.env ≡ w.env
  pub chain_effect :
      ((w'.chain ≡ w.chain) × (is_err r ≡ true)) ⊎ (run_block block w.chain ≡ committed w'.chain)

sign_and_execute-Executed :
    (reply : Reply) (block : List Command) (w : World)
    → Executed block w (sign_and_execute reply block w).0 (sign_and_execute reply block w).1
unfolding sign_and_execute
sign_and_execute-Executed reply block w = record {
  same_db = ground arith;
  same_env = ground arith;
  chain_effect = ground arith;
}

pub execute_as_admin-Executed :
    (block : List Command) (w : World)
    → Executed block w (execute_as_admin block w).0 (execute_as_admin block w).1
unfolding execute_as_admin sign_and_execute
execute_as_admin-Executed block w = record {
  same_db = ground arith;
  same_env = ground arith;
  chain_effect = ground arith;
}
