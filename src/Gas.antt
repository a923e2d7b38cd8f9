-- ===== src/Gas.antt =====
-- gas.service.ts: every transaction that the backend sends as admin.
pub mod Effects
use arktion_sui_overflow.Prelude.{ℕ, suc, none, some, List, if◌then◌else◌, ltb, ok, err}
use arktion_sui_overflow.Sui.{Command, run_block, committed, aborted}
use arktion_sui_overflow.World.{
  World, Service, Reply, ChangedObject, unreachable, unanswered, delivered, rpc_failed,
  service_unavailable, execution_failed,
}

-- `result.Transaction`
pub record Receipt : Type 0 where
  pub digest : ℕ
  pub changed_objects : List ChangedObject

-- `signAndExecuteTransaction`, and the throw on a `FailedTransaction`.
unfoldable pub sign_and_execute : Reply → List Command → Service Receipt
sign_and_execute reply block w = elim reply.delivery [
  | unreachable ↦ (err rpc_failed, w)
  | unanswered ↦ elim (run_block block w.chain) [
    | committed c ↦ (err rpc_failed, record w { chain = c })
    | aborted a ↦ (err rpc_failed, w)
  ]
  | delivered ↦ elim (run_block block w.chain) [
    | committed c ↦ (
      ok (record { digest = reply.digest; changed_objects = reply.changed_objects }),
      record w { chain = c },
    )
    | aborted a ↦ (err (execution_failed a), w)
  ]
]

-- `executeAsAdmin`, with `assertTreasuryHealthy` before it.
unfoldable pub execute_as_admin : List Command → Service Receipt
unfolding sign_and_execute
execute_as_admin block w =
    let reply : Reply = w.env.network w.calls in
    let w' : World = record w { calls = suc w.calls } in
    elim reply.treasury_balance [
      | none ↦ (err rpc_failed, w')
      | some balance ↦
          if ltb balance w.env.min_treasury_balance
          then (err service_unavailable, w')
          else sign_and_execute reply block w'
    ]
