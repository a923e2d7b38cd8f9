-- ===== src/Stores/Profile.antt =====
-- ink.store.ts, badges.store.ts and passport.store.ts: what the profile's pages show.
use arktion_sui_overflow.Prelude.{List}
use arktion_sui_overflow.Stores.Flows.{success, idle_flow, Flow, Requests, run_flow}
use arktion_sui_overflow.World.{BadgeEarned}
use arktion_sui_overflow.Ink.{InkBalanceDto, InkLedgerPage}
use arktion_sui_overflow.Passport.Snapshot.{PassportDto, SnapshotResult}
use arktion_sui_overflow.Stores.Fetching.{not_fetched, Fetched, fetch_value}
use arktion_sui_overflow.Stores.Signing.{ZkLibrary, Browser}
use arktion_sui_overflow.Stores.{Answer}

pub record InkState : Type 0 where
  pub balance : Fetched InkBalanceDto
  pub ledger : Fetched InkLedgerPage

abbrev pub no_ink : InkState
no_ink = record { balance = not_fetched; ledger = not_fetched }

unfoldable pub fetch_balance : Answer InkBalanceDto → InkState → InkState
unfolding fetch_value
fetch_balance answer s = record s { balance = fetch_value answer s.balance }

unfoldable pub fetch_ledger : Answer InkLedgerPage → InkState → InkState
unfolding fetch_value
fetch_ledger answer s = record s { ledger = fetch_value answer s.ledger }

unfoldable pub reset_ink : InkState → InkState
reset_ink s = no_ink

-- The badges are none until they are fetched, and then empty for no badges.
abbrev pub BadgesState : Type 0
BadgesState = Fetched (List BadgeEarned)

unfoldable pub fetch_badges : Answer (List BadgeEarned) → BadgesState → BadgesState
unfolding fetch_value
fetch_badges answer s = fetch_value answer s

unfoldable pub reset_badges : BadgesState → BadgesState
reset_badges s = not_fetched

pub record PassportState : Type 0 where
  pub passport : Fetched PassportDto
  pub snapshot : Fetched SnapshotResult
  pub sync : Flow

abbrev pub no_passport : PassportState
no_passport = record { passport = not_fetched; snapshot = not_fetched; sync = idle_flow }

unfoldable pub fetch_passport : Answer PassportDto → PassportState → PassportState
unfolding fetch_value
fetch_passport answer s = record s { passport = fetch_value answer s.passport }

unfoldable pub export_snapshot : Answer SnapshotResult → PassportState → PassportState
unfolding fetch_value
export_snapshot answer s = record s { snapshot = fetch_value answer s.snapshot }

-- `syncOnChain`: after a success the passport is fetched again.
unfoldable pub sync_on_chain :
    {S : Type 0}
    → ZkLibrary
    → Browser
    → Requests S
    → (S → Answer PassportDto)
    → PassportState
    → S
    → PassportState × S
sync_on_chain lib browser calls get_my_passport s backend =
    let out = run_flow lib browser calls backend in
    let synced : PassportState = record s { sync = out.flow } in
    (
      elim out.flow.stage [
        | success ↦ fetch_passport (get_my_passport out.backend) synced
        | _ ↦ synced
      ],
      out.backend,
    )

unfoldable pub reset_sync : PassportState → PassportState
reset_sync s = record s { sync = idle_flow }

unfoldable pub reset_passport : PassportState → PassportState
reset_passport s = no_passport
