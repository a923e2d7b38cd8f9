-- ===== src/Passport.antt =====
-- passport.service.ts, the sponsored transactions of gas.service.ts that it sends, and
-- update_stats_attested of passport.move: the totals of a reader, on the chain and off it.
pub mod Sync
pub mod Snapshot
use Prim.Native.Nat.{ℕ}
use arktion_sui_overflow.World.{Delivery, unreachable, unanswered, delivered}
use arktion_sui_overflow.Prelude.{
  not, ◌==◌, ℕ, leb, gets, throw_if, or_throw, Bool, throw, ◌>>◌, ◌>>=◌, pure, Option, some, none,
  modify, put, ltb, Action, if◌then◌else◌, Result, err, ok,
}

pub record Stats : Type 0 where
  pub chapters_read : ℕ
  pub series_completed : ℕ
  pub series_tracked : ℕ
  pub total_ink_earned : ℕ

-- The message that the admin signs; its BCS bytes are the library's.
pub record StatsAttestation : Type 0 where
  pub passport_id : ℕ
  pub stats : Stats

-- Ed25519 under the admin's key.
pub record AdminKey : Type 0 where
  pub sign : StatsAttestation → ℕ
  pub verify : ℕ → StatsAttestation → Bool

-- `ArktionPassport` of passport.move.
pub record ArktionPassport : Type 0 where
  pub owner : ℕ
  pub level : ℕ
  pub stats : Stats

-- A row of `passports`.
pub record PassportRow : Type 0 where
  pub sui_object_id : ℕ
  pub level : ℕ
  pub stats : Stats
  pub identity_blob_id : Option ℕ
  pub last_synced_at : Option ℕ

-- Rows by user, objects by id.
pub record Passports : Type 0 where
  pub rows : ℕ → Option PassportRow
  pub objects : ℕ → Option ArktionPassport

pub data PassportError : Type 0 where
  passport_not_found record_not_found invalid_sender no_gas_coins : PassportError
  rpc_failed service_unavailable upload_failed : PassportError
  not_owner bad_sig stale_update no_object aborted : PassportError

abbrev pub Passporting : Type 0 → Type 0
Passporting A = Action PassportError Passports A

-- What the network answers to one request: the treasury's balance and the sponsor's gas coins (none
-- if the call fails), whether an address is well formed, and what becomes of the transaction.
pub record Sponsor : Type 0 where
  pub treasury_balance : Option ℕ
  pub min_treasury_balance : ℕ
  pub gas_coins : Option ℕ
  pub is_address : ℕ → Bool
  pub delivery : Delivery
  pub digest : ℕ

-- What the bytes of a transaction say: a call of update_stats_attested, by its sender, of anything else,
-- which may abort, or several calls, one after the other. A call of anything else changes no passport:
-- only passport.move can write one, and its other functions that do take the AdminCap, an object that
-- a transaction of a user cannot pass.
pub data SponsoredTx : Type 0 where
  update_stats_tx : ℕ → ℕ → Stats → ℕ → SponsoredTx
  other_tx : Bool → SponsoredTx
  then_tx : SponsoredTx → SponsoredTx → SponsoredTx

-- `calculate_level`
unfoldable pub calculate_level : ℕ → ℕ
calculate_level ink =
    if leb 40000 ink
    then 6
    else if leb 15000 ink
    then 5
    else if leb 6000 ink
    then 4
    else if leb 2000 ink
    then 3
    else if leb 500 ink
    then 2
    else 1

-- `update_stats_attested`
unfoldable pub update_stats_attested : AdminKey → ℕ → ℕ → Stats → ℕ → Passporting (Unit {0})
update_stats_attested key sender id stats signature = do
  found ← gets (λ s. s.objects id)
  passport ← or_throw found no_object
  throw_if (not (passport.owner == sender)) not_owner
  throw_if (not (key.verify signature (record { passport_id = id; stats = stats }))) bad_sig
  throw_if (ltb stats.total_ink_earned passport.stats.total_ink_earned) stale_update
  modify (λ s. record s {
    objects =
        put id
          (record {
            owner = passport.owner;
            level = calculate_level stats.total_ink_earned;
            stats = stats;
          })
          s.objects;
  })

-- A transaction whose calls do not all succeed changes nothing.
abbrev pub rolled_back :
    Passports
    → Result PassportError (Unit {0}) × Passports
    → Result PassportError (Unit {0}) × Passports
rolled_back s (ok x, t) = (ok x, t)
rolled_back s (err e, t) = (err e, s)

abbrev pub run_tx : AdminKey → SponsoredTx → Passporting (Unit {0})
run_tx key (update_stats_tx sender id stats signature) s =
    update_stats_attested key sender id stats signature s
run_tx key (other_tx succeeds) s = throw_if (not succeeds) aborted s
run_tx key (then_tx first second) s = rolled_back s ((run_tx key first >> run_tx key second) s)

unfoldable pub assert_treasury_healthy : Sponsor → Passporting (Unit {0})
assert_treasury_healthy g = do
  balance ← or_throw g.treasury_balance rpc_failed
  throw_if (ltb balance g.min_treasury_balance) service_unavailable

-- `buildSponsoredBytes`
unfoldable pub build_sponsored_bytes : Sponsor → SponsoredTx → ℕ → Passporting SponsoredTx
unfolding assert_treasury_healthy
build_sponsored_bytes g tx sender = do
  assert_treasury_healthy g
  throw_if (not (g.is_address sender)) invalid_sender
  coins ← or_throw g.gas_coins rpc_failed
  throw_if (coins == 0) no_gas_coins
  pure tx

-- `executeTransaction`, and the throw on a `FailedTransaction`.
unfoldable pub execute_tx : AdminKey → Delivery → ℕ → SponsoredTx → Passporting ℕ
execute_tx key unreachable digest tx = throw rpc_failed
execute_tx key unanswered digest tx = run_tx key tx >> throw rpc_failed
execute_tx key delivered digest tx = run_tx key tx >> pure digest

-- `submitSponsoredTx`, with the digest.
unfoldable pub submit_sponsored_tx : AdminKey → Sponsor → SponsoredTx → Passporting ℕ
unfolding assert_treasury_healthy execute_tx
submit_sponsored_tx key g tx = assert_treasury_healthy g >> execute_tx key g.delivery g.digest tx

unfoldable pub build_sync_transaction : AdminKey → Sponsor → ℕ → ℕ → Passporting SponsoredTx
unfolding build_sponsored_bytes
build_sync_transaction key g user wallet = do
  found ← gets (λ s. s.rows user)
  row ← or_throw found passport_not_found
  let message : StatsAttestation = record { passport_id = row.sui_object_id; stats = row.stats }
  build_sponsored_bytes g (update_stats_tx wallet row.sui_object_id row.stats (key.sign message))
      wallet

-- `passport.update({ where: { userId } })`
unfoldable pub update_row : ℕ → (PassportRow → PassportRow) → Passporting (Unit {0})
update_row user f = do
  found ← gets (λ s. s.rows user)
  row ← or_throw found record_not_found
  modify (λ s. record s { rows = put user (f row) s.rows })

abbrev pub synced : ℕ → PassportRow → PassportRow
synced now row = record row { last_synced_at = some now }

unfoldable pub submit_sync_transaction : AdminKey → Sponsor → ℕ → SponsoredTx → ℕ → Passporting ℕ
unfolding submit_sponsored_tx update_row
submit_sync_transaction key g user tx now = do
  digest ← submit_sponsored_tx key g tx
  update_row user (synced now)
  pure digest
