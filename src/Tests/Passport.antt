-- ===== src/Tests/Passport.antt =====
-- The theorems of Passport and Journal on small states.
use Prim.Native.Nat.{ℕ}
use arktion_sui_overflow.World.{delivered}
use arktion_sui_overflow.Passport.{
  Stats, AdminKey, ArktionPassport, PassportRow, Passports, StatsAttestation, Sponsor, SponsoredTx,
  build_sync_transaction, submit_sync_transaction, update_stats_tx, build_sponsored_bytes,
  calculate_level, submit_sponsored_tx, assert_treasury_healthy, execute_tx, update_row,
  update_stats_attested, then_tx, other_tx,
}
use arktion_sui_overflow.Prelude.{
  ◌∷◌, ◌+◌, ◌==◌, true, false, ◌≡◌, [], ok, ◌⊎◌, put, arith, none, ℕ, refl, ◌≤◌, some,
}
use arktion_sui_overflow.Journal.{get_entries, JournalEntry}
use arktion_sui_overflow.Passport.Sync.{
  submit_sync_transaction_attested, submit_sync_transaction-build,
}
use arktion_sui_overflow.Journal.Ownership.{run_calls, delete_call, get_entries-run_calls}
use arktion_sui_overflow.Journal.Store.{IsSynced, Screen, act, remove_action, act-IsSynced}

-- A key whose signature of a message is the sum of its numbers.
abbrev total : StatsAttestation → ℕ
total m = m.passport_id + m.stats.chapters_read + m.stats.total_ink_earned

abbrev key : AdminKey
key = record { sign = total; verify = λ signature m. signature == total m }

abbrev old_stats : Stats
old_stats = record {
  chapters_read = 10;
  series_completed = 0;
  series_tracked = 1;
  total_ink_earned = 100;
}

abbrev new_stats : Stats
new_stats = record {
  chapters_read = 60;
  series_completed = 1;
  series_tracked = 2;
  total_ink_earned = 700;
}

abbrev passport : ArktionPassport
passport = record { owner = 500; level = 1; stats = old_stats }

abbrev row : PassportRow
row = record {
  sui_object_id = 9;
  level = 1;
  stats = new_stats;
  identity_blob_id = none;
  last_synced_at = none;
}

abbrev state : Passports
state = record { rows = put 1 row (λ _. none); objects = put 9 passport (λ _. none) }

abbrev sponsor : Sponsor
sponsor = record {
  treasury_balance = some 100;
  min_treasury_balance = 10;
  gas_coins = some 2;
  is_address = λ _. true;
  delivery = delivered;
  digest = 77;
}

abbrev tx : SponsoredTx
tx = update_stats_tx 500 9 new_stats 769

builds : (build_sync_transaction key sponsor 1 500 state).0 ≡ ok tx
unfolding build_sync_transaction build_sponsored_bytes assert_treasury_healthy
builds = refl

submit_sync_transaction-build_example :
    let (r, s') = submit_sync_transaction key sponsor 1 tx 40 state in
    (r ≡ ok 77)
    × (s'.objects 9 ≡ some (record { owner = 500; level = calculate_level 700; stats = new_stats }))
    × (s'.rows 1 ≡ some (record row { last_synced_at = some 40 }))
submit_sync_transaction-build_example =
    submit_sync_transaction-build key sponsor 1 500 40 state row passport tx (λ m. ground arith)
      refl refl refl (omega arith) refl builds

abbrev after : ArktionPassport
after = record { owner = 500; level = 2; stats = new_stats }

-- Another call first, and the sync twice.
abbrev calls : SponsoredTx
calls = then_tx (other_tx true) (then_tx tx tx)

syncs : (submit_sync_transaction key sponsor 1 calls 40 state).1.objects 9 ≡ some after
unfolding submit_sync_transaction submit_sponsored_tx execute_tx assert_treasury_healthy update_row
    update_stats_attested calculate_level
syncs = refl

submit_sync_transaction_attested_example :
    (after.owner ≡ passport.owner)
    × (passport.stats.total_ink_earned ≤ after.stats.total_ink_earned)
    × ((after ≡ passport)
        ⊎ ((signature : ℕ) × (key.verify signature (record { passport_id = 9; stats = after.stats })
              ≡ true)))
submit_sync_transaction_attested_example =
    submit_sync_transaction_attested key sponsor 1 40 9 calls state passport after refl syncs

abbrev entry : JournalEntry
entry = record {
  user_id = 1;
  entry_id = 5;
  external_title = 0;
  format_type = 0;
  external_url = 0;
  total_chapters = 10;
  current_chapter = 3;
  notes = none;
  submitted_as_suggestion = false;
  created_at = 1;
  updated_at = 1;
}

get_entries-run_calls_example :
    get_entries 1 (run_calls (delete_call 2 5 ∷ delete_call 3 5 ∷ []) (entry ∷ []))
    ≡ get_entries 1 (entry ∷ [])
get_entries-run_calls_example =
    get_entries-run_calls 1 (delete_call 2 5 ∷ delete_call 3 5 ∷ []) (entry ∷ [])
      ((λ h. ground (arith, h)), ((λ h. ground (arith, h)), tt))

abbrev page : Screen
page = record {
  state = record { entries = entry ∷ []; is_loading = false; error = none };
  table = entry ∷ record entry { user_id = 2 } ∷ [];
}

page-IsSynced : IsSynced 1 page
unfolding get_entries
page-IsSynced = record { shown = refl; keys = λ o e. ground arith }

act-IsSynced_example : IsSynced 1 (act 1 (remove_action 5) page)
act-IsSynced_example = act-IsSynced 1 (remove_action 5) page page-IsSynced
