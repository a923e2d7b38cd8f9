-- ===== src/Passport/Snapshot.antt =====
-- The reads of passport.service.ts, and `takeSnapshot`, which exports a reader's history to Walrus.
use Prim.Native.Nat.{ℕ}
use arktion_sui_overflow.World.{ReadingRecord}
use arktion_sui_overflow.Passport.{
  Passports, Passporting, PassportRow, passport_not_found, upload_failed, Stats, Bool, update_row,
}
use arktion_sui_overflow.Prelude.{
  inr, suc, false, refl, leb, inl, ◌∷◌, or_throw, ◌==◌, List, if◌then◌else◌, pure, Option-cases,
  count, some, gets, select, Option, ◌≡◌, ok, length, ℕ, ◌>>◌, arith, ◌>>=◌, Bool, [], ◌∙◌,
}
use arktion_sui_overflow.Journal.{get_entries, JournalEntry}

-- What `findByUserId` returns, less the URLs.
pub record PassportDto : Type 0 where
  pub object_id : ℕ
  pub level : ℕ
  pub stats : Stats
  pub identity_blob_id : Option ℕ
  pub last_synced_at : Option ℕ

unfoldable pub find_by_user_id : ℕ → Passporting PassportDto
find_by_user_id user = do
  found ← gets (λ s. s.rows user)
  row ← or_throw found passport_not_found
  pure (record {
    object_id = row.sui_object_id;
    level = row.level;
    stats = row.stats;
    identity_blob_id = row.identity_blob_id;
    last_synced_at = row.last_synced_at;
  })

-- The document that is uploaded.
pub record Snapshot : Type 0 where
  pub version : ℕ
  pub snapshot_at : ℕ
  pub sui_object_id : ℕ
  pub level : ℕ
  pub stats : Stats
  pub reading_records : List ReadingRecord
  pub journal_entries : List JournalEntry

pub record SnapshotResult : Type 0 where
  pub blob_id : ℕ
  pub snapshot_at : ℕ
  pub record_count : ℕ
  pub on_chain_anchored : Bool

-- `orderBy: { lastReadAt: 'desc' }`
unfoldable pub insert_by_read : ReadingRecord → List ReadingRecord → List ReadingRecord
insert_by_read r [] = r ∷ []
insert_by_read r (q ∷ qs) =
    let rest = insert_by_read r qs in
    if leb q.last_read_at r.last_read_at then r ∷ q ∷ qs else q ∷ rest

unfoldable pub by_last_read : List ReadingRecord → List ReadingRecord
unfolding insert_by_read
by_last_read [] = []
by_last_read (r ∷ rs) = insert_by_read r (by_last_read rs)

unfoldable pub snapshot_of : ℕ → ℕ → PassportRow → List ReadingRecord → List JournalEntry → Snapshot
unfolding by_last_read get_entries
snapshot_of user now row records entries = record {
  version = 1;
  snapshot_at = now;
  sui_object_id = row.sui_object_id;
  level = row.level;
  stats = row.stats;
  reading_records = by_last_read (select (λ r. r.user_id == user) records);
  journal_entries = get_entries user entries;
}

-- `takeSnapshot` over the tables of reading records and journal entries; `upload` is that of
-- walrus.service.ts with the JSON text, and gives none if it throws.
unfoldable pub take_snapshot :
    (Snapshot → Option ℕ)
    → ℕ
    → ℕ
    → List ReadingRecord
    → List JournalEntry
    → Passporting SnapshotResult
unfolding snapshot_of update_row
take_snapshot upload user now records entries = do
  found ← gets (λ s. s.rows user)
  row ← or_throw found passport_not_found
  let document = snapshot_of user now row records entries
  blob ← or_throw (upload document) upload_failed
  update_row user (λ r. record r { identity_blob_id = some blob })
  pure (record {
    blob_id = blob;
    snapshot_at = now;
    record_count = length document.reading_records;
    on_chain_anchored = false;
  })

length-insert_by_read :
    (r : ReadingRecord) (rs : List ReadingRecord) → length (insert_by_read r rs) ≡ suc (length rs)
unfolding insert_by_read
length-insert_by_read r [] = refl
length-insert_by_read r (q ∷ qs) = ground (arith, length-insert_by_read r qs)

length-by_last_read : (rs : List ReadingRecord) → length (by_last_read rs) ≡ length rs
unfolding by_last_read
length-by_last_read [] = refl
length-by_last_read (r ∷ rs) =
    ground (arith, length-by_last_read rs, length-insert_by_read r (by_last_read rs))

length-select_records :
    (user : ℕ) (rs : List ReadingRecord)
    → length (select (λ r. r.user_id == user) rs) ≡ count (λ r. r.user_id == user) rs
length-select_records user [] = refl
length-select_records user (r ∷ rs) = ground (arith, length-select_records user rs)

snapshot_count :
    (user now : ℕ) (row : PassportRow) (records : List ReadingRecord) (entries : List JournalEntry)
    → length (snapshot_of user now row records entries).reading_records
      ≡ count (λ r. r.user_id == user) records
unfolding snapshot_of
snapshot_count user now row records entries =
    length-by_last_read (select (λ r. r.user_id == user) records)
    ∙ length-select_records user records

-- A snapshot that returns reports as many records as the user has, what it stores is the blob of
-- their records and their journal as they stand, and findByUserId then names that blob and otherwise
-- what it named before.
pub take_snapshot_stored :
    (upload : Snapshot → Option ℕ) (user now : ℕ) (records : List ReadingRecord)
    (entries : List JournalEntry) (s : Passports) (row : PassportRow) (result : SnapshotResult)
    → s.rows user ≡ some row
    → (take_snapshot upload user now records entries s).0 ≡ ok result
    → (result.record_count ≡ count (λ r. r.user_id == user) records)
      × (upload (snapshot_of user now row records entries) ≡ some result.blob_id)
      × ((find_by_user_id user (take_snapshot upload user now records entries s).1).0
          ≡ ok (record {
            object_id = row.sui_object_id;
            level = row.level;
            stats = row.stats;
            identity_blob_id = some result.blob_id;
            last_synced_at = row.last_synced_at;
          }))
unfolding take_snapshot find_by_user_id update_row
take_snapshot_stored upload user now records entries s row result h k =
    elim (Option-cases (upload (snapshot_of user now row records entries))) [
      | inl e ↦ absurd (ground (arith, h, e, k))
      | inr (blob, e) ↦ (
        ground (arith, h, e, k, snapshot_count user now row records entries),
        ground (arith, h, e, k),
        ground (arith, h, e, k),
      )
    ]
