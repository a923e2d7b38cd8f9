-- ===== src/Journal.antt =====
-- journal.service.ts: what a user notes of series that are read elsewhere.
pub mod Ownership
pub mod Store
use Prim.Native.Nat.{ℕ}
use arktion_sui_overflow.Prelude.{
  ◌>>◌, List, none, ◌∷◌, ℕ, throw_if, if◌then◌else◌, ◌==◌, ◌&&◌, or_else, is_some, Option, Action,
  some, Bool, select, update_where, false, find, not, or_throw, ◌>>=◌, gets, modify, pure,
}

pub record JournalEntry : Type 0 where
  pub user_id : ℕ
  pub entry_id : ℕ
  pub external_title : ℕ
  pub format_type : ℕ
  pub external_url : ℕ
  pub total_chapters : ℕ
  pub current_chapter : ℕ
  pub notes : Option ℕ
  pub submitted_as_suggestion : Bool
  pub created_at : ℕ
  pub updated_at : ℕ

pub record CreateJournalEntryDto : Type 0 where
  pub external_title : ℕ
  pub format_type : ℕ
  pub external_url : ℕ
  pub total_chapters : ℕ
  pub current_chapter : ℕ
  pub notes : Option ℕ

pub record UpdateJournalEntryDto : Type 0 where
  pub current_chapter : Option ℕ
  pub total_chapters : Option ℕ
  pub notes : Option ℕ

pub data JournalError : Type 0 where
  entry_not_found entry_exists : JournalError

-- Newest rows first.
abbrev pub Entries : Type 0
Entries = List JournalEntry

abbrev pub Journaling : Type 0 → Type 0
Journaling A = Action JournalError Entries A

-- The unique key (userId, entryId).
abbrev pub is_entry : ℕ → ℕ → JournalEntry → Bool
is_entry user entry e = e.user_id == user && e.entry_id == entry

-- `createEntry`, with the random id.
unfoldable pub create_entry : ℕ → ℕ → CreateJournalEntryDto → ℕ → Journaling JournalEntry
create_entry user entry dto now = do
  taken ← gets (λ s. is_some (find (is_entry user entry) s))
  throw_if taken entry_exists
  let e : JournalEntry = record {
    user_id = user;
    entry_id = entry;
    external_title = dto.external_title;
    format_type = dto.format_type;
    external_url = dto.external_url;
    total_chapters = dto.total_chapters;
    current_chapter = dto.current_chapter;
    notes = dto.notes;
    submitted_as_suggestion = false;
    created_at = now;
    updated_at = now;
  }
  modify (λ s. e ∷ s)
  pure e

unfoldable pub get_entries : ℕ → Entries → Entries
get_entries user s = select (λ e. e.user_id == user) s

-- The `data` of `journalEntry.update`.
unfoldable pub edit_entry : UpdateJournalEntryDto → ℕ → JournalEntry → JournalEntry
edit_entry dto now e = record e {
  current_chapter = or_else dto.current_chapter e.current_chapter;
  total_chapters = or_else dto.total_chapters e.total_chapters;
  notes = elim dto.notes [ none ↦ e.notes | some n ↦ some n ];
  updated_at = now;
}

unfoldable pub update_entry : ℕ → ℕ → UpdateJournalEntryDto → ℕ → Journaling JournalEntry
unfolding edit_entry
update_entry user entry dto now = do
  existing ← gets (find (is_entry user entry))
  e ← or_throw existing entry_not_found
  modify (update_where (is_entry user entry) (edit_entry dto now))
  pure (edit_entry dto now e)

unfoldable pub delete_entry : ℕ → ℕ → Journaling (Unit {0})
delete_entry user entry = do
  existing ← gets (find (is_entry user entry))
  e ← or_throw existing entry_not_found
  modify (select (λ x. not (is_entry user entry x)))
