-- ===== src/Journal/Store.antt =====
-- The journal of the frontend, stores/journal.store.ts, over the service that it calls: the store shows
-- what the service keeps.
use Prim.Native.Nat.{ℕ}
use arktion_sui_overflow.Prelude.{
  ◌==◌, select, false, refl, err, List, Result, none, [], update_where, Option, ℕ, ◌≤◌, ◌∷◌, some,
  ◌≡◌, find, arith, is_some, if◌then◌else◌, not, count, ok, Bool, Bool-cases, Option-cases, inr,
  inl,
}
use arktion_sui_overflow.Journal.{
  delete_entry, get_entries, UpdateJournalEntryDto, JournalEntry, CreateJournalEntryDto, Entries,
  edit_entry, JournalError, create_entry, update_entry, is_entry,
}

pub record JournalState : Type 0 where
  pub entries : List JournalEntry
  pub is_loading : Bool
  pub error : Option ℕ

-- The store of one user, and the table of the service.
pub record Screen : Type 0 where
  pub state : JournalState
  pub table : Entries

abbrev show : (List JournalEntry → List JournalEntry) → JournalState → JournalState
show f st = record st { entries = f st.entries }

-- `fetchEntries`; none is a call that fails, with the message that is shown.
unfoldable pub fetch_entries : ℕ → Bool → ℕ → Screen → Screen
unfolding get_entries
fetch_entries user arrives message s = record s {
  state =
      if arrives
      then record { entries = get_entries user s.table; is_loading = false; error = none }
      else record s.state { error = some message; is_loading = false };
}

-- What a store does with the answer of the service; an error is thrown to the component.
abbrev pub answered :
    {A : Type 0}
    → Result JournalError A × Entries
    → (A → List JournalEntry → List JournalEntry)
    → Screen
    → Screen
answered r f s = elim r.0 [
  | ok x ↦ record { state = show (f x) s.state; table = r.1 }
  | err e ↦ record { state = s.state; table = r.1 }
]

unfoldable pub create : ℕ → ℕ → CreateJournalEntryDto → ℕ → Screen → Screen
create user entry dto now s = answered (create_entry user entry dto now s.table) (λ e es. e ∷ es) s

unfoldable pub update : ℕ → ℕ → UpdateJournalEntryDto → ℕ → Screen → Screen
update user entry dto now s =
    answered (update_entry user entry dto now s.table)
      (λ e es. update_where (λ x. x.entry_id == entry) (λ _. e) es) s

unfoldable pub remove : ℕ → ℕ → Screen → Screen
remove user entry s =
    answered (delete_entry user entry s.table) (λ _ es. select (λ x. not (x.entry_id == entry)) es)
      s

unfoldable pub reset : Screen → Screen
reset s = record s { state = record { entries = []; is_loading = false; error = none } }

-- The store shows the user's entries, and the table keeps its unique key.
pub record IsSynced (user : ℕ) (s : Screen) : Type 0 where
  pub shown : s.state.entries ≡ get_entries user s.table
  pub keys : (owner entry : ℕ) → count (is_entry owner entry) s.table ≤ 1

count_none : (p : JournalEntry → Bool) (s : Entries) → is_some (find p s) ≡ false → count p s ≡ 0
count_none p [] h = refl
count_none p (e ∷ s) h = ground (arith, count_none p s)

keys-update :
    (owner key user entry now : ℕ) (dto : UpdateJournalEntryDto) (s : Entries)
    → count (is_entry owner key) (update_where (is_entry user entry) (edit_entry dto now) s)
      ≡ count (is_entry owner key) s
unfolding edit_entry
keys-update owner key user entry now dto [] = refl
keys-update owner key user entry now dto (e ∷ s) =
    ground (arith, keys-update owner key user entry now dto s)

keys-delete :
    (owner key user entry : ℕ) (s : Entries)
    → count (is_entry owner key) (select (λ x. not (is_entry user entry x)) s)
      ≤ count (is_entry owner key) s
keys-delete owner key user entry [] = omega arith
keys-delete owner key user entry (e ∷ s) = ground (arith, keys-delete owner key user entry s)

shown-update_none :
    (user entry now : ℕ) (dto : UpdateJournalEntryDto) (e : JournalEntry) (s : Entries)
    → count (is_entry user entry) s ≡ 0
    → update_where (λ x. x.entry_id == entry) (λ _. e) (select (λ x. x.user_id == user) s)
      ≡ select (λ x. x.user_id == user) (update_where (is_entry user entry) (edit_entry dto now) s)
unfolding edit_entry
shown-update_none user entry now dto e [] h = refl
shown-update_none user entry now dto e (x ∷ s) h =
    ground (arith, h, shown-update_none user entry now dto e s)

shown-update :
    (user entry now : ℕ) (dto : UpdateJournalEntryDto) (e : JournalEntry) (s : Entries)
    → find (is_entry user entry) s ≡ some e
    → count (is_entry user entry) s ≤ 1
    → update_where
        (λ x. x.entry_id == entry)
        (λ _. edit_entry dto now e)
        (select (λ x. x.user_id == user) s)
      ≡ select (λ x. x.user_id == user) (update_where (is_entry user entry) (edit_entry dto now) s)
unfolding edit_entry
shown-update user entry now dto e [] h k = refl
shown-update user entry now dto e (x ∷ s) h k = elim (Bool-cases (is_entry user entry x)) [
  | inl f ↦ ground (arith, f, h, k, shown-update_none user entry now dto (edit_entry dto now e) s)
  | inr f ↦ ground (arith, f, h, k, shown-update user entry now dto e s)
]

shown-delete :
    (user entry : ℕ) (s : Entries)
    → select (λ x. not (x.entry_id == entry)) (select (λ x. x.user_id == user) s)
      ≡ select (λ x. x.user_id == user) (select (λ x. not (is_entry user entry x)) s)
shown-delete user entry [] = refl
shown-delete user entry (x ∷ s) = ground (arith, shown-delete user entry s)

-- An action of the journal's page.
pub data StoreCall : Type 0 where
  create_action : ℕ → CreateJournalEntryDto → ℕ → StoreCall
  update_action : ℕ → UpdateJournalEntryDto → ℕ → StoreCall
  remove_action : ℕ → StoreCall

unfoldable pub act : ℕ → StoreCall → Screen → Screen
unfolding create update remove
act user (create_action entry dto now) = create user entry dto now
act user (update_action entry dto now) = update user entry dto now
act user (remove_action entry) = remove user entry

create-IsSynced :
    (user entry now : ℕ) (dto : CreateJournalEntryDto) (s : Screen)
    → IsSynced user s
    → IsSynced user (create user entry dto now s)
unfolding create create_entry get_entries
create-IsSynced user entry now dto s k = record {
  shown = ground (arith, k.shown);
  keys = λ o e. ground (arith, k.keys o e, count_none (is_entry user entry) s.table);
}

update-IsSynced :
    (user entry now : ℕ) (dto : UpdateJournalEntryDto) (s : Screen)
    → IsSynced user s
    → IsSynced user (update user entry dto now s)
unfolding update update_entry get_entries
update-IsSynced user entry now dto s k = elim (Option-cases (find (is_entry user entry) s.table)) [
  | inl f ↦ record {
    shown = ground (arith, f, k.shown);
    keys = λ o e. ground (arith, f, k.keys o e);
  }
  | inr (e, f) ↦ record {
    shown =
        ground (arith, f, k.shown, shown-update user entry now dto e s.table f (k.keys user entry));
    keys = λ o i. ground (arith, f, k.keys o i, keys-update o i user entry now dto s.table);
  }
]

remove-IsSynced :
    (user entry : ℕ) (s : Screen) → IsSynced user s → IsSynced user (remove user entry s)
unfolding remove delete_entry get_entries
remove-IsSynced user entry s k = elim (Option-cases (find (is_entry user entry) s.table)) [
  | inl f ↦ record {
    shown = ground (arith, f, k.shown);
    keys = λ o e. ground (arith, f, k.keys o e);
  }
  | inr (e, f) ↦ record {
    shown = ground (arith, f, k.shown, shown-delete user entry s.table);
    keys = λ o i. ground (arith, f, k.keys o i, keys-delete o i user entry s.table);
  }
]

-- Once the journal's page shows what the service keeps, it does so after every action of its user
-- whose answer arrives, an error included, in the same order; and the table keeps its unique key.
pub act-IsSynced :
    (user : ℕ) (c : StoreCall) (s : Screen) → IsSynced user s → IsSynced user (act user c s)
unfolding act
act-IsSynced user (create_action entry dto now) s k = create-IsSynced user entry now dto s k
act-IsSynced user (update_action entry dto now) s k = update-IsSynced user entry now dto s k
act-IsSynced user (remove_action entry) s k = remove-IsSynced user entry s k
