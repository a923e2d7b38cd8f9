-- ===== src/Journal/Ownership.antt =====
-- A journal is its owner's: what other users do does not show in it.
use Prim.Native.Nat.{ℕ}
use arktion_sui_overflow.Journal.{
  get_entries, create_entry, edit_entry, CreateJournalEntryDto, Entries, UpdateJournalEntryDto,
  update_entry, is_entry, delete_entry,
}
use arktion_sui_overflow.Prelude.{
  ◌==◌, ◌≢◌, not, [], ℕ, ◌∷◌, refl, arith, List, update_where, select, ◌≡◌, ◌∙◌,
}

-- A call of the service, with the user that it is made for.
pub data JournalCall : Type 0 where
  create_call : ℕ → ℕ → CreateJournalEntryDto → ℕ → JournalCall
  update_call : ℕ → ℕ → UpdateJournalEntryDto → ℕ → JournalCall
  delete_call : ℕ → ℕ → JournalCall

abbrev pub caller : JournalCall → ℕ
caller (create_call user entry dto now) = user
caller (update_call user entry dto now) = user
caller (delete_call user entry) = user

unfoldable pub run_call : JournalCall → Entries → Entries
unfolding create_entry update_entry delete_entry
run_call (create_call user entry dto now) s = (create_entry user entry dto now s).1
run_call (update_call user entry dto now) s = (update_entry user entry dto now s).1
run_call (delete_call user entry) s = (delete_entry user entry s).1

unfoldable pub run_calls : List JournalCall → Entries → Entries
run_calls [] s = s
run_calls (c ∷ cs) s = run_calls cs (run_call c s)

-- No call is made for the user.
abbrev pub AreOthers : ℕ → List JournalCall → Type 0
AreOthers user [] = Unit
AreOthers user (c ∷ cs) = (caller c ≢ user) × AreOthers user cs

kept_by_edit :
    (reader user entry now : ℕ) (dto : UpdateJournalEntryDto) (s : Entries)
    → user ≢ reader
    → select (λ e. e.user_id == reader) (update_where (is_entry user entry) (edit_entry dto now) s)
      ≡ select (λ e. e.user_id == reader) s
unfolding edit_entry
kept_by_edit reader user entry now dto [] h = refl
kept_by_edit reader user entry now dto (e ∷ s) h =
    ground (arith, h, kept_by_edit reader user entry now dto s h)

kept_by_delete :
    (reader user entry : ℕ) (s : Entries)
    → user ≢ reader
    → select (λ e. e.user_id == reader) (select (λ x. not (is_entry user entry x)) s)
      ≡ select (λ e. e.user_id == reader) s
kept_by_delete reader user entry [] h = refl
kept_by_delete reader user entry (e ∷ s) h = ground (arith, h, kept_by_delete reader user entry s h)

get_entries-run_call :
    (reader : ℕ) (c : JournalCall) (s : Entries)
    → caller c ≢ reader
    → get_entries reader (run_call c s) ≡ get_entries reader s
unfolding get_entries run_call create_entry update_entry delete_entry
get_entries-run_call reader (create_call user entry dto now) s h = ground (arith, h)
get_entries-run_call reader (update_call user entry dto now) s h =
    ground (arith, h, kept_by_edit reader user entry now dto s h)
get_entries-run_call reader (delete_call user entry) s h =
    ground (arith, h, kept_by_delete reader user entry s h)

-- However many entries other users create, change and delete, whichever ids they name, a user's
-- entries stay the same.
pub get_entries-run_calls :
    (reader : ℕ) (cs : List JournalCall) (s : Entries)
    → AreOthers reader cs
    → get_entries reader (run_calls cs s) ≡ get_entries reader s
unfolding run_calls
get_entries-run_calls reader [] s h = refl
get_entries-run_calls reader (c ∷ cs) s h =
    get_entries-run_calls reader cs (run_call c s) h.1 ∙ get_entries-run_call reader c s h.0
