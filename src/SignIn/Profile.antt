-- ===== src/SignIn/Profile.antt =====
-- users.service.ts and the look-up by wallet of passport.service.ts.
use Prim.Native.Nat.{ℕ}
use arktion_sui_overflow.SignIn.Accounts.{Account, Identity, record_not_found, SignIn}
use arktion_sui_overflow.Prelude.{
  or_throw, inl, Option-cases, some, Option, update_where, ◌∷◌, gets, ℕ, find, [], List, ◌≡◌, ok,
  none, ◌>>=◌, inr, arith,
}
use arktion_sui_overflow.SignIn.Login.{update_account, has_id, has_wallet}

pub record UpdateProfileDto : Type 0 where
  pub display_name : Option ℕ
  pub avatar_url : Option ℕ

unfoldable pub find_by_id : ℕ → SignIn Account
find_by_id id = do found ← gets (λ s. find (has_id id) s.accounts); or_throw found record_not_found

abbrev keep_or : Option ℕ → Option ℕ → Option ℕ
keep_or none old = old
keep_or (some new) old = some new

-- A field that is missing is not written.
abbrev pub edit_profile : UpdateProfileDto → Account → Account
edit_profile dto u = record u {
  display_name = keep_or dto.display_name u.display_name;
  avatar_url = keep_or dto.avatar_url u.avatar_url;
}

unfoldable pub update_profile : ℕ → UpdateProfileDto → SignIn Account
unfolding update_account
update_profile id dto = update_account id (edit_profile dto)

-- `findByWalletAddress`: the passport of the account with the wallet.
unfoldable pub find_by_wallet_address : ℕ → Identity → Option ℕ
find_by_wallet_address wallet s = elim (find (has_wallet wallet) s.accounts) [
  | none ↦ none
  | some u ↦ s.passports u.id
]

find_id-edit_profile :
    (id : ℕ) (dto : UpdateProfileDto) (rows : List Account) (u : Account)
    → find (has_id id) rows ≡ some u
    → find (has_id id) (update_where (has_id id) (edit_profile dto) rows)
      ≡ some (edit_profile dto u)
find_id-edit_profile id dto [] u h = absurd (ground arith)
find_id-edit_profile id dto (v ∷ rows) u h = ground (arith, find_id-edit_profile id dto rows u)

-- A profile that is updated is read back as the update returned it.
pub find_by_id-update_profile :
    (id : ℕ) (dto : UpdateProfileDto) (s : Identity) (u : Account)
    → (update_profile id dto s).0 ≡ ok u
    → (find_by_id id (update_profile id dto s).1).0 ≡ ok u
unfolding find_by_id update_profile update_account
find_by_id-update_profile id dto s u h = elim (Option-cases (find (has_id id) s.accounts)) [
  | inl e ↦ absurd (ground (arith, e, h))
  | inr (v, e) ↦ ground (arith, e, h, find_id-edit_profile id dto s.accounts v e)
]
