-- ===== src/SignIn/Login.antt =====
-- auth.service.ts: sign-in with Google, in phases that a later sign-in can resume.
use Prim.Native.Nat.{ℕ}
use arktion_sui_overflow.SignIn.Accounts.{
  invalid_google_token, enoki_failed, unique_violation, record_not_found, rpc_failed, not_committed,
  pending, complete, Account, Identity, BootstrapState, SignIn, Answers, ObjectType, OwnedObject,
  ZkAddress, Claims, has_type, arktion_passport, user_library, user_journal,
}
use arktion_sui_overflow.Prelude.{
  ◌>>=◌, is_some, ◌∷◌, if◌then◌else◌, true, modify, ◌&&◌, some, put, pure, Bool, ℕ, none, select,
  ◌||◌, throw_if, List, find, gets, or_throw, ◌>>◌, Option, false, ◌==◌, update_where, ok, err,
}
use arktion_sui_overflow.SignIn.Bootstrap.{BootstrapObjects, execute}
use arktion_sui_overflow.SignIn.Sessions.{issue, Tokens, RequestMetadata}
use arktion_sui_overflow.Text.{Text}
use arktion_sui_overflow.Pagination.{take}

abbrev pub is_of : ℕ → ℕ → Account → Bool
is_of iss sub u = u.oauth_iss == iss && u.oauth_sub == sub

abbrev pub has_wallet : ℕ → Account → Bool
has_wallet wallet u = u.wallet_address == wallet

abbrev pub has_id : ℕ → Account → Bool
has_id id u = u.id == id

abbrev pub same_email : Option ℕ → Option ℕ → Bool
same_email (some e) (some f) = e == f
same_email _ _ = false

abbrev pub is_complete : BootstrapState → Bool
is_complete complete = true
is_complete _ = false

pub record AuthResult : Type 0 where
  pub session_token : Text
  pub expires_at : ℕ
  pub is_new_user : Bool
  pub user : Account

-- `user.update({ where: { id } })`
unfoldable pub update_account : ℕ → (Account → Account) → SignIn Account
update_account id f = do
  found ← gets (λ s. find (has_id id) s.accounts)
  row ← or_throw found record_not_found
  modify (λ s. record s { accounts = update_where (has_id id) f s.accounts })
  pure (f row)

abbrev pub finalized : BootstrapObjects → Account → Account
finalized o u = record u {
  library_object_id = some o.library_object_id;
  journal_object_id = some o.journal_object_id;
  bootstrap_state = complete;
  bootstrap_tx_digest = o.tx_digest;
}

-- `$transaction`: what it wrote is undone if it throws or is not committed.
unfoldable pub transaction : {A : Type 0} → Bool → SignIn A → SignIn A
transaction commits m s = elim (m s).0 [
  | ok x ↦ if commits then m s else (err not_committed, s)
  | err e ↦ (err e, s)
]

-- The unique column suiObjectId of a passport is not checked: no other user's passport names the objects
-- that were just made for this wallet or that it owns.
unfoldable pub finalize_bootstrap : Answers → ℕ → BootstrapObjects → SignIn Account
unfolding update_account transaction
finalize_bootstrap a id o = transaction a.commits (do
  modify (λ s. record s { passports = put id o.passport_object_id s.passports })
  update_account id (finalized o))

abbrev pub new_account : Answers → Claims → ZkAddress → Account
new_account a claims e = record {
  id = a.user_id;
  wallet_address = e.address;
  email = claims.email;
  display_name = claims.name;
  avatar_url = claims.picture;
  oauth_iss = claims.iss;
  oauth_sub = claims.sub;
  zk_login_salt = e.salt;
  library_object_id = none;
  journal_object_id = none;
  bootstrap_state = pending;
  bootstrap_started_at = some a.now;
  bootstrap_tx_digest = none;
  is_deleted = false;
}

-- The unique columns of an account.
abbrev pub clashes : Account → Account → Bool
clashes v u =
    is_of v.oauth_iss v.oauth_sub u || has_wallet v.wallet_address u || same_email v.email u.email

-- Phase A of `createUserWithBootstrap`.
unfoldable pub create_account : Answers → Claims → ZkAddress → SignIn (Unit {0})
create_account a claims e = do
  taken ← gets (λ s. is_some (find (clashes (new_account a claims e)) s.accounts))
  throw_if taken unique_violation
  modify (λ s. record s { accounts = new_account a claims e ∷ s.accounts })

unfoldable pub create_user_with_bootstrap : Answers → Claims → SignIn Account
unfolding create_account
create_user_with_bootstrap a claims = do
  e ← or_throw a.enoki enoki_failed
  create_account a claims e
  objects ← execute a e.address
  finalize_bootstrap a a.user_id objects

-- The page that `listOwnedObjects` answers with.
abbrev pub listed : Answers → ℕ → Identity → Option (List OwnedObject)
listed a wallet s = elim a.page_size [
  | none ↦ none
  | some n ↦ some (take n (select (λ o. o.owner == wallet) s.objects))
]

abbrev pub find_by_suffix : ObjectType → List OwnedObject → Option OwnedObject
find_by_suffix type = find (λ o. has_type type o.object_type)

-- The test of `resumePendingBootstrap` on what `findExistingBootstrapObjects` finds.
abbrev pub existing_objects :
    Option OwnedObject → Option OwnedObject → Option OwnedObject → Option BootstrapObjects
existing_objects (some passport) (some library) (some journal) = some (record {
  passport_object_id = passport.object_id;
  library_object_id = library.object_id;
  journal_object_id = journal.object_id;
  tx_digest = none;
})
existing_objects _ _ _ = none

abbrev pub find_existing_bootstrap_objects : List OwnedObject → Option BootstrapObjects
find_existing_bootstrap_objects page =
    existing_objects (find_by_suffix arktion_passport page) (find_by_suffix user_library page)
      (find_by_suffix user_journal page)

abbrev pub reuse_or_execute : Answers → ℕ → Option BootstrapObjects → SignIn BootstrapObjects
reuse_or_execute a wallet (some o) = pure o
reuse_or_execute a wallet none = execute a wallet

unfoldable pub resume_pending_bootstrap : Answers → Account → SignIn Account
resume_pending_bootstrap a u = do
  answer ← gets (listed a u.wallet_address)
  page ← or_throw answer rpc_failed
  objects ← reuse_or_execute a u.wallet_address (find_existing_bootstrap_objects page)
  finalize_bootstrap a u.id objects

abbrev pub moved : ZkAddress → Account → Account
moved e u = record u { wallet_address = e.address; zk_login_salt = e.salt }

-- The last branch of `completeZkLogin`; the wallet is a unique column.
unfoldable pub sync_wallet : Answers → Account → SignIn Account
sync_wallet a u = do
  e ← or_throw a.enoki enoki_failed
  taken ← gets (λ s. is_some (find (has_wallet e.address) s.accounts))
  (if u.wallet_address == e.address
      then pure u
      else throw_if taken unique_violation >> update_account u.id (moved e))

-- The account that signs in, and whether it is new.
unfoldable pub account_for : Answers → Claims → Option Account → SignIn (Account × Bool)
unfolding create_user_with_bootstrap resume_pending_bootstrap sync_wallet
account_for a claims none = do u ← create_user_with_bootstrap a claims; pure (u, true)
account_for a claims (some u) =
    if is_complete u.bootstrap_state
    then (do v ← sync_wallet a u; pure (v, false))
    else (do v ← resume_pending_bootstrap a u; pure (v, true))

-- `completeZkLogin` past the account.
unfoldable pub start_session :
    Tokens → Answers → RequestMetadata → Account × Bool → SignIn AuthResult
unfolding issue
start_session c a meta (u, is_new_user) = do
  session ← issue c a u.id meta
  pure (record {
    session_token = session.token;
    expires_at = session.expires_at;
    is_new_user = is_new_user;
    user = u;
  })

unfoldable pub complete_zk_login : Tokens → Answers → RequestMetadata → SignIn AuthResult
unfolding account_for start_session
complete_zk_login c a meta = do
  claims ← or_throw a.claims invalid_google_token
  found ← gets (λ s. find (is_of claims.iss claims.sub) s.accounts)
  account ← account_for a claims found
  start_session c a meta account
