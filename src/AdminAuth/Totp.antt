-- ===== src/AdminAuth/Totp.antt =====
-- The second factor of admin-auth.service.ts: its codes, its backup codes, and its set-up.
use arktion_sui_overflow.Prelude.{
  ◌>>=◌, true, ◌∷◌, none, [], length, pure, List, ◌>>◌, Bool, throw_if, Option, or_throw, ℕ, false,
  not, gets, some, map, if◌then◌else◌, suc, ◌==◌,
}
use arktion_sui_overflow.AdminAuth.Login.{
  invalid_credentials, invalid_token, wrong_token_type, totp_not_configured, malformed_secret,
  invalid_code, admin_not_found, totp_already_enabled, update_admin, Auth, Drawn, TokenPair,
  create_session, update_last_login,
}
use arktion_sui_overflow.AdminAuth.Secret.{
  admin_preauth, TokenType, Crypto, decrypt_totp_secret, encrypt_totp_secret,
}
use arktion_sui_overflow.Text.{Text}
use arktion_sui_overflow.AdminUsers.{AdminUser, find_admin}

-- A code that a user sends, with its length.
pub record Code : Type 0 where
  pub text : Text
  pub number : ℕ

abbrev pub is_preauth : TokenType → Bool
is_preauth admin_preauth = true
is_preauth _ = false

-- The loop of `consumeBackupCode`, from index `i` on; none is -1.
unfoldable pub match_index : (ℕ → Bool) → ℕ → List ℕ → Option ℕ
match_index test i [] = none
match_index test i (h ∷ hs) =
    let rest = match_index test (suc i) hs in if test h then some i else rest

-- `hashedCodes.filter((_, i) => i !== matchIndex)`, from index `i` on.
unfoldable pub without_index : ℕ → ℕ → List ℕ → List ℕ
without_index k i [] = []
without_index k i (h ∷ hs) =
    if i == k then without_index k (suc i) hs else h ∷ without_index k (suc i) hs

unfoldable pub remaining_codes : (ℕ → Bool) → List ℕ → Option (List ℕ)
unfolding match_index without_index
remaining_codes test codes = elim (match_index test 0 codes) [
  | none ↦ none
  | some k ↦ some (without_index k 0 codes)
]

unfoldable pub consume_backup_code : Crypto → ℕ → ℕ → List ℕ → Auth (Unit {0})
unfolding update_admin
consume_backup_code c admin_id code codes = do
  remaining ← or_throw (remaining_codes (c.compare code) codes) invalid_code
  update_admin admin_id (λ a. record a { totp_backup_codes = remaining })

-- A code of six characters is a TOTP code, any other a backup code.
unfoldable pub check_code : Crypto → AdminUser → Text → Code → ℕ → Auth (Unit {0})
unfolding consume_backup_code
check_code c admin secret code now =
    if length code.text == 6
    then throw_if (not (c.totp_valid secret code.text now)) invalid_code
    else consume_backup_code c admin.id code.number admin.totp_backup_codes

unfoldable pub validate_totp : Crypto → Text → Code → Drawn → ℕ → Auth TokenPair
unfolding check_code
validate_totp c token code drawn now = do
  payload ← or_throw (c.verify token now) invalid_token
  throw_if (not (is_preauth payload.token_type)) wrong_token_type
  found ← gets (λ s. find_admin payload.sub s.admin_users)
  admin ← or_throw found invalid_credentials
  throw_if (not admin.is_active) invalid_credentials
  throw_if (not admin.totp_enabled) totp_not_configured
  stored ← or_throw admin.totp_secret totp_not_configured
  secret ← or_throw (decrypt_totp_secret c stored) malformed_secret
  check_code c admin secret code now
  tokens ← create_session c admin.id admin.role drawn now
  update_last_login admin.id now
  pure tokens

-- `initTotpSetup`, with the secret, the initialisation vector and the codes that are drawn.
unfoldable pub init_totp_setup : Crypto → ℕ → Text → List ℕ → List ℕ → Auth (Text × List ℕ)
unfolding update_admin
init_totp_setup c admin_id secret iv backup_codes = do
  found ← gets (λ s. find_admin admin_id s.admin_users)
  admin ← or_throw found admin_not_found
  throw_if admin.totp_enabled totp_already_enabled
  update_admin admin_id (λ a. record a { totp_secret = some (encrypt_totp_secret c iv secret) })
  pure (secret, backup_codes)

unfoldable pub confirm_totp_setup : Crypto → ℕ → Text → List ℕ → ℕ → Auth (List ℕ)
unfolding update_admin
confirm_totp_setup c admin_id code backup_codes now = do
  found ← gets (λ s. find_admin admin_id s.admin_users)
  admin ← or_throw found totp_not_configured
  stored ← or_throw admin.totp_secret totp_not_configured
  throw_if admin.totp_enabled totp_already_enabled
  secret ← or_throw (decrypt_totp_secret c stored) malformed_secret
  throw_if (not (c.totp_valid secret code now)) invalid_code
  update_admin admin_id
      (λ a. record a { totp_enabled = true; totp_backup_codes = map c.hash backup_codes })
  pure backup_codes

unfoldable pub disable_totp : Crypto → ℕ → Text → ℕ → Auth (Unit {0})
unfolding update_admin
disable_totp c admin_id code now = do
  found ← gets (λ s. find_admin admin_id s.admin_users)
  admin ← or_throw found totp_not_configured
  throw_if (not admin.totp_enabled) totp_not_configured
  stored ← or_throw admin.totp_secret totp_not_configured
  secret ← or_throw (decrypt_totp_secret c stored) malformed_secret
  throw_if (not (c.totp_valid secret code now)) invalid_code
  update_admin admin_id
      (λ a. record a { totp_enabled = false; totp_secret = none; totp_backup_codes = [] })
