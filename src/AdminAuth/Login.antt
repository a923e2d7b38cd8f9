-- ===== src/AdminAuth/Login.antt =====
-- admin-auth.service.ts: sign-in of admins, with its lock, its sessions and the second factor.
use arktion_sui_overflow.Prelude.{
  ◌>>=◌, Action, ℕ, none, Bool, not, modify, ◌*◌, throw_if, ◌+◌, is_some, update_where, pure, ltb,
  throw, if◌then◌else◌, leb, or_throw, gets, find, ◌==◌, some, ◌&&◌, false, Option, List, ◌>>◌,
  true, ◌∷◌,
}
use arktion_sui_overflow.AdminUsers.{Admins, AdminUser, AdminRole, AdminSession, find_admin, revoke}
use arktion_sui_overflow.AdminAuth.Secret.{Payload, admin_preauth, TokenType, admin_refresh}
use arktion_sui_overflow.AdminAuth.Secret.{Crypto}
use arktion_sui_overflow.Text.{Text}

pub data AuthError : Type 0 where
  invalid_credentials account_locked invalid_token wrong_token_type : AuthError
  totp_not_configured malformed_secret invalid_code session_invalid : AuthError
  admin_not_found totp_already_enabled session_not_found : AuthError

abbrev pub Auth : Type 0 → Type 0
Auth A = Action AuthError Admins A

abbrev pub max_failed_attempts : ℕ
max_failed_attempts = 5

abbrev pub lock_duration_ms : ℕ
lock_duration_ms = 900000

abbrev pub access_token_ttl : ℕ
access_token_ttl = 3600

abbrev pub refresh_token_ttl : ℕ
refresh_token_ttl = 604800

abbrev pub preauth_token_ttl : ℕ
preauth_token_ttl = 300

pub record TokenPair : Type 0 where
  pub access_token : Text
  pub refresh_token : Text
  pub expires_in : ℕ

pub data LoginResult : Type 0 where
  requires_totp : Text → LoginResult
  signed_in : TokenPair → LoginResult

-- What is drawn at random for a session: its id, and the raw refresh token.
pub record Drawn : Type 0 where
  pub session_id : ℕ
  pub raw_refresh_token : Text

abbrev pub find_by_email : ℕ → List AdminUser → Option AdminUser
find_by_email email = find (λ a. a.email == email)

-- `adminUser.update` of a row that the handler has just read.
unfoldable pub update_admin : ℕ → (AdminUser → AdminUser) → Auth (Unit {0})
update_admin id f =
    modify (λ s. record s { admin_users = update_where (λ a. a.id == id) f s.admin_users })

unfoldable pub is_locked : AdminUser → ℕ → Bool
is_locked admin now = elim admin.locked_until [ none ↦ false | some until ↦ ltb now until ]

-- The row after a wrong password.
unfoldable pub count_failure : AdminUser → ℕ → AdminUser → AdminUser
count_failure admin now a = record a {
  failed_login_attempts = admin.failed_login_attempts + 1;
  locked_until =
      if leb max_failed_attempts (admin.failed_login_attempts + 1)
      then some (now + lock_duration_ms)
      else none;
}

abbrev pub clear_failures : AdminUser → AdminUser
clear_failures a = record a { failed_login_attempts = 0; locked_until = none }

unfoldable pub update_last_login : ℕ → ℕ → Auth (Unit {0})
unfolding update_admin
update_last_login id now = update_admin id (λ a. record a { last_login_at = some now })

abbrev pub session_row : Crypto → ℕ → Drawn → ℕ → AdminSession
session_row c admin_id drawn now = record {
  id = drawn.session_id;
  admin_id = admin_id;
  refresh_token_hash = c.sha256 drawn.raw_refresh_token;
  expires_at = now + refresh_token_ttl * 1000;
  revoked_at = none;
}

abbrev pub access_payload : ℕ → ℕ → AdminRole → Payload
access_payload admin_id sid role = record {
  sub = admin_id;
  sid = some sid;
  role = some role;
  token_type = TokenType.admin;
}

abbrev pub refresh_payload : ℕ → ℕ → Payload
refresh_payload admin_id sid = record {
  sub = admin_id;
  sid = some sid;
  role = none;
  token_type = admin_refresh;
}

unfoldable pub create_session : Crypto → ℕ → AdminRole → Drawn → ℕ → Auth TokenPair
create_session c admin_id role drawn now = do
  modify (λ s. record s { admin_sessions = session_row c admin_id drawn now ∷ s.admin_sessions })
  pure (record {
    access_token = c.sign (access_payload admin_id drawn.session_id role) now access_token_ttl;
    refresh_token = c.sign (refresh_payload admin_id drawn.session_id) now refresh_token_ttl;
    expires_in = access_token_ttl;
  })

-- `login` past the password.
unfoldable pub start_login : Crypto → AdminUser → Drawn → ℕ → Auth LoginResult
unfolding create_session update_last_login
start_login c admin drawn now =
    if admin.totp_enabled
    then pure (
        requires_totp (
          c.sign (record { sub = admin.id; sid = none; role = none; token_type = admin_preauth })
            now preauth_token_ttl))
    else (do
      tokens ← create_session c admin.id admin.role drawn now
      update_last_login admin.id now
      pure (signed_in tokens))

-- `login` past the lock: the password is compared, and the result is written.
unfoldable pub check_password : Crypto → AdminUser → ℕ → Drawn → ℕ → Auth LoginResult
unfolding update_admin count_failure start_login
check_password c admin password drawn now =
    if c.compare password admin.password_hash
    then update_admin admin.id clear_failures >> start_login c admin drawn now
    else update_admin admin.id (count_failure admin now) >> throw invalid_credentials

unfoldable pub login : Crypto → ℕ → ℕ → Drawn → ℕ → Auth LoginResult
unfolding check_password is_locked
login c email password drawn now = do
  found ← gets (λ s. find_by_email email s.admin_users)
  admin ← or_throw found invalid_credentials
  throw_if (not admin.is_active) invalid_credentials
  throw_if (is_locked admin now) account_locked
  check_password c admin password drawn now

unfoldable pub logout : ℕ → ℕ → Auth (Unit {0})
logout session_id now = do
  found ← gets (λ s. is_some (find (λ x. x.id == session_id) s.admin_sessions))
  throw_if (not found) session_not_found
  modify (λ s. record s {
    admin_sessions =
        update_where (λ x. x.id == session_id) (λ x. record x { revoked_at = some now })
          s.admin_sessions;
  })

unfoldable pub logout_all : ℕ → ℕ → Auth (Unit {0})
logout_all admin_id now =
    modify (λ s. record s { admin_sessions = revoke admin_id now s.admin_sessions })

abbrev pub is_refresh : TokenType → Bool
is_refresh admin_refresh = true
is_refresh _ = false

-- The session that `refresh` looks for.
abbrev pub is_refreshed_by : Crypto → Text → ℕ → ℕ → AdminSession → Bool
is_refreshed_by c token sid now x =
    x.id == sid
    && (x.refresh_token_hash == c.sha256 token
        && (not (is_some x.revoked_at) && ltb now x.expires_at))

unfoldable pub refresh : Crypto → Text → Drawn → ℕ → Auth TokenPair
unfolding create_session
refresh c token drawn now = do
  payload ← or_throw (c.verify token now) invalid_token
  throw_if (not (is_refresh payload.token_type)) wrong_token_type
  sid ← or_throw payload.sid wrong_token_type
  found ← gets (λ s. find (is_refreshed_by c token sid now) s.admin_sessions)
  session ← or_throw found session_invalid
  owner ← gets (λ s. find_admin session.admin_id s.admin_users)
  admin ← or_throw owner session_invalid
  throw_if (not admin.is_active) session_invalid
  modify (λ s. record s {
    admin_sessions =
        update_where (λ x. x.id == session.id) (λ x. record x { revoked_at = some now })
          s.admin_sessions;
  })
  create_session c session.admin_id admin.role drawn now
