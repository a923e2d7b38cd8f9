-- ===== src/SignIn/Sessions.antt =====
-- session.service.ts and jwt-auth.guard.ts: the sessions, and whom a request is from.
use Prim.Native.Nat.{ℕ, ◌+◌}
use arktion_sui_overflow.SignIn.Accounts.{Session, Identity, Answers, SignIn}
use arktion_sui_overflow.Prelude.{
  ◌&&◌, pure, Bool, throw_if, none, ltb, or_throw, ◌>>◌, not, Action, gets, Option, ◌+◌,
  update_where, throw, ℕ, ◌==◌, ◌∷◌, modify, find, is_some, some, ◌>>=◌,
}
use arktion_sui_overflow.Text.{Text, extract_token}

pub record SessionTokenPayload : Type 0 where
  pub sub : ℕ
  pub sid : ℕ

pub data Verified : Type 0 where
  valid : SessionTokenPayload → Verified
  expired forged : Verified

-- jsonwebtoken under JWT_SECRET: `sign` takes the time and the life of the token, in milliseconds,
-- and `verify` the time.
pub record Tokens : Type 0 where
  pub sign : SessionTokenPayload → ℕ → ℕ → Text
  pub verify : Text → ℕ → Verified

pub record RequestMetadata : Type 0 where
  pub user_agent : Option ℕ
  pub ip_address : Option ℕ

pub record IssuedSession : Type 0 where
  pub session_id : ℕ
  pub token : Text
  pub expires_at : ℕ

abbrev pub session_of : Answers → ℕ → RequestMetadata → Session
session_of a user_id meta = record {
  id = a.session_id;
  user_id = user_id;
  expires_at = a.now + a.session_ttl_ms;
  revoked_at = none;
  user_agent = meta.user_agent;
  ip_address = meta.ip_address;
}

unfoldable pub issue : Tokens → Answers → ℕ → RequestMetadata → SignIn IssuedSession
issue c a user_id meta = do
  modify (λ s. record s { sessions = session_of a user_id meta ∷ s.sessions })
  pure (record {
    session_id = a.session_id;
    token = c.sign (record { sub = user_id; sid = a.session_id }) a.now a.session_ttl_ms;
    expires_at = a.now + a.session_ttl_ms;
  })

abbrev pub revoke_where : (Session → Bool) → ℕ → Identity → Identity
revoke_where p now s = record s {
  sessions =
      update_where (λ x. p x && not (is_some x.revoked_at))
        (λ x. record x { revoked_at = some now }) s.sessions;
}

unfoldable pub revoke_session : ℕ → ℕ → SignIn (Unit {0})
revoke_session sid now = modify (revoke_where (λ x. x.id == sid) now)

unfoldable pub revoke_all_for_user : ℕ → ℕ → SignIn (Unit {0})
revoke_all_for_user user_id now = modify (revoke_where (λ x. x.user_id == user_id) now)

pub data GuardError : Type 0 where
  missing_header token_expired invalid_token : GuardError
  session_not_found session_revoked session_expired account_deactivated : GuardError

abbrev pub Guarded : Type 0 → Type 0
Guarded A = Action GuardError Identity A

pub record AuthenticatedUser : Type 0 where
  pub id : ℕ
  pub wallet_address : ℕ
  pub session_id : ℕ

unfoldable pub verify_token : Tokens → Text → ℕ → Guarded SessionTokenPayload
verify_token c token now = elim (c.verify token now) [
  | valid p ↦ pure p
  | expired ↦ throw token_expired
  | forged ↦ throw invalid_token
]

-- `canActivate` for an Authorization header. A session has an owner, by its foreign
-- key. The touch of `lastUsedAt` is left out.
unfoldable pub can_activate : Tokens → Option Text → ℕ → Guarded AuthenticatedUser
unfolding verify_token
can_activate c header now = do
  token ← or_throw (extract_token header) missing_header
  payload ← verify_token c token now
  found ← gets (λ s. find (λ x. x.id == payload.sid) s.sessions)
  session ← or_throw found session_not_found
  owner ← gets (λ s. find (λ u. u.id == session.user_id) s.accounts)
  user ← or_throw owner session_not_found
  throw_if (is_some session.revoked_at) session_revoked
  throw_if (ltb session.expires_at now) session_expired
  throw_if user.is_deleted account_deactivated
  pure (record { id = user.id; wallet_address = user.wallet_address; session_id = session.id })
