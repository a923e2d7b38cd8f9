-- ===== src/AdminAuth/Guard.antt =====
-- admin-jwt.guard.ts and admin-role.guard.ts: who may call an admin route.
use Prim.Native.Nat.{ℕ}
use arktion_sui_overflow.Prelude.{
  ltb, is_some, pure, Action, ◌>>=◌, gets, not, some, ◌>>◌, Bool, true, find, Option, throw_if,
  throw, or_throw, ℕ, false, none, ◌==◌,
}
use arktion_sui_overflow.AdminAuth.Secret.{TokenType, Crypto}
use arktion_sui_overflow.AdminUsers.{role_rank, Admins, AdminRole, find_admin, AdminSession}
use arktion_sui_overflow.Text.{Text, extract_token}

pub data GuardError : Type 0 where
  missing_token invalid_token wrong_type : GuardError
  session_not_found session_revoked session_expired account_deactivated : GuardError
  not_authenticated role_too_low : GuardError

abbrev pub Guarded : Type 0 → Type 0
Guarded A = Action GuardError Admins A

pub record AuthenticatedAdmin : Type 0 where
  pub id : ℕ
  pub email : ℕ
  pub role : AdminRole
  pub session_id : ℕ

abbrev pub is_access : TokenType → Bool
is_access TokenType.admin = true
is_access _ = false

-- `findUnique({ where: { id: payload.sid } })`; Prisma rejects a payload with no sid.
abbrev pub find_session : Option ℕ → Admins → Option AdminSession
find_session none s = none
find_session (some sid) s = find (λ x. x.id == sid) s.admin_sessions

-- `canActivate` of AdminJwtGuard for an Authorization header. The touch of `lastUsedAt` is left out.
unfoldable pub can_activate : Crypto → Option Text → ℕ → Guarded AuthenticatedAdmin
can_activate c header now = do
  token ← or_throw (extract_token header) missing_token
  payload ← or_throw (c.verify token now) invalid_token
  throw_if (not (is_access payload.token_type)) wrong_type
  found ← gets (find_session payload.sid)
  session ← or_throw found session_not_found
  throw_if (is_some session.revoked_at) session_revoked
  throw_if (ltb session.expires_at now) session_expired
  owner ← gets (λ s. find_admin session.admin_id s.admin_users)
  admin ← or_throw owner session_not_found
  throw_if (not admin.is_active) account_deactivated
  pure (record { id = admin.id; email = admin.email; role = admin.role; session_id = session.id })

-- `canActivate` of AdminRoleGuard, with the role that the route requires.
unfoldable pub role_can_activate : Option AdminRole → Option AuthenticatedAdmin → Guarded (Unit {0})
unfolding role_rank
role_can_activate none admin = pure tt
role_can_activate (some required) none = throw not_authenticated
role_can_activate (some required) (some admin) =
    throw_if (ltb (role_rank admin.role) (role_rank required)) role_too_low
