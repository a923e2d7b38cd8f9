-- ===== src/AdminUsers.antt =====
-- admin-users.service.ts: the admin accounts, and the change of a role by two admins.
use arktion_sui_overflow.Prelude.{
  ok, err, Result, ◌>>=◌, Action, [], if◌then◌else◌, gets, ◌∷◌, find, false, is_some, some, Bool,
  true, ◌>>◌, leb, List, ◌==◌, ◌&&◌, modify, or_throw, Option, not, none, pure, throw_if,
  update_where, ℕ,
}
pub mod FourEyes

pub data AdminRole : Type 0 where
  super_admin moderator reviewer : AdminRole

-- `ROLE_RANK`
unfoldable pub role_rank : AdminRole → ℕ
role_rank reviewer = 0
role_rank moderator = 1
role_rank super_admin = 2

pub record AdminUser : Type 0 where
  pub id : ℕ
  pub email : ℕ
  pub password_hash : ℕ
  pub role : AdminRole
  pub is_active : Bool
  -- a text, iv:authTag:ciphertext
  pub totp_secret : Option (List ℕ)
  pub totp_enabled : Bool
  pub totp_backup_codes : List ℕ
  pub failed_login_attempts : ℕ
  pub locked_until : Option ℕ
  pub last_login_at : Option ℕ

pub record AdminSession : Type 0 where
  pub id : ℕ
  pub admin_id : ℕ
  pub refresh_token_hash : ℕ
  pub expires_at : ℕ
  pub revoked_at : Option ℕ

pub data RoleChangeStatus : Type 0 where
  pending approved rejected cancelled : RoleChangeStatus

pub record RoleChangeRequest : Type 0 where
  pub id : ℕ
  pub target_id : ℕ
  pub previous_role : AdminRole
  pub requested_role : AdminRole
  pub reason : Option ℕ
  pub requested_by_id : ℕ
  pub status : RoleChangeStatus
  pub reviewed_by_id : Option ℕ
  pub reviewed_at : Option ℕ

pub record Admins : Type 0 where
  pub admin_users : List AdminUser
  pub admin_sessions : List AdminSession
  pub requests : List RoleChangeRequest

pub data AdminError : Type 0 where
  not_found conflict forbidden bad_request : AdminError

abbrev pub Handler : Type 0 → Type 0
Handler A = Action AdminError Admins A

abbrev pub find_admin : ℕ → List AdminUser → Option AdminUser
find_admin id = find (λ a. a.id == id)

abbrev pub find_request : ℕ → List RoleChangeRequest → Option RoleChangeRequest
find_request id = find (λ r. r.id == id)

abbrev pub is_pending : RoleChangeStatus → Bool
is_pending pending = true
is_pending _ = false

abbrev pub same_role : AdminRole → AdminRole → Bool
same_role super_admin super_admin = true
same_role moderator moderator = true
same_role reviewer reviewer = true
same_role _ _ = false

-- `create`; `hash` is bcrypt's, `id` the one that the database draws, a primary key.
unfoldable pub create_admin : (ℕ → ℕ) → ℕ → ℕ → ℕ → AdminRole → Handler AdminUser
create_admin hash id email password role = do
  existing ← gets (λ s. is_some (find (λ a. a.email == email) s.admin_users))
  throw_if existing conflict
  taken ← gets (λ s. is_some (find_admin id s.admin_users))
  throw_if taken conflict
  let admin : AdminUser = record {
    id = id;
    email = email;
    password_hash = hash password;
    role = role;
    is_active = true;
    totp_secret = none;
    totp_enabled = false;
    totp_backup_codes = [];
    failed_login_attempts = 0;
    locked_until = none;
    last_login_at = none;
  }
  modify (λ s. record s { admin_users = admin ∷ s.admin_users })
  pure admin

-- `requestRoleChange`
unfoldable pub request_role_change : ℕ → ℕ → AdminRole → Option ℕ → ℕ → Handler RoleChangeRequest
request_role_change id target_id role reason requesting = do
  throw_if (target_id == requesting) forbidden
  found ← gets (λ s. find_admin target_id s.admin_users)
  target ← or_throw found not_found
  throw_if (not target.is_active) bad_request
  throw_if (same_role target.role role) bad_request
  waiting ←
      gets (λ s. is_some (find (λ r. r.target_id == target_id && is_pending r.status) s.requests))
  throw_if waiting conflict
  let created : RoleChangeRequest = record {
    id = id;
    target_id = target_id;
    previous_role = target.role;
    requested_role = role;
    reason = reason;
    requested_by_id = requesting;
    status = pending;
    reviewed_by_id = none;
    reviewed_at = none;
  }
  modify (λ s. record s { requests = created ∷ s.requests })
  pure created

abbrev pub revoke : ℕ → ℕ → List AdminSession → List AdminSession
revoke admin now =
    update_where (λ s. s.admin_id == admin && not (is_some s.revoked_at))
      (λ s. record s { revoked_at = some now })

-- The writes of `approveRoleChange`, in one transaction.
unfoldable pub apply_role_change : RoleChangeRequest → ℕ → ℕ → Admins → Admins
apply_role_change r reviewing now s = record {
  admin_users =
      update_where (λ a. a.id == r.target_id) (λ a. record a { role = r.requested_role })
        s.admin_users;
  admin_sessions = revoke r.target_id now s.admin_sessions;
  requests =
      update_where (λ q. q.id == r.id)
        (λ q. record q {
          status = approved;
          reviewed_by_id = some reviewing;
          reviewed_at = some now;
        })
        s.requests;
}

-- `approveRoleChange`
unfoldable pub approve_role_change : ℕ → ℕ → ℕ → Handler AdminUser
unfolding apply_role_change
approve_role_change request_id reviewing now = do
  found ← gets (λ s. find_request request_id s.requests)
  request ← or_throw found not_found
  throw_if (not (is_pending request.status)) conflict
  throw_if (request.requested_by_id == reviewing) forbidden
  throw_if (request.target_id == reviewing) forbidden
  held ← gets (λ s. find_admin request.target_id s.admin_users)
  target ← or_throw held not_found
  throw_if (not target.is_active) bad_request
  throw_if (not (same_role target.role request.previous_role)) conflict
  modify (apply_role_change request reviewing now)
  pure (record target { role = request.requested_role })

-- `rejectRoleChange`: the requester cancels, another admin rejects.
unfoldable pub reject_role_change : ℕ → ℕ → Option ℕ → ℕ → Handler RoleChangeRequest
reject_role_change request_id reviewing reason now = do
  found ← gets (λ s. find_request request_id s.requests)
  request ← or_throw found not_found
  throw_if (not (is_pending request.status)) conflict
  let f : RoleChangeRequest → RoleChangeRequest = λ q. record q {
    status = if q.requested_by_id == reviewing then cancelled else rejected;
    reviewed_by_id = some reviewing;
    reviewed_at = some now;
    reason = elim reason [ some text ↦ some text | none ↦ q.reason ];
  }
  modify (λ s. record s { requests = update_where (λ q. q.id == request_id) f s.requests })
  pure (f request)

-- `deactivate`
unfoldable pub deactivate : ℕ → ℕ → ℕ → Handler (Unit {0})
deactivate target_id requesting now = do
  throw_if (target_id == requesting) forbidden
  found ← gets (λ s. is_some (find_admin target_id s.admin_users))
  throw_if (not found) not_found
  modify (λ s. record s {
    admin_users =
        update_where (λ a. a.id == target_id) (λ a. record a { is_active = false }) s.admin_users;
    admin_sessions = revoke target_id now s.admin_sessions;
  })

-- `activate`
unfoldable pub activate : ℕ → Handler (Unit {0})
activate target_id = do
  found ← gets (λ s. is_some (find_admin target_id s.admin_users))
  throw_if (not found) not_found
  modify (λ s. record s {
    admin_users =
        update_where (λ a. a.id == target_id) (λ a. record a { is_active = true }) s.admin_users;
  })

-- `assertCanManage`
unfoldable pub assert_can_manage : AdminRole → AdminRole → Handler (Unit {0})
unfolding role_rank
assert_can_manage requesting target =
    throw_if (leb (role_rank requesting) (role_rank target)) forbidden

-- A request to the service, with its arguments.
pub data Call : Type 0 where
  create_call : (ℕ → ℕ) → ℕ → ℕ → ℕ → AdminRole → Call
  request_call : ℕ → ℕ → AdminRole → Option ℕ → ℕ → Call
  approve_call : ℕ → ℕ → ℕ → Call
  reject_call : ℕ → ℕ → Option ℕ → ℕ → Call
  deactivate_call : ℕ → ℕ → ℕ → Call
  activate_call : ℕ → Call

unfoldable pub run : Call → Admins → Admins
run (create_call hash id email password role) s = (create_admin hash id email password role s).1
run (request_call id target role reason by) s = (request_role_change id target role reason by s).1
run (approve_call id by now) s = (approve_role_change id by now s).1
run (reject_call id by reason now) s = (reject_role_change id by reason now s).1
run (deactivate_call target by now) s = (deactivate target by now s).1
run (activate_call target) s = (activate target s).1
