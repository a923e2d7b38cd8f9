-- ===== src/Tests/AdminUsers.antt =====
-- The theorems of AdminUsers on a state.
use arktion_sui_overflow.AdminUsers.{
  AdminRole, AdminUser, Admins, RoleChangeRequest, pending, reviewer, moderator, super_admin,
  find_admin, run, approve_call, approve_role_change, apply_role_change, find_request, approved,
}
use arktion_sui_overflow.AdminUsers.FourEyes.{IsGrant, run_four_eyes, approve_role_change_applies}
use mathlib.Core.Option
use Prim.Native.Nat.{ℕ}
use mathlib.Core.Option.{none}
use arktion_sui_overflow.Prelude.{
  true, refl, arith, ℕ, none, [], ◌≡◌, some, is_ok, ◌∷◌, false, count, ◌==◌, ◌&&◌, not, is_some,
}

abbrev admin : ℕ → AdminRole → AdminUser
admin id role = record {
  id = id;
  email = id;
  password_hash = 0;
  role = role;
  is_active = true;
  totp_secret = none;
  totp_enabled = false;
  totp_backup_codes = [];
  failed_login_attempts = 0;
  locked_until = none;
  last_login_at = none;
}

abbrev change : RoleChangeRequest
change = record {
  id = 7;
  target_id = 3;
  previous_role = reviewer;
  requested_role = moderator;
  reason = none;
  requested_by_id = 1;
  status = pending;
  reviewed_by_id = none;
  reviewed_at = none;
}

abbrev state : Admins
state = record {
  admin_users = admin 1 super_admin ∷ admin 2 super_admin ∷ admin 3 reviewer ∷ [];
  admin_sessions =
      record { id = 40; admin_id = 3; refresh_token_hash = 0; expires_at = 1000; revoked_at = none }
      ∷ [];
  requests = change ∷ [];
}

approval_is_ok : is_ok (approve_role_change 7 2 10 state).0 ≡ true
unfolding approve_role_change
approval_is_ok = refl

promoted : find_admin 3 (run (approve_call 7 2 10) state).admin_users ≡ some (admin 3 moderator)
unfolding run approve_role_change apply_role_change
promoted = refl

run_four_eyes_example : IsGrant (approve_call 7 2 10) state 3 moderator
run_four_eyes_example =
    run_four_eyes (approve_call 7 2 10) state 3 (admin 3 reviewer) (admin 3 moderator) refl promoted
      (λ h. ground arith)

approve_role_change_applies_example :
    let s' = (approve_role_change 7 2 10 state).1 in
    (Option.map (λ a. a.role) (find_admin 3 s'.admin_users) ≡ some moderator)
    × (count (λ x. x.admin_id == 3 && not (is_some x.revoked_at)) s'.admin_sessions ≡ 0)
    × (Option.map (λ q. q.status) (find_request 7 s'.requests) ≡ some approved)
approve_role_change_applies_example =
    approve_role_change_applies 7 2 10 state change refl approval_is_ok
