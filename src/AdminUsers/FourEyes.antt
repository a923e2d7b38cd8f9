-- ===== src/AdminUsers/FourEyes.antt =====
-- Admin accounts of admin-users.service.ts: who can change what.
use mathlib.Core.Option
use arktion_sui_overflow.AdminUsers.{
  AdminSession, revoke, Call, create_call, request_call, approve_call, reject_call, deactivate_call,
  activate_call, run, create_admin, request_role_change, approve_role_change, apply_role_change,
  reject_role_change, deactivate, activate, Bool,
}
use arktion_sui_overflow.AdminUsers.{
  AdminRole, AdminUser, Admins, RoleChangeRequest, pending, approved, find_admin, find_request,
  is_pending, approve_role_change,
}
use arktion_sui_overflow.Prelude.{
  update_where, some, ℕ, ◌==◌, if◌then◌else◌, ◌≡◌, is_ok, ◌≢◌, List, true, arith, [], ◌∷◌, Option,
  count, Option-cases, inr, not, is_some, ◌&&◌, false, inl, Bool, refl, Bool-cases, ap,
}

pub find-set_admin :
    (j k : ℕ) (f : AdminUser → AdminUser) (rows : List AdminUser)
    → ((a : AdminUser) → (f a).id ≡ a.id)
    → find_admin j (update_where (λ a. a.id == k) f rows)
      ≡ (if j == k then Option.map f (find_admin j rows) else find_admin j rows)
find-set_admin j k f [] keeps = ground arith
find-set_admin j k f (a ∷ rest) keeps = ground (arith, keeps a, find-set_admin j k f rest keeps)

find-role :
    (j k : ℕ) (role : AdminRole) (rows : List AdminUser)
    → let f : AdminUser → AdminUser = λ a. record a { role = role } in
      find_admin j (update_where (λ a. a.id == k) f rows)
      ≡ (if j == k then Option.map f (find_admin j rows) else find_admin j rows)
find-role j k role rows = find-set_admin j k (λ a. record a { role = role }) rows (λ a. refl)

find-active :
    (j k : ℕ) (b : Bool) (rows : List AdminUser)
    → let f : AdminUser → AdminUser = λ a. record a { is_active = b } in
      find_admin j (update_where (λ a. a.id == k) f rows)
      ≡ (if j == k then Option.map f (find_admin j rows) else find_admin j rows)
find-active j k b rows = find-set_admin j k (λ a. record a { is_active = b }) rows (λ a. refl)

revoke-count :
    (k now : ℕ) (rows : List AdminSession)
    → count (λ x. x.admin_id == k && not (is_some x.revoked_at)) (revoke k now rows) ≡ 0
revoke-count k now [] = refl
revoke-count k now (x ∷ rest) = ground (arith, revoke-count k now rest)

find-decided :
    (id reviewing now : ℕ) (rows : List RoleChangeRequest)
    → Option.map
        (λ q. q.status)
        (find_request id (
          update_where
            (λ q. q.id == id)
            (λ q. record q {
              status = approved;
              reviewed_by_id = some reviewing;
              reviewed_at = some now;
            })
            rows))
      ≡ Option.map (λ _. approved) (find_request id rows)
find-decided id reviewing now [] = refl
find-decided id reviewing now (q ∷ rest) = ground (arith, find-decided id reviewing now rest)

find_request-id :
    (id : ℕ) (rows : List RoleChangeRequest) (r : RoleChangeRequest)
    → find_request id rows ≡ some r
    → r.id ≡ id
find_request-id id [] r h = absurd (ground arith)
find_request-id id (q ∷ rest) r h = ground (arith, find_request-id id rest r)

-- Why an admin holds another role after a call: it grants a request that another admin made.
abbrev pub IsGrant : Call → Admins → ℕ → AdminRole → Type 0
IsGrant (approve_call id reviewing now) s j role =
    (r : RoleChangeRequest) × (find_request id s.requests ≡ some r)
    × (is_pending r.status ≡ true)
    × (r.target_id ≡ j)
    × (r.requested_role ≡ role)
    × (r.requested_by_id ≢ reviewing)
    × (j ≢ reviewing)
IsGrant _ s j role = ⊥

-- A refused approval writes nothing.
approve_role_change-refused :
    (id reviewing now : ℕ) (s : Admins)
    → is_ok (approve_role_change id reviewing now s).0 ≡ false
    → (approve_role_change id reviewing now s).1 ≡ s
unfolding approve_role_change
approve_role_change-refused id reviewing now s h = ground arith

approve_role_change-granted :
    (id reviewing now : ℕ) (s : Admins)
    → is_ok (approve_role_change id reviewing now s).0 ≡ true
    → (r : RoleChangeRequest) × (find_request id s.requests ≡ some r)
      × ((approve_role_change id reviewing now s).1 ≡ apply_role_change r reviewing now s)
unfolding approve_role_change
approve_role_change-granted id reviewing now s h =
    elim (Option-cases (find_request id s.requests)) [
      | inl e ↦ absurd (ground (arith, e))
      | inr (r, e) ↦ (r, e, ground (arith, e))
    ]

create_admin-role :
    (hash : ℕ → ℕ) (id email password : ℕ) (role : AdminRole) (s : Admins) (j : ℕ) (a b : AdminUser)
    → find_admin j s.admin_users ≡ some a
    → find_admin j (create_admin hash id email password role s).1.admin_users ≡ some b
    → a.role ≡ b.role
unfolding create_admin
create_admin-role hash id email password role s j a b h k = ground arith

request_role_change-users :
    (id target : ℕ) (role : AdminRole) (reason : Option ℕ) (by_id : ℕ) (s : Admins)
    → (request_role_change id target role reason by_id s).1.admin_users ≡ s.admin_users
unfolding request_role_change
request_role_change-users id target role reason by_id s = ground arith

reject_role_change-users :
    (id by_id : ℕ) (reason : Option ℕ) (now : ℕ) (s : Admins)
    → (reject_role_change id by_id reason now s).1.admin_users ≡ s.admin_users
unfolding reject_role_change
reject_role_change-users id by_id reason now s = ground arith

deactivate-role :
    (target by_id now : ℕ) (s : Admins) (j : ℕ) (a b : AdminUser)
    → find_admin j s.admin_users ≡ some a
    → find_admin j (deactivate target by_id now s).1.admin_users ≡ some b
    → a.role ≡ b.role
unfolding deactivate
deactivate-role target by_id now s j a b h k =
    ground (arith, find-active j target false s.admin_users)

activate-role :
    (target : ℕ) (s : Admins) (j : ℕ) (a b : AdminUser)
    → find_admin j s.admin_users ≡ some a
    → find_admin j (activate target s).1.admin_users ≡ some b
    → a.role ≡ b.role
unfolding activate
activate-role target s j a b h k = ground (arith, find-active j target true s.admin_users)

apply_role_change-role :
    (r : RoleChangeRequest) (reviewing now : ℕ) (s : Admins) (j : ℕ) (a b : AdminUser)
    → find_admin j s.admin_users ≡ some a
    → find_admin j (apply_role_change r reviewing now s).admin_users ≡ some b
    → a.role ≢ b.role
    → (r.target_id ≡ j) × (r.requested_role ≡ b.role)
unfolding apply_role_change
apply_role_change-role r reviewing now s j a b h k n =
    ground (arith, find-role j r.target_id r.requested_role s.admin_users)

same-role :
    (j : ℕ) (s s' : Admins) (a b : AdminUser)
    → s'.admin_users ≡ s.admin_users
    → find_admin j s.admin_users ≡ some a
    → find_admin j s'.admin_users ≡ some b
    → a.role ≡ b.role
same-role j s s' a b e h k = ground arith

approve_role_change-checks :
    (id reviewing now : ℕ) (s : Admins) (r : RoleChangeRequest)
    → find_request id s.requests ≡ some r
    → is_ok (approve_role_change id reviewing now s).0 ≡ true
    → (r.status ≡ pending) × (r.requested_by_id ≢ reviewing) × (r.target_id ≢ reviewing)
unfolding approve_role_change
approve_role_change-checks id reviewing now s r h o = ground arith

approve_role_change-IsGrant :
    (id reviewing now : ℕ) (s : Admins) (j : ℕ) (a b : AdminUser)
    → find_admin j s.admin_users ≡ some a
    → find_admin j (approve_role_change id reviewing now s).1.admin_users ≡ some b
    → a.role ≢ b.role
    → IsGrant (approve_call id reviewing now) s j b.role
approve_role_change-IsGrant id reviewing now s j a b h k n =
    elim (Bool-cases (is_ok (approve_role_change id reviewing now s).0)) [
      | inl o ↦
          let (r, e, applied) = approve_role_change-granted id reviewing now s o in
          let (target, role) =
            apply_role_change-role r reviewing now s j a b h (rw applied at k) n in
          let (open_, by_other, not_own) = approve_role_change-checks id reviewing now s r e o in
          (r, e, rw open_ refl, target, role, by_other, rw target at not_own)
      | inr o ↦ absurd (
          n (
            same-role j s (approve_role_change id reviewing now s).1 a b
              (ap (λ x. x.admin_users) (approve_role_change-refused id reviewing now s o)) h k))
    ]

-- Whatever the call, an admin's role differs afterwards only if the call approves a pending request
-- for that role and admin, by an admin who neither made it nor is its target.
pub run_four_eyes :
    (c : Call) (s : Admins) (j : ℕ) (a b : AdminUser)
    → find_admin j s.admin_users ≡ some a
    → find_admin j (run c s).admin_users ≡ some b
    → a.role ≢ b.role
    → IsGrant c s j b.role
unfolding run
run_four_eyes (create_call hash id email password role) s j a b h k n =
    n (create_admin-role hash id email password role s j a b h k)
run_four_eyes (request_call id target role reason by_id) s j a b h k n = n (
    same-role j s (request_role_change id target role reason by_id s).1 a b
      (request_role_change-users id target role reason by_id s) h k)
run_four_eyes (approve_call id by_id now) s j a b h k n =
    approve_role_change-IsGrant id by_id now s j a b h k n
run_four_eyes (reject_call id by_id reason now) s j a b h k n = n (
    same-role j s (reject_role_change id by_id reason now s).1 a b
      (reject_role_change-users id by_id reason now s) h k)
run_four_eyes (deactivate_call target by_id now) s j a b h k n =
    n (deactivate-role target by_id now s j a b h k)
run_four_eyes (activate_call target) s j a b h k n = n (activate-role target s j a b h k)

-- After a granted request, the target holds the role asked for, no session of theirs is live, and
-- the request is decided.
pub approve_role_change_applies :
    (id reviewing now : ℕ) (s : Admins) (r : RoleChangeRequest)
    → find_request id s.requests ≡ some r
    → is_ok (approve_role_change id reviewing now s).0 ≡ true
    → let s' = (approve_role_change id reviewing now s).1 in
      (Option.map (λ a. a.role) (find_admin r.target_id s'.admin_users) ≡ some r.requested_role)
      × (count (λ x. x.admin_id == r.target_id && not (is_some x.revoked_at)) s'.admin_sessions ≡ 0)
      × (Option.map (λ q. q.status) (find_request id s'.requests) ≡ some approved)
unfolding approve_role_change apply_role_change
approve_role_change_applies id reviewing now s r h o = ground (
  arith,
  find-role r.target_id r.target_id r.requested_role s.admin_users,
  revoke-count r.target_id now s.admin_sessions,
  find-decided id reviewing now s.requests,
  find_request-id id s.requests r h,
)
