-- ===== src/AdminAuth/Revocation.antt =====
-- What admin-users.service.ts revokes, admin-jwt.guard.ts refuses.
use Prim.Native.Nat.{ℕ}
use arktion_sui_overflow.Prelude.{
  Option, arith, ◌∷◌, is_some, false, List, find, true, ℕ, ◌≡◌, ◌==◌, ok, some, [], ◌≢◌, inl, inr,
  Option-cases, sym, is_ok, ◌∙◌,
}
use arktion_sui_overflow.AdminAuth.Secret.{Crypto, Payload}
use arktion_sui_overflow.AdminUsers.{
  AdminSession, revoke, Admins, deactivate, approve_role_change, RoleChangeRequest,
  apply_role_change, find_request, find_admin,
}
use arktion_sui_overflow.Text.{Text, extract_token}
use arktion_sui_overflow.AdminAuth.Guard.{AuthenticatedAdmin, can_activate}
use mathlib.Core.Bool.{false≢true}
use arktion_sui_overflow.AdminAuth.Codes.{find_admin_id}

find-revoke :
    (sid k now : ℕ) (rows : List AdminSession) (x : AdminSession)
    → find (λ y. y.id == sid) (revoke k now rows) ≡ some x
    → x.admin_id ≡ k
    → is_some x.revoked_at ≡ true
find-revoke sid k now [] x h e = absurd (ground arith)
find-revoke sid k now (y ∷ rows) x h e = ground (arith, find-revoke sid k now rows x)

-- Whom the guard lets in holds a session that is not revoked.
module _ (c : Crypto) (header : Option Text) (later : ℕ) (s : Admins) (a : AuthenticatedAdmin) where
  can_activate_live :
      (can_activate c header later s).0 ≡ ok a
      → (sid : ℕ) × (x : AdminSession) × (find (λ y. y.id == sid) s.admin_sessions ≡ some x)
        × (is_some x.revoked_at ≡ false)
        × (x.admin_id ≡ a.id)
  unfolding can_activate
  can_activate_live h = elim (Option-cases (extract_token header)) [
    | inl e ↦ absurd (ground (arith, e))
    | inr (token, e) ↦ elim (Option-cases (c.verify token later)) [
      | inl f ↦ absurd (ground (arith, e, f))
      | inr (p, f) ↦ elim (Option-cases p.sid) [
        | inl g ↦ absurd (ground (arith, e, f, g))
        | inr (sid, g) ↦ elim (Option-cases (find (λ y. y.id == sid) s.admin_sessions)) [
          | inl k ↦ absurd (ground (arith, e, f, g, k))
          | inr (x, k) ↦ (sid, x, k, ground (arith, e, f, g, k), owner token p sid x e f g k)
        ]
      ]
    ]
  ]
    where
      owner :
          (token : Text) (p : Payload) (sid : ℕ) (x : AdminSession)
          → extract_token header ≡ some token
          → c.verify token later ≡ some p
          → p.sid ≡ some sid
          → find (λ y. y.id == sid) s.admin_sessions ≡ some x
          → x.admin_id ≡ a.id
      owner token p sid x e f g k = elim (Option-cases (find_admin x.admin_id s.admin_users)) [
        | inl m ↦ absurd (ground (arith, h, e, f, g, k, m))
        | inr (y, m) ↦ ground (arith, h, e, f, g, k, m, find_admin_id x.admin_id s.admin_users y m)
      ]

deactivate-sessions :
    (target by_id now : ℕ) (s : Admins)
    → is_ok (deactivate target by_id now s).0 ≡ true
    → (deactivate target by_id now s).1.admin_sessions ≡ revoke target now s.admin_sessions
unfolding deactivate
deactivate-sessions target by_id now s o = ground arith

approve_role_change-sessions :
    (id by_id now : ℕ) (s : Admins) (r : RoleChangeRequest)
    → find_request id s.requests ≡ some r
    → is_ok (approve_role_change id by_id now s).0 ≡ true
    → (approve_role_change id by_id now s).1.admin_sessions
      ≡ revoke r.target_id now s.admin_sessions
unfolding approve_role_change apply_role_change
approve_role_change-sessions id by_id now s r h o = ground arith

not_revoked :
    (c : Crypto) (header : Option Text) (later k now : ℕ) (s : Admins) (rows : List AdminSession)
    (a : AuthenticatedAdmin)
    → s.admin_sessions ≡ revoke k now rows
    → (can_activate c header later s).0 ≡ ok a
    → a.id ≢ k
not_revoked c header later k now s rows a e h same =
    let (sid, x, found, live, owner) = can_activate_live c header later s a h in
    false≢true (sym live ∙ find-revoke sid k now rows x (rw e at found) (owner ∙ same))

-- After a deactivation the guard lets nobody in as the admin concerned, by any token and at any
-- time, until a session is made.
pub can_activate_deactivated :
    (c : Crypto) (header : Option Text) (later target by_id now : ℕ) (s : Admins)
    (a : AuthenticatedAdmin)
    → is_ok (deactivate target by_id now s).0 ≡ true
    → (can_activate c header later (deactivate target by_id now s).1).0 ≡ ok a
    → a.id ≢ target
can_activate_deactivated c header later target by_id now s a o h =
    not_revoked c header later target now (deactivate target by_id now s).1 s.admin_sessions a
      (deactivate-sessions target by_id now s o) h

-- After a change of role is approved the guard lets nobody in as its target, by any token and at any
-- time, until a session is made.
pub can_activate_role_changed :
    (c : Crypto) (header : Option Text) (later id by_id now : ℕ) (s : Admins)
    (r : RoleChangeRequest) (a : AuthenticatedAdmin)
    → find_request id s.requests ≡ some r
    → is_ok (approve_role_change id by_id now s).0 ≡ true
    → (can_activate c header later (approve_role_change id by_id now s).1).0 ≡ ok a
    → a.id ≢ r.target_id
can_activate_role_changed c header later id by_id now s r a found o h =
    not_revoked c header later r.target_id now (approve_role_change id by_id now s).1
      s.admin_sessions a (approve_role_change-sessions id by_id now s r found o) h
