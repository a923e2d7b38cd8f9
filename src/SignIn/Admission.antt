-- ===== src/SignIn/Admission.antt =====
-- Whom jwt-auth.guard.ts lets in: the holder of an issued session, until it ends.
use Prim.Native.Nat.{ℕ}
use arktion_sui_overflow.SignIn.Accounts.{Account, Identity, Session}
use arktion_sui_overflow.Prelude.{
  update_where, some, Option, ◌≡◌, not, ok, [], ◌==◌, List, true, ◌+◌, find, false, is_some, arith,
  ◌∷◌, ◌&&◌, ◌≤◌, ℕ, Option-cases, sym, ◌⊎◌, ◌≢◌, inr, inl, refl, ◌∙◌,
}
use arktion_sui_overflow.SignIn.Sessions.{
  can_activate, Tokens, SessionTokenPayload, verify_token, valid, AuthenticatedUser, Verified,
  revoke_session, expired, revoke_all_for_user, forged, revoke_where,
}
use arktion_sui_overflow.Text.{Text, extract_token}
use mathlib.Core.Bool.{false≢true}

-- What jsonwebtoken documents of a token, whose times are rounded down to seconds.
abbrev pub VerifiesSigned : Tokens → Type 0
VerifiesSigned c =
    (p : SessionTokenPayload) (now ttl later : ℕ)
    → now ≤ later
    → later + 1000 ≤ now + ttl
    → c.verify (c.sign p now ttl) later ≡ valid p

revoked_id :
    (k sid now : ℕ) (rows : List Session) (x : Session)
    → find
        (λ y. y.id == sid)
        (update_where
          (λ y. y.id == k && not (is_some y.revoked_at))
          (λ y. record y { revoked_at = some now })
          rows)
      ≡ some x
    → x.id ≡ k
    → is_some x.revoked_at ≡ true
revoked_id k sid now [] x h e = absurd (ground arith)
revoked_id k sid now (y ∷ rows) x h e = ground (arith, revoked_id k sid now rows x)

revoked_user :
    (k sid now : ℕ) (rows : List Session) (x : Session)
    → find
        (λ y. y.id == sid)
        (update_where
          (λ y. y.user_id == k && not (is_some y.revoked_at))
          (λ y. record y { revoked_at = some now })
          rows)
      ≡ some x
    → x.user_id ≡ k
    → is_some x.revoked_at ≡ true
revoked_user k sid now [] x h e = absurd (ground arith)
revoked_user k sid now (y ∷ rows) x h e = ground (arith, revoked_user k sid now rows x)

user_id_found :
    (k : ℕ) (rows : List Account) (u : Account) → find (λ v. v.id == k) rows ≡ some u → u.id ≡ k
user_id_found k [] u h = absurd (ground arith)
user_id_found k (v ∷ rows) u h = ground (arith, user_id_found k rows u)

Verified-cases :
    (v : Verified) → ((p : SessionTokenPayload) × (v ≡ valid p)) ⊎ (v ≡ expired) ⊎ (v ≡ forged)
Verified-cases (valid p) = inl (p, refl)
Verified-cases expired = inr (inl refl)
Verified-cases forged = inr (inr refl)

-- Whom the guard lets in holds a session that is not revoked.
module _ (c : Tokens) (header : Option Text) (later : ℕ) (s : Identity)
    (a : AuthenticatedUser) where
  can_activate_found :
      (token : Text) (p : SessionTokenPayload) (x : Session)
      → (can_activate c header later s).0 ≡ ok a
      → extract_token header ≡ some token
      → c.verify token later ≡ valid p
      → find (λ y. y.id == p.sid) s.sessions ≡ some x
      → (is_some x.revoked_at ≡ false) × (x.user_id ≡ a.id) × (x.id ≡ a.session_id)
  unfolding can_activate verify_token
  can_activate_found token p x h e f g =
      elim (Option-cases (find (λ u. u.id == x.user_id) s.accounts)) [
        | inl m ↦ absurd (ground (arith, h, e, f, g, m))
        | inr (u, m) ↦ (
          ground (arith, h, e, f, g, m),
          ground (arith, h, e, f, g, m, user_id_found x.user_id s.accounts u m),
          ground (arith, h, e, f, g, m),
        )
      ]

  can_activate_live :
      (can_activate c header later s).0 ≡ ok a
      → (sid : ℕ) × (x : Session) × (find (λ y. y.id == sid) s.sessions ≡ some x)
        × (is_some x.revoked_at ≡ false)
        × (x.user_id ≡ a.id)
        × (x.id ≡ a.session_id)
  unfolding can_activate verify_token
  can_activate_live h = elim (Option-cases (extract_token header)) [
    | inl e ↦ absurd (ground (arith, e, h))
    | inr (token, e) ↦ elim (Verified-cases (c.verify token later)) [
      | inl (p, f) ↦ elim (Option-cases (find (λ y. y.id == p.sid) s.sessions)) [
        | inl g ↦ absurd (ground (arith, e, f, g, h))
        | inr (x, g) ↦
            let (live, owner, same) = can_activate_found token p x h e f g in
            (p.sid, x, g, live, owner, same)
      ]
      | inr (inl f) ↦ absurd (ground (arith, e, f, h))
      | inr (inr f) ↦ absurd (ground (arith, e, f, h))
    ]
  ]

-- After a logout the guard lets nobody in under the session that ended, by any token and at any time,
-- until a session is made.
pub can_activate_logged_out :
    (c : Tokens) (header : Option Text) (later sid now : ℕ) (s : Identity) (a : AuthenticatedUser)
    → (can_activate c header later (revoke_session sid now s).1).0 ≡ ok a
    → a.session_id ≢ sid
unfolding revoke_session
can_activate_logged_out c header later sid now s a h same =
    let (n, x, found, live, owner, id) =
      can_activate_live c header later (revoke_where (λ y. y.id == sid) now s) a h in
    false≢true (sym live ∙ revoked_id sid n now s.sessions x found (id ∙ same))

-- Once every session of a user is revoked, the guard lets nobody in as that user, by any token and at
-- any time, until a session is made.
pub can_activate_revoked_all :
    (c : Tokens) (header : Option Text) (later user_id now : ℕ) (s : Identity)
    (a : AuthenticatedUser)
    → (can_activate c header later (revoke_all_for_user user_id now s).1).0 ≡ ok a
    → a.id ≢ user_id
unfolding revoke_all_for_user
can_activate_revoked_all c header later user_id now s a h same =
    let (n, x, found, live, owner, id) =
      can_activate_live c header later (revoke_where (λ y. y.user_id == user_id) now s) a h in
    false≢true (sym live ∙ revoked_user user_id n now s.sessions x found (owner ∙ same))
