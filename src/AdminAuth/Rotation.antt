-- ===== src/AdminAuth/Rotation.antt =====
-- `refresh` of admin-auth.service.ts against the sessions that sign-in makes.
use Prim.Native.Nat.{ℕ}
use arktion_sui_overflow.Prelude.{
  none, some, ◌≢◌, arith, ℕ, ok, List, ◌∷◌, refl, Bool, true, err, [], find, ◌≡◌, ◌==◌,
}
use arktion_sui_overflow.AdminAuth.Login.{
  refresh, create_session, Drawn, refresh_payload, refresh_token_ttl, access_payload,
  access_token_ttl, session_invalid, is_refreshed_by,
}
use arktion_sui_overflow.AdminUsers.{AdminSession, AdminRole, Admins}
use arktion_sui_overflow.AdminAuth.Secret.{Crypto}
use arktion_sui_overflow.Text.{Text}

find-set_other :
    (sid : ℕ) (rows : List AdminSession) (p : AdminSession → Bool)
    → find (λ y. y.id == sid) rows ≡ none
    → ((y : AdminSession) → p y ≡ true → (y.id == sid) ≡ true)
    → find p rows ≡ none
find-set_other sid [] p h k = refl
find-set_other sid (y ∷ rows) p h k = ground (arith, k y, find-set_other sid rows p)

-- The refresh token of a session.
abbrev pub refresh_token_of : Crypto → ℕ → Drawn → ℕ → Text
refresh_token_of c admin_id drawn now =
    c.sign (refresh_payload admin_id drawn.session_id) now refresh_token_ttl

-- A refresh token that sign-in hands out is refused: the session keeps the hash of the raw token
-- that was drawn, and refresh compares it with the hash of the signed one. So it is whenever the
-- two hashes differ and the session's id is a new one, at every time at which the token is valid.
pub refresh_refused :
    (c : Crypto) (admin_id : ℕ) (role : AdminRole) (drawn again : Drawn) (now later : ℕ)
    (s : Admins)
    → find (λ x. x.id == drawn.session_id) s.admin_sessions ≡ none
    → c.verify (refresh_token_of c admin_id drawn now) later
      ≡ some (refresh_payload admin_id drawn.session_id)
    → c.sha256 (refresh_token_of c admin_id drawn now) ≢ c.sha256 drawn.raw_refresh_token
    → let token = refresh_token_of c admin_id drawn now in
      let (r, s') = create_session c admin_id role drawn now s in
      (r
        ≡ ok (record {
          access_token =
              c.sign (access_payload admin_id drawn.session_id role) now access_token_ttl;
          refresh_token = token;
          expires_in = access_token_ttl;
        }))
      × (refresh c token again later s' ≡ (err session_invalid, s'))
unfolding refresh create_session
refresh_refused c admin_id role drawn again now later s fresh valid differ =
    let token = refresh_token_of c admin_id drawn now in
    (
      refl,
      ground (
        arith,
        valid,
        differ,
        find-set_other drawn.session_id s.admin_sessions
            (is_refreshed_by c token drawn.session_id later) fresh (λ y e. ground (arith, e)),
      ),
    )
