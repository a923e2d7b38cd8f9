-- ===== src/AdminAuth/Codes.antt =====
-- The backup codes of admin-auth.service.ts are used up.
use mathlib.Core.Option
use Prim.Native.Nat.{ℕ}
use arktion_sui_overflow.Prelude.{
  some, arith, true, ℕ, suc, ◌∷◌, List, Bool, [], refl, ◌<◌, ◌≡◌, ◌≤◌, Option, ◌≢◌, if◌then◌else◌,
  length, none, is_ok, ◌==◌, update_where, Option-cases, inr, inl,
}
use arktion_sui_overflow.AdminAuth.Totp.{
  match_index, without_index, validate_totp, Code, remaining_codes, check_code, consume_backup_code,
}
use arktion_sui_overflow.AdminAuth.Secret.{Crypto, Payload}
use arktion_sui_overflow.Text.{Text}
use arktion_sui_overflow.AdminAuth.Login.{Drawn, update_admin, create_session, update_last_login}
use arktion_sui_overflow.AdminUsers.{Admins, AdminUser, find_admin}
use arktion_sui_overflow.AdminUsers.FourEyes.{find-set_admin}

match_index-le :
    (test : ℕ → Bool) (i k : ℕ) (codes : List ℕ) → match_index test i codes ≡ some k → i ≤ k
unfolding match_index
match_index-le test i k [] h = absurd (ground arith)
match_index-le test i k (c ∷ cs) h = ground (arith, match_index-le test (suc i) k cs)

without_index_below : (k i : ℕ) (codes : List ℕ) → k < i → without_index k i codes ≡ codes
unfolding without_index
without_index_below k i [] h = refl
without_index_below k i (c ∷ cs) h = ground (arith, without_index_below k (suc i) cs)

-- The codes without the first one that passes the test; none if no code passes.
abbrev pub remove_first : (ℕ → Bool) → List ℕ → Option (List ℕ)
remove_first test [] = none
remove_first test (h ∷ hs) =
    if test h then some hs else Option.map (λ rest. h ∷ rest) (remove_first test hs)

remaining-remove_first :
    (test : ℕ → Bool) (i : ℕ) (codes : List ℕ)
    → let out : Option (List ℕ) = elim (match_index test i codes) [
      | none ↦ none
      | some k ↦ some (without_index k i codes)
    ] in
      out ≡ remove_first test codes
unfolding match_index without_index
remaining-remove_first test i [] = refl
remaining-remove_first test i (h ∷ hs) =
    let rest = remaining-remove_first test (suc i) hs in
    elim (Option-cases (match_index test (suc i) hs)) [
      | inl e ↦ ground (arith, e, rest, without_index_below i (suc i) hs)
      | inr (k, e) ↦
          ground
            (arith, e, rest, match_index-le test (suc i) k hs e, without_index_below i (suc i) hs)
    ]

remaining_codes-remove_first :
    (test : ℕ → Bool) (codes : List ℕ) → remaining_codes test codes ≡ remove_first test codes
unfolding remaining_codes
remaining_codes-remove_first test codes = remaining-remove_first test 0 codes

pub find_admin_id :
    (id : ℕ) (rows : List AdminUser) (a : AdminUser) → find_admin id rows ≡ some a → a.id ≡ id
find_admin_id id [] a h = absurd (ground arith)
find_admin_id id (x ∷ rows) a h = ground (arith, find_admin_id id rows a)

-- A backup code that is accepted is gone: the codes that stay are those without the first that it
-- fits, in their order.
pub validate_totp_spends :
    (c : Crypto) (token : Text) (code : Code) (drawn : Drawn) (now : ℕ) (s : Admins) (p : Payload)
    (a : AdminUser)
    → c.verify token now ≡ some p
    → find_admin p.sub s.admin_users ≡ some a
    → length code.text ≢ 6
    → is_ok (validate_totp c token code drawn now s).0 ≡ true
    → Option.map
        (λ x. x.totp_backup_codes)
        (find_admin p.sub (validate_totp c token code drawn now s).1.admin_users)
      ≡ remove_first (c.compare code.number) a.totp_backup_codes
unfolding validate_totp check_code consume_backup_code update_admin create_session update_last_login
validate_totp_spends c token code drawn now s p a v h l o =
    elim (Option-cases (remove_first (c.compare code.number) a.totp_backup_codes)) [
      | inl e ↦
          ground (
            arith,
            v,
            h,
            e,
            remaining_codes-remove_first (c.compare code.number) a.totp_backup_codes,
          )
      | inr (rest, e) ↦ ground (
        arith,
        v,
        h,
        e,
        find_admin_id p.sub s.admin_users a h,
        remaining_codes-remove_first (c.compare code.number) a.totp_backup_codes,
        find-set_admin p.sub a.id (λ x. record x { totp_backup_codes = rest }) s.admin_users
            (λ x. refl),
        find-set_admin p.sub a.id (λ x. record x { last_login_at = some now })
            (update_where (λ x. x.id == a.id) (λ x. record x { totp_backup_codes = rest })
              s.admin_users)
            (λ x. refl),
      )
    ]
