-- ===== src/Tests/AdminAuth.antt =====
-- The theorems of AdminAuth on a state, with a small encoding of tokens.
use mathlib.Core.Option
use Prim.Native.Nat.{ℕ, zero}
use arktion_sui_overflow.AdminUsers.{
  AdminUser, Admins, reviewer, AdminSession, deactivate, super_admin, find_admin,
}
use arktion_sui_overflow.AdminAuth.Secret.{
  Crypto, Payload, TokenType, admin_refresh, admin_preauth, decrypt_totp_secret,
  encrypt_totp_secret,
}
use arktion_sui_overflow.AdminAuth.Login.{
  Drawn, session_invalid, create_session, max_failed_attempts, refresh_payload, access_payload,
  refresh_token_ttl, access_token_ttl, refresh, update_admin, update_last_login,
}
use mathlib.Core.Option.{Option, none}
use arktion_sui_overflow.Prelude.{
  ltb, is_ok, ◌*◌, arith, err, ok, Option, ◌≤◌, ◌≡◌, none, or_else, ◌+◌, true, some, ◌∷◌, ℕ, ◌==◌,
  length, [], refl, ◌≢◌, suc, ◌-◌, max, if◌then◌else◌, zero,
}
use arktion_sui_overflow.AdminAuth.Guard.{can_activate, AuthenticatedAdmin}
use arktion_sui_overflow.AdminAuth.Lockout.{Attempt, chances, chances_bounded}
use arktion_sui_overflow.AdminAuth.Totp.{
  validate_totp, Code, check_code, consume_backup_code, remaining_codes, match_index, without_index,
}
use arktion_sui_overflow.Text.{Text, extract_token, split, from_hex}
use arktion_sui_overflow.AdminAuth.Storage.{decrypt_totp_secret-encrypt}
use arktion_sui_overflow.AdminAuth.Codes.{validate_totp_spends}
use arktion_sui_overflow.AdminAuth.Revocation.{can_activate_deactivated}
use arktion_sui_overflow.AdminAuth.Rotation.{refresh_refused}

abbrev code_of : TokenType → ℕ
code_of TokenType.admin = 0
code_of admin_refresh = 1
code_of admin_preauth = 2

abbrev type_of : ℕ → TokenType
type_of zero = TokenType.admin
type_of (suc zero) = admin_refresh
type_of _ = admin_preauth

abbrev sid_of : ℕ → Option ℕ
sid_of zero = none
sid_of (suc n) = some n

abbrev decode : Text → ℕ → Option Payload
decode (sub ∷ sid ∷ kind ∷ expiry ∷ []) now =
    if ltb now expiry
    then some (record { sub = sub; sid = sid_of sid; role = none; token_type = type_of kind })
    else none
decode _ now = none

abbrev toy : Crypto
toy = record {
  compare = λ a b. a == b;
  hash = λ a. a;
  sha256 = λ t. length t;
  sign = λ p now ttl.
      p.sub
      ∷ or_else (Option.map (λ n. suc n) p.sid) 0
      ∷ code_of p.token_type
      ∷ (now + ttl * 1000)
      ∷ [];
  verify = decode;
  totp_valid = λ secret code now. true;
  encipher = λ iv t. record { auth_tag = 16 ∷ 255 ∷ []; ciphertext = t };
  decipher = λ iv e. some e.ciphertext;
}

abbrev row : AdminUser
row = record {
  id = 3;
  email = 30;
  password_hash = 99;
  role = reviewer;
  is_active = true;
  totp_secret = some (b':' ∷ b':' ∷ []);
  totp_enabled = true;
  totp_backup_codes = 7 ∷ 8 ∷ 7 ∷ [];
  failed_login_attempts = 2;
  locked_until = none;
  last_login_at = none;
}

abbrev live : AdminSession
live = record {
  id = 40;
  admin_id = 3;
  refresh_token_hash = 0;
  expires_at = 1000;
  revoked_at = none;
}

abbrev boss_live : AdminSession
boss_live = record {
  id = 41;
  admin_id = 1;
  refresh_token_hash = 0;
  expires_at = 1000;
  revoked_at = none;
}

abbrev boss : AdminUser
boss = record row { id = 1; email = 10; role = super_admin }

abbrev state : Admins
state = record {
  admin_users = boss ∷ row ∷ [];
  admin_sessions = live ∷ boss_live ∷ [];
  requests = [];
}

abbrev drawn : Drawn
drawn = record { session_id = 50; raw_refresh_token = 1 ∷ [] }

abbrev guess : ℕ → Attempt
guess now = record { password = 5; drawn = drawn; now = now }

chances_bounded_example :
    chances toy 30 99 (guess 100 ∷ guess 101 ∷ guess 102 ∷ guess 103 ∷ []) state
    ≤ max 1 (max_failed_attempts - 2)
chances_bounded_example =
    chances_bounded toy 30 100 99 (guess 100 ∷ guess 101 ∷ guess 102 ∷ guess 103 ∷ []) state row
      refl
      (
        refl,
        omega arith,
        omega arith,
        (
          refl,
          omega arith,
          omega arith,
          (refl, omega arith, omega arith, (refl, omega arith, omega arith, tt)),
        ),
      )

abbrev token : Text
token = toy.sign (refresh_payload 3 50) 100 refresh_token_ttl

refresh_refused_example :
    let (r, s') = create_session toy 3 reviewer drawn 100 state in
    (r
      ≡ ok (record {
        access_token = toy.sign (access_payload 3 50 reviewer) 100 access_token_ttl;
        refresh_token = token;
        expires_in = access_token_ttl;
      }))
    × (refresh toy token drawn 200 s' ≡ (err session_invalid, s'))
refresh_refused_example =
    refresh_refused toy 3 reviewer drawn drawn 100 200 state refl refl (λ h. ground (arith, h))

abbrev backup : Code
backup = record { text = b'a' ∷ []; number = 7 }

abbrev preauth : Text
preauth = 3 ∷ 0 ∷ 2 ∷ 900 ∷ []

validate_totp-is_okb : is_ok (validate_totp toy preauth backup drawn 200 state).0 ≡ true
unfolding validate_totp check_code consume_backup_code update_admin create_session update_last_login
    decrypt_totp_secret split remaining_codes match_index without_index from_hex
validate_totp-is_okb = refl

validate_totp_spends_example :
    Option.map
      (λ x. x.totp_backup_codes)
      (find_admin 3 (validate_totp toy preauth backup drawn 200 state).1.admin_users)
    ≡ some (8 ∷ 7 ∷ [])
validate_totp_spends_example =
    validate_totp_spends toy preauth backup drawn 200 state
      (record { sub = 3; sid = none; role = none; token_type = admin_preauth }) row refl refl
      (λ h. ground (arith, h)) validate_totp-is_okb

abbrev header : Option Text
header = some (b'B' ∷ b'e' ∷ b'a' ∷ b'r' ∷ b'e' ∷ b'r' ∷ b' ' ∷ 1 ∷ 42 ∷ 0 ∷ 900 ∷ [])

abbrev boss_in : AuthenticatedAdmin
boss_in = record { id = 1; email = 10; role = super_admin; session_id = 41 }

deactivate-is_okb : is_ok (deactivate 3 1 150 state).0 ≡ true
unfolding deactivate
deactivate-is_okb = refl

boss_is_in : (can_activate toy header 200 (deactivate 3 1 150 state).1).0 ≡ ok boss_in
unfolding deactivate can_activate extract_token split
boss_is_in = refl

can_activate_deactivated_example : boss_in.id ≢ 3
can_activate_deactivated_example =
    can_activate_deactivated toy header 200 3 1 150 state boss_in deactivate-is_okb boss_is_in

-- An authenticator's secret of two letters, under a cipher that leaves the text as it is.
decrypt_totp_secret-encrypt_example :
    decrypt_totp_secret toy (encrypt_totp_secret toy (171 ∷ 2 ∷ []) (65 ∷ 66 ∷ []))
    ≡ some (65 ∷ 66 ∷ [])
decrypt_totp_secret-encrypt_example =
    decrypt_totp_secret-encrypt toy (171 ∷ 2 ∷ []) (65 ∷ 66 ∷ []) refl
      (omega arith, (omega arith, tt)) (omega arith, (omega arith, tt))
      (omega arith, (omega arith, tt))
