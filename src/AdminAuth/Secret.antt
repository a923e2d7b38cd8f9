-- ===== src/AdminAuth/Secret.antt =====
-- The libraries of admin-auth.service.ts (bcrypt, jsonwebtoken, otplib, Node's crypto), and its
-- storage of a TOTP secret.
use Prim.Native.Nat.{ℕ}
use arktion_sui_overflow.Prelude.{Bool, [], Option, ◌∷◌, ℕ, List, none}
use arktion_sui_overflow.Text.{Text, join, from_hex, split, to_hex}
use arktion_sui_overflow.AdminUsers.{AdminRole}

-- `AdminJwtPayload`; the issue and the expiry are arguments of `sign` and `verify`.
pub data TokenType : Type 0 where
  admin admin_refresh admin_preauth : TokenType

pub record Payload : Type 0 where
  pub sub : ℕ
  pub sid : Option ℕ
  pub role : Option AdminRole
  pub token_type : TokenType

pub record Encrypted : Type 0 where
  pub auth_tag : List ℕ
  pub ciphertext : List ℕ

-- `compare` and `hash` are bcrypt's; `sign` takes the time in milliseconds and the life in seconds;
-- `verify` takes the time too, and gives none for a token that is forged or has expired. The cipher
-- is AES-256-GCM under the service's key; `decipher` gives none where `final` throws.
pub record Crypto : Type 0 where
  pub compare : ℕ → ℕ → Bool
  pub hash : ℕ → ℕ
  pub sha256 : Text → ℕ
  pub sign : Payload → ℕ → ℕ → Text
  pub verify : Text → ℕ → Option Payload
  pub totp_valid : Text → Text → ℕ → Bool
  pub encipher : List ℕ → Text → Encrypted
  pub decipher : List ℕ → Encrypted → Option Text

unfoldable pub encrypt_totp_secret : Crypto → List ℕ → Text → Text
encrypt_totp_secret c iv secret =
    let sealed = c.encipher iv secret in
    join b':' (to_hex iv ∷ to_hex sealed.auth_tag ∷ to_hex sealed.ciphertext ∷ [])

-- `decryptTotpSecret` past the split; any other number of parts is malformed.
abbrev pub decrypt_parts : Crypto → List Text → Option Text
decrypt_parts c (iv ∷ tag ∷ text ∷ []) =
    c.decipher (from_hex iv) (record { auth_tag = from_hex tag; ciphertext = from_hex text })
decrypt_parts c _ = none

unfoldable pub decrypt_totp_secret : Crypto → Text → Option Text
decrypt_totp_secret c stored = decrypt_parts c (split b':' stored)
