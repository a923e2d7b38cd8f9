-- ===== src/AdminAuth/Storage.antt =====
-- The storage of a TOTP secret in admin-auth.service.ts, there and back.
use arktion_sui_overflow.Prelude.{List, some, ◌∷◌, ℕ, ◌++◌, ◌≡◌}
use arktion_sui_overflow.AdminAuth.Secret.{decrypt_totp_secret, encrypt_totp_secret, Crypto}
use arktion_sui_overflow.Text.{join, Text, to_hex, from_hex}
use arktion_sui_overflow.Text.Parts.{
  IsBytes, split-append, to_hex-Lacks, split_last, from_hex-to_hex,
}

-- A secret that is stored and read again is the same, for every cipher that opens what it sealed and
-- whatever bytes the initialisation vector, the tag and the ciphertext are.
pub decrypt_totp_secret-encrypt :
    (c : Crypto) (iv : List ℕ) (secret : Text)
    → c.decipher iv (c.encipher iv secret) ≡ some secret
    → IsBytes iv
    → IsBytes (c.encipher iv secret).auth_tag
    → IsBytes (c.encipher iv secret).ciphertext
    → decrypt_totp_secret c (encrypt_totp_secret c iv secret) ≡ some secret
unfolding decrypt_totp_secret encrypt_totp_secret join
decrypt_totp_secret-encrypt c iv secret opens i t x =
    rw
      (
        split-append b':' (to_hex iv) (to_hex tag ++ b':' ∷ to_hex text) (to_hex-Lacks iv),
        split-append b':' (to_hex tag) (to_hex text) (to_hex-Lacks tag),
        split_last b':' (to_hex text) (to_hex-Lacks text),
      )
      opened
  where
    tag : List ℕ
    tag = (c.encipher iv secret).auth_tag

    text : List ℕ
    text = (c.encipher iv secret).ciphertext

    opened :
        c.decipher
          (from_hex (to_hex iv))
          (record { auth_tag = from_hex (to_hex tag); ciphertext = from_hex (to_hex text) })
        ≡ some secret
    opened = rw (from_hex-to_hex iv i, from_hex-to_hex tag t, from_hex-to_hex text x) opens
