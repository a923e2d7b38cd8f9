-- ===== src/Text.antt =====
-- What the services use of texts and bytes: split, join, and the hexadecimal encoding of a Buffer.
-- A text is the list of its code points.
pub mod Parts
pub mod Base64
use Prim.Native.Nat.{ℕ}
use arktion_sui_overflow.Prelude.{
  ◌&&◌, ℕ, ◌+◌, ◌%◌, none, ◌∷◌, ◌-◌, ◌==◌, ltb, Option, some, leb, ◌++◌, [], List, ◌*◌, ◌/◌,
  if◌then◌else◌, Bool, map, true, false,
}

abbrev pub Text : Type 0
Text = List ℕ

abbrev pub cons_head : ℕ → List Text → List Text
cons_head c [] = (c ∷ []) ∷ []
cons_head c (p ∷ ps) = (c ∷ p) ∷ ps

-- `text.split(sep)`
unfoldable pub split : ℕ → Text → List Text
split sep [] = [] ∷ []
split sep (c ∷ s) = let rest = split sep s in if c == sep then [] ∷ rest else cons_head c rest

-- `parts.join(sep)`
unfoldable pub join : ℕ → List Text → Text
join sep [] = []
join sep (p ∷ []) = p
join sep (p ∷ q ∷ ps) = p ++ sep ∷ join sep (q ∷ ps)

abbrev pub hex_digit : ℕ → ℕ
hex_digit d = if ltb d 10 then b'0' + d else 87 + d

-- `buffer.toString('hex')`
unfoldable pub to_hex : List ℕ → Text
to_hex [] = []
to_hex (b ∷ bs) = hex_digit (b / 16) ∷ hex_digit (b % 16) ∷ to_hex bs

abbrev pub hex_value : ℕ → Option ℕ
hex_value c =
    if leb b'0' c && leb c b'9'
    then some (c - b'0')
    else if leb b'a' c && leb c b'f'
    then some (c - 87)
    else if leb b'A' c && leb c b'F'
    then some (c - 55)
    else none

abbrev pub hex_byte : Option ℕ → Option ℕ → List ℕ → List ℕ
hex_byte (some h) (some l) rest = (16 * h + l) ∷ rest
hex_byte _ _ rest = []

-- `Buffer.from(text, 'hex')`, which stops at the first pair that is no byte.
unfoldable pub from_hex : Text → List ℕ
from_hex (c ∷ d ∷ s) = hex_byte (hex_value c) (hex_value d) (from_hex s)
from_hex _ = []

abbrev pub to_lower : ℕ → ℕ
to_lower c = if leb b'A' c && leb c b'Z' then c + 32 else c

-- Two texts are the same.
abbrev pub text_eq : Text → Text → Bool
text_eq [] [] = true
text_eq (a ∷ s) (b ∷ t) = a == b && text_eq s t
text_eq _ _ = false

abbrev bearer : Text
bearer = b'b' ∷ b'e' ∷ b'a' ∷ b'r' ∷ b'e' ∷ b'r' ∷ []

-- The token of `[scheme, token] = header.split(' ')`; an empty one counts as missing.
abbrev bearer_token : List Text → Option Text
bearer_token (scheme ∷ (c ∷ token) ∷ rest) =
    if text_eq (map to_lower scheme) bearer then some (c ∷ token) else none
bearer_token _ = none

-- `extractToken` of the guards.
unfoldable pub extract_token : Option Text → Option Text
unfolding split
extract_token none = none
extract_token (some header) = bearer_token (split b' ' header)
