-- ===== src/Text/Base64.antt =====
-- The base64 encoding of a Buffer, in both alphabets.
use arktion_sui_overflow.Prelude.{
  ℕ, Option, List, if◌then◌else◌, ◌-◌, leb, ◌≡◌, ltb, some, ◌+◌, ◌*◌, ◌==◌, none, map, ◌/◌, refl,
  ◌||◌, ◌<◌, ◌∷◌, [], arith, ◌&&◌, ◌%◌,
}
use arktion_sui_overflow.Text.Parts.{IsBytes}
use arktion_sui_overflow.Text.{Text}

-- The value of a character of either alphabet.
unfoldable pub sextet : ℕ → Option ℕ
sextet c =
    if leb b'A' c && leb c b'Z'
    then some (c - b'A')
    else if leb b'a' c && leb c b'z'
    then some (c - 71)
    else if leb b'0' c && leb c b'9'
    then some (c + 4)
    else if c == b'+' || c == b'-'
    then some 62
    else if c == b'/' || c == b'_'
    then some 63
    else none

-- An equals sign ends the text, and other characters outside the alphabets are passed over.
unfoldable pub sextets : Text → List ℕ
unfolding sextet
sextets [] = []
sextets (c ∷ s) =
    let rest = sextets s in
    if c == b'=' then [] else (elim (sextet c) [ none ↦ rest | some v ↦ v ∷ rest ])

unfoldable pub join_sextets : List ℕ → List ℕ
join_sextets (a ∷ b ∷ c ∷ d ∷ s) =
    (4 * a + b / 16) ∷ (16 * (b % 16) + c / 4) ∷ (64 * (c % 4) + d) ∷ join_sextets s
join_sextets (a ∷ b ∷ c ∷ []) = (4 * a + b / 16) ∷ (16 * (b % 16) + c / 4) ∷ []
join_sextets (a ∷ b ∷ []) = (4 * a + b / 16) ∷ []
join_sextets _ = []

-- `Buffer.from(text, 'base64')`
unfoldable pub from_base64 : Text → List ℕ
unfolding sextets join_sextets
from_base64 s = join_sextets (sextets s)

abbrev pub base64url_char : ℕ → ℕ
base64url_char v =
    if ltb v 26
    then v + b'A'
    else if ltb v 52
    then v + 71
    else if ltb v 62
    then v - 4
    else if v == 62
    then b'-'
    else b'_'

abbrev pub split_sextets : List ℕ → List ℕ
split_sextets (a ∷ b ∷ c ∷ s) =
    (a / 4) ∷ (16 * (a % 4) + b / 16) ∷ (4 * (b % 16) + c / 64) ∷ (c % 64) ∷ split_sextets s
split_sextets (a ∷ b ∷ []) = (a / 4) ∷ (16 * (a % 4) + b / 16) ∷ (4 * (b % 16)) ∷ []
split_sextets (a ∷ []) = (a / 4) ∷ (16 * (a % 4)) ∷ []
split_sextets [] = []

-- base64url without padding, as RFC 4648 describes it.
unfoldable pub to_base64url : List ℕ → Text
to_base64url bs = map base64url_char (split_sextets bs)

abbrev pub IsSextets : List ℕ → Type 0
IsSextets [] = Unit
IsSextets (v ∷ vs) = (v < 64) × IsSextets vs

pub split_sextets-IsSextets : (bs : List ℕ) → IsBytes bs → IsSextets (split_sextets bs)
split_sextets-IsSextets (a ∷ b ∷ c ∷ s) h = (
  ground (arith, h.0),
  (
    ground (arith, h.1.0),
    (ground (arith, h.1.1.0), (ground arith, split_sextets-IsSextets s h.1.1.1)),
  ),
)
split_sextets-IsSextets (a ∷ b ∷ []) h =
    (ground (arith, h.0), (ground (arith, h.1.0), (ground arith, tt)))
split_sextets-IsSextets (a ∷ []) h = (ground (arith, h.0), (ground arith, tt))
split_sextets-IsSextets [] h = tt

pub join_sextets-split_sextets : (bs : List ℕ) → IsBytes bs → join_sextets (split_sextets bs) ≡ bs
unfolding join_sextets
join_sextets-split_sextets (a ∷ b ∷ c ∷ s) h =
    ground (arith, h.0, h.1.0, h.1.1.0, join_sextets-split_sextets s h.1.1.1)
join_sextets-split_sextets (a ∷ b ∷ []) h = ground (arith, h.0, h.1.0)
join_sextets-split_sextets (a ∷ []) h = ground (arith, h.0)
join_sextets-split_sextets [] h = refl
