-- ===== src/Text/Parts.antt =====
-- Splitting what was joined, and decoding what was encoded.
use Prim.Native.Nat.{ℕ}
use arktion_sui_overflow.Prelude.{refl, ℕ, ◌≢◌, ◌≡◌, ◌∷◌, arith, ◌++◌, ◌<◌, [], List}
use arktion_sui_overflow.Text.{to_hex, split, Text, from_hex}

-- The separator does not stand in the text.
abbrev pub Lacks : ℕ → Text → Type 0
Lacks sep [] = Unit
Lacks sep (c ∷ s) = (c ≢ sep) × Lacks sep s

abbrev pub IsBytes : List ℕ → Type 0
IsBytes [] = Unit
IsBytes (b ∷ bs) = (b < 256) × IsBytes bs

pub split_last : (sep : ℕ) (p : Text) → Lacks sep p → split sep p ≡ p ∷ []
unfolding split
split_last sep [] h = refl
split_last sep (c ∷ p) h = ground (arith, split_last sep p h.1)

pub split-append : (sep : ℕ) (p s : Text) → Lacks sep p → split sep (p ++ sep ∷ s) ≡ p ∷ split sep s
unfolding split
split-append sep [] s h = ground arith
split-append sep (c ∷ p) s h = ground (arith, split-append sep p s h.1)

pub to_hex-Lacks : (bs : List ℕ) → Lacks b':' (to_hex bs)
unfolding to_hex
to_hex-Lacks [] = tt
to_hex-Lacks (b ∷ bs) = (ground arith, (ground arith, to_hex-Lacks bs))

pub from_hex-to_hex : (bs : List ℕ) → IsBytes bs → from_hex (to_hex bs) ≡ bs
unfolding to_hex from_hex
from_hex-to_hex [] h = refl
from_hex-to_hex (b ∷ bs) h = ground (arith, h.0, from_hex-to_hex bs h.1)
