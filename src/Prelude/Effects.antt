-- ===== src/Prelude/Effects.antt =====
-- A service method: it reads and writes a state, and it returns or throws. What was written before
-- a throw stays written, as in the source; a database transaction is rolled back by the caller.
use mathlib.Core.Bool.{Bool, true, false}
use mathlib.Core.Path.{◌≡◌, refl}
use mathlib.Core.Logic.{◌⊎◌, inl, inr}
use mathlib.Core.Option.{Option, none, some}

pub data Result (E A : Type 0) : Type 0 where
  ok : A → Result E A
  err : E → Result E A

abbrev pub Action : Type 0 → Type 0 → Type 0 → Type 0
Action E S A = S → Result E A × S

module _ {E S : Type 0} where
  infixl 5 ◌>>=◌ ◌>>◌
  abbrev pub ◌>>=◌ : {A B : Type 0} → Action E S A → (A → Action E S B) → Action E S B
  ◌>>=◌ m f s = let (r, s') = m s in elim r [ ok a ↦ f a s' | err e ↦ (err e, s') ]

  abbrev pub ◌>>◌ : {A B : Type 0} → Action E S A → Action E S B → Action E S B
  m >> k = m >>= λ _. k

  abbrev pub pure : {A : Type 0} → A → Action E S A
  pure a s = (ok a, s)

  abbrev pub throw : {A : Type 0} → E → Action E S A
  throw e s = (err e, s)

  abbrev pub gets : {A : Type 0} → (S → A) → Action E S A
  gets f s = (ok (f s), s)

  abbrev pub modify : (S → S) → Action E S (Unit {0})
  modify f s = (ok tt, f s)

  abbrev pub throw_if : Bool → E → Action E S (Unit {0})
  throw_if true e s = (err e, s)
  throw_if false e s = (ok tt, s)

  abbrev pub or_throw : {A : Type 0} → Option A → E → Action E S A
  or_throw none e s = (err e, s)
  or_throw (some a) e s = (ok a, s)

  abbrev pub when : Bool → Action E S (Unit {0}) → Action E S (Unit {0})
  when true m s = m s
  when false m s = (ok tt, s)

module _ {E A : Type 0} where
  abbrev pub is_err : Result E A → Bool
  is_err (ok _) = false
  is_err (err _) = true

  abbrev pub is_ok : Result E A → Bool
  is_ok (ok _) = true
  is_ok (err _) = false

  -- To split on a computed result and keep the equation.
  pub Result-cases : (r : Result E A) → ((a : A) × (r ≡ ok a)) ⊎ ((e : E) × (r ≡ err e))
  Result-cases (ok a) = inl (a, refl)
  Result-cases (err e) = inr (e, refl)

-- What an action keeps, its parts keep.
pub bind-keeps :
    {E S A B : Type 0} (P : S → Type 0) (m : Action E S A) (f : A → Action E S B) (s : S)
    → P (m s).1
    → ((x : A) → (m s).0 ≡ ok x → P (m s).1 → P (f x (m s).1).1)
    → P ((m >>= f) s).1
bind-keeps {E} {S} {A} P m f s k g = by_result (m s) k g
  where
    by_result :
        (r : Result E A × S)
        → P r.1
        → ((x : A) → r.0 ≡ ok x → P r.1 → P (f x r.1).1)
        → P (((λ _. r) >>= f) s).1
    by_result (ok x, t) k g = g x refl k
    by_result (err e, t) k g = k

pub or_throw-keeps :
    {E S A B : Type 0} (P : S → Type 0) (o : Option A) (x : E) (f : A → Action E S B) (s : S)
    → P s
    → ((y : A) → o ≡ some y → P (f y s).1)
    → P ((or_throw o x >>= f) s).1
or_throw-keeps P none x f s k g = k
or_throw-keeps P (some y) x f s k g = g y refl
