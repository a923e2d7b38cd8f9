-- ===== src/AdminAuth/Lockout.antt =====
-- The lock of `login` in admin-auth.service.ts: how often a password can be guessed.
use mathlib.Core.Option
use Prim.Native.Nat.{ℕ}
use arktion_sui_overflow.Prelude.{
  false, if◌then◌else◌, List, some, ◌∷◌, ℕ, true, update_where, [], ◌==◌, ◌≡◌, refl, arith, Bool,
  leb, ◌<◌, or_else, ◌+◌, max, none, ◌≤◌, ◌-◌, Bool-cases, inr, inl, is_ok,
}
use arktion_sui_overflow.AdminAuth.Login.{
  login, check_password, find_by_email, Drawn, update_admin, is_locked, count_failure,
  lock_duration_ms, max_failed_attempts, start_login, create_session, update_last_login,
  clear_failures,
}
use arktion_sui_overflow.AdminAuth.Secret.{Crypto}
use arktion_sui_overflow.AdminUsers.{AdminUser, Admins}

find_by_email-update :
    (email id : ℕ) (f : AdminUser → AdminUser) (rows : List AdminUser)
    → ((a : AdminUser) → (f a).email ≡ a.email)
    → find_by_email email (update_where (λ a. a.id == id) f rows)
      ≡ Option.map (λ a. if a.id == id then f a else a) (find_by_email email rows)
find_by_email-update email id f [] keeps = refl
find_by_email-update email id f (a ∷ rows) keeps =
    ground (arith, keeps a, find_by_email-update email id f rows keeps)

-- While an account is locked, a login is refused and writes nothing, whatever the password.
login_locked :
    (c : Crypto) (email password : ℕ) (drawn : Drawn) (now : ℕ) (s : Admins) (a : AdminUser)
    → find_by_email email s.admin_users ≡ some a
    → is_locked a now ≡ true
    → let (r, s') = login c email password drawn now s in (is_ok r ≡ false) × (s' ≡ s)
unfolding login
login_locked c email password drawn now s a h k = ground arith

-- A wrong password against an account that is not locked counts.
login_wrong :
    (c : Crypto) (email password : ℕ) (drawn : Drawn) (now : ℕ) (s : Admins) (a : AdminUser)
    → find_by_email email s.admin_users ≡ some a
    → a.is_active ≡ true
    → is_locked a now ≡ false
    → c.compare password a.password_hash ≡ false
    → find_by_email email (login c email password drawn now s).1.admin_users
      ≡ some (count_failure a now a)
unfolding login check_password update_admin
login_wrong c email password drawn now s a h act l wrong =
    ground (arith, find_by_email-update email a.id (count_failure a now) s.admin_users (λ x. refl))

-- A login with its password, what is drawn for it, and its time.
pub record Attempt : Type 0 where
  pub password : ℕ
  pub drawn : Drawn
  pub now : ℕ

-- Whether a login with another password would have been accepted in an attempt's place.
abbrev pub lets_in : Crypto → ℕ → ℕ → Attempt → Admins → Bool
lets_in c email password x s = is_ok (login c email password x.drawn x.now s).0

-- In the place of how many attempts, made one after another, the password would have been accepted.
unfoldable pub chances : Crypto → ℕ → ℕ → List Attempt → Admins → ℕ
chances c email password [] s = 0
chances c email password (x ∷ xs) s =
    (if lets_in c email password x s then 1 else 0)
    + chances c email password xs (login c email x.password x.drawn x.now s).1

-- The passwords are wrong, and the times lie within one lock's length of the first.
abbrev pub AreWrong : Crypto → ℕ → ℕ → List Attempt → Type 0
AreWrong c hash t [] = Unit
AreWrong c hash t (x ∷ xs) =
    (c.compare x.password hash ≡ false)
    × (t ≤ x.now)
    × (x.now < t + lock_duration_ms)
    × AreWrong c hash t xs

-- How many comparisons are left within the window.
abbrev budget : ℕ → AdminUser → ℕ
budget t a =
    if leb (t + lock_duration_ms) (or_else a.locked_until 0)
    then 0
    else max 1 (max_failed_attempts - a.failed_login_attempts)

-- A failure that is counted takes one comparison off.
count_failure-budget :
    (t now : ℕ) (a : AdminUser)
    → t ≤ now
    → now < t + lock_duration_ms
    → is_locked a now ≡ false
    → 1 + budget t (count_failure a now a) ≤ budget t a
unfolding count_failure is_locked
count_failure-budget t now a lo hi open_ = ground arith

login_inactive :
    (c : Crypto) (email password : ℕ) (drawn : Drawn) (now : ℕ) (s : Admins) (a : AdminUser)
    → find_by_email email s.admin_users ≡ some a
    → a.is_active ≡ false
    → let (r, s') = login c email password drawn now s in (is_ok r ≡ false) × (s' ≡ s)
unfolding login
login_inactive c email password drawn now s a h k = ground arith

module _ (c : Crypto) (email hash t right : ℕ) where
  chances-budget :
      (xs : List Attempt) (s : Admins) (a : AdminUser)
      → find_by_email email s.admin_users ≡ some a
      → a.password_hash ≡ hash
      → AreWrong c hash t xs
      → chances c email right xs s ≤ budget t a
  unfolding chances count_failure
  chances-budget [] s a h e w = omega arith
  chances-budget (x ∷ xs) s a h e (wrong, lo, hi, rest) =
      let next = (login c email x.password x.drawn x.now s).1 in
      elim (Bool-cases a.is_active) [
        | inl act ↦ elim (Bool-cases (is_locked a x.now)) [
          | inl l ↦
              let (_, same) = login_locked c email x.password x.drawn x.now s a h l in
              let (shut, _) = login_locked c email right x.drawn x.now s a h l in
              let later : chances c email right xs next ≤ budget t a =
                rw same (chances-budget xs s a h e rest) in
              ground (arith, shut, later)
          | inr l ↦
              let found = login_wrong c email x.password x.drawn x.now s a h act l (rw e wrong) in
              let later = chances-budget xs next (count_failure a x.now a) found e rest in
              let less = count_failure-budget t x.now a lo hi l in ground (arith, later, less)
        ]
        | inr act ↦
            let (_, same) = login_inactive c email x.password x.drawn x.now s a h act in
            let (shut, _) = login_inactive c email right x.drawn x.now s a h act in
            let later : chances c email right xs next ≤ budget t a =
              rw same (chances-budget xs s a h e rest) in
            ground (arith, shut, later)
      ]

-- While passwords that do not match the hash are sent for an account, one after the other and all of them
-- in one span of 15 minutes, no password at all would have been accepted in the place of more than
-- five of them, and of fewer after earlier failures: of what is left up to five, or of one.
pub chances_bounded :
    (c : Crypto) (email t right : ℕ) (xs : List Attempt) (s : Admins) (a : AdminUser)
    → find_by_email email s.admin_users ≡ some a
    → AreWrong c a.password_hash t xs
    → chances c email right xs s ≤ max 1 (max_failed_attempts - a.failed_login_attempts)
chances_bounded c email t right xs s a h w =
    ground (arith, chances-budget c email a.password_hash t right xs s a h refl w)

-- When the lock is over, or there is none, the right password of an active account signs in, and it
-- leaves no failure and no lock behind.
pub login_unlocked :
    (c : Crypto) (email password : ℕ) (drawn : Drawn) (now : ℕ) (s : Admins) (a : AdminUser)
    → find_by_email email s.admin_users ≡ some a
    → a.is_active ≡ true
    → or_else a.locked_until 0 ≤ now
    → c.compare password a.password_hash ≡ true
    → let (r, s') = login c email password drawn now s in
      (is_ok r ≡ true)
      × (Option.map (λ x. x.failed_login_attempts) (find_by_email email s'.admin_users) ≡ some 0)
      × (Option.map (λ x. x.locked_until) (find_by_email email s'.admin_users) ≡ some none)
unfolding login check_password update_admin start_login create_session update_last_login is_locked
login_unlocked c email password drawn now s a h act l right = ground (
  arith,
  find_by_email-update email a.id clear_failures s.admin_users (λ x. refl),
  find_by_email-update email a.id (λ x. record x { last_login_at = some now })
      (update_where (λ x. x.id == a.id) clear_failures s.admin_users) (λ x. refl),
)
