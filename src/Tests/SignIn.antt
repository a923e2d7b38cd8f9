-- ===== src/Tests/SignIn.antt =====
-- The theorems of SignIn on sign-ins of one account, with a small encoding of tokens.
use Prim.Native.Nat.{ℕ, ◌*◌}
use arktion_sui_overflow.World.{unanswered, delivered}
use arktion_sui_overflow.SignIn.Accounts.{
  Account, Identity, Answers, Claims, arktion_passport, user_library, user_journal,
}
use arktion_sui_overflow.SignIn.Sessions.{
  AuthenticatedUser, revoke_session, IssuedSession, RequestMetadata, Tokens, session_of, Verified,
  verify_token, valid, expired, forged,
}
use arktion_sui_overflow.SignIn.Login.{
  new_account, complete_zk_login, account_for, is_of, create_user_with_bootstrap, create_account,
}
use arktion_sui_overflow.SignIn.Recovery.{IsAnswered, IsReady}
use arktion_sui_overflow.Prelude.{
  true, refl, is_ok, Option, ◌∷◌, ◌+◌, find, none, some, ok, ℕ, ◌≢◌, ltb, [], if◌then◌else◌, ◌≡◌,
  arith, ◌*◌,
}
use arktion_sui_overflow.SignIn.Once.{IsOnce}
use arktion_sui_overflow.Text.{extract_token, Text, split}
use arktion_sui_overflow.SignIn.Admission.{can_activate_logged_out}
use arktion_sui_overflow.SignIn.Sessions.{can_activate}
use arktion_sui_overflow.SignIn.Arrivals.{complete_zk_login-IsOnce}
use arktion_sui_overflow.SignIn.Bootstrap.{object_of, execute, send_bootstrap}
use arktion_sui_overflow.SignIn.Resume.{complete_zk_login_recovers}

abbrev claims : Claims
claims = record { iss = 1; sub = 20; email = none; name = none; picture = none }

abbrev answers : Answers
answers = record {
  claims = some claims;
  enoki = some (record { salt = 5; address = 700 });
  treasury_balance = some 1000;
  min_treasury_balance = 10;
  delivery = delivered;
  digest = 31;
  passport_id = 101;
  library_id = 102;
  journal_id = 103;
  mutated = 9 ∷ [];
  page_size = some 50;
  commits = true;
  user_id = 8;
  session_id = 60;
  session_ttl_ms = 604_800_000;
  now = 100;
}

abbrev nobody : Identity
nobody = record { accounts = []; passports = λ _. none; sessions = []; objects = [] }

abbrev meta : RequestMetadata
meta = record { user_agent = none; ip_address = none }

abbrev decode : Text → ℕ → Verified
decode (sub ∷ sid ∷ expiry ∷ []) now =
    if ltb now expiry then valid (record { sub = sub; sid = sid }) else expired
decode _ now = forged

abbrev toy : Tokens
toy = record { sign = λ p now ttl. p.sub ∷ p.sid ∷ (now + ttl) ∷ []; verify = decode }

abbrev address_of : ℕ → ℕ → ℕ
address_of iss sub = 35 * sub

nobody-IsOnce : IsOnce address_of nobody
nobody-IsOnce = record {
  stable = λ iss sub u h. absurd (ground (arith, h));
  once = λ w. omega arith;
  libraries = λ w. refl;
  journals = λ w. refl;
  free = λ w h. refl;
}

complete_zk_login-IsOnce_example : IsOnce address_of (complete_zk_login toy answers meta nobody).1
complete_zk_login-IsOnce_example =
    complete_zk_login-IsOnce address_of toy answers meta nobody nobody-IsOnce
      (λ c e f g. ground (arith, f, g)) (λ w n h. omega arith)

-- The answer to the transaction is lost, so the account stays pending.
abbrev cut_off : Identity
cut_off = record {
  accounts = new_account answers claims (record { salt = 5; address = 700 }) ∷ [];
  passports = λ _. none;
  sessions = [];
  objects =
      object_of 700 arktion_passport 101
      ∷ object_of 700 user_library 102
      ∷ object_of 700 user_journal 103
      ∷ [];
}

cut_off_login :
    (complete_zk_login toy (record answers { delivery = unanswered }) meta nobody).1 ≡ cut_off
unfolding complete_zk_login account_for create_user_with_bootstrap create_account execute
    send_bootstrap
cut_off_login = refl

answers-IsAnswered : IsAnswered answers
answers-IsAnswered = record {
  page = 50;
  balance = 1000;
  lists = refl;
  has_balance = refl;
  is_funded = refl;
  is_delivered = refl;
  is_committed = refl;
}

complete_zk_login_recovers_example :
    (is_ok (complete_zk_login toy answers meta cut_off).0 ≡ true)
    × (v : Account) × (find (is_of 1 20) (complete_zk_login toy answers meta cut_off).1.accounts
        ≡ some v)
    × IsReady v (complete_zk_login toy answers meta cut_off).1
complete_zk_login_recovers_example =
    complete_zk_login_recovers toy answers meta cut_off claims
      (new_account answers claims (record { salt = 5; address = 700 })) answers-IsAnswered refl refl
      refl

abbrev account : Account
account = new_account answers claims (record { salt = 5; address = 700 })

abbrev issued : IssuedSession
issued = record { session_id = 60; token = 8 ∷ 60 ∷ 604_800_100 ∷ []; expires_at = 604_800_100 }

abbrev header : Option Text
header = some (b'B' ∷ b'e' ∷ b'a' ∷ b'r' ∷ b'e' ∷ b'r' ∷ b' ' ∷ 8 ∷ 60 ∷ 604_800_100 ∷ [])

abbrev signed_in : Identity
signed_in = record cut_off {
  sessions = session_of answers 8 meta ∷ record (session_of answers 8 meta) { id = 61 } ∷ [];
}

abbrev admitted : AuthenticatedUser
admitted = record { id = 8; wallet_address = 700; session_id = 60 }

stays_in : (can_activate toy header 500 (revoke_session 61 400 signed_in).1).0 ≡ ok admitted
unfolding revoke_session can_activate verify_token extract_token split
stays_in = refl

can_activate_logged_out_example : admitted.session_id ≢ 61
can_activate_logged_out_example =
    can_activate_logged_out toy header 500 61 400 signed_in admitted stays_in
