-- ===== src/SignIn/Resume.antt =====
-- The next sign-in completes what an earlier one began: `completeZkLogin` of a pending account.
use Prim.Native.Nat.{ℕ}
use arktion_sui_overflow.SignIn.Accounts.{
  Account, Identity, Answers, OwnedObject, arktion_passport, user_library, user_journal, SignIn,
  SignInError, Claims, invalid_google_token, rpc_failed,
}
use arktion_sui_overflow.Prelude.{
  Option-cases, ok, arith, inr, inl, some, true, refl, find, ◌==◌, Option, sym, select, is_ok, ◌≡◌,
  ℕ, none, put, Result, subst, update_where, ap, err, false, ◌>>=◌, ◌∙◌, or_throw, pure, Bool, gets,
}
use arktion_sui_overflow.SignIn.Login.{
  finalize_bootstrap, reuse_or_execute, transaction, find_existing_bootstrap_objects,
  update_account, existing_objects, is_of, find_by_suffix, finalized, has_id,
  resume_pending_bootstrap, complete_zk_login, account_for, start_session, is_complete, listed,
}
use arktion_sui_overflow.SignIn.Recovery.{
  IsAnswered, AreHeld, fresh_objects, execute_answered, IsReady, find-id, find_by_suffix-held,
  find-finalized_row,
}
use arktion_sui_overflow.SignIn.Bootstrap.{BootstrapObjects, mint_objects}
use arktion_sui_overflow.Pagination.{take}
use arktion_sui_overflow.SignIn.Sessions.{issue, Tokens, RequestMetadata}
use mathlib.Core.Bool.{false≢true}

module _ (a : Answers) (k : IsAnswered a) (wallet : ℕ) (s : Identity) where
  execute_held : AreHeld wallet (fresh_objects a) (mint_objects a wallet s)
  execute_held = record {
    passport_held = ground arith;
    library_held = ground arith;
    journal_held = ground arith;
  }

  existing_held :
      (n : ℕ) (p l j : Option OwnedObject) (o : BootstrapObjects)
      → existing_objects p l j ≡ some o
      → p ≡ find_by_suffix arktion_passport (take n (select (λ x. x.owner == wallet) s.objects))
      → l ≡ find_by_suffix user_library (take n (select (λ x. x.owner == wallet) s.objects))
      → j ≡ find_by_suffix user_journal (take n (select (λ x. x.owner == wallet) s.objects))
      → AreHeld wallet o s
  existing_held n none l j o h ep el ej = absurd (ground arith)
  existing_held n (some p) none j o h ep el ej = absurd (ground arith)
  existing_held n (some p) (some l) none o h ep el ej = absurd (ground arith)
  existing_held n (some p) (some l) (some j) o h ep el ej = record {
    passport_held =
        ground (arith, h, find_by_suffix-held arktion_passport wallet n s.objects p (sym ep));
    library_held =
        ground (arith, h, find_by_suffix-held user_library wallet n s.objects l (sym el));
    journal_held =
        ground (arith, h, find_by_suffix-held user_journal wallet n s.objects j (sym ej));
  }

  reuse_or_execute_answered :
      (n : ℕ)
      → let r =
          reuse_or_execute a wallet
            (find_existing_bootstrap_objects (take n (select (λ x. x.owner == wallet) s.objects)))
            s in
        (o : BootstrapObjects) × (r.0 ≡ ok o) × AreHeld wallet o r.1 × (r.1.accounts ≡ s.accounts)
  reuse_or_execute_answered n =
      let page = take n (select (λ x. x.owner == wallet) s.objects) in
      elim (Option-cases (find_existing_bootstrap_objects page)) [
        | inl e ↦ rw (e, execute_answered a wallet s k) (fresh_objects a, refl, execute_held, refl)
        | inr (o, e) ↦ rw e (o, refl, existing_held n _ _ _ o e refl refl refl, refl)
      ]

-- The writes of `finalizeBootstrap`.
abbrev written : BootstrapObjects → ℕ → Identity → Identity
written o id s = record s {
  passports = put id o.passport_object_id s.passports;
  accounts = update_where (has_id id) (finalized o) s.accounts;
}

finalize_bootstrap_commits :
    (a : Answers) (id : ℕ) (o : BootstrapObjects) (s : Identity) (row : Account)
    → a.commits ≡ true
    → find (has_id id) s.accounts ≡ some row
    → finalize_bootstrap a id o s ≡ (ok (finalized o row), written o id s)
unfolding finalize_bootstrap transaction update_account
finalize_bootstrap_commits a id o s row c e = ground (arith, c, e)

written-IsReady :
    (u : Account) (o : BootstrapObjects) (s : Identity)
    → AreHeld u.wallet_address o s
    → IsReady (finalized o u) (written o u.id s)
written-IsReady u o s h = record {
  passport = o.passport_object_id;
  library = o.library_object_id;
  journal = o.journal_object_id;
  is_done = refl;
  passport_row = ground arith;
  library_row = refl;
  journal_row = refl;
  has_passport = h.passport_held;
  has_library = h.library_held;
  has_journal = h.journal_held;
}

-- A call returned, and the account is ready in the state that it left.
abbrev Settles : {A : Type 0} → ℕ → ℕ → Result SignInError A × Identity → Type 0
Settles iss sub r =
    (is_ok r.0 ≡ true)
    × (v : Account) × (find (is_of iss sub) r.1.accounts ≡ some v)
    × IsReady v r.1

finalize_bootstrap-Settlesb :
    (a : Answers) (iss sub : ℕ) (u : Account) (o : BootstrapObjects) (s : Identity)
    → a.commits ≡ true
    → find (is_of iss sub) s.accounts ≡ some u
    → AreHeld u.wallet_address o s
    → Settles iss sub (finalize_bootstrap a u.id o s)
finalize_bootstrap-Settlesb a iss sub u o s c f h =
    elim (Option-cases (find (has_id u.id) s.accounts)) [
      | inl e ↦ absurd (ground (arith, e, find-id iss sub s.accounts u f))
      | inr (row, e) ↦
          subst (Settles iss sub) (sym (finalize_bootstrap_commits a u.id o s row c e)) (
            refl,
            finalized o u,
            find-finalized_row o iss sub s.accounts u f,
            written-IsReady u o s h,
          )
    ]

or_throw-some :
    {A B : Type 0} (o : Option A) (x : SignInError) (f : A → SignIn B) (s : Identity) (y : A)
    → o ≡ some y
    → (or_throw o x >>= f) s ≡ f y s
or_throw-some o x f s y h = ap (λ q. (or_throw q x >>= f) s) h

bind-ok :
    {A B : Type 0} (m : SignIn A) (f : A → SignIn B) (s : Identity) (y : A)
    → (m s).0 ≡ ok y
    → (m >>= f) s ≡ f y (m s).1
bind-ok m f s y h = ap (λ r. ((λ _. (r, (m s).1)) >>= f) s) h

Settles-bindb :
    {A B : Type 0} (iss sub : ℕ) (m : SignIn A) (f : A → SignIn B) (s : Identity)
    → Settles iss sub (m s)
    → ((x : A) (t : Identity) → Settles {A = Unit {0}} iss sub (ok tt, t) → Settles iss sub (f x t))
    → Settles iss sub ((m >>= f) s)
Settles-bindb {A} iss sub m f s k g = by_result (m s) k
  where
    by_result :
        (r : Result SignInError A × Identity)
        → Settles iss sub r
        → Settles iss sub (((λ _. r) >>= f) s)
    by_result (ok x, t) k = let (_, v, e, r) = k in g x t (refl, v, e, r)
    by_result (err x, t) k = absurd (false≢true k.0)

listed_page :
    (a : Answers) (wallet : ℕ) (s : Identity) (k : IsAnswered a)
    → listed a wallet s ≡ some (take k.page (select (λ x. x.owner == wallet) s.objects))
listed_page a wallet s k = rw k.lists refl

resume_pending_bootstrap-Settlesb :
    (a : Answers) (iss sub : ℕ) (u : Account) (s : Identity)
    → IsAnswered a
    → find (is_of iss sub) s.accounts ≡ some u
    → Settles iss sub (resume_pending_bootstrap a u s)
unfolding resume_pending_bootstrap
resume_pending_bootstrap-Settlesb a iss sub u s k f =
    let wallet = u.wallet_address in
    let page = take k.page (select (λ x. x.owner == wallet) s.objects) in
    let m = reuse_or_execute a wallet (find_existing_bootstrap_objects page) in
    let (o, e, held, same) = reuse_or_execute_answered a k wallet s k.page in
    subst (Settles iss sub)
      (sym (
        or_throw-some (listed a wallet s) rpc_failed
          (λ p.
            reuse_or_execute a wallet (find_existing_bootstrap_objects p)
            >>= finalize_bootstrap a u.id)
          s page (listed_page a wallet s k)
        ∙ bind-ok m (finalize_bootstrap a u.id) s o e))
      (finalize_bootstrap-Settlesb a iss sub u o (m s).1 k.is_committed
        (ap (find (is_of iss sub)) same ∙ f) held)

account_for-Settlesb :
    (a : Answers) (c : Claims) (u : Account) (s : Identity)
    → IsAnswered a
    → find (is_of c.iss c.sub) s.accounts ≡ some u
    → is_complete u.bootstrap_state ≡ false
    → Settles c.iss c.sub (account_for a c (find (is_of c.iss c.sub) s.accounts) s)
unfolding account_for
account_for-Settlesb a c u s k f p =
    rw (f, p)
      (Settles-bindb c.iss c.sub (resume_pending_bootstrap a u)
        (λ v. pure {A = Account × Bool} (v, true)) s
        (resume_pending_bootstrap-Settlesb a c.iss c.sub u s k f)
        (λ x t k'. let (_, v, e, r) = k' in (refl, v, e, r)))

start_session-Settlesb :
    (c : Tokens) (a : Answers) (meta : RequestMetadata) (iss sub : ℕ) (x : Account × Bool)
    (t : Identity)
    → Settles {A = Unit {0}} iss sub (ok tt, t)
    → Settles iss sub (start_session c a meta x t)
unfolding start_session issue
start_session-Settlesb c a meta iss sub x t (_, v, e, k) = (
  refl,
  v,
  e,
  record {
    passport = k.passport;
    library = k.library;
    journal = k.journal;
    is_done = k.is_done;
    passport_row = k.passport_row;
    library_row = k.library_row;
    journal_row = k.journal_row;
    has_passport = k.has_passport;
    has_library = k.has_library;
    has_journal = k.has_journal;
  },
)

-- Whatever earlier attempts left, a sign-in to an account whose bootstrap is not complete returns
-- when the other services answer it; the account is complete then, and its passport row and its
-- library and journal columns name objects of these types that its wallet owns on the chain.
pub complete_zk_login_recovers :
    (c : Tokens) (a : Answers) (meta : RequestMetadata) (s : Identity) (claims : Claims)
    (u : Account)
    → IsAnswered a
    → a.claims ≡ some claims
    → find (is_of claims.iss claims.sub) s.accounts ≡ some u
    → is_complete u.bootstrap_state ≡ false
    → (is_ok (complete_zk_login c a meta s).0 ≡ true)
      × (v : Account) × (find
            (is_of claims.iss claims.sub)
            (complete_zk_login c a meta s).1.accounts
          ≡ some v)
      × IsReady v (complete_zk_login c a meta s).1
unfolding complete_zk_login
complete_zk_login_recovers c a meta s claims u k h f p =
    let found = find (is_of claims.iss claims.sub) s.accounts in
    subst (Settles claims.iss claims.sub)
      (sym (
        or_throw-some a.claims invalid_google_token
          (λ d. gets (λ t. find (is_of d.iss d.sub) t.accounts) >>= λ o.
            account_for a d o >>= start_session c a meta)
          s claims h))
      (Settles-bindb claims.iss claims.sub (account_for a claims found) (start_session c a meta) s
        (account_for-Settlesb a claims u s k f p)
        (start_session-Settlesb c a meta claims.iss claims.sub))
