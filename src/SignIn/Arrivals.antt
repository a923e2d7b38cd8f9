-- ===== src/SignIn/Arrivals.antt =====
-- `completeZkLogin` keeps that a wallet is given its objects once: the first sign-in, and all of them.
use Prim.Native.Nat.{ℕ}
use arktion_sui_overflow.SignIn.Accounts.{
  Account, Identity, Answers, Claims, ZkAddress, arktion_passport, enoki_failed,
  invalid_google_token,
}
use arktion_sui_overflow.Prelude.{
  inl, ok, [], arith, inr, Option, List, ◌∷◌, true, ℕ, false, none, is_some, Option-cases, some,
  ◌≡◌, find, refl, Bool-cases, subst, pure, sym, ◌∙◌, ◌>>=◌, Bool, ◌>>◌, gets, or_throw-keeps,
  bind-keeps,
}
use arktion_sui_overflow.SignIn.Login.{
  is_of, clashes, has_wallet, new_account, create_account, create_user_with_bootstrap, sync_wallet,
  account_for, complete_zk_login, is_complete, resume_pending_bootstrap, finalize_bootstrap,
  start_session,
}
use arktion_sui_overflow.SignIn.Once.{IsOnce, owned, execute-IsOnce, finalize_bootstrap-IsOnce}
use arktion_sui_overflow.SignIn.Sessions.{issue, Tokens, RequestMetadata}
use arktion_sui_overflow.SignIn.Mints.{ListsAll, resume_pending_bootstrap-IsOnce}
use arktion_sui_overflow.SignIn.Bootstrap.{execute}

wallet_free :
    (v : Account) (rows : List Account)
    → find (clashes v) rows ≡ none
    → is_some (find (has_wallet v.wallet_address) rows) ≡ false
wallet_free v [] h = refl
wallet_free v (u ∷ rows) h = ground (arith, wallet_free v rows)

find-of :
    (iss sub : ℕ) (rows : List Account) (u : Account)
    → find (is_of iss sub) rows ≡ some u
    → is_some (find (has_wallet u.wallet_address) rows) ≡ true
find-of iss sub [] u h = absurd (ground arith)
find-of iss sub (v ∷ rows) u h = ground (arith, find-of iss sub rows u)

-- Enoki gives a Google account the address that it always has.
abbrev pub AnswersBy : (ℕ → ℕ → ℕ) → Answers → Type 0
AnswersBy derive a =
    (c : Claims) (e : ZkAddress)
    → a.claims ≡ some c
    → a.enoki ≡ some e
    → e.address ≡ derive c.iss c.sub

module _ (derive : ℕ → ℕ → ℕ) (a : Answers) (c : Claims) (s : Identity) (k : IsOnce derive s) where
  module _ (e : ZkAddress) (d : e.address ≡ derive c.iss c.sub) where
    clashing : Option Account
    clashing = find (clashes (new_account a c e)) s.accounts

    owns_none : clashing ≡ none → owned e.address arktion_passport s ≡ 0
    unfolding clashing
    owns_none f = k.free e.address (wallet_free (new_account a c e) s.accounts f)

    added-IsOnce :
        clashing ≡ none → IsOnce derive (record s { accounts = new_account a c e ∷ s.accounts })
    unfolding clashing
    added-IsOnce f = record {
      stable = λ iss sub u h. ground (arith, d, k.stable iss sub u, h);
      once = k.once;
      libraries = k.libraries;
      journals = k.journals;
      free = λ w h. ground (arith, k.free w, h);
    }

    create_account-IsOnce : IsOnce derive (create_account a c e s).1
    unfolding create_account clashing
    create_account-IsOnce = elim (Option-cases clashing) [
      | inl f ↦ rw f (added-IsOnce f)
      | inr (u, f) ↦ rw f k
    ]

    create_account_clean :
        (create_account a c e s).0 ≡ ok tt
        → (owned e.address arktion_passport (create_account a c e s).1 ≡ 0)
          × (is_some (find (has_wallet e.address) (create_account a c e s).1.accounts) ≡ true)
    unfolding create_account clashing
    create_account_clean h = elim (Option-cases clashing) [
      | inl f ↦ rw f (owns_none f, ground arith)
      | inr (u, f) ↦ absurd (ground (arith, f, h))
    ]

  create_user_with_bootstrap-IsOnce :
      ((e : ZkAddress) → a.enoki ≡ some e → e.address ≡ derive c.iss c.sub)
      → IsOnce derive (create_user_with_bootstrap a c s).1
  unfolding create_user_with_bootstrap
  create_user_with_bootstrap-IsOnce d =
      or_throw-keeps (IsOnce derive) a.enoki enoki_failed
        (λ e. create_account a c e >> (execute a e.address >>= finalize_bootstrap a a.user_id)) s k
        (λ e f.
          bind-keeps (IsOnce derive) (create_account a c e)
            (λ _. execute a e.address >>= finalize_bootstrap a a.user_id) s
            (create_account-IsOnce e (d e f))
            (λ _ h k'.
              let (z, w) = create_account_clean e (d e f) h in
              bind-keeps (IsOnce derive) (execute a e.address) (finalize_bootstrap a a.user_id)
                (create_account a c e s).1
                (execute-IsOnce derive a e.address (create_account a c e s).1 k' z w)
                (λ o _ m.
                  finalize_bootstrap-IsOnce derive a a.user_id o
                    (execute a e.address (create_account a c e s).1).1 m)))

  unmoved :
      (e : ZkAddress) (u : Account)
      → a.enoki ≡ some e
      → u.wallet_address ≡ e.address
      → (sync_wallet a u s).1 ≡ s
  unfolding sync_wallet
  unmoved e u f same = ground (arith, f, same)

  sync_wallet-IsOnce :
      ((e : ZkAddress) → a.enoki ≡ some e → e.address ≡ derive c.iss c.sub)
      → (u : Account) → u.wallet_address ≡ derive c.iss c.sub
      → IsOnce derive (sync_wallet a u s).1
  unfolding sync_wallet
  sync_wallet-IsOnce d u same = elim (Option-cases a.enoki) [
    | inl f ↦ rw f k
    | inr (e, f) ↦ subst (IsOnce derive) (sym (unmoved e u f (same ∙ sym (d e f)))) k
  ]

  account_for-IsOnce :
      ((e : ZkAddress) → a.enoki ≡ some e → e.address ≡ derive c.iss c.sub)
      → ListsAll a s
      → IsOnce derive (account_for a c (find (is_of c.iss c.sub) s.accounts) s).1
  unfolding account_for
  account_for-IsOnce d l = elim (Option-cases (find (is_of c.iss c.sub) s.accounts)) [
    | inl f ↦ rw f (
        bind-keeps (IsOnce derive) (create_user_with_bootstrap a c) (λ u. pure (u, true)) s
          (create_user_with_bootstrap-IsOnce d) (λ _ _ k'. k'))
    | inr (u, f) ↦ elim (Bool-cases (is_complete u.bootstrap_state)) [
      | inl g ↦
          rw (f, g)
            (bind-keeps (IsOnce derive) (sync_wallet a u) (λ v. pure (v, false)) s
              (sync_wallet-IsOnce d u (k.stable c.iss c.sub u f)) (λ _ _ k'. k'))
      | inr g ↦
          rw (f, g)
            (bind-keeps (IsOnce derive) (resume_pending_bootstrap a u) (λ v. pure (v, true)) s
              (resume_pending_bootstrap-IsOnce derive a u s k l
                (find-of c.iss c.sub s.accounts u f))
              (λ _ _ k'. k'))
    ]
  ]

start_session-IsOnce :
    (derive : ℕ → ℕ → ℕ) (c : Tokens) (a : Answers) (meta : RequestMetadata)
    (account : Account × Bool) (s : Identity)
    → IsOnce derive s
    → IsOnce derive (start_session c a meta account s).1
unfolding start_session issue
start_session-IsOnce derive c a meta account s k = record {
  stable = k.stable;
  once = k.once;
  libraries = k.libraries;
  journals = k.journals;
  free = k.free;
}

-- Each wallet owns at most one passport, one library and one journal, as many of the one as of the
-- others, and none before an account has it: a sign-in keeps this whatever fails in it, if Enoki's
-- address for a Google account stays the same and a page of `listOwnedObjects` has all that a wallet
-- owns.
pub complete_zk_login-IsOnce :
    (derive : ℕ → ℕ → ℕ) (c : Tokens) (a : Answers) (meta : RequestMetadata) (s : Identity)
    → IsOnce derive s
    → AnswersBy derive a
    → ListsAll a s
    → IsOnce derive (complete_zk_login c a meta s).1
unfolding complete_zk_login
complete_zk_login-IsOnce derive c a meta s k d l =
    or_throw-keeps (IsOnce derive) a.claims invalid_google_token
      (λ claims. gets (λ t. find (is_of claims.iss claims.sub) t.accounts) >>= λ found.
        account_for a claims found >>= start_session c a meta)
      s k
      (λ claims f.
        bind-keeps (IsOnce derive)
          (account_for a claims (find (is_of claims.iss claims.sub) s.accounts))
          (start_session c a meta) s
          (account_for-IsOnce derive a claims s k (λ e g. d claims e f g) l)
          (λ account _ k'. start_session-IsOnce derive c a meta account _ k'))
