-- ===== src/SignIn/Once.antt =====
-- A wallet is given its passport, library and journal once, whatever sign-ins fail on the way.
use Prim.Native.Nat.{ℕ}
use arktion_sui_overflow.SignIn.Accounts.{
  Account, Identity, Answers, ObjectType, arktion_passport, has_type, user_library, user_journal,
}
use arktion_sui_overflow.Prelude.{
  false, ◌&&◌, refl, count, is_some, List, [], true, ◌==◌, ◌≡◌, ◌∷◌, ◌⊎◌, some, ◌≤◌, arith, ℕ, find,
  inl, inr, Result-cases, subst, Bool-cases, Option-cases, put, update_where, sym, ◌∙◌,
}
use arktion_sui_overflow.SignIn.Bootstrap.{
  read_result, find_created, execute, ChangedObject, send_bootstrap, mint_objects, changed_objects,
  BootstrapObjects,
}
use arktion_sui_overflow.SignIn.Login.{
  has_wallet, is_of, finalize_bootstrap, has_id, transaction, finalized, update_account,
}

-- How many objects of a type a wallet owns.
abbrev pub owned : ℕ → ObjectType → Identity → ℕ
owned wallet type s = count (λ o. o.owner == wallet && has_type type o.object_type) s.objects

-- `derive` gives the wallet of a Google account. A wallet owns one of each type or none; it owns none
-- if no account has it.
pub record IsOnce (derive : ℕ → ℕ → ℕ) (s : Identity) : Type 0 where
  pub stable :
      (iss sub : ℕ) (u : Account)
      → find (is_of iss sub) s.accounts ≡ some u
      → u.wallet_address ≡ derive iss sub
  pub once : (wallet : ℕ) → owned wallet arktion_passport s ≤ 1
  pub libraries : (wallet : ℕ) → owned wallet user_library s ≡ owned wallet arktion_passport s
  pub journals : (wallet : ℕ) → owned wallet user_journal s ≡ owned wallet arktion_passport s
  pub free :
      (wallet : ℕ)
      → is_some (find (has_wallet wallet) s.accounts) ≡ false
      → owned wallet arktion_passport s ≡ 0

find_created-keeps :
    (type : ObjectType) (cs : List ChangedObject) (s : Identity) → (find_created type cs s).1 ≡ s
unfolding find_created
find_created-keeps type [] s = refl
find_created-keeps type (c ∷ cs) s = ground (arith, find_created-keeps type cs s)

read_result-keeps :
    (a : Answers) (cs : List ChangedObject) (s : Identity) → (read_result a cs s).1 ≡ s
unfolding read_result
read_result-keeps a cs s = elim (Result-cases (find_created arktion_passport cs s).0) [
  | inr (e, h) ↦ ground (arith, h, find_created-keeps arktion_passport cs s)
  | inl (p, h) ↦ elim (Result-cases (find_created user_library cs s).0) [
    | inr (e, k) ↦ ground (
      arith,
      h,
      k,
      find_created-keeps arktion_passport cs s,
      find_created-keeps user_library cs s,
    )
    | inl (l, k) ↦ ground (
      arith,
      h,
      k,
      find_created-keeps arktion_passport cs s,
      find_created-keeps user_library cs s,
      find_created-keeps user_journal cs s,
    )
  ]
]

-- `execute` mints the three objects or changes nothing.
execute-state :
    (a : Answers) (wallet : ℕ) (s : Identity)
    → ((execute a wallet s).1 ≡ s) ⊎ ((execute a wallet s).1 ≡ mint_objects a wallet s)
unfolding execute send_bootstrap
execute-state a wallet s =
    ground (arith, read_result-keeps a (changed_objects a wallet) (mint_objects a wallet s))

module _ (derive : ℕ → ℕ → ℕ) where
  mint_objects-IsOnce :
      (a : Answers) (wallet : ℕ) (s : Identity)
      → IsOnce derive s
      → owned wallet arktion_passport s ≡ 0
      → is_some (find (has_wallet wallet) s.accounts) ≡ true
      → IsOnce derive (mint_objects a wallet s)
  mint_objects-IsOnce a wallet s k z h = record {
    stable = k.stable;
    once = λ w. ground (arith, k.once w, z);
    libraries = λ w. ground (arith, k.libraries w, z);
    journals = λ w. ground (arith, k.journals w, z);
    free = λ w e. ground (arith, k.free w e, z, h);
  }

  find-finalized :
      (o : BootstrapObjects) (id iss sub : ℕ) (rows : List Account) (u : Account)
      → find (is_of iss sub) (update_where (has_id id) (finalized o) rows) ≡ some u
      → (v : Account) × (find (is_of iss sub) rows ≡ some v) × (u.wallet_address ≡ v.wallet_address)
  find-finalized o id iss sub (v ∷ rows) u h = elim (Bool-cases (is_of iss sub v)) [
    | inl e ↦ (v, ground (arith, e), ground (arith, e, h))
    | inr e ↦
        let (w, found, same) = find-finalized o id iss sub rows u (ground (arith, e, h)) in
        (w, ground (arith, e, found), same)
  ]
  find-finalized o id iss sub [] u h = absurd (ground arith)

  wallets-finalized :
      (o : BootstrapObjects) (id wallet : ℕ) (rows : List Account)
      → is_some (find (has_wallet wallet) (update_where (has_id id) (finalized o) rows))
        ≡ is_some (find (has_wallet wallet) rows)
  wallets-finalized o id wallet [] = refl
  wallets-finalized o id wallet (v ∷ rows) = ground (arith, wallets-finalized o id wallet rows)

  pub finalized-IsOnce :
      (o : BootstrapObjects) (id : ℕ) (s : Identity)
      → IsOnce derive s
      → IsOnce derive (record s {
        passports = put id o.passport_object_id s.passports;
        accounts = update_where (has_id id) (finalized o) s.accounts;
      })
  finalized-IsOnce o id s k = record {
    stable = λ iss sub u h.
        let (v, found, same) = find-finalized o id iss sub s.accounts u h in
        same ∙ k.stable iss sub v found;
    once = k.once;
    libraries = k.libraries;
    journals = k.journals;
    free = λ w e. k.free w (sym (wallets-finalized o id w s.accounts) ∙ e);
  }

  finalize_bootstrap-state :
      (a : Answers) (id : ℕ) (o : BootstrapObjects) (s : Identity)
      → ((finalize_bootstrap a id o s).1 ≡ s)
        ⊎ ((finalize_bootstrap a id o s).1 ≡ record s {
          passports = put id o.passport_object_id s.passports;
          accounts = update_where (has_id id) (finalized o) s.accounts;
        })
  unfolding finalize_bootstrap transaction update_account
  finalize_bootstrap-state a id o s = elim (Option-cases (find (has_id id) s.accounts)) [
    | inl e ↦ inl (ground (arith, e))
    | inr (v, e) ↦ ground (arith, e)
  ]

  pub finalize_bootstrap-IsOnce :
      (a : Answers) (id : ℕ) (o : BootstrapObjects) (s : Identity)
      → IsOnce derive s
      → IsOnce derive (finalize_bootstrap a id o s).1
  finalize_bootstrap-IsOnce a id o s k = elim (finalize_bootstrap-state a id o s) [
    | inl e ↦ subst (IsOnce derive) (sym e) k
    | inr e ↦ subst (IsOnce derive) (sym e) (finalized-IsOnce o id s k)
  ]

  pub execute-IsOnce :
      (a : Answers) (wallet : ℕ) (s : Identity)
      → IsOnce derive s
      → owned wallet arktion_passport s ≡ 0
      → is_some (find (has_wallet wallet) s.accounts) ≡ true
      → IsOnce derive (execute a wallet s).1
  execute-IsOnce a wallet s k z h = elim (execute-state a wallet s) [
    | inl e ↦ subst (IsOnce derive) (sym e) k
    | inr e ↦ subst (IsOnce derive) (sym e) (mint_objects-IsOnce a wallet s k z h)
  ]
