-- ===== src/SignIn/Mints.antt =====
-- `completeZkLogin` keeps that a wallet is given its objects once.
use Prim.Native.Nat.{ℕ}
use arktion_sui_overflow.SignIn.Accounts.{
  Account, Identity, Answers, ObjectType, OwnedObject, has_type, arktion_passport, user_library,
  user_journal,
}
use arktion_sui_overflow.SignIn.Once.{IsOnce, owned, execute-IsOnce, finalize_bootstrap-IsOnce}
use arktion_sui_overflow.Prelude.{
  find, ◌∷◌, some, List, ◌&&◌, select, Bool, ℕ, length, refl, count, arith, is_some, inl, ◌≡◌, inr,
  true, ◌==◌, zero, none, suc, ◌≤◌, [], Option-cases, Option, ap, sym, ◌∙◌, bind-keeps,
}
use arktion_sui_overflow.SignIn.Login.{
  resume_pending_bootstrap, find_existing_bootstrap_objects, has_wallet, find_by_suffix, listed,
  reuse_or_execute, finalize_bootstrap,
}
use arktion_sui_overflow.Pagination.{take}
use arktion_sui_overflow.SignIn.Bootstrap.{BootstrapObjects}

take-length : {A : Type 0} (n : ℕ) (xs : List A) → length xs ≤ n → take n xs ≡ xs
take-length zero [] h = refl
take-length zero (x ∷ xs) h = absurd (omega arith)
take-length (suc n) [] h = refl
take-length (suc n) (x ∷ xs) h = rw (take-length n xs (omega arith)) refl

length-select : {A : Type 0} (p : A → Bool) (xs : List A) → length (select p xs) ≡ count p xs
length-select p [] = refl
length-select p (x ∷ xs) = ground (arith, length-select p xs)

find_by_suffix-select :
    (type : ObjectType) (wallet : ℕ) (rows : List OwnedObject)
    → find_by_suffix type (select (λ o. o.owner == wallet) rows) ≡ none
    → count (λ o. o.owner == wallet && has_type type o.object_type) rows ≡ 0
find_by_suffix-select type wallet [] h = refl
find_by_suffix-select type wallet (o ∷ rows) h =
    ground (arith, find_by_suffix-select type wallet rows)

-- An answer of `listOwnedObjects` has all that a wallet owns.
abbrev pub ListsAll : Answers → Identity → Type 0
ListsAll a s = (wallet n : ℕ) → a.page_size ≡ some n → count (λ o. o.owner == wallet) s.objects ≤ n

listed_all :
    (a : Answers) (s : Identity) (wallet : ℕ) (page : List OwnedObject)
    → ListsAll a s
    → listed a wallet s ≡ some page
    → page ≡ select (λ o. o.owner == wallet) s.objects
listed_all a s wallet page l h = elim (Option-cases a.page_size) [
  | inl e ↦ absurd (ground (arith, e))
  | inr (n, e) ↦ ground (
    arith,
    e,
    l wallet n e,
    length-select (λ o. o.owner == wallet) s.objects,
    take-length n (select (λ o. o.owner == wallet) s.objects),
  )
]

module _ (derive : ℕ → ℕ → ℕ) where
  none-ownedb :
      (s : Identity) (wallet : ℕ)
      → IsOnce derive s
      → find_existing_bootstrap_objects (select (λ o. o.owner == wallet) s.objects) ≡ none
      → owned wallet arktion_passport s ≡ 0
  none-ownedb s wallet k h =
      let page = select (λ o. o.owner == wallet) s.objects in
      elim (Option-cases (find_by_suffix arktion_passport page)) [
        | inl e ↦ find_by_suffix-select arktion_passport wallet s.objects e
        | inr (p, e) ↦ elim (Option-cases (find_by_suffix user_library page)) [
          | inl f ↦ sym (k.libraries wallet) ∙ find_by_suffix-select user_library wallet s.objects f
          | inr (q, f) ↦
              sym (k.journals wallet)
              ∙ find_by_suffix-select user_journal wallet s.objects (ground (arith, e, f, h))
        ]
      ]

  reuse_or_execute-IsOnce :
      (a : Answers) (wallet : ℕ) (s : Identity) (o : Option BootstrapObjects)
      → IsOnce derive s
      → is_some (find (has_wallet wallet) s.accounts) ≡ true
      → (o ≡ none → owned wallet arktion_passport s ≡ 0)
      → IsOnce derive (reuse_or_execute a wallet o s).1
  reuse_or_execute-IsOnce a wallet s (some o) k h z = k
  reuse_or_execute-IsOnce a wallet s none k h z = execute-IsOnce derive a wallet s k (z refl) h

  pub resume_pending_bootstrap-IsOnce :
      (a : Answers) (u : Account) (s : Identity)
      → IsOnce derive s
      → ListsAll a s
      → is_some (find (has_wallet u.wallet_address) s.accounts) ≡ true
      → IsOnce derive (resume_pending_bootstrap a u s).1
  unfolding resume_pending_bootstrap
  resume_pending_bootstrap-IsOnce a u s k l h = elim (Option-cases (listed a u.wallet_address s)) [
    | inl e ↦ rw e k
    | inr (page, e) ↦ rw e (
        bind-keeps (IsOnce derive)
          (reuse_or_execute a u.wallet_address (find_existing_bootstrap_objects page))
          (finalize_bootstrap a u.id) s
          (reuse_or_execute-IsOnce a u.wallet_address s (find_existing_bootstrap_objects page) k h
            (λ n. none-ownedb s u.wallet_address k (
              ap find_existing_bootstrap_objects (sym (listed_all a s u.wallet_address page l e))
              ∙ n)))
          (λ o _ k'. finalize_bootstrap-IsOnce derive a u.id o _ k'))
  ]
