-- ===== src/SignIn/Recovery.antt =====
-- A sign-in that was cut off is made good by the next one: `resumePendingBootstrap`.
use Prim.Native.Nat.{ℕ, suc}
use arktion_sui_overflow.World.{delivered}
use arktion_sui_overflow.SignIn.Accounts.{
  Account, Identity, Answers, ObjectType, OwnedObject, arktion_passport, has_type, user_library,
  user_journal, other_type,
}
use arktion_sui_overflow.Prelude.{
  [], some, find, ◌&&◌, select, ok, Bool, ◌≡◌, update_where, ◌∷◌, true, arith, is_some, ltb, ◌==◌,
  List, ℕ, false, zero, refl, ◌++◌, suc, map, Bool-cases, inl, inr,
}
use arktion_sui_overflow.SignIn.Bootstrap.{
  BootstrapObjects, find_created, changed_objects, ChangedObject, read_result, execute, touched,
  send_bootstrap, mint_objects, created, object_of,
}
use arktion_sui_overflow.SignIn.Login.{is_complete, is_of, find_by_suffix, has_id, finalized}
use arktion_sui_overflow.Pagination.{take}

abbrev pub is_held : ℕ → ObjectType → ℕ → OwnedObject → Bool
is_held wallet type id o = o.owner == wallet && has_type type o.object_type && o.object_id == id

-- The account's rows name objects of the three types that its wallet owns on the chain.
pub record IsReady (u : Account) (s : Identity) : Type 0 where
  pub passport : ℕ
  pub library : ℕ
  pub journal : ℕ
  pub is_done : is_complete u.bootstrap_state ≡ true
  pub passport_row : s.passports u.id ≡ some passport
  pub library_row : u.library_object_id ≡ some library
  pub journal_row : u.journal_object_id ≡ some journal
  pub has_passport :
      is_some (find (is_held u.wallet_address arktion_passport passport) s.objects) ≡ true
  pub has_library : is_some (find (is_held u.wallet_address user_library library) s.objects) ≡ true
  pub has_journal : is_some (find (is_held u.wallet_address user_journal journal) s.objects) ≡ true

-- All that an attempt asks of other services is answered.
pub record IsAnswered (a : Answers) : Type 0 where
  pub page : ℕ
  pub balance : ℕ
  pub lists : a.page_size ≡ some page
  pub has_balance : a.treasury_balance ≡ some balance
  pub is_funded : ltb balance a.min_treasury_balance ≡ false
  pub is_delivered : a.delivery ≡ delivered
  pub is_committed : a.commits ≡ true

-- The wallet owns the objects.
pub record AreHeld (wallet : ℕ) (o : BootstrapObjects) (s : Identity) : Type 0 where
  pub passport_held :
      is_some (find (is_held wallet arktion_passport o.passport_object_id) s.objects) ≡ true
  pub library_held :
      is_some (find (is_held wallet user_library o.library_object_id) s.objects) ≡ true
  pub journal_held :
      is_some (find (is_held wallet user_journal o.journal_object_id) s.objects) ≡ true

find-take :
    {A : Type 0} (p : A → Bool) (n : ℕ) (xs : List A) (o : A)
    → find p (take n xs) ≡ some o
    → find p xs ≡ some o
find-take p zero xs o h = absurd (ground arith)
find-take p (suc n) [] o h = absurd (ground arith)
find-take p (suc n) (x ∷ xs) o h = ground (arith, find-take p n xs o)

find-select :
    {A : Type 0} (p q r : A → Bool) (xs : List A) (o : A)
    → find p (select q xs) ≡ some o
    → (q o ≡ true → p o ≡ true → r o ≡ true)
    → is_some (find r xs) ≡ true
find-select p q r [] o h k = absurd (ground arith)
find-select p q r (x ∷ xs) o h k = elim (Bool-cases (r x)) [
  | inl e ↦ ground (arith, e)
  | inr e ↦ elim (Bool-cases (q x)) [
    | inl f ↦ elim (Bool-cases (p x)) [
      | inl g ↦ absurd (ground (arith, e, f, g, h, k))
      | inr g ↦ ground (arith, e, f, g, h, find-select p q r xs o (ground (arith, f, g, h)) k)
    ]
    | inr f ↦ ground (arith, e, f, h, find-select p q r xs o (ground (arith, f, h)) k)
  ]
]

pub find_by_suffix-held :
    (type : ObjectType) (wallet n : ℕ) (rows : List OwnedObject) (o : OwnedObject)
    → find_by_suffix type (take n (select (λ x. x.owner == wallet) rows)) ≡ some o
    → is_some (find (is_held wallet type o.object_id) rows) ≡ true
find_by_suffix-held type wallet n rows o h =
    find-select (λ x. has_type type x.object_type) (λ x. x.owner == wallet)
      (is_held wallet type o.object_id) rows o
      (find-take (λ x. has_type type x.object_type) n (select (λ x. x.owner == wallet) rows) o h)
      (λ e f. rw (e, f) (ground arith))

find_created-touched :
    (type : ObjectType) (ids : List ℕ) (cs : List ChangedObject) (s : Identity)
    → find_created type (map touched ids ++ cs) s ≡ find_created type cs s
unfolding find_created
find_created-touched type [] cs s = refl
find_created-touched arktion_passport (i ∷ ids) cs s =
    find_created-touched arktion_passport ids cs s
find_created-touched user_library (i ∷ ids) cs s = find_created-touched user_library ids cs s
find_created-touched user_journal (i ∷ ids) cs s = find_created-touched user_journal ids cs s
find_created-touched other_type (i ∷ ids) cs s = find_created-touched other_type ids cs s

abbrev pub fresh_objects : Answers → BootstrapObjects
fresh_objects a = record {
  passport_object_id = a.passport_id;
  library_object_id = a.library_id;
  journal_object_id = a.journal_id;
  tx_digest = some a.digest;
}

read_result_fresh :
    (a : Answers) (wallet : ℕ) (s : Identity)
    → read_result a (changed_objects a wallet) s ≡ (ok (fresh_objects a), s)
unfolding read_result find_created
read_result_fresh a wallet s = ground (arith, passport, library, journal)
  where
    rest : List ChangedObject
    rest =
        created (object_of wallet arktion_passport a.passport_id)
        ∷ created (object_of wallet user_library a.library_id)
        ∷ created (object_of wallet user_journal a.journal_id)
        ∷ []

    passport : find_created arktion_passport (changed_objects a wallet) s ≡ (ok a.passport_id, s)
    passport = find_created-touched arktion_passport a.mutated rest s

    library : find_created user_library (changed_objects a wallet) s ≡ (ok a.library_id, s)
    library = find_created-touched user_library a.mutated rest s

    journal : find_created user_journal (changed_objects a wallet) s ≡ (ok a.journal_id, s)
    journal = find_created-touched user_journal a.mutated rest s

pub execute_answered :
    (a : Answers) (wallet : ℕ) (s : Identity)
    → IsAnswered a
    → execute a wallet s ≡ (ok (fresh_objects a), mint_objects a wallet s)
unfolding execute send_bootstrap
execute_answered a wallet s k =
    rw (k.has_balance, k.is_delivered)
      (ground (arith, k.is_funded, read_result_fresh a wallet (mint_objects a wallet s)))

pub find-finalized_row :
    (o : BootstrapObjects) (iss sub : ℕ) (rows : List Account) (u : Account)
    → find (is_of iss sub) rows ≡ some u
    → find (is_of iss sub) (update_where (has_id u.id) (finalized o) rows) ≡ some (finalized o u)
find-finalized_row o iss sub [] u h = absurd (ground arith)
find-finalized_row o iss sub (v ∷ rows) u h = ground (arith, find-finalized_row o iss sub rows u)

pub find-id :
    (iss sub : ℕ) (rows : List Account) (u : Account)
    → find (is_of iss sub) rows ≡ some u
    → is_some (find (has_id u.id) rows) ≡ true
find-id iss sub [] u h = absurd (ground arith)
find-id iss sub (v ∷ rows) u h = ground (arith, find-id iss sub rows u)
