-- ===== src/SignIn/Bootstrap.antt =====
-- bootstrap.service.ts: the transaction that gives a wallet its passport, library and journal. None of
-- the three Move functions asserts anything, so a transaction that arrives is executed.
use Prim.Native.Nat.{ℕ}
use arktion_sui_overflow.World.{unreachable, unanswered, delivered}
use arktion_sui_overflow.SignIn.Accounts.{
  rpc_failed, service_unavailable, object_missing, OwnedObject, ObjectType, Answers, other_type,
  Identity, arktion_passport, SignIn, user_library, has_type, user_journal,
}
use arktion_sui_overflow.Prelude.{
  ◌∷◌, false, throw_if, ◌++◌, Option, true, map, modify, throw, or_throw, ◌&&◌, some, pure, ◌>>=◌,
  Bool, [], if◌then◌else◌, List, ◌>>◌, ℕ, ltb,
}

pub record BootstrapObjects : Type 0 where
  pub passport_object_id : ℕ
  pub library_object_id : ℕ
  pub journal_object_id : ℕ
  pub tx_digest : Option ℕ

-- An entry of `changedObjects`, with its type from `objectTypes`.
pub record ChangedObject : Type 0 where
  pub is_created : Bool
  pub changed : OwnedObject

abbrev pub object_of : ℕ → ObjectType → ℕ → OwnedObject
object_of wallet type id = record { owner = wallet; object_type = type; object_id = id }

-- The effect of the transaction on the chain.
abbrev pub mint_objects : Answers → ℕ → Identity → Identity
mint_objects a wallet s = record s {
  objects =
      object_of wallet arktion_passport a.passport_id
      ∷ object_of wallet user_library a.library_id
      ∷ object_of wallet user_journal a.journal_id
      ∷ s.objects;
}

abbrev pub created : OwnedObject → ChangedObject
created o = record { is_created = true; changed = o }

abbrev pub touched : ℕ → ChangedObject
touched id = record { is_created = false; changed = object_of 0 other_type id }

abbrev pub changed_objects : Answers → ℕ → List ChangedObject
changed_objects a wallet =
    map touched a.mutated
    ++ created (object_of wallet arktion_passport a.passport_id)
      ∷ created (object_of wallet user_library a.library_id)
      ∷ created (object_of wallet user_journal a.journal_id)
      ∷ []

unfoldable pub find_created : ObjectType → List ChangedObject → SignIn ℕ
find_created type [] = throw object_missing
find_created type (c ∷ cs) =
    if c.is_created && has_type type c.changed.object_type
    then pure c.changed.object_id
    else find_created type cs

-- `execute` past the call of the network.
unfoldable pub read_result : Answers → List ChangedObject → SignIn BootstrapObjects
read_result a changed = do
  passport ← find_created arktion_passport changed
  library ← find_created user_library changed
  journal ← find_created user_journal changed
  pure (record {
    passport_object_id = passport;
    library_object_id = library;
    journal_object_id = journal;
    tx_digest = some a.digest;
  })

-- `signAndExecuteTransaction` of gas.service.ts, for this transaction.
unfoldable pub send_bootstrap : Answers → ℕ → SignIn (List ChangedObject)
send_bootstrap a wallet = elim a.delivery [
  | unreachable ↦ throw rpc_failed
  | unanswered ↦ modify (mint_objects a wallet) >> throw rpc_failed
  | delivered ↦ modify (mint_objects a wallet) >> pure (changed_objects a wallet)
]

-- `execute`, with `assertTreasuryHealthy` of gas.service.ts.
unfoldable pub execute : Answers → ℕ → SignIn BootstrapObjects
unfolding read_result send_bootstrap
execute a wallet = do
  balance ← or_throw a.treasury_balance rpc_failed
  throw_if (ltb balance a.min_treasury_balance) service_unavailable
  changed ← send_bootstrap a wallet
  read_result a changed
