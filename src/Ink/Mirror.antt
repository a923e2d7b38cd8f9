-- ===== src/Ink/Mirror.antt =====
-- The Postgres mirror of INK against its ledger and against the chain.
use arktion_sui_overflow.Prelude.{
  ◌≡◌, some, arith, ◌≤◌, ℕ, none, sum_where, List, ◌∷◌, ◌==◌, Result, Option, ok,
}
use arktion_sui_overflow.World.{InkLedgerEntry, Db, Passport, World, User, Error}
use arktion_sui_overflow.Ink.{
  EarnParams, upsert_balance, balance_or, upsert_entry, mint_earning, find_entry, mint_new,
  MintEarningResult, earning_entry, recorded_result, recorded,
}
use arktion_sui_overflow.Sui.{Key, Chain, find_record}
use arktion_sui_overflow.Ink.Minting.{
  paid, credited, mint_new-Minting, Minting, refused, unrecorded, minted,
}

-- The INK that the ledger has recorded for a user.
abbrev pub earned : ℕ → List InkLedgerEntry → ℕ
earned u = sum_where (λ e. e.user_id == u) (λ e. e.amount)

-- A balance and a passport's total are the sum of the user's ledger entries; an entry has a key
-- that is spent on the chain; and a user's wallet has been paid at least what the ledger says.
pub record IsMirrored (d : Db) (c : Chain) : Type 0 where
  pub balances : (u : ℕ) → balance_or 0 (d.ink_balances u) ≡ earned u d.ink_ledger
  pub passports :
      (u : ℕ) (p : Passport) → d.passports u ≡ some p → p.total_ink_earned ≡ earned u d.ink_ledger
  pub spent : (key : Key) → find_record key c.records ≡ none → find_entry key d.ink_ledger ≡ none
  pub covered :
      (u : ℕ) (user : User)
      → d.users u ≡ some user
      → earned u d.ink_ledger ≤ c.coins user.wallet_address

-- The invariant reads four tables, and of the chain the records and the coins.
pub same-IsMirrored :
    (d d' : Db) (c c' : Chain)
    → d'.ink_ledger ≡ d.ink_ledger
    → d'.ink_balances ≡ d.ink_balances
    → d'.passports ≡ d.passports
    → d'.users ≡ d.users
    → c'.records ≡ c.records
    → c'.coins ≡ c.coins
    → IsMirrored d c
    → IsMirrored d' c'
same-IsMirrored d d' c c' ledger balances passports users records coins m = record {
  balances = λ u. rw (balances, ledger) (m.balances u);
  passports = λ u p h. rw ledger (m.passports u p (rw passports at h));
  spent = λ k h. rw ledger (m.spent k (rw records at h));
  covered = λ u user h. rw (ledger, coins) (m.covered u user (rw users at h));
}

-- INK that is paid and not recorded leaves the mirror below the chain, never above.
pub paid-IsMirrored :
    (user trigger : ℕ) (key : Key) (amount : ℕ) (d : Db) (c : Chain)
    → IsMirrored d c
    → IsMirrored d (paid user trigger key amount c)
paid-IsMirrored user trigger key amount d c m = record {
  balances = m.balances;
  passports = m.passports;
  spent = λ k h. m.spent k (ground arith);
  covered = λ u usr h. ground (arith, m.covered u usr h);
}

module _ (e : InkLedgerEntry) (now trigger : ℕ) (p : Passport) (d : Db) (c : Chain)
    (m : IsMirrored d c) where
  -- Under a fresh key an upsert is an insertion.
  pub upsert_entry_fresh :
      find_record e.idempotency_key c.records ≡ none
      → upsert_entry e d.ink_ledger ≡ e ∷ d.ink_ledger
  unfolding upsert_entry
  upsert_entry_fresh fresh = ground (arith, m.spent e.idempotency_key fresh)

  credited_balances :
      find_record e.idempotency_key c.records ≡ none
      → (u : ℕ)
      → balance_or 0 ((credited e now p d).ink_balances u)
        ≡ earned u (credited e now p d).ink_ledger
  unfolding upsert_balance
  credited_balances fresh u =
      rw (upsert_entry_fresh fresh) (ground (arith, m.balances u, m.balances e.user_id))

  credited_passports :
      find_record e.idempotency_key c.records ≡ none
      → d.passports e.user_id ≡ some p
      → (u : ℕ) (q : Passport) → (credited e now p d).passports u ≡ some q
      → q.total_ink_earned ≡ earned u (credited e now p d).ink_ledger
  credited_passports fresh has u q h =
      rw (upsert_entry_fresh fresh) (ground (arith, m.passports u q, m.passports e.user_id p has))

  -- A payment and its record, made together, keep the mirror exact.
  pub credited-IsMirrored :
      (user : User)
      → find_record e.idempotency_key c.records ≡ none
      → d.passports e.user_id ≡ some p
      → d.users e.user_id ≡ some user
      → IsMirrored
          (credited e now p d)
          (paid user.wallet_address trigger e.idempotency_key e.amount c)
  credited-IsMirrored user fresh has owner = record {
    balances = credited_balances fresh;
    passports = credited_passports fresh has;
    spent = λ k h. rw (upsert_entry_fresh fresh) (ground (arith, m.spent k));
    covered = λ u usr h. rw (upsert_entry_fresh fresh) (ground (arith, m.covered u usr h));
  }

mint_new-IsMirrored :
    (p : EarnParams) (now : ℕ) (w : World) (user : User)
    → w.db.users p.user_id ≡ some user
    → p.wallet_address ≡ user.wallet_address
    → IsMirrored w.db w.chain
    → (r : Result Error MintEarningResult) (w' : World) → Minting p now w r w'
    → IsMirrored w'.db w'.chain
mint_new-IsMirrored p now w user owner wallet m r w' (refused _ db chain) = rw (db, chain) m
mint_new-IsMirrored p now w user owner wallet m r w' (unrecorded _ fresh db chain) =
    rw (db, chain) (paid-IsMirrored _ _ _ _ w.db w.chain m)
mint_new-IsMirrored p now w user owner wallet m r w' (minted digest q fresh has db chain _) =
    rw (db, chain, wallet)
      (credited-IsMirrored (earning_entry p digest now) now _ q w.db w.chain m user fresh has owner)

-- `mintEarning` keeps the mirror, whatever the network does and whether it returns or throws, if it
-- is called with the user's own wallet address.
pub mint_earning-IsMirrored :
    (p : EarnParams) (now : ℕ) (w : World) (user : User)
    → w.db.users p.user_id ≡ some user
    → p.wallet_address ≡ user.wallet_address
    → IsMirrored w.db w.chain
    → let w' = (mint_earning p now w).1 in IsMirrored w'.db w'.chain
unfolding mint_earning
mint_earning-IsMirrored p now w user owner wallet m =
    go (recorded (find_entry p.idempotency_key w.db.ink_ledger))
  where
    go :
        (o : Option (ℕ × ℕ))
        → let out : Result Error MintEarningResult × World = elim o [
          | some (digest, amount) ↦ (ok (recorded_result p digest amount w), w)
          | none ↦ mint_new p now w
        ] in
          IsMirrored out.1.db out.1.chain
    go (some (digest, amount)) = m
    go none = mint_new-IsMirrored p now w user owner wallet m _ _ (mint_new-Minting p now w)
