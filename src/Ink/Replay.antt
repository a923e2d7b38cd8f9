-- ===== src/Ink/Replay.antt =====
-- `mintEarning` called again under the same idempotency key.
use arktion_sui_overflow.Prelude.{
  Option, ℕ, ◌≡◌, some, refl, arith, ok, Result, none, List, ap, ◌∙◌,
}
use arktion_sui_overflow.Ink.{
  mint_earning, upsert_entry, EarnParams, recorded_result, find_entry, MintEarningResult,
  minted_result, recorded, upsert_balance, earning_entry, ink_amounts, mint_new,
}
use arktion_sui_overflow.World.{InkLedgerEntry, World, Error, Passport}
use arktion_sui_overflow.Sui.{EarningRecord, find_record, key_eq_self}
use arktion_sui_overflow.Ink.Mirror.{IsMirrored}
use arktion_sui_overflow.Ink.Minting.{
  Minting, credited, refused, unrecorded, minted, mint_new-Minting,
}

-- What the look-up of a repeated call finds.
entry_found :
    (p : EarnParams) (now digest : ℕ) (ledger : List InkLedgerEntry)
    → find_entry p.idempotency_key ledger ≡ none
    → recorded (find_entry p.idempotency_key (upsert_entry (earning_entry p digest now) ledger))
      ≡ some (digest, ink_amounts p.trigger_type)
unfolding upsert_entry
entry_found p now digest ledger fresh = ground (arith, key_eq_self p.idempotency_key)

-- A key that the chain has seen is never paid again, whether or not the tables know of it.
pub mint_earning_once :
    (p : EarnParams) (now : ℕ) (w : World) (r : EarningRecord)
    → find_record p.idempotency_key w.chain.records ≡ some r
    → (mint_earning p now w).1.chain ≡ w.chain
unfolding mint_earning
mint_earning_once p now w r seen = go (recorded (find_entry p.idempotency_key w.db.ink_ledger))
  where
    unpaid :
        (o : Result Error MintEarningResult) (w' : World)
        → Minting p now w o w'
        → w'.chain ≡ w.chain
    unpaid o w' (refused _ _ same) = same
    unpaid o w' (unrecorded _ fresh _ _) = cc
    unpaid o w' (minted _ _ fresh _ _ _ _) = cc

    go :
        (o : Option (ℕ × ℕ))
        → let out : Result Error MintEarningResult × World = elim o [
          | some (digest, amount) ↦ (ok (recorded_result p digest amount w), w)
          | none ↦ mint_new p now w
        ] in
          out.1.chain ≡ w.chain
    go (some (digest, amount)) = refl
    go none = unpaid _ _ (mint_new-Minting p now w)

-- A replay reads what the first call returned.
replay_minted :
    (p : EarnParams) (now digest : ℕ) (q : Passport) (w w' : World)
    → find_entry p.idempotency_key w.db.ink_ledger ≡ none
    → w'.db ≡ credited (earning_entry p digest now) now q w.db
    → (later : ℕ) → mint_earning p later w' ≡ (ok (minted_result p digest w'), w')
unfolding mint_earning recorded_result minted_result upsert_balance
replay_minted p now digest q w w' fresh db later =
    let hit = entry_found p now digest w.db.ink_ledger fresh in
    let found : recorded (find_entry p.idempotency_key w'.db.ink_ledger)
        ≡ some (digest, ink_amounts p.trigger_type) =
      rw db hit in
    rw (found, mint_earning) (ground arith)

-- A call that returned can be repeated: the second one returns the same result, calls no chain and
-- changes nothing.
pub mint_earning_replay :
    (p : EarnParams) (now later : ℕ) (w w' : World) (r : MintEarningResult)
    → IsMirrored w.db w.chain
    → mint_earning p now w ≡ (ok r, w')
    → mint_earning p later w' ≡ (ok r, w')
unfolding mint_earning
mint_earning_replay p now later w w' r m first =
    go (recorded (find_entry p.idempotency_key w.db.ink_ledger)) refl first
  where
    new_case :
        (o : Result Error MintEarningResult) (w₁ : World)
        → Minting p now w o w₁
        → ◌≡◌ {A = Result Error MintEarningResult × World} (o, w₁) (ok r, w')
        → mint_earning p later w' ≡ (ok r, w')
    new_case o w₁ (refused e _ _) h = absurd (ground arith)
    new_case o w₁ (unrecorded e _ _ _) h = absurd (ground arith)
    new_case o w₁ (minted digest q fresh _ db _ e) h =
        ground (arith, replay_minted p now digest q w w₁ (m.spent p.idempotency_key fresh) db later)

    go :
        (o : Option (ℕ × ℕ))
        → recorded (find_entry p.idempotency_key w.db.ink_ledger) ≡ o
        → (let out : Result Error MintEarningResult × World = elim o [
          | some (digest, amount) ↦ (ok (recorded_result p digest amount w), w)
          | none ↦ mint_new p now w
        ] in
            out ≡ (ok r, w'))
        → mint_earning p later w' ≡ (ok r, w')
    go (some (digest, amount)) e h =
        let same : w ≡ w' = ap (λ (x : Result Error MintEarningResult × World). x.1) h in
        rw (← same) (rw (e, mint_earning) (h ∙ rw (← same)))
    go none e h = new_case _ _ (mint_new-Minting p now w) h
