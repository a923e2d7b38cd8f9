-- ===== src/Passport/Sync.antt =====
-- The totals on the chain follow those that the backend signed.
use Prim.Native.Nat.{ℕ}
use arktion_sui_overflow.World.{delivered, Delivery, unreachable, unanswered}
use arktion_sui_overflow.Prelude.{
  true, some, ok, ◌⊎◌, ◌≤◌, ◌≡◌, ℕ, arith, ap, Option-cases, Bool-cases, inr, inl, ◌==◌, leb, ◌&&◌,
  subst, refl, bind-keeps, sym, pure, throw, ◌∙◌, ◌>>◌, is_some, Result, false, err, none, Option,
}
use arktion_sui_overflow.Passport.{
  submit_sync_transaction, build_sync_transaction, build_sponsored_bytes, submit_sponsored_tx,
  update_row, assert_treasury_healthy, update_stats_attested, AdminKey, Sponsor, Passports,
  SponsoredTx, PassportRow, ArktionPassport, StatsAttestation, calculate_level, Stats, run_tx,
  update_stats_tx, other_tx, execute_tx, Delivery, rpc_failed, synced, Option, Result, then_tx,
  PassportError, rolled_back,
}

-- A passport that is synced has the totals of its row, with the level that they give: for a wallet
-- that owns the passport, when the network answers and the totals on the chain are not ahead.
pub submit_sync_transaction-build :
    (key : AdminKey) (g : Sponsor) (user wallet now : ℕ) (s : Passports) (row : PassportRow)
    (p : ArktionPassport) (tx : SponsoredTx)
    → ((m : StatsAttestation) → key.verify (key.sign m) m ≡ true)
    → s.rows user ≡ some row
    → s.objects row.sui_object_id ≡ some p
    → p.owner ≡ wallet
    → p.stats.total_ink_earned ≤ row.stats.total_ink_earned
    → g.delivery ≡ delivered
    → (build_sync_transaction key g user wallet s).0 ≡ ok tx
    → let (r, s') = submit_sync_transaction key g user tx now s in
      (r ≡ ok g.digest)
      × (s'.objects row.sui_object_id
          ≡ some (record {
            owner = wallet;
            level = calculate_level row.stats.total_ink_earned;
            stats = row.stats;
          }))
      × (s'.rows user ≡ some (record row { last_synced_at = some now }))
unfolding build_sync_transaction build_sponsored_bytes submit_sync_transaction submit_sponsored_tx
    update_row assert_treasury_healthy update_stats_attested
submit_sync_transaction-build key g user wallet now s row p tx law h k o le d b =
    ground (
      arith,
      h,
      k,
      o,
      le,
      d,
      b,
      law (record { passport_id = row.sui_object_id; stats = row.stats }),
    )

-- What becomes of a passport: its owner stays, its INK does not fall, and new totals are signed.
abbrev IsAttested : AdminKey → ℕ → ArktionPassport → ArktionPassport → Type 0
IsAttested key id p q =
    (q.owner ≡ p.owner)
    × (p.stats.total_ink_earned ≤ q.stats.total_ink_earned)
    × ((q ≡ p)
        ⊎ ((signature : ℕ) × (key.verify signature (record { passport_id = id; stats = q.stats })
              ≡ true)))

same-IsAttested : (key : AdminKey) (id : ℕ) (p q : ArktionPassport) → q ≡ p → IsAttested key id p q
same-IsAttested key id p q e = (ap (λ x. x.owner) e, ground (arith, e), inl e)

update_stats_attested-objects :
    (key : AdminKey) (sender o signature id : ℕ) (stats : Stats) (s : Passports)
    (p q : ArktionPassport)
    → s.objects id ≡ some p
    → (update_stats_attested key sender o stats signature s).1.objects id ≡ some q
    → IsAttested key id p q
unfolding update_stats_attested
update_stats_attested-objects key sender o signature id stats s p q h k =
    let message : StatsAttestation = record { passport_id = o; stats = stats } in
    elim (Option-cases (s.objects o)) [
      | inl e ↦ same-IsAttested key id p q (ground (arith, e, h, k))
      | inr (x, e) ↦
          elim (Bool-cases (
            x.owner == sender
            && key.verify signature message
            && leb x.stats.total_ink_earned stats.total_ink_earned)) [
              | inr f ↦ same-IsAttested key id p q (ground (arith, e, f, h, k))
              | inl f ↦ elim (Bool-cases (o == id)) [
                | inr g ↦ same-IsAttested key id p q (ground (arith, e, f, g, h, k))
                | inl g ↦ (
                  ground (arith, e, f, g, h, k),
                  ground (arith, e, f, g, h, k),
                  inr (signature, ground (arith, e, f, g, h, k)),
                )
              ]
            ]
    ]

update_stats_attested-some :
    (key : AdminKey) (sender o signature id : ℕ) (stats : Stats) (s : Passports)
    (p : ArktionPassport)
    → s.objects id ≡ some p
    → is_some ((update_stats_attested key sender o stats signature s).1.objects id) ≡ true
unfolding update_stats_attested
update_stats_attested-some key sender o signature id stats s p h = ground (arith, h)

-- The passport is still there, and is what became of `p`.
abbrev AttestedIn : AdminKey → ℕ → ArktionPassport → Option ArktionPassport → Type 0
AttestedIn key id p none = ⊥
AttestedIn key id p (some q) = IsAttested key id p q

same-AttestedIn :
    (key : AdminKey) (id : ℕ) (p : ArktionPassport) (o : Option ArktionPassport)
    → o ≡ some p
    → AttestedIn key id p o
same-AttestedIn key id p o e = subst (AttestedIn key id p) (sym e) (same-IsAttested key id p p refl)

AttestedIn-trans :
    (key : AdminKey) (id : ℕ) (p m : ArktionPassport) (o : Option ArktionPassport)
    → IsAttested key id p m
    → AttestedIn key id m o
    → AttestedIn key id p o
AttestedIn-trans key id p m none k h = h
AttestedIn-trans key id p m (some q) (owner, ink, old) (owner', ink', inr new) =
    (owner' ∙ owner, omega arith, inr new)
AttestedIn-trans key id p m (some q) k (owner', ink', inl same) =
    subst (IsAttested key id p) (sym same) k

rolled_back-keeps :
    (P : Passports → Type 0) (s : Passports) (r : Result PassportError (Unit {0}) × Passports)
    → P s
    → P r.1
    → P (rolled_back s r).1
rolled_back-keeps P s (ok x, t) h k = k
rolled_back-keeps P s (err e, t) h k = h

run_tx-AttestedIn :
    (key : AdminKey) (tx : SponsoredTx) (id : ℕ) (s : Passports) (p : ArktionPassport)
    → s.objects id ≡ some p
    → AttestedIn key id p ((run_tx key tx s).1.objects id)
run_tx-AttestedIn key (update_stats_tx sender o stats signature) id s p h =
    let out = (update_stats_attested key sender o stats signature s).1 in
    elim (Option-cases (out.objects id)) [
      | inl e ↦
          absurd
            (ground (arith, e, update_stats_attested-some key sender o signature id stats s p h))
      | inr (q, e) ↦
          subst (AttestedIn key id p) (sym e)
            (update_stats_attested-objects key sender o signature id stats s p q h e)
    ]
run_tx-AttestedIn key (other_tx true) id s p h = same-AttestedIn key id p (s.objects id) h
run_tx-AttestedIn key (other_tx false) id s p h = same-AttestedIn key id p (s.objects id) h
run_tx-AttestedIn key (then_tx first second) id s p h =
    let P : Passports → Type 0 = λ t. AttestedIn key id p (t.objects id) in
    rolled_back-keeps P s ((run_tx key first >> run_tx key second) s)
      (same-AttestedIn key id p (s.objects id) h)
      (bind-keeps P (run_tx key first) (λ _. run_tx key second) s
        (run_tx-AttestedIn key first id s p h)
        (λ _ _ k.
          let t = (run_tx key first s).1 in
          elim (Option-cases (t.objects id)) [
            | inl e ↦ absurd (subst (AttestedIn key id p) e k)
            | inr (m, e) ↦
                AttestedIn-trans key id p m ((run_tx key second t).1.objects id)
                  (subst (AttestedIn key id p) e k) (run_tx-AttestedIn key second id t m e)
          ]))

-- An action leaves the objects as they are, or as the transaction makes them.
abbrev AreSent : AdminKey → SponsoredTx → Passports → Passports → Type 0
AreSent key tx s t = (t.objects ≡ s.objects) ⊎ (t.objects ≡ (run_tx key tx s).1.objects)

execute_tx-AreSent :
    (key : AdminKey) (d : Delivery) (digest : ℕ) (tx : SponsoredTx) (s : Passports)
    → AreSent key tx s (execute_tx key d digest tx s).1
unfolding execute_tx
execute_tx-AreSent key unreachable digest tx s = inl refl
execute_tx-AreSent key unanswered digest tx s =
    bind-keeps (AreSent key tx s) (run_tx key tx) (λ _. throw rpc_failed) s (inr refl) (λ _ _ k. k)
execute_tx-AreSent key delivered digest tx s =
    bind-keeps (AreSent key tx s) (run_tx key tx) (λ _. pure digest) s (inr refl) (λ _ _ k. k)

assert_treasury_healthy-keeps : (g : Sponsor) (s : Passports) → (assert_treasury_healthy g s).1 ≡ s
unfolding assert_treasury_healthy
assert_treasury_healthy-keeps g s = elim (Option-cases g.treasury_balance) [
  | inl e ↦ ground (arith, e)
  | inr (balance, e) ↦ ground (arith, e)
]

submit_sponsored_tx-AreSent :
    (key : AdminKey) (g : Sponsor) (tx : SponsoredTx) (s : Passports)
    → AreSent key tx s (submit_sponsored_tx key g tx s).1
unfolding submit_sponsored_tx
submit_sponsored_tx-AreSent key g tx s =
    let kept = assert_treasury_healthy-keeps g s in
    bind-keeps (AreSent key tx s) (assert_treasury_healthy g)
      (λ _. execute_tx key g.delivery g.digest tx) s (inl (ap (λ t. t.objects) kept))
      (λ _ _ _.
        subst (λ t. AreSent key tx s (execute_tx key g.delivery g.digest tx t).1) (sym kept)
          (execute_tx-AreSent key g.delivery g.digest tx s))

update_row-objects :
    (user : ℕ) (f : PassportRow → PassportRow) (s : Passports)
    → (update_row user f s).1.objects ≡ s.objects
unfolding update_row
update_row-objects user f s = elim (Option-cases (s.rows user)) [
  | inl e ↦ ground (arith, e)
  | inr (row, e) ↦ ground (arith, e)
]

submit_sync_transaction-AreSent :
    (key : AdminKey) (g : Sponsor) (user now : ℕ) (tx : SponsoredTx) (s : Passports)
    → AreSent key tx s (submit_sync_transaction key g user tx now s).1
unfolding submit_sync_transaction
submit_sync_transaction-AreSent key g user now tx s =
    bind-keeps (AreSent key tx s) (submit_sponsored_tx key g tx)
      (λ digest. update_row user (synced now) >> pure digest) s
      (submit_sponsored_tx-AreSent key g tx s)
      (λ digest _ k.
        bind-keeps (AreSent key tx s) (update_row user (synced now)) (λ _. pure digest)
          (submit_sponsored_tx key g tx s).1
          (subst (λ o. (o ≡ s.objects) ⊎ (o ≡ (run_tx key tx s).1.objects))
            (sym (update_row-objects user (synced now) (submit_sponsored_tx key g tx s).1)) k)
          (λ _ _ k'. k'))

-- Whatever transaction a client submits, of any number of calls of update_stats_attested by any senders
-- and of other functions, a passport keeps its owner, its INK does not fall, and its totals are the
-- old ones or some that the admin's key accepts for it.
pub submit_sync_transaction_attested :
    (key : AdminKey) (g : Sponsor) (user now id : ℕ) (tx : SponsoredTx) (s : Passports)
    (p q : ArktionPassport)
    → s.objects id ≡ some p
    → (submit_sync_transaction key g user tx now s).1.objects id ≡ some q
    → (q.owner ≡ p.owner)
      × (p.stats.total_ink_earned ≤ q.stats.total_ink_earned)
      × ((q ≡ p)
          ⊎ ((signature : ℕ) × (key.verify signature (record { passport_id = id; stats = q.stats })
                ≡ true)))
submit_sync_transaction_attested key g user now id tx s p q h k =
    elim (submit_sync_transaction-AreSent key g user now tx s) [
      | inl e ↦ same-IsAttested key id p q (ground (arith, ap (λ f. f id) e, h, k))
      | inr e ↦
          subst (AttestedIn key id p) (sym (ap (λ f. f id) e) ∙ k)
            (run_tx-AttestedIn key tx id s p h)
    ]
