-- ===== src/Stores/Flows.antt =====
-- The flow that payment.store.ts runs for tips and sends, and passport.store.ts for the sync: a transaction
-- is built by the backend, signed in the browser, and submitted by the backend.
use arktion_sui_overflow.Prelude.{
  ℕ, ok, err, Option, none, Action, Bool, Result, some, ◌>>=◌, modify, ◌>>◌, or_throw, ltb,
  throw_if, ◌≡◌, ◌≤◌, Option-cases, subst, Bool-cases, inr, arith, Result-cases, inl, if◌then◌else◌,
}
use arktion_sui_overflow.Stores.Signing.{
  ZkLibrary, Browser, get_zk_state, sign_with_zk_login, StoredZkState,
}
use arktion_sui_overflow.Stores.{Answer}

-- `FlowStage`; passport.store.ts calls `confirming` submitting.
pub data FlowStage : Type 0 where
  idle building signing confirming success error_stage : FlowStage

pub record Flow : Type 0 where
  pub stage : FlowStage
  pub tx_digest : Option ℕ
  pub error : Option ℕ

abbrev pub idle_flow : Flow
idle_flow = record { stage = idle; tx_digest = none; error = none }

-- What the backend returns of a transaction that it built.
pub record Built : Type 0 where
  pub transaction_id : ℕ
  pub tx_bytes : ℕ

-- The message that a store writes itself; the messages of other errors are other numbers.
abbrev pub signing_expired : ℕ
signing_expired = 0

-- The message of a request whose answer does not arrive.
abbrev pub no_answer : ℕ
no_answer = 2

-- The flow and the state of the backend.
pub record Run (S : Type 0) : Type 0 where
  pub flow : Flow
  pub backend : S

-- The requests of a flow. `sent` of a request acts on the backend; its answer may be lost.
pub record Requests (S : Type 0) : Type 0 where
  pub get_epoch : S → Answer ℕ × S
  pub build : S → Answer Built × S
  pub submit : Built → ℕ → S → Answer ℕ × S

module _ {S : Type 0} where
  abbrev pub request : {A : Type 0} → (S → Answer A × S) → Action ℕ (Run S) A
  request f s = let (r, b) = f s.backend in (r, record s { backend = b })

  abbrev pub show_flow : (Flow → Flow) → Action ℕ (Run S) (Unit {0})
  show_flow f = modify (λ s. record s { flow = f s.flow })

  abbrev pub or_message : {A : Type 0} → Answer A → Action ℕ (Run S) A
  or_message a s = (a, s)

  -- The body of `try`.
  unfoldable pub flow_steps : ZkLibrary → Browser → Requests S → Action ℕ (Run S) (Unit {0})
  flow_steps lib browser calls = do
    zk ← or_throw (get_zk_state browser) signing_expired
    epoch ← request calls.get_epoch
    throw_if (ltb zk.max_epoch epoch) signing_expired
    built ← request calls.build
    show_flow (λ f. record f { stage = signing })
    signature ← or_message (sign_with_zk_login lib built.tx_bytes zk)
    show_flow (λ f. record f { stage = confirming })
    digest ← request (calls.submit built signature)
    show_flow (λ f. record f { stage = success; tx_digest = some digest })

  abbrev pub caught : Answer (Unit {0}) × Run S → Run S
  caught (ok _, s) = s
  caught (err message, s) = record s {
    flow = record s.flow { stage = error_stage; error = some message };
  }

  -- `sendTip`, `executeSend` and `syncOnChain` from their first `set` to their `catch`.
  unfoldable pub run_flow : ZkLibrary → Browser → Requests S → S → Run S
  unfolding flow_steps
  run_flow lib browser calls backend = caught (
      flow_steps lib browser calls (record {
        flow = record { stage = building; tx_digest = none; error = none };
        backend = backend;
      }))

-- A request whose answer arrives or not.
abbrev pub arriving : {A S : Type 0} → Bool → Answer A × S → Answer A × S
arriving arrives out = (if arrives then out.0 else err no_answer, out.1)

-- The answer to a request, with the message for an error.
abbrev pub answer_of : {E A B S : Type 0} → (E → ℕ) → (A → B) → Result E A × S → Answer B × S
answer_of texts f out = (elim out.0 [ ok a ↦ ok (f a) | err e ↦ err (texts e) ], out.1)

abbrev pub stopped_run : {S : Type 0} → ℕ → S → Run S
stopped_run message b = record {
  flow = record { stage = error_stage; tx_digest = none; error = some message };
  backend = b;
}

abbrev pub submitted_run : {S : Type 0} → Answer ℕ × S → Run S
submitted_run (ok digest, b) = record {
  flow = record { stage = success; tx_digest = some digest; error = none };
  backend = b;
}
submitted_run (err message, b) = stopped_run message b

-- How a flow ends: it stops before it submits anything, or it submits what the backend has built,
-- signed in an epoch that the proof covers.
module _ {S : Type 0} (P : Run S → Type 0) (lib : ZkLibrary) (browser : Browser)
    (calls : Requests S) (s : S) where
  abbrev epoch_answer : Answer ℕ × S
  epoch_answer = calls.get_epoch s

  abbrev build_answer : Answer Built × S
  build_answer = calls.build epoch_answer.1

  pub run_flow_cases :
      ((message : ℕ) → P (stopped_run message s))
      → ((message : ℕ) → P (stopped_run message epoch_answer.1))
      → ((message : ℕ) → P (stopped_run message build_answer.1))
      → ((zk : StoredZkState) (epoch : ℕ) (built : Built) (signature : ℕ)
          → browser.zk_proof ≡ some zk
          → epoch_answer.0 ≡ ok epoch
          → epoch ≤ zk.max_epoch
          → build_answer.0 ≡ ok built
          → sign_with_zk_login lib built.tx_bytes zk ≡ ok signature
          → P (submitted_run (calls.submit built signature build_answer.1)))
      → P (run_flow lib browser calls s)
  unfolding run_flow flow_steps
  run_flow_cases at_start at_epoch at_build submitted = elim (Option-cases browser.zk_proof) [
    | inl f ↦ subst P (ground (arith, f)) (at_start signing_expired)
    | inr (zk, f) ↦ elim (Result-cases epoch_answer.0) [
      | inr (m, g) ↦ subst P (ground (arith, f, g)) (at_epoch m)
      | inl (epoch, g) ↦ elim (Bool-cases (ltb zk.max_epoch epoch)) [
        | inl late ↦ subst P (ground (arith, f, g, late)) (at_epoch signing_expired)
        | inr early ↦ elim (Result-cases build_answer.0) [
          | inr (m, h) ↦ subst P (ground (arith, f, g, early, h)) (at_build m)
          | inl (built, h) ↦ elim (Result-cases (sign_with_zk_login lib built.tx_bytes zk)) [
            | inr (m, k) ↦ subst P (ground (arith, f, g, early, h, k)) (at_build m)
            | inl (signature, k) ↦
                subst P (ground (arith, f, g, early, h, k))
                  (submitted zk epoch built signature f g (ground (arith, early)) h k)
          ]
        ]
      ]
    ]
  ]
