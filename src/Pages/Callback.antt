-- ===== src/Pages/Callback.antt =====
-- app/auth/callback/page.tsx: the return from Google, which ends a sign-in, over the browser and the session.
use arktion_sui_overflow.Prelude.{
  ℕ, ok, err, Option, Bool, none, if◌then◌else◌, false, ◌≡◌, refl, some, true, Result-cases, arith,
  inl, inr,
}
use arktion_sui_overflow.Stores.Signing.{
  init_ephemeral_keypair, get_ephemeral_state, ZkLibrary, EphemeralState, store_zk_state,
  sign_with_zk_login, ZkProofInputs, Browser, StoredZkState,
}
use arktion_sui_overflow.Stores.{Answer}
use arktion_sui_overflow.Stores.Session.{App, complete_sign_in}

-- The parameters of the URL's fragment; none for one that is missing or empty.
pub record Fragment : Type 0 where
  pub id_token : Option ℕ
  pub error_description : Option ℕ
  pub error : Option ℕ

-- `AuthResult`
pub record AuthResult : Type 0 where
  pub session_token : ℕ
  pub user : ℕ
  pub is_new_user : Bool

-- Where `router.replace` leads.
pub data Destination : Type 0 where
  oauth_failed : ℕ → Destination
  no_token expired_state auth_failed : Destination
  onboarding dashboard : Destination

abbrev pub extract_oauth_error : Fragment → Option ℕ
extract_oauth_error h = elim h.error_description [ some e ↦ some e | none ↦ h.error ]

-- What the two requests that run at the same time are answered, for an id token and a key pair.
pub record SignInAnswers : Type 0 where
  pub complete : ℕ → Answer AuthResult
  pub prove : ℕ → EphemeralState → Answer ZkProofInputs

abbrev pub session_of : Answer AuthResult → Answer (ℕ × ℕ)
session_of (ok r) = ok (r.session_token, r.user)
session_of (err message) = err message

-- `Promise.all`, `storeZkState` and the redirect. The session is set when its answer arrives, whatever
-- becomes of the proof.
abbrev pub finish_callback :
    ZkLibrary → SignInAnswers → ℕ → EphemeralState → App → Destination × App
finish_callback lib answers token e a =
    let signed = complete_sign_in (session_of (answers.complete token)) a in
    elim (answers.complete token) [
      | err message ↦ (auth_failed, signed)
      | ok r ↦ elim (answers.prove token e) [
        | err message ↦ (auth_failed, signed)
        | ok proof ↦ (
          if r.is_new_user then onboarding else dashboard,
          record signed {
            browser =
                store_zk_state proof e.max_epoch e.randomness (lib.get_secret_key e.keypair)
                  signed.browser;
          },
        )
      ]
    ]

-- `handleCallback`
unfoldable pub handle_callback : ZkLibrary → SignInAnswers → Fragment → App → Destination × App
unfolding get_ephemeral_state store_zk_state complete_sign_in
handle_callback lib answers h a = elim (extract_oauth_error h) [
  | some e ↦ (oauth_failed e, a)
  | none ↦ elim h.id_token [
    | none ↦ (no_token, a)
    | some token ↦ elim (get_ephemeral_state lib a.browser) [
      | none ↦ (expired_state, a)
      | some e ↦ finish_callback lib answers token e a
    ]
  ]
]

-- Whether the page went on into the application.
abbrev pub enters : Destination → Bool
enters onboarding = true
enters dashboard = true
enters _ = false

-- The SDK reads the key pair back from its secret.
abbrev pub Restores : ZkLibrary → Type 0
Restores lib = (k : ℕ) → lib.from_secret_key (lib.get_secret_key k) ≡ some k

-- The key pair is read back from what `initEphemeralKeypair` stored.
get_ephemeral_state-init :
    (lib : ZkLibrary) (keypair randomness max_epoch : ℕ) (a b : Browser)
    → Restores lib
    → a ≡ (init_ephemeral_keypair lib keypair randomness max_epoch b).1
    → get_ephemeral_state lib a
      ≡ some (record { keypair = keypair; max_epoch = max_epoch; randomness = randomness })
unfolding init_ephemeral_keypair get_ephemeral_state
get_ephemeral_state-init lib keypair randomness max_epoch a b restores h =
    rw h (rw (restores keypair) refl)

-- A sign-in that leads into the application has stored what signing needs: transactions are then signed by
-- the key pair that the sign-in drew, under the proof that the backend gave for it and up to the
-- epoch that its nonce names, if the SDK reads a key pair back from its secret.
pub handle_callback_signs :
    (lib : ZkLibrary) (answers : SignInAnswers) (h : Fragment) (a : App) (b : Browser)
    (keypair randomness max_epoch token tx_bytes : ℕ) (proof : ZkProofInputs)
    → Restores lib
    → a.browser ≡ (init_ephemeral_keypair lib keypair randomness max_epoch b).1
    → h.id_token ≡ some token
    → answers.prove token
        (record { keypair = keypair; max_epoch = max_epoch; randomness = randomness })
      ≡ ok proof
    → enters (handle_callback lib answers h a).0 ≡ true
    → let a' = (handle_callback lib answers h a).1 in
      (zk : StoredZkState) × (a'.browser.zk_proof ≡ some zk)
      × (zk.max_epoch ≡ max_epoch)
      × (sign_with_zk_login lib tx_bytes zk
          ≡ ok (lib.get_zk_login_signature proof max_epoch (lib.sign_transaction keypair tx_bytes)))
unfolding handle_callback init_ephemeral_keypair sign_with_zk_login get_ephemeral_state
    store_zk_state
handle_callback_signs lib answers h a b keypair randomness max_epoch token tx_bytes proof restores
      drawn given proves inside =
    let state =
      get_ephemeral_state-init lib keypair randomness max_epoch a.browser b restores drawn in
    (
      record {
        proof = proof;
        max_epoch = max_epoch;
        randomness = randomness;
        keypair_secret = lib.get_secret_key keypair;
        address_seed = proof.address_seed;
      },
      elim (Result-cases (answers.complete token)) [
        | inl (r, c) ↦ ground (arith, given, proves, inside, c, state)
        | inr (m, c) ↦ ground (arith, given, inside, c, state)
      ],
      refl,
      ground (arith, restores keypair),
    )
