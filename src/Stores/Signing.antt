-- ===== src/Stores/Signing.antt =====
-- lib/zklogin.ts and the token of lib/auth.ts: what the browser keeps, and the signature of a transaction.
-- Keys, proofs, signatures and bytes are numbers.
use arktion_sui_overflow.Prelude.{ℕ, ok, err, Option, some, none}
use arktion_sui_overflow.Stores.{Answer}

pub record StoredEphemeralState : Type 0 where
  pub keypair_secret : ℕ
  pub max_epoch : ℕ
  pub randomness : ℕ

-- `ZkProofInputs`: the points and details, and the seed.
pub record ZkProofInputs : Type 0 where
  pub proof_points : ℕ
  pub address_seed : ℕ

pub record StoredZkState : Type 0 where
  pub proof : ZkProofInputs
  pub max_epoch : ℕ
  pub randomness : ℕ
  pub keypair_secret : ℕ
  pub address_seed : ℕ

-- localStorage and sessionStorage; none is no entry, or one that does not parse.
pub record Browser : Type 0 where
  pub session : Option ℕ
  pub ephemeral : Option StoredEphemeralState
  pub zk_proof : Option StoredZkState

-- What the source uses of the Sui SDK. `from_secret_key` gives none where it throws.
pub record ZkLibrary : Type 0 where
  pub get_public_key : ℕ → ℕ
  pub get_secret_key : ℕ → ℕ
  pub generate_nonce : ℕ → ℕ → ℕ → ℕ
  pub from_secret_key : ℕ → Option ℕ
  pub sign_transaction : ℕ → ℕ → ℕ
  pub get_zk_login_signature : ZkProofInputs → ℕ → ℕ → ℕ

abbrev pub get_stored_token : Browser → Option ℕ
get_stored_token b = b.session

abbrev pub set_stored_token : ℕ → Browser → Browser
set_stored_token token b = record b { session = some token }

abbrev pub clear_stored_auth : Browser → Browser
clear_stored_auth b = record b { session = none }

-- `initEphemeralKeypair` with the key pair and the randomness that it draws; it returns the nonce.
unfoldable pub init_ephemeral_keypair : ZkLibrary → ℕ → ℕ → ℕ → Browser → ℕ × Browser
init_ephemeral_keypair lib keypair randomness max_epoch b = (
  lib.generate_nonce (lib.get_public_key keypair) max_epoch randomness,
  record b {
    ephemeral = some (record {
      keypair_secret = lib.get_secret_key keypair;
      max_epoch = max_epoch;
      randomness = randomness;
    });
  },
)

-- What `getEphemeralState` returns.
pub record EphemeralState : Type 0 where
  pub keypair : ℕ
  pub max_epoch : ℕ
  pub randomness : ℕ

unfoldable pub get_ephemeral_state : ZkLibrary → Browser → Option EphemeralState
get_ephemeral_state lib b = elim b.ephemeral [
  | none ↦ none
  | some stored ↦ elim (lib.from_secret_key stored.keypair_secret) [
    | none ↦ none
    | some keypair ↦
        some (record {
          keypair = keypair;
          max_epoch = stored.max_epoch;
          randomness = stored.randomness;
        })
  ]
]

unfoldable pub store_zk_state : ZkProofInputs → ℕ → ℕ → ℕ → Browser → Browser
store_zk_state proof max_epoch randomness secret b = record b {
  zk_proof = some (record {
    proof = proof;
    max_epoch = max_epoch;
    randomness = randomness;
    keypair_secret = secret;
    address_seed = proof.address_seed;
  });
}

abbrev pub get_zk_state : Browser → Option StoredZkState
get_zk_state b = b.zk_proof

unfoldable pub clear_zk_state : Browser → Browser
clear_zk_state b = record b { ephemeral = none; zk_proof = none }

-- The message of an exception that `fromSecretKey` throws.
abbrev pub bad_secret : ℕ
bad_secret = 1

unfoldable pub sign_with_zk_login : ZkLibrary → ℕ → StoredZkState → Answer ℕ
sign_with_zk_login lib tx_bytes state = elim (lib.from_secret_key state.keypair_secret) [
  | none ↦ err bad_secret
  | some keypair ↦ ok (
      lib.get_zk_login_signature (record state.proof { address_seed = state.address_seed })
        state.max_epoch (lib.sign_transaction keypair tx_bytes))
]
