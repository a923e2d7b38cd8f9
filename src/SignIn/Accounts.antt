-- ===== src/SignIn/Accounts.antt =====
-- What sign-in keeps: accounts, passport rows and sessions in the database, and the objects that
-- wallets own on the chain; and what other services answer to one sign-in.
use Prim.Native.Nat.{ℕ}
use arktion_sui_overflow.World.{Delivery}
use arktion_sui_overflow.Prelude.{ℕ, Bool, Option, List, Action, true, false}

pub data SignInError : Type 0 where
  invalid_google_token enoki_failed unique_violation record_not_found : SignInError
  rpc_failed service_unavailable object_missing not_committed : SignInError

-- The type of an object, read by the suffixes that the services test. A type name has one of them at
-- most.
pub data ObjectType : Type 0 where
  arktion_passport user_library user_journal other_type : ObjectType

abbrev pub has_type : ObjectType → ObjectType → Bool
has_type arktion_passport arktion_passport = true
has_type user_library user_library = true
has_type user_journal user_journal = true
has_type _ _ = false

pub record OwnedObject : Type 0 where
  pub owner : ℕ
  pub object_type : ObjectType
  pub object_id : ℕ

pub record Claims : Type 0 where
  pub iss : ℕ
  pub sub : ℕ
  pub email : Option ℕ
  pub name : Option ℕ
  pub picture : Option ℕ

pub data BootstrapState : Type 0 where
  unset pending complete : BootstrapState

pub record Account : Type 0 where
  pub id : ℕ
  pub wallet_address : ℕ
  pub email : Option ℕ
  pub display_name : Option ℕ
  pub avatar_url : Option ℕ
  pub oauth_iss : ℕ
  pub oauth_sub : ℕ
  pub zk_login_salt : ℕ
  pub library_object_id : Option ℕ
  pub journal_object_id : Option ℕ
  pub bootstrap_state : BootstrapState
  pub bootstrap_started_at : Option ℕ
  pub bootstrap_tx_digest : Option ℕ
  pub is_deleted : Bool

pub record Session : Type 0 where
  pub id : ℕ
  pub user_id : ℕ
  pub expires_at : ℕ
  pub revoked_at : Option ℕ
  pub user_agent : Option ℕ
  pub ip_address : Option ℕ

-- `passports` gives the `suiObjectId` of a user's row.
pub record Identity : Type 0 where
  pub accounts : List Account
  pub passports : ℕ → Option ℕ
  pub sessions : List Session
  pub objects : List OwnedObject

abbrev pub SignIn : Type 0 → Type 0
SignIn A = Action SignInError Identity A

pub record ZkAddress : Type 0 where
  pub salt : ℕ
  pub address : ℕ

-- The answers to one sign-in. Google's claims and Enoki's address are none if the call fails; so is
-- the size of a page of `listOwnedObjects`. A transaction gives its three objects fresh ids and also
-- changes the objects `mutated`. `commits` says whether the database commits the last write.
pub record Answers : Type 0 where
  pub claims : Option Claims
  pub enoki : Option ZkAddress
  pub treasury_balance : Option ℕ
  pub min_treasury_balance : ℕ
  pub delivery : Delivery
  pub digest : ℕ
  pub passport_id : ℕ
  pub library_id : ℕ
  pub journal_id : ℕ
  pub mutated : List ℕ
  pub page_size : Option ℕ
  pub commits : Bool
  pub user_id : ℕ
  pub session_id : ℕ
  pub session_ttl_ms : ℕ
  pub now : ℕ
