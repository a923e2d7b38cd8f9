-- ===== src/Stores/Session.antt =====
-- lib/auth-context.tsx: the session of the browser over all the stores.
use arktion_sui_overflow.Prelude.{ℕ, ok, err, Option, [], Bool, false, some, none}
use arktion_sui_overflow.Journal.Store.{JournalState}
use arktion_sui_overflow.Stores.{Answer}
use arktion_sui_overflow.Stores.Signing.{
  clear_zk_state, Browser, get_stored_token, set_stored_token, clear_stored_auth,
}
use arktion_sui_overflow.Stores.Profile.{
  InkState, PassportState, BadgesState, reset_ink, reset_passport, reset_badges,
}
use arktion_sui_overflow.Stores.Records.{ReadingState, reset_records}
use arktion_sui_overflow.Stores.Creators.{CreatorState, reset_creator}
use arktion_sui_overflow.Stores.Payments.{PaymentState}
use arktion_sui_overflow.Stores.Browse.{SeriesState}
use arktion_sui_overflow.Stores.Voting.{SubmissionState}
use arktion_sui_overflow.Stores.Writing.{AiState}

-- `AuthUser`, its id.
pub record App : Type 0 where
  pub user : Option ℕ
  pub token : Option ℕ
  pub is_loading : Bool
  pub browser : Browser
  pub ink : InkState
  pub reading : ReadingState
  pub passport : PassportState
  pub journal : JournalState
  pub badges : BadgesState
  pub creator : CreatorState
  pub payment : PaymentState
  pub series : SeriesState
  pub submission : SubmissionState
  pub ai : AiState

abbrev pub no_entries : JournalState
no_entries = record { entries = []; is_loading = false; error = none }

-- The effect on mount, with the answer to GET /auth/me.
unfoldable pub mount : Answer ℕ → App → App
mount me a = elim (get_stored_token a.browser) [
  | none ↦ record a { is_loading = false }
  | some stored ↦ elim me [
    | ok user ↦ record a { token = some stored; user = some user; is_loading = false }
    | err message ↦ record a { browser = clear_stored_auth a.browser; is_loading = false }
  ]
]

-- `completeSignIn`, with the session token and the user of `AuthResult`. The page that calls it is one
-- that Google redirects to, so that its stores are those of a page just loaded.
unfoldable pub complete_sign_in : Answer (ℕ × ℕ) → App → App
complete_sign_in (ok (token, user)) a = record a {
  browser = set_stored_token token a.browser;
  token = some token;
  user = some user;
}
complete_sign_in (err message) a = a

-- `signOut`, whatever becomes of the request to the backend.
unfoldable pub sign_out : Answer (Unit {0}) → App → App
unfolding clear_zk_state reset_ink reset_records reset_passport reset_badges reset_creator
sign_out logout a = record a {
  browser = clear_zk_state (clear_stored_auth a.browser);
  token = none;
  user = none;
  ink = reset_ink a.ink;
  reading = reset_records a.reading;
  passport = reset_passport a.passport;
  journal = no_entries;
  badges = reset_badges a.badges;
  creator = reset_creator a.creator;
}
