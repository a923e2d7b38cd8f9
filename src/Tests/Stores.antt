-- ===== src/Tests/Stores.antt =====
-- The theorems of Stores on a state.
use arktion_sui_overflow.Prelude.{ok, refl, false, some, true, find, ◌≡◌, ltb, ◌∷◌, none, ◌+◌, []}
use arktion_sui_overflow.Tests.Worlds.{world, submission, db}
use arktion_sui_overflow.World.{World, SubmissionVote}
use arktion_sui_overflow.Payment.Rows.{Payments, Client, executed, build_transfer, run_signed}
use arktion_sui_overflow.Payment.Tips.{
  TipParams, build_tip_transaction, prepare_tip, check_tip_retry, tip_receiver, finish_tip,
  insert_tip, create_tip, confirm_tip, settle_tip,
}
use arktion_sui_overflow.Submission.Voting.{CastVoteResponse, cast_vote, record_vote}
use arktion_sui_overflow.Stores.Voting.{SubmissionState, initial, is_shown, vote, approval_pct}
use arktion_sui_overflow.Stores.Numbers.{
  pos, negsuc, round_permille, thousandfold, scale, power_of_two, round_even,
}
use arktion_sui_overflow.Stores.Signing.{Browser, StoredZkState, sign_with_zk_login}
use arktion_sui_overflow.Stores.Payments.{send_tip, Setting, initial_payments}
use arktion_sui_overflow.Stores.Session.{App, no_entries}
use arktion_sui_overflow.Stores.Flows.{run_flow, flow_steps, success}
use arktion_sui_overflow.Stores.Profile.{no_ink, no_passport}
use arktion_sui_overflow.Stores.Records.{no_records}
use arktion_sui_overflow.Submission.Tally.{build_tally, count_votes, share}
use arktion_sui_overflow.Stores.Tallies.{shown, expected, vote_shown}
use arktion_sui_overflow.Stores.Paid.{Reports, send_tip-Reports}
use arktion_sui_overflow.Submission.Listing.{to_dto}
use arktion_sui_overflow.Submission.Rows.{upsert_vote}
use arktion_sui_overflow.Stores.Fetching.{not_fetched}
use arktion_sui_overflow.Stores.Browse.{no_series}
use arktion_sui_overflow.Stores.Writing.{initial_ai}
use arktion_sui_overflow.Stores.Creators.{initial_creator}

-- A reader of 300 INK who has voted against the submission.
abbrev old_vote : SubmissionVote
old_vote = record { submission_id = 5; voter_id = 2; vote = false; ink_weight = 300 }

abbrev voting_world : World
voting_world = record world {
  db = record db {
    ink_balances = λ u. some (record { balance = 300; last_updated_at = 1 });
    votes = old_vote ∷ [];
  };
}

abbrev shown_state : SubmissionState
shown_state = record initial {
  submissions = shown (to_dto (some 2) 9 voting_world submission) ∷ [];
}

abbrev accepted : CastVoteResponse
accepted = record { submission_id = 5; vote = true; ink_weight = 300; auto_finalised = false }

vote_accepted : (cast_vote 5 2 true 10 voting_world).0 ≡ ok accepted
unfolding cast_vote record_vote build_tally upsert_vote count_votes share
vote_accepted = refl

vote_shown_example :
    find (is_shown 5) (vote 5 true (ok accepted) shown_state).submissions
    ≡ expected accepted
        (ltb 1000 9)
        (to_dto (some 2) 10 (cast_vote 5 2 true 10 voting_world).1 submission)
unfolding to_dto
vote_shown_example =
    vote_shown 5 2 true 9 10 voting_world submission shown_state accepted refl refl refl
      vote_accepted

abbrev zk_state : StoredZkState
zk_state = record {
  proof = record { proof_points = 3; address_seed = 4 };
  max_epoch = 20;
  randomness = 5;
  keypair_secret = 6;
  address_seed = 4;
}

abbrev browser : Browser
browser = record { session = some 1; ephemeral = none; zk_proof = some zk_state }

abbrev client : Client
client = record {
  get_balance = λ w. some 50000;
  build = λ a b c. some 8;
  execute = λ b s. executed 77;
}

abbrev pub setting : Setting
setting = record {
  lib = record {
    get_public_key = λ k. k;
    get_secret_key = λ k. k;
    generate_nonce = λ a b c. a + b + c;
    from_secret_key = λ s. some s;
    sign_transaction = λ k b. k + b;
    get_zk_login_signature = λ proof epoch s. s;
  };
  browser = browser;
  client = client;
  epoch = ok 19;
  new_id = 11;
  now = 10;
  arrives = true;
  texts = λ e. 9;
}

abbrev pub backend : Payments
backend = record {
  users = λ u. some (100 + u);
  series = λ s. some (some 2);
  tip_transactions = [];
  send_transactions = [];
}

abbrev params : TipParams
params = record { sender_id = 1; series_id = 3; amount_usdc = 30000; idempotency_key = 9 }

-- The flow of the example succeeds.
tip_succeeds : (send_tip setting params initial_payments backend).0.tip.stage ≡ success
unfolding send_tip run_flow flow_steps sign_with_zk_login build_tip_transaction prepare_tip
    check_tip_retry tip_receiver build_transfer finish_tip insert_tip create_tip confirm_tip
    settle_tip run_signed
tip_succeeds = refl

send_tip-Reports_example :
    let (state', s') = send_tip setting params initial_payments backend in
    Reports setting params backend state'.tip.stage state'.tip.tx_digest s'
send_tip-Reports_example = send_tip-Reports setting params initial_payments backend

abbrev pub app : App
app = record {
  user = some 1;
  token = some 1;
  is_loading = false;
  browser = browser;
  ink = no_ink;
  reading = no_records;
  passport = no_passport;
  journal = no_entries;
  badges = not_fetched;
  creator = initial_creator;
  payment = record initial_payments {
    usdc_balance = record { value = some 50000; loading = false; error = none };
  };
  series = no_series;
  submission = initial;
  ai = initial_ai;
}

-- The doubles of 2010 / 4000 and of 1 / 3, and a difference that is negative.
percents :
    (approval_pct (pos 2010) (pos 4000) ≡ pos 502)
    × (approval_pct (pos 1) (pos 3) ≡ pos 333)
    × (approval_pct (pos 400) (pos 640) ≡ pos 625)
    × (approval_pct (negsuc 4) (pos 10) ≡ negsuc 499)
unfolding approval_pct round_permille thousandfold scale power_of_two round_even
percents = (refl, refl, refl, refl)
