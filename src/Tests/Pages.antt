-- ===== src/Tests/Pages.antt =====
-- The theorems of Pages and Assistant on concrete inputs.
use arktion_sui_overflow.Tests.Worlds.{world, db}
use arktion_sui_overflow.World.{World}
use arktion_sui_overflow.Catalog.Rows.{Chapter}
use arktion_sui_overflow.Prelude.{ok, refl, none, ◌∷◌, leb, false, [], some, ◌≡◌, ◌*◌, true, arith}
use arktion_sui_overflow.Payment.Rows.{Payments, TipTransaction, failed, min_tip_usdc}
use arktion_sui_overflow.Tests.Stores.{setting, backend, app}
use arktion_sui_overflow.Stores.Writing.{
  initial_ai, AiState, send_message, start_message, finish_message, trim,
}
use arktion_sui_overflow.Pages.Amounts.{denominator, numerator, to_micro_usdc_value}
use arktion_sui_overflow.Assistant.Conversation.{send_all, answer_to, send_all_stuck}
use arktion_sui_overflow.Pages.Callback.{
  SignInAnswers, handle_callback, Fragment, enters, handle_callback_signs,
}
use arktion_sui_overflow.Pages.TipPage.{to_micro_usdc, TipForm, has_form, is_tip_amount}
use arktion_sui_overflow.Text.{Text, split}
use arktion_sui_overflow.Stores.Signing.{
  init_ephemeral_keypair, ZkLibrary, get_ephemeral_state, StoredZkState, sign_with_zk_login,
}
use arktion_sui_overflow.Pages.Retry.{submit_all, submit_all_refused}
use arktion_sui_overflow.Stores.Session.{App}
use arktion_sui_overflow.Assistant.{Assistants, assist, is_valid_assist, ask, all_valid}
use arktion_sui_overflow.Stores.Payments.{initial_payments}
use arktion_sui_overflow.Pages.ReaderPage.{completes, record_read, record_read_fraction}
use arktion_sui_overflow.Reading.Progress.{last_chapter}

-- 1.05
abbrev amount : Text
amount = 49 ∷ 46 ∷ 48 ∷ 53 ∷ []

amount-has_form : has_form (split b'.' amount) ≡ true
unfolding split
amount-has_form = refl

to_micro_usdc_value_example :
    (denominator amount * to_micro_usdc amount ≡ 1000000 * numerator amount)
    × (is_tip_amount amount ≡ leb min_tip_usdc (to_micro_usdc amount))
to_micro_usdc_value_example = to_micro_usdc_value amount amount-has_form

micro_of_amount : to_micro_usdc amount ≡ 1050000
unfolding to_micro_usdc split
micro_of_amount = refl

abbrev failed_tip : TipTransaction
failed_tip = record {
  id = 4;
  sender_id = 1;
  receiver_id = 2;
  series_id = 3;
  amount_usdc = 1050000;
  idempotency_key = 6;
  status = failed;
  sui_tx_digest = none;
  confirmed_at = none;
}

abbrev failed_backend : Payments
failed_backend = record backend { tip_transactions = failed_tip ∷ [] }

abbrev form : TipForm
form = record { amount = amount; key = some 6; payment = initial_payments }

submit_all_refused_example :
    let (f', s') = submit_all 1 3 ((setting, 21) ∷ (setting, 22) ∷ []) (form, failed_backend) in
    (s' ≡ failed_backend) × (f'.key ≡ some 6)
submit_all_refused_example =
    submit_all_refused 1 3 6 ((setting, 21) ∷ (setting, 22) ∷ []) form failed_backend failed_tip
      refl refl refl

abbrev lib : ZkLibrary
lib = setting.lib

abbrev returned : App
returned = record app {
  browser = record {
    session = none;
    ephemeral = some (record { keypair_secret = 5; max_epoch = 30; randomness = 6 });
    zk_proof = none;
  };
}

abbrev answers : SignInAnswers
answers = record {
  complete = λ token. ok (record { session_token = 7; user = 8; is_new_user = true });
  prove = λ token e. ok (record { proof_points = 3; address_seed = 4 });
}

abbrev fragment : Fragment
fragment = record { id_token = some 2; error_description = none; error = none }

goes_in : enters (handle_callback lib answers fragment returned).0 ≡ true
unfolding handle_callback get_ephemeral_state
goes_in = refl

drawn : returned.browser ≡ (init_ephemeral_keypair lib 5 6 30 returned.browser).1
unfolding init_ephemeral_keypair
drawn = refl

handle_callback_signs_example :
    let a' = (handle_callback lib answers fragment returned).1 in
    (zk : StoredZkState) × (a'.browser.zk_proof ≡ some zk)
    × (zk.max_epoch ≡ 30)
    × (sign_with_zk_login lib 9 zk
        ≡ ok (
            lib.get_zk_login_signature
              (record { proof_points = 3; address_seed = 4 })
              30
              (lib.sign_transaction 5 9)))
handle_callback_signs_example =
    handle_callback_signs lib answers fragment returned returned.browser 5 6 30 2 9
      (record { proof_points = 3; address_seed = 4 }) (λ k. refl) drawn refl refl goes_in

abbrev assistants : Assistants
assistants = record {
  has_key = true;
  default_model = 1;
  series =
      λ id. some (record { creator_id = some 8; title = []; description = none; format_type = 0 });
  recall = λ series prompt limit. none;
  complete = λ q. ok none;
}

-- A conversation in which the assistant has answered nothing.
abbrev talked : AiState
talked =
    send_message (72 ∷ []) (answer_to assistants 8 (λ e. 9))
      (record initial_ai { series_id = some 3 })

talked_messages : all_valid talked.messages ≡ false
unfolding send_message start_message finish_message trim assist is_valid_assist ask
talked_messages = refl

send_all_stuck_example :
    (send_all (answer_to assistants 8 (λ e. 9)) ((73 ∷ []) ∷ []) talked).messages ≡ talked.messages
send_all_stuck_example =
    send_all_stuck assistants 8 (λ e. 9) ((73 ∷ []) ∷ []) talked talked_messages

-- A chapter 10.5, the last one of series 3, and a chapter 10.
abbrev half_chapter : Chapter
half_chapter = record {
  id = 41;
  series_id = 3;
  external_id = none;
  chapter_number = 10500;
  title = none;
  language = 0;
  page_count = 1;
  is_licensed = false;
  published_at = none;
  is_deleted = false;
  pages = [];
}

abbrev whole_chapter : Chapter
whole_chapter = record half_chapter { id = 40; chapter_number = 10000 }

abbrev half_world : World
half_world = record world {
  db = record db {
    chapters = record { series_id = 3; chapter_number = 10500; is_deleted = false } ∷ [];
  };
}

half_last : last_chapter 3 half_world.db.chapters ≡ some 10500
unfolding last_chapter
half_last = refl

record_read_fraction_example :
    completes
      (record_read 2 102 3 true (half_chapter ∷ whole_chapter ∷ []) whole_chapter half_world)
    ≡ false
record_read_fraction_example =
    record_read_fraction 2 102 3 10500 true (half_chapter ∷ whole_chapter ∷ []) whole_chapter
      half_world half_last (ground arith) (ground arith) refl (ground arith)
