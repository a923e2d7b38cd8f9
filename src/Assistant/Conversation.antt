-- ===== src/Assistant/Conversation.antt =====
-- The conversation of ai.store.ts with the assistant of the backend.
use arktion_sui_overflow.Stores.Writing.{user_role, chosen_model, but_last-append}
use arktion_sui_overflow.Prelude.{
  ℕ, ok, err, true, ◌<◌, ◌+◌, some, length, List, ◌-◌, refl, arith, ◌≡◌, none, [], false, ◌∷◌, ap,
  ◌++◌, ◌∙◌, ◌⊎◌, Option-cases, inr, inl,
}
use arktion_sui_overflow.Stores.Writing.{
  AiState, AssistRequest, send_message, generate_suggestion, start_message, finish_message, trim,
  last_3000,
}
use arktion_sui_overflow.Stores.{Answer}
use arktion_sui_overflow.Text.{Text}
use arktion_sui_overflow.Assistant.{
  Assistants, assist, AssistError, is_valid_assist, all_valid, invalid_request, trim,
}
use arktion_sui_overflow.Catalog.Chapters.{is_text}
use arktion_sui_overflow.Pagination.Slices.{length-drop}

-- The answer that the store gets to a request of the user.
abbrev pub answer_to : Assistants → ℕ → (AssistError → ℕ) → AssistRequest → Answer Text
answer_to a user texts q = elim (assist a user q) [ ok r ↦ ok r.answer | err e ↦ err (texts e) ]

unfoldable pub send_all : (AssistRequest → Answer Text) → List Text → AiState → AiState
unfolding send_message
send_all call [] s = s
send_all call (prompt ∷ ps) s = send_all call ps (send_message prompt call s)

history_refused :
    (a : Assistants) (user : ℕ) (texts : AssistError → ℕ) (q : AssistRequest)
    → all_valid q.history ≡ false
    → answer_to a user texts q ≡ err (texts invalid_request)
unfolding assist
history_refused a user texts q h = ground (arith, h)

text_cases : (t : Text) → (t ≡ []) ⊎ ((c : ℕ) × (cs : Text) × (t ≡ c ∷ cs))
text_cases [] = inl refl
text_cases (c ∷ cs) = inr (c, cs, refl)

send_message-kept :
    (a : Assistants) (user : ℕ) (texts : AssistError → ℕ) (prompt : Text) (s : AiState)
    → all_valid s.messages ≡ false
    → (send_message prompt (answer_to a user texts) s).messages ≡ s.messages
unfolding send_message start_message finish_message
send_message-kept a user texts prompt s h = elim (Option-cases s.series_id) [
  | inl f ↦ ground (arith, f)
  | inr (series, f) ↦ elim (text_cases (trim prompt)) [
    | inl e ↦ ground (arith, f, e)
    | inr (c, cs, e) ↦
        let q : AssistRequest = record {
          series_id = series;
          prompt = c ∷ cs;
          history = s.messages;
          model = chosen_model s.selected_model;
        } in
        ground (
          arith,
          f,
          e,
          history_refused a user texts q h,
          but_last-append s.messages (record { role = user_role; content = c ∷ cs }),
        )
  ]
]

-- Once a message of the conversation is empty or longer than 4000 characters, every later message fails
-- the validation of the backend, whatever is asked: the conversation stays as it is.
pub send_all_stuck :
    (a : Assistants) (user : ℕ) (texts : AssistError → ℕ) (prompts : List Text) (s : AiState)
    → all_valid s.messages ≡ false
    → (send_all (answer_to a user texts) prompts s).messages ≡ s.messages
unfolding send_all
send_all_stuck a user texts [] s h = refl
send_all_stuck a user texts (prompt ∷ ps) s h =
    let kept = send_message-kept a user texts prompt s h in
    send_all_stuck a user texts ps (send_message prompt (answer_to a user texts) s)
      (ap all_valid kept ∙ h)
    ∙ kept

length-append : (s t : Text) → length (s ++ t) ≡ length s + length t
length-append [] t = ground arith
length-append (c ∷ s) t = ground (arith, length-append s t)

-- A suggestion for a text of more than 2000 characters is never made: the prompt with its excerpt fails
-- the validation of the backend.
pub generate_suggestion_refused :
    (a : Assistants) (user : ℕ) (texts : AssistError → ℕ) (instructions content : Text) (series : ℕ)
    (s : AiState)
    → 2000 < length content
    → is_text (trim content) ≡ true
    → let s' = generate_suggestion instructions series content (answer_to a user texts) s in
      (s'.suggestion ≡ none) × (s'.suggest_error ≡ some (texts invalid_request))
unfolding generate_suggestion assist is_valid_assist
generate_suggestion_refused a user texts instructions content series s h k = ground (
  arith,
  h,
  k,
  length-append instructions (last_3000 content),
  length-drop (length content - 3000) content,
)
