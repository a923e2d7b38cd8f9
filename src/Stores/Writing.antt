-- ===== src/Stores/Writing.antt =====
-- ai.store.ts: the conversation with the writing assistant.
use arktion_sui_overflow.Prelude.{
  ℕ, ok, err, Bool, false, true, List, Option, ◌∷◌, if◌then◌else◌, none, ◌||◌, ◌++◌, length, ◌&&◌,
  [], some, ◌-◌, leb, ◌==◌, ◌≡◌, arith, refl,
}
use arktion_sui_overflow.Text.{Text}
use mathlib.Core.List.{reverse}
use arktion_sui_overflow.Stores.{Answer}
use arktion_sui_overflow.Pagination.{drop}
use arktion_sui_overflow.Sui.{opt_eq}

pub data Role : Type 0 where
  user_role assistant_role : Role

pub record AiChatMessage : Type 0 where
  pub role : Role
  pub content : Text

-- A model is a number; 0 is `DEFAULT_MODEL`.
abbrev pub default_model : ℕ
default_model = 0

pub record AiState : Type 0 where
  pub open_ : Bool
  pub series_id : Option ℕ
  pub messages : List AiChatMessage
  pub loading : Bool
  pub error : Option ℕ
  pub selected_model : ℕ
  pub suggestion : Option Text
  pub suggesting : Bool
  pub suggest_error : Option ℕ
  pub auto_mode : Bool

abbrev pub initial_ai : AiState
initial_ai = record {
  open_ = false;
  series_id = none;
  messages = [];
  loading = false;
  error = none;
  selected_model = default_model;
  suggestion = none;
  suggesting = false;
  suggest_error = none;
  auto_mode = false;
}

unfoldable pub open_chat : ℕ → AiState → AiState
open_chat series s = record s { open_ = true; series_id = some series }

unfoldable pub close_chat : AiState → AiState
close_chat s = record s { open_ = false }

-- What is asked of the backend: the series, the prompt, the messages so far, and a model that is
-- not the default.
pub record AssistRequest : Type 0 where
  pub series_id : ℕ
  pub prompt : Text
  pub history : List AiChatMessage
  pub model : Option ℕ

abbrev pub chosen_model : ℕ → Option ℕ
chosen_model m = if m == default_model then none else some m

-- The white space and line ends that `trim` removes.
abbrev pub is_blank : ℕ → Bool
is_blank c =
    (c == 32 || leb 9 c && leb c 13)
    || (c == 160 || c == 5760 || leb 8192 c && leb c 8202)
    || (c == 8232 || c == 8233 || c == 8239)
    || (c == 8287 || c == 12288 || c == 65279)

abbrev pub trim_start : Text → Text
trim_start [] = []
trim_start (c ∷ s) = if is_blank c then trim_start s else c ∷ s

unfoldable pub trim : Text → Text
trim s = reverse (trim_start (reverse (trim_start s)))

-- What the assistant is asked, if there is a series and a prompt, before the answer.
unfoldable pub start_message : Text → AiState → Option (AssistRequest × AiState)
unfolding trim
start_message prompt s = elim s.series_id [
  | none ↦ none
  | some series ↦ elim (trim prompt) [
    | [] ↦ none
    | c ∷ cs ↦ some (
      record {
        series_id = series;
        prompt = c ∷ cs;
        history = s.messages;
        model = chosen_model s.selected_model;
      },
      record s {
        messages = s.messages ++ record { role = user_role; content = c ∷ cs } ∷ [];
        loading = true;
        error = none;
      },
    )
  ]
]

-- `messages.slice(0, -1)`
abbrev pub but_last : List AiChatMessage → List AiChatMessage
but_last [] = []
but_last (m ∷ []) = []
but_last (m ∷ n ∷ ms) = m ∷ but_last (n ∷ ms)

-- What the answer does.
unfoldable pub finish_message : Answer Text → AiState → AiState
finish_message (ok answer) s = record s {
  messages = s.messages ++ record { role = assistant_role; content = answer } ∷ [];
  loading = false;
}
finish_message (err message) s = record s {
  messages = but_last s.messages;
  loading = false;
  error = some message;
}

-- `sendMessage`, when nothing else changes the store before the answer.
unfoldable pub send_message : Text → (AssistRequest → Answer Text) → AiState → AiState
unfolding start_message finish_message
send_message prompt assist s = elim (start_message prompt s) [
  | none ↦ s
  | some (q, s') ↦ finish_message (assist q) s'
]

unfoldable pub reset_ai : AiState → AiState
reset_ai s = record s {
  open_ = false;
  series_id = none;
  messages = [];
  loading = false;
  error = none;
  suggestion = none;
  suggesting = false;
  suggest_error = none;
}

unfoldable pub init_session : ℕ → AiState → AiState
init_session series s =
    if opt_eq s.series_id (some series)
    then s
    else record s { series_id = some series; messages = []; error = none }

unfoldable pub set_model : ℕ → AiState → AiState
set_model m s = record s { selected_model = m }

unfoldable pub set_auto_mode : Bool → AiState → AiState
set_auto_mode enabled s = record s { auto_mode = enabled }

unfoldable pub clear_suggestion : AiState → AiState
clear_suggestion s = record s { suggestion = none; suggest_error = none }

-- `content.slice(-3000)`
abbrev pub last_3000 : Text → Text
last_3000 content = drop (length content - 3000) content

-- `generateSuggestion`, where `instructions` is the fixed text before the excerpt.
unfoldable pub generate_suggestion :
    Text → ℕ → Text → (AssistRequest → Answer Text) → AiState → AiState
unfolding trim
generate_suggestion instructions series content assist s = elim (trim content) [
  | [] ↦ s
  | c ∷ cs ↦
      elim (assist (record {
        series_id = series;
        prompt = instructions ++ last_3000 content;
        history = [];
        model = chosen_model s.selected_model;
      })) [
        | ok answer ↦ record s {
          suggestion = some answer;
          suggesting = false;
          suggest_error = none;
        }
        | err message ↦ record s {
          suggestion = none;
          suggesting = false;
          suggest_error = some message;
        }
      ]
]

pub but_last-append : (ms : List AiChatMessage) (m : AiChatMessage) → but_last (ms ++ m ∷ []) ≡ ms
but_last-append [] m = refl
but_last-append (x ∷ []) m = refl
but_last-append (x ∷ y ∷ ms) m = ground (arith, but_last-append (y ∷ ms) m)

-- A message that the assistant fails to answer leaves no trace in the conversation.
pub send_message_failed :
    (prompt : Text) (message : ℕ) (s : AiState)
    → (send_message prompt (λ q. err message) s).messages ≡ s.messages
unfolding send_message start_message finish_message
send_message_failed prompt message s =
    ground (arith, but_last-append s.messages (record { role = user_role; content = trim prompt }))
