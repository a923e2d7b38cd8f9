-- ===== src/Assistant.antt =====
-- ai/ai.controller.ts, ai/dto/assist.dto.ts and ai/ai.service.ts: the writing assistant. MemWal and OpenRouter
-- are parameters, and so is the table of series.
pub mod Conversation
use arktion_sui_overflow.Prelude.{
  ℕ, ok, err, Result, Option, Bool, List, or_else, if◌then◌else◌, when, ◌+◌, map, not, none, leb,
  some, true, ◌==◌, ◌∷◌, length, [], ◌++◌, ◌&&◌,
}
use arktion_sui_overflow.Stores.Writing.{user_role}
use arktion_sui_overflow.Text.{Text}
use arktion_sui_overflow.Stores.Writing.{AiChatMessage, AssistRequest, Role, trim}
use arktion_sui_overflow.Sui.{opt_eq}

-- What the controller selects of a series that is not deleted.
pub record AssistedSeries : Type 0 where
  pub creator_id : Option ℕ
  pub title : Text
  pub description : Option Text
  pub format_type : ℕ

pub data AssistError : Type 0 where
  invalid_request series_not_found not_owner not_a_novel not_configured : AssistError
  model_failed : ℕ → AssistError

-- `AssistDto`; a model is a number here, and its length is left out.
abbrev pub is_valid_message : AiChatMessage → Bool
is_valid_message m = leb 1 (length m.content) && leb (length m.content) 4000

abbrev pub all_valid : List AiChatMessage → Bool
all_valid [] = true
all_valid (m ∷ ms) = is_valid_message m && all_valid ms

unfoldable pub is_valid_assist : AssistRequest → Bool
is_valid_assist q = leb 1 (length q.prompt) && (leb (length q.prompt) 2000 && all_valid q.history)

-- A memory that MemWal recalls.
pub record Memory : Type 0 where
  pub content : Option Text
  pub text : Option Text

-- The lines of the system prompt, by what stands in them.
pub data Line : Type 0 where
  introduction : Text → Line
  job blank excerpts_follow use_excerpts be_concise : Line
  series_description : Text → Line
  excerpts : List (ℕ × Text) → Line

pub data ChatMessage : Type 0 where
  system_message : List Line → ChatMessage
  chat_message : AiChatMessage → ChatMessage

pub record ChatRequest : Type 0 where
  pub model : ℕ
  pub messages : List ChatMessage

-- `recall` gives none when it throws; `complete` a status, or the first choice if there is one.
pub record Assistants : Type 0 where
  pub has_key : Bool
  pub default_model : ℕ
  pub series : ℕ → Option AssistedSeries
  pub recall : ℕ → Text → ℕ → Option (List Memory)
  pub complete : ChatRequest → Result ℕ (Option Text)

pub record AssistResult : Type 0 where
  pub answer : Text
  pub memories_used : ℕ

-- `m.content ?? m.text ?? ''`, under its number
abbrev pub memory_text : Memory → Text
memory_text m = or_else m.content (or_else m.text [])

abbrev pub number_memories : ℕ → List Memory → List (ℕ × Text)
number_memories i [] = []
number_memories i (m ∷ ms) = (i + 1, memory_text m) ∷ number_memories (i + 1) ms

abbrev pub memory_lines : List Memory → List Line
memory_lines [] = []
memory_lines (m ∷ ms) =
    blank
    ∷ excerpts_follow
    ∷ blank
    ∷ excerpts (number_memories 0 (m ∷ ms))
    ∷ blank
    ∷ use_excerpts
    ∷ []

-- An empty description counts as none.
abbrev pub description_lines : Option Text → List Line
description_lines none = []
description_lines (some []) = []
description_lines (some (c ∷ d)) = blank ∷ series_description (c ∷ d) ∷ []

unfoldable pub system_prompt : AssistedSeries → List Memory → List Line
system_prompt d memories =
    introduction d.title
    ∷ job
    ∷ (description_lines d.description ++ (memory_lines memories ++ blank ∷ be_concise ∷ []))

-- `assist` of the service.
unfoldable pub ask : Assistants → AssistedSeries → AssistRequest → Result AssistError AssistResult
unfolding system_prompt
ask a d q =
    if a.has_key
    then (let memories : List Memory = or_else (a.recall q.series_id q.prompt 6) [] in
        elim (a.complete (record {
          model = or_else q.model a.default_model;
          messages =
              system_message (system_prompt d memories)
              ∷ (map chat_message q.history
                  ++ chat_message (record { role = user_role; content = q.prompt }) ∷ []);
        })) [
          | err status ↦ err (model_failed status)
          | ok choice ↦ ok (record { answer = or_else choice []; memories_used = length memories })
        ])
    else err not_configured

-- `assist` of the controller, for a user who is a creator.
unfoldable pub assist : Assistants → ℕ → AssistRequest → Result AssistError AssistResult
unfolding is_valid_assist ask
assist a user q =
    if is_valid_assist q
    then elim (a.series q.series_id) [
      | none ↦ err series_not_found
      | some d ↦
          if not (opt_eq d.creator_id (some user))
          then err not_owner
          else if not (d.format_type == 0)
          then err not_a_novel
          else ask a d q
    ]
    else err invalid_request
