-- ===== src/Requests.antt =====
-- Requests and their validation (internal/provider/provider.go, internal/service/chat.go).
-- A nil pointer is `none`; a `float64` that is only compared is a fraction.
pub mod Validation
use model_gate.Prelude.{
  ℕ, ◌+◌, Bool, true, false, not, ◌||◌, List, [], ◌∷◌, Option, none, some, String, contains,
  trim_space, str_eq, text_append, decimal, if◌then◌else◌, ℤ, pos, leb_ℤ, Fraction, ltb_ℕ, gtb_ℕ,
}
use model_gate.Errors.{Error, validation, Result, ok, err}

pub record ChatMessage : Type 0 where
  pub role : String
  pub content : String

pub record ChatRequest : Type 0 where
  pub model : String
  pub messages : List ChatMessage
  pub temperature : Option Fraction
  pub top_p : Option Fraction
  pub max_tokens : Option ℤ
  pub stream : Bool

pub record ChatUsage : Type 0 where
  pub prompt_tokens : ℤ
  pub completion_tokens : ℤ
  pub total_tokens : ℤ

pub record ChatChoice : Type 0 where
  pub index : ℤ
  pub message : ChatMessage
  pub finish_reason : String

-- `provider` is not encoded, and not decoded either.
pub record ChatResponse : Type 0 where
  pub provider : String
  pub id : String
  pub object : String
  pub created : ℤ
  pub model : String
  pub choices : List ChatChoice
  pub usage : ChatUsage

-- The entries of a chunk's `choices` do not matter to the gateway: `C` stands for them.
pub record ChatStreamChunk (C : Type 0) : Type 0 where
  pub id : String
  pub object : String
  pub created : ℤ
  pub model : String
  pub choices : List C
  pub usage : Option ChatUsage

abbrev pub valid_roles : List String
valid_roles = "developer" ∷ "system" ∷ "user" ∷ "assistant" ∷ []

abbrev pub is_blank : String → Bool
is_blank s = str_eq (trim_space s) ""

abbrev at_message : ℕ → String → String
at_message index rest = text_append "messages[" (text_append (decimal index) (text_append "]" rest))

check_message : ℕ → ChatMessage → Option Error
check_message index m =
    if not (contains valid_roles m.role)
    then some (validation "invalid_message_role" (at_message index ".role is not supported"))
    else if is_blank m.content
    then some (validation "invalid_message_content" (at_message index ".content is required"))
    else none

-- The loop over the messages; the first that fails decides.
check_messages : ℕ → List ChatMessage → Option Error
unfolding check_message
check_messages index [] = none
check_messages index (m ∷ ms) =
    let rest = check_messages (index + 1) ms in
    elim (check_message index m) [ none ↦ rest | some e ↦ some e ]

abbrev pub outside : Option Fraction → ℕ → Bool
outside none top = false
outside (some q) top = ltb_ℕ q 0 || gtb_ℕ q top

abbrev pub is_nonpositive : Option ℤ → Bool
is_nonpositive none = false
is_nonpositive (some n) = leb_ℤ n (pos 0)

-- The tests after the loop.
check_options : ChatRequest → Option Error
check_options r =
    if outside r.temperature 2
    then some (validation "invalid_temperature" "temperature must be between 0 and 2")
    else if outside r.top_p 1
    then some (validation "invalid_top_p" "top_p must be between 0 and 1")
    else if is_nonpositive r.max_tokens
    then some (validation "invalid_max_tokens" "max_tokens must be greater than zero")
    else none

check_content : ChatRequest → Option Error
unfolding check_messages check_options
check_content r = elim (check_messages 0 r.messages) [ none ↦ check_options r | some e ↦ some e ]

-- ValidateChatRequest
unfoldable pub validate : Option ChatRequest → Option Error
unfolding check_content
validate none = some (validation "invalid_request" "request body is required")
validate (some r) =
    if is_blank r.model
    then some (validation "invalid_model" "model is required")
    else elim r.messages [
      | [] ↦ some (validation "invalid_messages" "messages must contain at least one item")
      | _ ∷ _ ↦ check_content r
    ]

-- ChatService.Chat and ChatStream, around the provider `call`: the error, or what the provider is
-- asked.
unfoldable pub check_mode : Bool → Option ChatRequest → Result ChatRequest
unfolding validate
check_mode streaming none = err (validation "invalid_request" "request body is required")
check_mode streaming (some r) = elim (validate (some r)) [
  | some e ↦ err e
  | none ↦
      if streaming
      then if not r.stream
        then err (validation "invalid_stream_mode" "stream must be true for ChatStream")
        else ok r
      else if r.stream
      then err (validation "invalid_stream_mode" "streaming requests must use ChatStream")
      else ok r
]
