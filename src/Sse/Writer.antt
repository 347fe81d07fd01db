-- ===== src/Sse/Writer.antt =====
-- What a streamed answer is on the wire (streamChatCompletions and writeSSEChunk in
-- internal/api/handler.go). The answers of the gateway's Recv are a list, in order; a client that goes
-- away, so that a write fails, is not modelled. JSON is the parameter `encode`.
use model_gate.Prelude.{List, [], ◌∷◌, ◌++◌, Option, none, some, if◌then◌else◌}
use model_gate.Errors.{message, eof, errors_is, Result, ok, err}
use model_gate.Requests.{ChatStreamChunk}
use model_gate.Responses.{Answer, write_mapped_error}
use model_gate.Sse.{Chars, done_mark}

abbrev pub data_field : Chars
data_field = b'd' ∷ b'a' ∷ b't' ∷ b'a' ∷ b':' ∷ 32 ∷ []

-- An event with one data line.
unfoldable pub frame : Chars → Chars
frame payload = data_field ++ (payload ++ (10 ∷ 10 ∷ []))

pub data StreamAnswer : Type 0 where
  -- nothing has been written yet, and the error is answered as usual
  refused : Answer → StreamAnswer
  streamed : Chars → StreamAnswer

module _ {C : Type 0} (encode : ChatStreamChunk C → Result Chars) where
  -- writeSSEChunk, and what is written after it.
  unfoldable pub write_chunk : ChatStreamChunk C → Chars → Chars
  write_chunk chunk later = elim (encode chunk) [ err e ↦ [] | ok payload ↦ frame payload ++ later ]

  -- The loop.
  unfoldable pub pump : List (Result (ChatStreamChunk C)) → Chars
  unfolding write_chunk
  pump [] = []
  pump (ok chunk ∷ answers) = write_chunk chunk (pump answers)
  pump (err e ∷ answers) = if errors_is e eof then frame done_mark else []

  -- From `firstChunk, err := result.Stream.Recv()` on; `none` while the first answer is not there.
  unfoldable pub stream_completions : List (Result (ChatStreamChunk C)) → Option StreamAnswer
  unfolding pump write_chunk
  stream_completions [] = none
  stream_completions (err e ∷ answers) = some (
      refused (
        write_mapped_error
          (if errors_is e eof then message "provider stream ended before the first chunk" else e)))
  stream_completions (ok chunk ∷ answers) = some (streamed (write_chunk chunk (pump answers)))
