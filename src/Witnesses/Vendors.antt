-- ===== src/Witnesses/Vendors.antt =====
-- The providers at concrete inputs (internal/provider/mock.go, internal/provider/openai_compatible.go).
use model_gate.Prelude.{
  ℕ, ◌+◌, ◌≡◌, refl, ◌++◌, map, true, [], ◌∷◌, Option, none, String, length, trim_space, ℤ, pos,
}
use model_gate.Errors.{Error, ok}
use model_gate.Requests.{ChatResponse}
use model_gate.Mock
use model_gate.Mock.{MockProvider, MockStream, Chunk, ChatDelta}
use model_gate.Mock.Chunks.{Carries, reads, chat_stream-Carries, delta_text}
use model_gate.Wiring.Adapters.{Adapter}
use model_gate.Compatible.{HttpClient, chat, chat_stream}
use model_gate.Compatible.Calls.{Answers, Starts, chat-Answers, chat_stream-Starts}
use model_gate.Witnesses.Service.{hello, hello_back}

abbrev steady : ℕ → Option Error × ℕ
steady w = (none, w)

abbrev noon : ℕ → ℤ × ℕ
noon w = (pos 1_764_072_000, w)

abbrev fresh_mock : MockProvider
fresh_mock = record { sequence = 41 }

chat_stream-Carries_example :
    (answer : ChatResponse) × (s : MockStream) × ((Mock.chat steady noon hello fresh_mock 0).0
      ≡ ok answer)
    × ((Mock.chat_stream steady noon hello fresh_mock 0).0 ≡ ok s)
    × Carries answer s.chunks
    × (reads steady (length s.chunks + 2) s 0 ≡ map ok s.chunks ++ Mock.Chunks.eofs 2)
    × (reads steady 2 (Mock.close s) 0 ≡ Mock.Chunks.eofs 2)
chat_stream-Carries_example = chat_stream-Carries steady noon (λ w. refl) hello fresh_mock 0 0 2

-- The pieces of that answer.
hello_pieces :
    Mock.split_mock_content (Mock.mock_content hello.messages)
    ≡ "Mock" ∷ " response:" ∷ " hello" ∷ []
unfolding Mock.split_mock_content Mock.mock_content trim_space
hello_pieces = refl

abbrev vendor : Adapter
vendor = record { name = "deepseek"; endpoint = "https://h/chat/completions"; api_key = "sk" }

-- A server that answers every request with the same body.
abbrev answering : String → HttpClient ℕ ℕ
answering content_type = record {
  create = λ url. none;
  send = λ r w. (ok (record { status_code = 200; content_type = content_type; body = w }), w + 1);
  read = λ n b w. (ok "response", w);
  close = λ b w. w;
  encode = λ r. ok "request";
  decode = λ text. ok hello_back;
  media_type = λ s. ok s;
}

chat-Answers_example :
    Answers
      (answering "application/json")
      vendor
      hello
      (chat (answering "application/json") vendor hello (record { world = 0; log = [] }))
chat-Answers_example = chat-Answers (answering "application/json") vendor hello 0

chat_stream-Starts_example :
    Starts
      (answering "text/event-stream")
      vendor
      (record hello { stream = true })
      (chat_stream (answering "text/event-stream") vendor hello (record { world = 0; log = [] }))
chat_stream-Starts_example = chat_stream-Starts (answering "text/event-stream") vendor hello 0
