-- ===== src/Mock.antt =====
-- The provider that answers by itself (internal/provider/mock.go). `ctx.Done` and `time.Now().Unix()`
-- are steps of an abstract world `W`; a mutex makes the calls of a stream a sequence.
pub mod Fields
pub mod Words
pub mod Chunks
use model_gate.Prelude.{
  ℕ, zero, suc, ◌+◌, ◌%◌, ◌^◌, Bool, true, false, ◌||◌, List, [], ◌∷◌, ◌++◌, Option, none, some,
  String, str_eq, trim_space, text_append, decimal, length, get_elem?, leb, map, if◌then◌else◌, ℤ,
  pos, ◌≡◌, refl,
}
use model_gate.Errors.{Error, sentinel, eof, Result, ok, err}
use model_gate.Requests.{
  ChatMessage, ChatRequest, ChatChoice, ChatResponse, ChatUsage, ChatStreamChunk,
}
use model_gate.Mock.Fields.{fields}

pub record ChatDelta : Type 0 where
  pub role : String
  pub content : String

pub record ChatStreamChoice : Type 0 where
  pub index : ℤ
  pub delta : ChatDelta
  pub finish_reason : Option String

abbrev pub Chunk : Type 0
Chunk = ChatStreamChunk ChatStreamChoice

pub record MockProvider : Type 0 where
  pub sequence : ℕ

pub record MockStream : Type 0 where
  pub chunks : List Chunk
  pub index : ℕ
  pub closed : Bool

-- The loop of mockContent, which runs from the last message to the first.
unfoldable pub last_user : List ChatMessage → Option String
last_user [] = none
last_user (m ∷ ms) = elim (last_user ms) [
  | some content ↦ some content
  | none ↦ if str_eq m.role "user" then some m.content else none
]

unfoldable pub mock_content : List ChatMessage → String
unfolding last_user
mock_content messages = elim (last_user messages) [
  | none ↦ "ModelGate mock response"
  | some content ↦ text_append "Mock response: " (trim_space content)
]

-- splitMockContent: every word but the first has a space before it.
unfoldable pub spaced : List String → List String
spaced [] = []
spaced (word ∷ words) = text_append " " word ∷ spaced words

unfoldable pub split_mock_content : String → List String
unfolding fields spaced
split_mock_content content = elim (fields content) [ [] ↦ [] | word ∷ words ↦ word ∷ spaced words ]

split_mock_content_example :
    split_mock_content " Mock  response: hi " ≡ "Mock" ∷ " response:" ∷ " hi" ∷ []
unfolding split_mock_content
split_mock_content_example = refl

abbrev pub delta_chunk : String → ℤ → String → ChatDelta → Option String → Chunk
delta_chunk id created model delta reason = record {
  id = id;
  object = "chat.completion.chunk";
  created = created;
  model = model;
  choices = record { index = pos 0; delta = delta; finish_reason = reason } ∷ [];
  usage = none;
}

-- The chunks that ChatStream makes.
unfoldable pub mock_chunks : String → ℤ → String → String → List Chunk
unfolding split_mock_content
mock_chunks id created model content =
    delta_chunk id created model (record { role = "assistant"; content = "" }) none
    ∷ (map (λ part. delta_chunk id created model (record { role = ""; content = part }) none)
          (split_mock_content content)
        ++ (delta_chunk id created model (record { role = ""; content = "" }) (some "stop") ∷ []))

-- p.sequence.Add(1), and the id that is made of it.
unfoldable pub next_id : MockProvider → String × MockProvider
unfolding decimal
next_id p =
    let n = (p.sequence + 1) % 2 ^ 64 in
    (text_append "chatcmpl-mock-" (decimal n), record { sequence = n })

abbrev pub no_usage : ChatUsage
no_usage = record { prompt_tokens = pos 0; completion_tokens = pos 0; total_tokens = pos 0 }

-- What Chat returns.
unfoldable pub mock_response : String → ℤ → ChatRequest → ChatResponse
unfolding mock_content
mock_response id created r = record {
  provider = "";
  id = id;
  object = "chat.completion";
  created = created;
  model = r.model;
  choices =
      record {
        index = pos 0;
        message = record { role = "assistant"; content = mock_content r.messages };
        finish_reason = "stop";
      }
      ∷ [];
  usage = no_usage;
}

module _ {W : Type 0} (context : W → Option Error × W) (unix : W → ℤ × W) where
  -- MockProvider.Chat
  unfoldable pub chat : ChatRequest → MockProvider → W → Result ChatResponse × MockProvider × W
  unfolding mock_response next_id
  chat r p w =
      let (ended, w') = context w in
      elim ended [
        | some e ↦ (err e, p, w')
        | none ↦
            let (id, p') = next_id p in
            let (created, w'') = unix w' in (ok (mock_response id created r), p', w'')
      ]

  -- MockProvider.ChatStream
  unfoldable pub chat_stream : ChatRequest → MockProvider → W → Result MockStream × MockProvider × W
  unfolding mock_content next_id mock_chunks
  chat_stream r p w =
      let (ended, w') = context w in
      elim ended [
        | some e ↦ (err e, p, w')
        | none ↦
            let (id, p') = next_id p in
            let (created, w'') = unix w' in
            (
              ok (record {
                chunks = mock_chunks id created r.model (mock_content r.messages);
                index = 0;
                closed = false;
              }),
              p',
              w'',
            )
      ]

module _ {W : Type 0} (context : W → Option Error × W) where
  -- mockStream.Recv
  unfoldable pub recv : MockStream → W → Result Chunk × MockStream × W
  recv s w = if s.closed then (err (sentinel eof), s, w) else elim (get_elem? s.chunks s.index) [
    | none ↦ (err (sentinel eof), s, w)
    | some chunk ↦
        let (ended, w') = context w in
        elim ended [
          | some e ↦ (err e, s, w')
          | none ↦ (ok chunk, record s { index = s.index + 1 }, w')
        ]
  ]

-- mockStream.Close
unfoldable pub close : MockStream → MockStream
close s = record s { closed = true }
