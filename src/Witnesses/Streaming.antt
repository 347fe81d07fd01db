-- ===== src/Witnesses/Streaming.antt =====
-- The event stream and the failover at concrete inputs (internal/provider/sse_stream.go,
-- internal/routing/router.go).
use model_gate.Prelude.{
  ℕ, suc, ◌≤◌, ◌≡◌, refl, arith, true, false, if◌then◌else◌, [], ◌∷◌, Option, some, none, String,
  str_eq, pos,
}
use model_gate.Errors.{Error, sentinel, eof, circuit_open, message, Result, ok, err}
use model_gate.Requests.{ChatStreamChunk}
use model_gate.Sse.{Chars, same_chars, byte_count}
use model_gate.Sse.Writer.{stream_completions}
use model_gate.Sse.RoundTrip.{Sendable, read_back, stream_completions_lem}
use model_gate.Requests.{ChatRequest}
use model_gate.Gateway.{RequestMetadata, no_usage}
use model_gate.Gateway.Stream.{Streams, chat_stream}
use model_gate.Gateway.Stream.Metered.{receives, closes}
use model_gate.Gateway.Stream.Opened.{Served, chat_stream-Served}
use model_gate.Witnesses.Service.{Fields, empty, hello, hello_back, order, recording_gateway}
use model_gate.Routing.Failover
use model_gate.Routing.Failover.{Network}
use model_gate.Routing.Failover.Tries.{IsRouted, response_of, stream_of, route_lem}
use model_gate.Witnesses.Selection.{plain_router}

abbrev chunk : String → ChatStreamChunk ℕ
chunk id = record {
  id = id;
  object = "chat.completion.chunk";
  created = pos 1;
  model = "m";
  choices = [];
  usage = none;
}

abbrev braces : ℕ → Chars
braces c = b'{' ∷ c ∷ b'}' ∷ []

abbrev encode : ChatStreamChunk ℕ → Result Chars
encode c =
    if str_eq c.id "1"
    then ok (braces b'1')
    else if str_eq c.id "2"
    then ok (braces b'2')
    else err (message "json")

abbrev decode : Chars → Result (ChatStreamChunk ℕ)
decode text =
    if same_chars text (braces b'1')
    then ok (chunk "1")
    else if same_chars text (braces b'2')
    then ok (chunk "2")
    else err (message "json")

abbrev quiet : ℕ → Option Error × ℕ
quiet w = (none, w)

braces-Sendable :
    (c : ℕ) (id : String)
    → 14 ≤ c
    → c ≤ 100
    → encode (chunk id) ≡ ok (braces c)
    → decode (braces c) ≡ ok (chunk id)
    → str_eq id "" ≡ false
    → Sendable encode decode (chunk id)
unfolding byte_count
braces-Sendable c id low high encoded decoded named = record {
  payload = braces c;
  tail = c ∷ b'}' ∷ [];
  encoded = encoded;
  object = refl;
  plain =
      ((omega arith, omega arith), ((omega arith, omega arith), ((omega arith, omega arith), tt)));
  fits = ground arith;
  decoded = decoded;
  named = named;
  typed = refl;
}

stream_completions_lem_example :
    read_back quiet
      (λ w. refl)
      encode
      decode
      3
      (stream_completions encode (ok (chunk "1") ∷ ok (chunk "2") ∷ err (sentinel eof) ∷ []))
      0
    ≡ some (chunk "1" ∷ chunk "2" ∷ [], some (sentinel eof))
stream_completions_lem_example =
    stream_completions_lem quiet (λ w. refl) encode decode (chunk "1") (chunk "2" ∷ []) 0
      (
        braces-Sendable b'1' "1" (omega arith) (omega arith) refl refl refl,
        (braces-Sendable b'2' "2" (omega arith) (omega arith) refl refl refl, tt),
      )

-- The first target's circuit is open.
abbrev network : {A : Type 0} → A → Network ℕ A
network a = record {
  look = λ w. (λ t. true, w);
  call = λ t w. (if str_eq t.name "a" then err (sentinel circuit_open) else ok (some a), suc w);
}

route_lem_example :
    IsRouted response_of 3 (Failover.chat (network hello_back) plain_router 0)
    × IsRouted {A = String} stream_of 3 (Failover.chat_stream (network "stream") plain_router 0)
route_lem_example = route_lem (network hello_back) (network "stream") plain_router 0

-- A provider whose streams repeat one chunk.
abbrev steady : Streams Fields ℕ ℕ
steady = record {
  start = λ r w. (ok 7, w);
  name = λ i. "deepseek";
  recv = λ i w. (some (record (chunk "1") { usage = some no_usage }), none, w);
  close = λ i w. (none, w);
}

abbrev streamed_hello : ChatRequest
streamed_hello = record hello { stream = true }

abbrev unkeyed : RequestMetadata
unkeyed = record order { idempotency_key = "" }

chat_stream-Served_example :
    (let o =
        chat_stream recording_gateway steady
          (some streamed_hello)
          unkeyed
          (record { world = empty; log = [] }) in
      Served recording_gateway refl steady (receives ∷ closes ∷ []) o.result o.canceled o.state)
chat_stream-Served_example =
    chat_stream-Served recording_gateway refl steady (receives ∷ closes ∷ []) (some streamed_hello)
      unkeyed (record { world = empty; log = [] }) refl
