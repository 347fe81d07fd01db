-- ===== src/Api.antt =====
-- The HTTP handlers (internal/api/handler.go, internal/api/request_id.go). gin is the record of what a
-- request brings; what is answered is a status with its headers and body. The stream of a streaming
-- request is here once it is open: its chunks are written by Sse/Writer. The headers of the event
-- stream itself, which are set before the first of them, are left out.
pub mod RequestId
pub mod Answered
use model_gate.Prelude.{
  ℕ, List, [], ◌∷◌, ◌++◌, Bool, true, false, Option, none, some, String, str_eq, trim_space,
  if◌then◌else◌,
}
use model_gate.Errors.{Error, Result, ok, err}
use model_gate.Requests.{ChatRequest, ChatResponse}
use model_gate.Responses.{Answer, write_mapped_error, rate_limit_headers}
use model_gate.Gateway.{Collaborators, State, RequestMetadata, ChatResult, chat}
use model_gate.Gateway.Stream.{Streams, StreamResult, MeteredStream, chat_stream}
use model_gate.Api.RequestId.{new_request_id}

-- What gin and net/http know of a request: `bound` is what ShouldBindJSON makes of the body, of which
-- at most 1 MiB is read; `host` is the host of net.SplitHostPort, if there is one.
pub record HttpRequest : Type 0 where
  pub remote_addr : String
  pub host : Option String
  pub idempotency_key : String
  pub bound : Result ChatRequest

pub data HttpAnswer (S : Type 0) : Type 0 where
  answered : List (String × String) → ChatResponse → HttpAnswer S
  refused : List (String × String) → Answer → HttpAnswer S
  -- the headers that are set before the first Recv of the stream
  streams : List (String × String) → MeteredStream S → HttpAnswer S

-- requestMetadata
unfoldable pub client_identity : HttpRequest → String
client_identity r =
    let identity : String = elim r.host [ none ↦ r.remote_addr | some host ↦ host ] in
    if str_eq (trim_space identity) "" then "unknown" else identity

unfoldable pub request_metadata : String → HttpRequest → RequestMetadata
unfolding client_identity
request_metadata request_id r = record {
  client_identity = client_identity r;
  idempotency_key = r.idempotency_key;
  request_id = request_id;
}

-- applyResultHeaders
unfoldable pub result_headers : ChatResult → List (String × String)
unfolding rate_limit_headers
result_headers a =
    ("X-Request-ID", a.request_id)
    ∷ ("X-ModelGate-Cache", a.cache_status)
    ∷ ("X-ModelGate-Provider", a.provider)
    ∷ ((if a.idempotency_replayed then ("Idempotency-Replayed", "true") ∷ [] else [])
        ++ rate_limit_headers a.rate_limit)

-- What streamChatCompletions sets of an open stream.
unfoldable pub stream_headers : {S : Type 0} → StreamResult S → List (String × String)
unfolding rate_limit_headers
stream_headers a =
    rate_limit_headers a.rate_limit
    ++ (("X-Request-ID", a.request_id) ∷ ("X-ModelGate-Provider", a.provider) ∷ [])

abbrev pub id_header : String → List (String × String)
id_header request_id = ("X-Request-ID", request_id) ∷ []

abbrev pub invalid_json : Answer
invalid_json = record {
  status = 400;
  headers = [];
  error_type = "invalid_request_error";
  code = "invalid_json";
  message = "request body must be valid JSON and no larger than 1 MiB";
}

abbrev pub no_request_id : Answer
no_request_id = record {
  status = 503;
  headers = [];
  error_type = "service_unavailable_error";
  code = "request_id_unavailable";
  message = "request identifier generation is unavailable";
}

module _ {W S C : Type 0} (c : Collaborators W) (opens : Streams W S C) where
  -- What ChatCompletions answers once the gateway has; `headers` are set before.
  unfoldable pub write_result :
      List (String × String) → Result ChatResult × State W → HttpAnswer S × State W
  unfolding result_headers
  write_result headers (ok a, s) = (answered (headers ++ result_headers a) a.response, s)
  write_result headers (err e, s) = (refused headers (write_mapped_error e), s)

  -- streamChatCompletions, once the gateway has answered.
  unfoldable pub write_stream :
      List (String × String) → Result (StreamResult S) → State W → HttpAnswer S × State W
  unfolding stream_headers
  write_stream headers (err e) s = (refused headers (write_mapped_error e), s)
  write_stream headers (ok a) s = (streams (headers ++ stream_headers a) a.stream, s)

  -- ChatCompletions, once the body is bound.
  unfoldable pub complete_bound :
      String → HttpRequest → Result ChatRequest → State W → HttpAnswer S × State W
  unfolding write_result write_stream request_metadata
  complete_bound id r (err e) s = (refused (id_header id) invalid_json, s)
  complete_bound id r (ok req) s =
      let opened = chat_stream c opens (some req) (request_metadata id r) s in
      if req.stream
      then write_stream (id_header id) opened.result opened.state
      else write_result (id_header id) (chat c (some req) (request_metadata id r) s)

  -- RequestIDMiddleware, once it has an identifier or none, and the handler after it.
  unfoldable pub with_id : Result String → HttpRequest → State W → HttpAnswer S × State W
  unfolding complete_bound
  with_id (err e) r s = (refused [] no_request_id, s)
  with_id (ok id) r s = complete_bound id r r.bound s

  -- POST /v1/chat/completions, by the random bytes that the middleware draws.
  unfoldable pub completions : Result (List ℕ) → HttpRequest → State W → HttpAnswer S × State W
  unfolding with_id new_request_id
  completions bytes r s = with_id (new_request_id bytes) r s
