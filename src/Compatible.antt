-- ===== src/Compatible.antt =====
-- The calls of an OpenAI-compatible vendor (Chat, ChatStream and doRequest of
-- internal/provider/openai_compatible.go). `net/http`, the bodies of its answers, JSON and
-- `mime.ParseMediaType` are a record of parameters on an abstract world `W`, a body being a handle of
-- type `B`; the context of a call belongs to the world. The log lists, last first, what passes between
-- the adapter and the HTTP client.
pub mod Calls
use model_gate.Prelude.{
  ℕ, ◌+◌, Bool, true, false, not, ◌||◌, List, [], ◌∷◌, Option, none, some, String, str_eq,
  text_append, byte_length, ltb, if◌then◌else◌, ◌≡◌, refl,
}
use model_gate.Errors.{
  Error, ErrorKind, message, wrapped, upstream_because, invalid_response, network, Result, ok, err,
}
use model_gate.Errors.Transport.{retryable_transport_error, request_error, response_of}
use model_gate.Requests.{ChatRequest, ChatResponse, ChatChoice}
use model_gate.Wiring.Adapters.{Adapter}

pub record HttpRequest : Type 0 where
  pub url : String
  pub authorization : String
  pub content_type : String
  pub accept : String
  pub body : String

pub record HttpResponse (B : Type 0) : Type 0 where
  pub status_code : ℕ
  pub content_type : String
  pub body : B

-- `read n` is ReadAll of a LimitReader; `create` is what http.NewRequest finds wrong with a URL.
pub record HttpClient (W B : Type 0) : Type 0 where
  pub create : String → Option Error
  pub send : HttpRequest → W → Result (HttpResponse B) × W
  pub read : ℕ → B → W → Result String × W
  pub close : B → W → W
  pub encode : ChatRequest → Result String
  pub decode : String → Result ChatResponse
  pub media_type : String → Result String

pub data Event (B : Type 0) : Type 0 where
  sent : HttpRequest → Event B
  opened : HttpResponse B → Event B
  closed : B → Event B

pub record State (W B : Type 0) : Type 0 where
  pub world : W
  pub log : List (Event B)

abbrev pub max_upstream_response_bytes : ℕ
max_upstream_response_bytes = 4_194_304

-- An UpstreamError with no status.
abbrev pub fault : Adapter → String → ErrorKind → Error → Error
fault a operation kind cause =
    upstream_because
      (record {
        provider = a.name;
        operation = operation;
        kind = kind;
        status_code = 0;
        retryable = false;
      })
      cause

abbrev pub read_fault : Adapter → Error → Error
read_fault a cause =
    upstream_because
      (record {
        provider = a.name;
        operation = "read response";
        kind = network;
        status_code = 0;
        retryable = retryable_transport_error cause;
      })
      cause

unfoldable pub has_no_choice : ChatResponse → Bool
has_no_choice r = elim r.choices [ [] ↦ true | c ∷ cs ↦ false ]

abbrev pub request_to : Adapter → String → String → HttpRequest
request_to a accept body = record {
  url = a.endpoint;
  authorization = text_append "Bearer " a.api_key;
  content_type = "application/json";
  accept = accept;
  body = body;
}

abbrev pub non_sse : Adapter → Error
non_sse a =
    fault a "validate stream response" invalid_response
      (message "provider returned a non-SSE response")

module _ {W B : Type 0} (c : HttpClient W B) (a : Adapter) where
  abbrev pub close_body : B → State W B → State W B
  close_body b s = record { world = c.close b s.world; log = closed b ∷ s.log }

  -- The test on the status.
  unfoldable pub after_status :
      HttpResponse B → Result ℕ → State W B → Result (HttpResponse B) × State W B
  after_status resp (err e) s = (err e, close_body resp.body s)
  after_status resp (ok code) s = (ok resp, s)

  -- What doRequest makes of the answer of `client.Do`.
  unfoldable pub accept_response :
      Result (HttpResponse B) → State W B → Result (HttpResponse B) × State W B
  unfolding after_status
  accept_response (err cause) s = (err (request_error a.name cause), s)
  accept_response (ok resp) s =
      after_status resp (response_of a.name (ok resp.status_code))
        (record s { log = opened resp ∷ s.log })

  -- doRequest, once http.NewRequest has answered.
  unfoldable pub send_request :
      String → String → Option Error → State W B → Result (HttpResponse B) × State W B
  unfolding accept_response
  send_request accept body (some e) s =
      (err (wrapped (text_append "create " (text_append a.name " request")) e), s)
  send_request accept body none s =
      let request = request_to a accept body in
      let (answer, w) = c.send request s.world in
      accept_response answer (record { world = w; log = sent request ∷ s.log })

  -- doRequest, once the request is encoded.
  unfoldable pub create_request :
      String → Result String → State W B → Result (HttpResponse B) × State W B
  unfolding send_request
  create_request accept (err e) s =
      (err (wrapped (text_append "encode " (text_append a.name " request")) e), s)
  create_request accept (ok body) s = send_request accept body (c.create a.endpoint) s

  unfoldable pub do_request : ChatRequest → String → State W B → Result (HttpResponse B) × State W B
  unfolding create_request
  do_request r accept s = create_request accept (c.encode r) s

  unfoldable pub check_response : Result ChatResponse → Result ChatResponse
  unfolding has_no_choice
  check_response (err e) = err (fault a "decode response" invalid_response e)
  check_response (ok r) =
      if str_eq r.id "" || has_no_choice r
      then err (
          fault a "validate response" invalid_response
            (message "provider returned an incomplete response"))
      else ok (record r { provider = a.name })

  -- What Chat makes of the body that it has read.
  unfoldable pub decode_body : Result String → Result ChatResponse
  unfolding check_response
  decode_body (err e) = err (read_fault a e)
  decode_body (ok text) =
      if ltb max_upstream_response_bytes (byte_length text)
      then err (fault a "read response" invalid_response (message "response exceeds 4194304 bytes"))
      else check_response (c.decode text)

  -- Chat, from the answer of doRequest on; the body is closed when it returns.
  unfoldable pub read_response :
      Result (HttpResponse B) → State W B → Result ChatResponse × State W B
  unfolding decode_body
  read_response (err e) s = (err e, s)
  read_response (ok resp) s =
      let (text, w) = c.read (max_upstream_response_bytes + 1) resp.body s.world in
      (decode_body text, close_body resp.body (record s { world = w }))

  unfoldable pub chat : ChatRequest → State W B → Result ChatResponse × State W B
  unfolding do_request read_response
  chat r s = let (answer, s') = do_request r "application/json" s in read_response answer s'

  -- The test on the media type, `mime.ParseMediaType` having answered.
  unfoldable pub after_media_type : B → Result String → State W B → Result B × State W B
  after_media_type body (err e) s = (err (non_sse a), close_body body s)
  after_media_type body (ok media_type) s =
      if not (str_eq media_type "text/event-stream")
      then (err (non_sse a), close_body body s)
      else (ok body, s)

  -- ChatStream, from the answer of doRequest on: the body that newSSEStream is given.
  unfoldable pub start_stream : Result (HttpResponse B) → State W B → Result B × State W B
  unfolding after_media_type
  start_stream (err e) s = (err e, s)
  start_stream (ok resp) s = after_media_type resp.body (c.media_type resp.content_type) s

  unfoldable pub chat_stream : ChatRequest → State W B → Result B × State W B
  unfolding do_request start_stream
  chat_stream r s =
      let (answer, s') = do_request (record r { stream = true }) "text/event-stream" s in
      start_stream answer s'
