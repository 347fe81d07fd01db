-- ===== src/Compatible/Calls.antt =====
-- What an adapter's call leaves behind (Chat and ChatStream of internal/provider/openai_compatible.go).
use model_gate.Prelude.{
  ℕ, ◌+◌, ◌≤◌, ◌<◌, map, Bool, true, false, List, [], ◌∷◌, Option, none, some, String, str_eq,
  text_append, ◌≡◌, ◌≢◌, refl, ap, ◌∙◌, eq_iff, not, ◌⊎◌, inl, inr, arith, byte_length, ltb, ltb→ge,
  leb, ◌||◌, if◌then◌else◌,
}
use model_gate.Errors.{
  Error, UpstreamError, message, invalid_response, as_upstream, Result, ok, err,
}
use model_gate.Errors.Transport.{response_of, request_error, status_error}
use model_gate.Requests.{ChatRequest, ChatResponse}
use model_gate.Wiring.Adapters.{Adapter}
use model_gate.Compatible.{
  HttpRequest, HttpResponse, HttpClient, Event, State, sent, opened, closed, request_to, do_request,
  accept_response, read_response, decode_body, check_response, has_no_choice, start_stream, chat,
  chat_stream, after_status, after_media_type, fault, send_request, create_request,
  max_upstream_response_bytes, non_sse, close_body,
}

module _ {B : Type 0} where
  abbrev pub requests : List (Event B) → List HttpRequest
  requests [] = []
  requests (sent r ∷ log) = r ∷ requests log
  requests (opened b ∷ log) = requests log
  requests (closed b ∷ log) = requests log

  -- The answers of the server, each with a body to be closed.
  abbrev pub opens : List (Event B) → List (HttpResponse B)
  opens [] = []
  opens (opened resp ∷ log) = resp ∷ opens log
  opens (sent r ∷ log) = opens log
  opens (closed b ∷ log) = opens log

  abbrev pub closes : List (Event B) → List B
  closes [] = []
  closes (closed b ∷ log) = b ∷ closes log
  closes (sent r ∷ log) = closes log
  closes (opened b ∷ log) = closes log

-- An error that tells the gateway which provider failed.
abbrev pub Names : String → Error → Type 0
Names name e = (u : UpstreamError) × (as_upstream e ≡ some u) × (u.provider ≡ name)

abbrev pub IsSuccess : ℕ → Type 0
IsSuccess code = (200 ≤ code) × (code < 300)

-- What doRequest's test of the status may return.
abbrev Judges : {A : Type 0} → String → ℕ → Result A → Type 0
Judges name code (ok a) = IsSuccess code
Judges name code (err e) = Names name e

response_of-Judges : (name : String) (code : ℕ) → Judges name code (response_of name (ok code))
unfolding response_of status_error as_upstream
response_of-Judges name code = by_test (ltb code 200 || leb 300 code) refl
  where
    by_test :
        (b : Bool)
        → (ltb code 200 || leb 300 code) ≡ b
        → Judges name code (if b then err (status_error name code) else ok code)
    by_test true h = (_, refl, refl)
    by_test false h = ground arith

module _ {W B : Type 0} (c : HttpClient W B) (a : Adapter) (r : ChatRequest) (accept : String) where
  -- A request with this body and the adapter's key, to its endpoint.
  abbrev pub keyed : String → HttpRequest
  keyed body = record {
    url = a.endpoint;
    authorization = text_append "Bearer " a.api_key;
    content_type = "application/json";
    accept = accept;
    body = body;
  }

  -- The one request that is to be sent.
  abbrev pub SendsOne : List (Event B) → Type 0
  SendsOne log = (body : String) × (c.encode r ≡ ok body) × (requests log ≡ keyed body ∷ [])

  -- What a call that fails has done, and one that holds some bodies when it returns.
  abbrev pub Fails : Error → List (Event B) → Type 0
  Fails e log =
      ((requests log ≡ []) × (opens log ≡ []) × (closes log ≡ []))
      ⊎ (SendsOne log × Names a.name e × (map (λ resp. resp.body) (opens log) ≡ closes log))

  abbrev pub Asks : Result (HttpResponse B) × State W B → Type 0
  Asks (err e, s) = Fails e s.log
  Asks (ok resp, s) =
      SendsOne s.log × (opens s.log ≡ resp ∷ []) × (closes s.log ≡ []) × IsSuccess resp.status_code

  module _ (body : String) (encoded : c.encode r ≡ ok body) where
    -- The log once the request is on its way.
    abbrev on_its_way : List (Event B)
    on_its_way = sent (request_to a accept body) ∷ []

    after_status-Asks :
        (resp : HttpResponse B) (status : Result ℕ) (w : W)
        → Judges a.name resp.status_code status
        → Asks (after_status c a resp status (record { world = w; log = opened resp ∷ on_its_way }))
    unfolding after_status
    after_status-Asks resp (err e) w judged = inr ((body, encoded, refl), judged, refl)
    after_status-Asks resp (ok code) w judged = ((body, encoded, refl), refl, refl, judged)

    accept_response-Asks :
        (answer : Result (HttpResponse B)) (w : W)
        → Asks (accept_response c a answer (record { world = w; log = on_its_way }))
    unfolding accept_response request_error as_upstream
    accept_response-Asks (err cause) w = inr ((body, encoded, refl), (_, refl, refl), refl)
    accept_response-Asks (ok resp) w =
        after_status-Asks resp _ w (response_of-Judges a.name resp.status_code)

    send_request-Asks :
        (checked : Option Error) (w : W)
        → Asks (send_request c a accept body checked (record { world = w; log = [] }))
    unfolding send_request
    send_request-Asks (some e) w = inl (refl, refl, refl)
    send_request-Asks none w = accept_response-Asks _ _

  do_request-Asks : (w : W) → Asks (do_request c a r accept (record { world = w; log = [] }))
  unfolding do_request create_request
  do_request-Asks w = by_encoding (c.encode r) refl
    where
      by_encoding :
          (encoding : Result String)
          → c.encode r ≡ encoding
          → Asks (create_request c a accept encoding (record { world = w; log = [] }))
      by_encoding (err e) h = inl (refl, refl, refl)
      by_encoding (ok body) h = send_request-Asks body h _ w

module _ {W B : Type 0} (c : HttpClient W B) (a : Adapter) where
  -- The response is what the text that was read decodes to, with the provider's name.
  abbrev pub Decodes : Result String → ChatResponse → Type 0
  Decodes read response =
      (text : String) × (d : ChatResponse) × (read ≡ ok text)
      × (byte_length text ≤ max_upstream_response_bytes)
      × (c.decode text ≡ ok d)
      × (str_eq d.id "" ≡ false)
      × (d.choices ≢ [])
      × (response ≡ record d { provider = a.name })

  abbrev Decoded : Result String → Result ChatResponse → Type 0
  Decoded read (err e) = Names a.name e
  Decoded read (ok response) = Decodes read response

  has_no_choice_lem : (d : ChatResponse) → has_no_choice d ≡ false → d.choices ≢ []
  unfolding has_no_choice
  has_no_choice_lem d h = ground (arith, h)

  check_response-Decoded :
      (text : String) (decoding : Result ChatResponse)
      → c.decode text ≡ decoding
      → byte_length text ≤ max_upstream_response_bytes
      → Decoded (ok text) (check_response c a decoding)
  unfolding check_response as_upstream
  check_response-Decoded text (err e) h small = (_, refl, refl)
  check_response-Decoded text (ok d) h small = by_test (str_eq d.id "") (has_no_choice d) refl refl
    where
      by_test :
          (no_id : Bool) (no_choice : Bool)
          → str_eq d.id "" ≡ no_id
          → has_no_choice d ≡ no_choice
          → Decoded (ok text) (
              if no_id || no_choice
              then err (
                  fault a "validate response" invalid_response
                    (message "provider returned an incomplete response"))
              else ok (record d { provider = a.name }))
      by_test true no_choice i k = (_, refl, refl)
      by_test false true i k = (_, refl, refl)
      by_test false false i k = (text, d, refl, small, h, i, has_no_choice_lem d k, refl)

  decode_body-Decoded : (read : Result String) → Decoded read (decode_body c a read)
  unfolding decode_body as_upstream
  decode_body-Decoded (err e) = (_, refl, refl)
  decode_body-Decoded (ok text) = by_test (ltb max_upstream_response_bytes (byte_length text)) refl
    where
      by_test :
          (large : Bool)
          → ltb max_upstream_response_bytes (byte_length text) ≡ large
          → Decoded (ok text) (
              if large
              then err (
                  fault a "read response" invalid_response
                    (message "response exceeds 4194304 bytes"))
              else check_response c a (c.decode text))
      by_test true h = (_, refl, refl)
      by_test false h = check_response-Decoded text (c.decode text) refl (ltb→ge _ _ h)

  abbrev pub Answers : ChatRequest → Result ChatResponse × State W B → Type 0
  Answers r (err e, s) = Fails c a r "application/json" e s.log
  Answers r (ok response, s) =
      SendsOne c a r "application/json" s.log
      × (resp : HttpResponse B) × (w : W) × (opens s.log ≡ resp ∷ [])
      × (closes s.log ≡ resp.body ∷ [])
      × IsSuccess resp.status_code
      × Decodes (c.read (max_upstream_response_bytes + 1) resp.body w).0 response

  -- A body that was open and has been closed.
  closed_bodies :
      (resp : HttpResponse B) (log : List (Event B))
      → opens log ≡ resp ∷ []
      → closes log ≡ []
      → map (λ (x : HttpResponse B). x.body) (opens log) ≡ resp.body ∷ closes log
  closed_bodies resp log got shut = rw (got, shut) refl

  after_read-Answers :
      (r : ChatRequest) (resp : HttpResponse B) (w : W) (s : State W B)
      (result : Result ChatResponse)
      → Asks c a r "application/json" (ok resp, s)
      → Decoded (c.read (max_upstream_response_bytes + 1) resp.body w).0 result
      → Answers r (result, close_body c a resp.body s)
  after_read-Answers r resp w s (err e) (one, got, shut, good) d =
      inr (one, d, closed_bodies resp s.log got shut)
  after_read-Answers r resp w s (ok response) (one, got, shut, good) d =
      (one, resp, w, got, ap (◌∷◌ resp.body) shut, good, d)

  read_response-Answers :
      (r : ChatRequest) (answer : Result (HttpResponse B)) (s : State W B)
      → Asks c a r "application/json" (answer, s)
      → Answers r (read_response c a answer s)
  unfolding read_response
  read_response-Answers r (err e) s h = h
  read_response-Answers r (ok resp) s h =
      after_read-Answers r resp s.world _ _ h (decode_body-Decoded _)

  -- A call of Chat that fails has sent nothing and opened no body, or has sent the one request and
  -- closed each body that it opened, and its error names the provider. One that succeeds has sent
  -- the one request, which is the encoding of `r` with the key of the adapter, and has closed the
  -- body of the one answer, whose status is in 200..299; the response is what was read of it, at most
  -- 4 MiB, decodes to, has an id and a choice, and has the name of the adapter.
  pub chat-Answers :
      (r : ChatRequest) (w : W) → Answers r (chat c a r (record { world = w; log = [] }))
  unfolding chat
  chat-Answers r w = read_response-Answers r _ _ (do_request-Asks c a r "application/json" w)

  abbrev pub Starts : ChatRequest → Result B × State W B → Type 0
  Starts r (err e, s) = Fails c a r "text/event-stream" e s.log
  Starts r (ok b, s) =
      SendsOne c a r "text/event-stream" s.log
      × (resp : HttpResponse B) × (opens s.log ≡ resp ∷ [])
      × (closes s.log ≡ [])
      × (b ≡ resp.body)
      × IsSuccess resp.status_code
      × (c.media_type resp.content_type ≡ ok "text/event-stream")

  after_media_type-Starts :
      (r : ChatRequest) (resp : HttpResponse B) (parsed : Result String) (s : State W B)
      → c.media_type resp.content_type ≡ parsed
      → Asks c a r "text/event-stream" (ok resp, s)
      → Starts r (after_media_type c a resp.body parsed s)
  unfolding after_media_type as_upstream
  after_media_type-Starts r resp (err e) s h (one, got, shut, good) =
      inr (one, (_, refl, refl), closed_bodies resp s.log got shut)
  after_media_type-Starts r resp (ok m) s h (one, got, shut, good) =
      by_test (str_eq m "text/event-stream") refl
    where
      by_test :
          (is_stream : Bool)
          → str_eq m "text/event-stream" ≡ is_stream
          → Starts r (
              if not is_stream
              then (err (non_sse a), close_body c a resp.body s)
              else (ok resp.body, s))
      by_test true k =
          (one, resp, got, shut, refl, good, h ∙ ap ok ((eq_iff m "text/event-stream").0 k))
      by_test false k = inr (one, (_, refl, refl), closed_bodies resp s.log got shut)

  start_stream-Starts :
      (r : ChatRequest) (answer : Result (HttpResponse B)) (s : State W B)
      → Asks c a r "text/event-stream" (answer, s)
      → Starts r (start_stream c a answer s)
  unfolding start_stream
  start_stream-Starts r (err e) s h = h
  start_stream-Starts r (ok resp) s h = after_media_type-Starts r resp _ s refl h

  -- A call of ChatStream that fails has sent nothing and opened no body, or has sent the one request
  -- and closed each body that it opened, and its error names the provider. One that succeeds has
  -- sent the one request, which is the encoding of `r` with `stream` set, and returns the body of
  -- the one answer, not closed; its status is in 200..299 and its media type that of an event stream.
  pub chat_stream-Starts :
      (r : ChatRequest) (w : W)
      → Starts (record r { stream = true }) (chat_stream c a r (record { world = w; log = [] }))
  unfolding chat_stream
  chat_stream-Starts r w =
      start_stream-Starts _ _ _
        (do_request-Asks c a (record r { stream = true }) "text/event-stream" w)
