-- ===== src/Gateway/Stream.antt =====
-- One streaming request through the gateway: GatewayService.ChatStream and meteredStream of
-- internal/service/gateway.go. The provider's stream is an abstract handle `S`, its methods are steps of
-- the world. `canceled` counts the calls of the context's cancel function; the Once of finishOnce is
-- the field `finished`.
pub mod Metered
pub mod Opened
pub mod Named
use model_gate.Prelude.{
  ℕ, ◌+◌, Bool, true, false, not, ◌∷◌, Option, none, some, String, str_eq, trim_space,
  if◌then◌else◌,
}
use model_gate.Errors.{Error, Decision, validation, eof, errors_is, Result, ok, err}
use model_gate.Requests.{ChatRequest, ChatUsage, ChatStreamChunk, check_mode}
use model_gate.Responses.{status_for_gateway_error, gateway_error_code, provider_name_from_error}
use model_gate.Gateway.{
  Collaborators, State, Call, RequestMetadata, called, saw_tokens, note, log_request, no_usage,
  enforce_rate_limit, name_request, unlimited,
}

-- The provider behind ChatService.ChatStream, its streams, and provider.StreamProviderName of one.
pub record Streams (W S C : Type 0) : Type 0 where
  pub start : ChatRequest → W → Result S × W
  pub name : S → String
  pub recv : S → W → Option (ChatStreamChunk C) × Option Error × W
  pub close : S → W → Option Error × W

-- meteredStream, with what its `finish` captures.
pub record MeteredStream (S : Type 0) : Type 0 where
  pub inner : S
  pub call : Call
  pub provider : String
  pub usage : ChatUsage
  pub finished : Bool
  pub canceled : ℕ

pub record StreamResult (S : Type 0) : Type 0 where
  pub stream : MeteredStream S
  pub request_id : String
  pub provider : String
  pub rate_limit : Decision

-- What ChatStream returns: also how often it has canceled the request's context.
pub record Opening (W S : Type 0) : Type 0 where
  pub result : Result (StreamResult S)
  pub canceled : ℕ
  pub state : State W

abbrev pub take_usage : {C : Type 0} → Option (ChatStreamChunk C) → ChatUsage → ChatUsage
take_usage none u = u
take_usage (some chunk) u = elim chunk.usage [ none ↦ u | some v ↦ v ]

abbrev pub close_code : Option Error → String
close_code none = "stream_closed"
close_code (some e) = "stream_close_failed"

module _ {W S C : Type 0} (c : Collaborators W) (streams : Streams W S C) where
  abbrev pub Metering : Type 0
  Metering = MeteredStream S × State W

  -- The function that ChatStream gives to the stream as `finish`.
  pub finish : String → String → MeteredStream S → State W → State W
  unfolding log_request
  finish status code m s =
      note c (saw_tokens m.provider m.usage)
        (log_request c m.call m.provider status m.usage "BYPASS" code s)

  unfoldable pub finish_once : String → String → Metering → Metering
  unfolding finish
  finish_once status code (m, s) =
      if m.finished
      then (m, s)
      else (record m { finished = true; canceled = m.canceled + 1 }, finish status code m s)

  -- The `switch` of Recv.
  unfoldable pub settle_received : Option Error → Metering → Metering
  unfolding finish_once
  settle_received none ms = ms
  settle_received (some e) ms =
      if errors_is e eof
      then finish_once "succeeded" "" ms
      else finish_once "failed" (gateway_error_code e) ms

  -- Recv
  unfoldable pub recv : Metering → (Option (ChatStreamChunk C) × Option Error) × Metering
  unfolding settle_received
  recv (m, s) =
      let (chunk, failure, w) = streams.recv m.inner s.world in
      let m' : MeteredStream S = record m { usage = take_usage chunk m.usage } in
      ((chunk, failure), settle_received failure (m', record s { world = w }))

  -- Close
  unfoldable pub close : Metering → Option Error × Metering
  unfolding finish_once
  close (m, s) =
      let (failure, w) = streams.close m.inner s.world in
      (failure, finish_once "failed" (close_code failure) (m, record s { world = w }))

  -- An error of ChatStream after the request was named: it is recorded, and the context canceled.
  refuse : Call → String → String → Error → State W → Opening W S
  unfolding log_request
  refuse call provider status e s = record {
    result = err e;
    canceled = 1;
    state = log_request c call provider status no_usage "BYPASS" (gateway_error_code e) s;
  }

  abbrev stop : Error → State W → Opening W S
  stop e s = record { result = err e; canceled = 1; state = s }

  -- The stream is open.
  meter : Call → S → State W → Opening W S
  meter call stream s =
      let name = streams.name stream in
      let provider = if str_eq name "unknown" then c.provider_name else name in
      record {
        result = ok (record {
          stream = record {
            inner = stream;
            call = call;
            provider = provider;
            usage = no_usage;
            finished = false;
            canceled = 0;
          };
          request_id = call.request_id;
          provider = provider;
          rate_limit = call.rate_limit;
        });
        canceled = 0;
        state = s;
      }

  -- From `g.chat.ChatStream` on; it checks the request again.
  start_stream : Call → State W → Opening W S
  unfolding refuse meter check_mode
  start_stream call s =
      let refused = λ (e : Error) (s' : State W).
        refuse call (provider_name_from_error e c.provider_name) "failed" e s' in
      elim (check_mode true (some call.request)) [
        | err e ↦ refused e s
        | ok r ↦
            let (opened, w) = streams.start r s.world in
            let s' : State W = record { world = w; log = called r ∷ s.log } in
            elim opened [ err e ↦ refused e s' | ok stream ↦ meter call stream s' ]
      ]

  -- From `startedAt := time.Now()` on.
  limit_stream : ChatRequest → String → String → State W → Opening W S
  unfolding start_stream refuse
  limit_stream r identity request_id s =
      let (now, w) = c.clock s.world in
      let call : Call = record {
        request = r;
        identity = identity;
        key = "";
        request_id = request_id;
        started_at = now;
        rate_limit = unlimited c;
      } in
      let (decision, s') = enforce_rate_limit c identity (record s { world = w }) in
      elim decision [
        | err e ↦ refuse call c.provider_name (status_for_gateway_error e) e s'
        | ok d ↦ start_stream (record call { rate_limit = d }) s'
      ]

  -- ChatStream
  unfoldable pub chat_stream : Option ChatRequest → RequestMetadata → State W → Opening W S
  unfolding limit_stream
  chat_stream req metadata s = elim (check_mode true req) [
    | err e ↦ stop e s
    | ok r ↦
        if not (str_eq (trim_space metadata.idempotency_key) "")
        then stop
            (validation "idempotency_not_supported_for_stream"
              "Idempotency-Key is only supported for non-streaming requests")
            s
        else let (id, s') = name_request c metadata.request_id s in
          elim id [
            | err e ↦ stop e s'
            | ok request_id ↦ limit_stream r metadata.client_identity request_id s'
          ]
  ]
