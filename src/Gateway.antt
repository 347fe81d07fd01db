-- ===== src/Gateway.antt =====
-- One non-streaming request through the gateway: GatewayService.Chat of internal/service/gateway.go,
-- with the key policy of internal/cache/cache.go and the scoped key of internal/idempotency/redis.go.
-- What the service calls is a `Collaborators` record: each call is a step of an abstract world `W`.
-- The contexts that bound a call in time belong to the world. The log lists, last first, the calls
-- that matter to others; `time.Now` is a reading of the world's clock, in nanoseconds.
pub mod Keys
pub mod Leases
pub mod Settled
pub mod Accounts
pub mod Recorded
pub mod Stream
pub mod Once
pub mod Named
use model_gate.Prelude.{
  ℕ, ◌+◌, ◌-◌, Bool, true, false, not, ◌&&◌, ◌||◌, List, [], ◌∷◌, Option, none, some, String,
  str_eq, trim_space, text_append, is_some, if◌then◌else◌, ℤ, pos, leb_ℤ,
}
use model_gate.Errors.{
  Error, message, wrapped, validation, rate_limited, idempotency, dependency, dependency_because,
  Decision, Result, ok, err,
}
use model_gate.Idempotency.{Status, acquired, pending, completed, conflict, LeaseStore}
use model_gate.Requests.{ChatRequest, ChatResponse, ChatUsage, check_mode}
use model_gate.Responses.{status_for_gateway_error, gateway_error_code, provider_name_from_error}
use model_gate.Gateway.Keys.{normalize_key, is_exact_zero}

-- storage.RequestRecord; the cost and the creation time are left at their zero values.
pub record RequestRecord : Type 0 where
  pub request_id : String
  pub provider : String
  pub model : String
  pub status : String
  pub usage : ChatUsage
  pub latency : ℕ
  pub cache_status : String
  pub error_code : String

pub record RequestMetadata : Type 0 where
  pub client_identity : String
  pub idempotency_key : String
  pub request_id : String

pub record ChatResult : Type 0 where
  pub response : ChatResponse
  pub request_id : String
  pub provider : String
  pub cache_status : String
  pub idempotency_replayed : Bool
  pub rate_limit : Decision

-- cache.Store
pub record CacheStore (W : Type 0) : Type 0 where
  pub get : String → W → Result (Option String) × W
  pub set : String → String → W → Option Error × W

-- The fields of GatewayService; those that may be nil are optional. Also `encoding/json` and the
-- hexadecimal SHA-256, and the provider behind ChatService.
pub record Collaborators (W : Type 0) : Type 0 where
  pub limiter : Option (String → W → Result Decision × W)
  pub rate_limit_fail_open : Bool
  pub leases : Option (LeaseStore W)
  pub cache : Option (CacheStore W)
  pub recorder : Option (RequestRecord → W → Option Error × W)
  pub provider_name : String
  pub provider : ChatRequest → W → Result ChatResponse × W
  pub new_request_id : W → Result String × W
  pub clock : W → ℕ × W
  pub encode_request : ChatRequest → Result String
  pub encode_response : ChatResponse → Result String
  pub decode_response : String → Result ChatResponse
  pub digest : String → String

pub data Event : Type 0 where
  called : ChatRequest → Event
  began : String → String → Result (Status × String) → Event
  released : String → String → Event
  cached : String → String → Event
  completed_with : String → String → String → Event
  recorded : RequestRecord → Event
  reported : Error → Event
  saw_rate_limited saw_cache_hit : Event
  saw_tokens : String → ChatUsage → Event

pub record State (W : Type 0) : Type 0 where
  pub world : W
  pub log : List Event

-- What is known of the request while it is served.
pub record Call : Type 0 where
  pub request : ChatRequest
  pub identity : String
  pub key : String
  pub request_id : String
  pub started_at : ℕ
  pub rate_limit : Decision

pub record Lease : Type 0 where
  pub key : String
  pub fingerprint : String
  pub acquired : Bool

abbrev pub no_usage : ChatUsage
no_usage = record { prompt_tokens = pos 0; completion_tokens = pos 0; total_tokens = pos 0 }

abbrev pub Answered : Type 0 → Type 0
Answered W = Result ChatResult × State W

module _ {W : Type 0} (c : Collaborators W) where
  abbrev pub note : Event → State W → State W
  note e s = record s { log = e ∷ s.log }

  abbrev pub report : Option Error → State W → State W
  report none s = s
  report (some e) s = note (reported e) s

  -- record
  unfoldable pub record_request : RequestRecord → State W → State W
  record_request r s = elim c.recorder [
    | none ↦ s
    | some store ↦
        let (failure, w) = store r s.world in
        elim failure [
          | none ↦ record { world = w; log = recorded r ∷ s.log }
          | some e ↦ record {
            world = w;
            log = reported (wrapped "record request usage" e) ∷ recorded r ∷ s.log;
          }
        ]
  ]

  -- A `record` call, with the reading of the clock that stands among its arguments.
  pub log_request : Call → String → String → ChatUsage → String → String → State W → State W
  unfolding record_request
  log_request call provider status usage cache_status error_code s =
      let (now, w) = c.clock s.world in
      record_request
        (record {
          request_id = call.request_id;
          provider = provider;
          model = call.request.model;
          status = status;
          usage = usage;
          latency = now - call.started_at;
          cache_status = cache_status;
          error_code = error_code;
        })
        (record s { world = w })

  -- enforceRateLimit
  unfoldable pub enforce_rate_limit : String → State W → Result Decision × State W
  enforce_rate_limit identity s =
      let pass : Decision = record {
        allowed = true;
        limit = pos 0;
        remaining = pos 0;
        retry_after = pos 0;
      } in
      elim c.limiter [
        | none ↦ (ok pass, s)
        | some allow ↦
            let (r, w) = allow identity s.world in
            elim r [
              | err e ↦
                  let s' : State W = record { world = w; log = reported e ∷ s.log } in
                  if c.rate_limit_fail_open
                  then (ok pass, s')
                  else (err (dependency_because "rate_limiter_unavailable" e), s')
              | ok d ↦
                  if not d.allowed
                  then (err (rate_limited d), record { world = w; log = saw_rate_limited ∷ s.log })
                  else (ok d, record s { world = w })
            ]
      ]

  -- completeIdempotency
  complete_lease : Lease → String → State W → State W
  complete_lease l payload s = if not l.acquired then s else elim c.leases [
    | none ↦ s
    | some store ↦
        let (failure, w) = store.complete l.key l.fingerprint payload s.world in
        report failure
          (record { world = w; log = completed_with l.key l.fingerprint payload ∷ s.log })
  ]

  -- releaseIdempotency
  release_lease : Lease → State W → State W
  release_lease l s = if not l.acquired then s else elim c.leases [
    | none ↦ s
    | some store ↦
        let (failure, w) = store.release l.key l.fingerprint s.world in
        report failure (record { world = w; log = released l.key l.fingerprint ∷ s.log })
  ]

  -- cache.Policy.Key: the key, where the request may be cached.
  unfoldable pub cache_key : String → ChatRequest → Result (Option String)
  cache_key identity r =
      if r.stream || not (is_exact_zero r.temperature) then ok none else elim (c.encode_request r) [
        | err e ↦ err (wrapped "encode cache fingerprint" e)
        | ok canonical ↦ ok (some (c.digest (text_append identity (text_append "\0" canonical))))
      ]

  -- idempotency.ScopedKey
  unfoldable pub scoped_key : String → String → String
  scoped_key identity key = c.digest (text_append identity (text_append "\0" key))

  -- requestFingerprint
  unfoldable pub request_fingerprint : ChatRequest → Result String
  request_fingerprint r = elim (c.encode_request r) [
    | err e ↦ err (wrapped "encode request fingerprint" e)
    | ok payload ↦ ok (c.digest payload)
  ]

  write_cache : Option String → String → State W → State W
  write_cache none payload s = s
  write_cache (some key) payload s = elim c.cache [
    | none ↦ s
    | some store ↦
        let (failure, w) = store.set key payload s.world in
        report failure (record { world = w; log = cached key payload ∷ s.log })
  ]

  abbrev selected_provider : ChatResponse → String
  selected_provider response =
      if str_eq response.provider "" then c.provider_name else response.provider

  -- The response is encoded, and then stored in the cache and under the lease.
  keep_response : Lease → Option String → ChatResponse → State W → State W
  unfolding write_cache complete_lease
  keep_response l key response s = elim (c.encode_response response) [
    | err e ↦ note (reported (wrapped "encode response for Redis" e)) s
    | ok payload ↦ complete_lease l payload (write_cache key payload s)
  ]

  -- From `selectedProvider := response.Provider` to the end of Chat.
  succeed : Call → Lease → Option String → String → ChatResponse → State W → Answered W
  unfolding keep_response log_request
  succeed call l key cache_status response s =
      let name = selected_provider response in
      let kept = keep_response l key response s in
      let logged = log_request call name "succeeded" response.usage cache_status "" kept in
      (
        ok (record {
          response = response;
          request_id = call.request_id;
          provider = name;
          cache_status = cache_status;
          idempotency_replayed = false;
          rate_limit = call.rate_limit;
        }),
        note (saw_tokens name response.usage) logged,
      )

  -- The branch of Chat on the provider's error.
  fail : Call → Lease → String → Error → State W → Answered W
  unfolding release_lease log_request
  fail call l cache_status e s =
      let name = provider_name_from_error e c.provider_name in
      (
        err e,
        log_request call name "failed" no_usage cache_status (gateway_error_code e)
            (release_lease l s),
      )

  call_provider : Call → Lease → Option String → String → State W → Answered W
  unfolding succeed fail check_mode
  call_provider call l key cache_status s = elim (check_mode false (some call.request)) [
    | err e ↦ fail call l cache_status e s
    | ok r ↦
        let (response, w) = c.provider r s.world in
        let s' : State W = record { world = w; log = called r ∷ s.log } in
        elim response [
          | err e ↦ fail call l cache_status e s'
          | ok answer ↦ succeed call l key cache_status answer s'
        ]
  ]

  -- The branch of Chat on a cached response.
  hit : Call → Lease → String → ChatResponse → State W → Answered W
  unfolding complete_lease log_request
  hit call l payload response s =
      let kept = complete_lease l payload (note saw_cache_hit s) in
      (
        ok (record {
          response = response;
          request_id = call.request_id;
          provider = "cache";
          cache_status = "HIT";
          idempotency_replayed = false;
          rate_limit = call.rate_limit;
        }),
        log_request call "cache" "cache_hit" no_usage "HIT" "" kept,
      )

  look_up : Call → Lease → String → CacheStore W → State W → Answered W
  unfolding hit call_provider
  look_up call l key store s =
      let (found, w) = store.get key s.world in
      let s' : State W = record s { world = w } in
      let miss = call_provider call l (some key) "MISS" in
      elim found [
        | err e ↦ miss (note (reported e) s')
        | ok none ↦ miss s'
        | ok (some payload) ↦ elim (c.decode_response payload) [
          | err e ↦ miss (note (reported (wrapped "decode cached response" e)) s')
          | ok response ↦ hit call l payload response s'
        ]
      ]

  pub try_cache : Call → Lease → State W → Answered W
  unfolding look_up call_provider release_lease
  try_cache call l s = elim (cache_key call.identity call.request) [
    | err e ↦ (err (dependency_because "cache_fingerprint_failed" e), release_lease l s)
    | ok none ↦ call_provider call l none "BYPASS" s
    | ok (some key) ↦ elim c.cache [
      | none ↦ call_provider call l (some key) "BYPASS" s
      | some store ↦ look_up call l key store s
    ]
  ]

  -- recordRejected, and the error that it records.
  reject : Call → String → State W → Answered W
  unfolding log_request
  reject call code s = (
    err (idempotency code),
    log_request call c.provider_name "rejected" no_usage "BYPASS"
        (gateway_error_code (idempotency code)) s,
  )

  replay : Call → String → State W → Answered W
  unfolding log_request
  replay call payload s = elim (c.decode_response payload) [
    | err e ↦ (err (dependency_because "idempotency_result_corrupt" e), s)
    | ok response ↦ (
      ok (record {
        response = response;
        request_id = call.request_id;
        provider = "idempotency";
        cache_status = "BYPASS";
        idempotency_replayed = true;
        rate_limit = call.rate_limit;
      }),
      log_request call "idempotency" "idempotency_replay" no_usage "BYPASS" "" s,
    )
  ]

  -- The `switch` on the status that Begin answers.
  after_begin : Call → Lease → Status → String → State W → Answered W
  unfolding try_cache reject replay
  after_begin call l acquired payload s = try_cache call (record l { acquired = true }) s
  after_begin call l pending payload s = reject call "idempotency_request_in_progress" s
  after_begin call l conflict payload s = reject call "idempotency_key_conflict" s
  after_begin call l completed payload s = replay call payload s

  -- What follows Begin, by its answer; `s` is the state with that answer in its log.
  read_answer : Call → Lease → Result (Status × String) → State W → Answered W
  unfolding after_begin
  read_answer call l (err e) s = (err (dependency_because "idempotency_unavailable" e), s)
  read_answer call l (ok (status, payload)) s = after_begin call l status payload s

  begin_lease : Call → LeaseStore W → State W → Answered W
  unfolding read_answer
  begin_lease call store s = elim (request_fingerprint call.request) [
    | err e ↦ (err (dependency_because "request_fingerprint_failed" e), s)
    | ok fingerprint ↦
        let key = scoped_key call.identity call.key in
        let (answer, w) = store.begin key fingerprint s.world in
        read_answer call (record { key = key; fingerprint = fingerprint; acquired = false }) answer
          (record { world = w; log = began key fingerprint answer ∷ s.log })
  ]

  -- Begin, where there is a store.
  lease_from : Option (LeaseStore W) → Call → State W → Answered W
  unfolding begin_lease
  lease_from none call s = (err (dependency "idempotency_unavailable"), s)
  lease_from (some store) call s = begin_lease call store s

  -- The block under `if idempotencyKey != ""`, and what follows it.
  take_lease : Call → State W → Answered W
  unfolding lease_from try_cache
  take_lease call s =
      if str_eq call.key ""
      then try_cache call (record { key = ""; fingerprint = ""; acquired = false }) s
      else lease_from c.leases call s

  abbrev pub unlimited : Decision
  unlimited = record { allowed = false; limit = pos 0; remaining = pos 0; retry_after = pos 0 }

  limit_rate : ChatRequest → String → String → String → State W → Answered W
  unfolding take_lease log_request
  limit_rate r identity key request_id s =
      let (now, w) = c.clock s.world in
      let call : Call = record {
        request = r;
        identity = identity;
        key = key;
        request_id = request_id;
        started_at = now;
        rate_limit = unlimited;
      } in
      let (decision, s') = enforce_rate_limit identity (record s { world = w }) in
      elim decision [
        | err e ↦ (
          err e,
          log_request call c.provider_name (status_for_gateway_error e) no_usage "BYPASS"
              (gateway_error_code e) s',
        )
        | ok d ↦ take_lease (record call { rate_limit = d }) s'
      ]

  -- `strings.TrimSpace` of the caller's id, or a new one.
  pub name_request : String → State W → Result String × State W
  name_request given s =
      if not (str_eq (trim_space given) "")
      then (ok (trim_space given), s)
      else let (id, w) = c.new_request_id s.world in
        let s' : State W = record s { world = w } in
        elim id [
          | err e ↦ (err (dependency_because "request_id_unavailable" e), s')
          | ok name ↦ (ok name, s')
        ]

  -- Chat
  unfoldable pub chat : Option ChatRequest → RequestMetadata → State W → Answered W
  unfolding limit_rate name_request
  chat req metadata s = elim (check_mode false req) [
    | err e ↦ (err e, s)
    | ok r ↦ elim (normalize_key metadata.idempotency_key) [
      | err e ↦ (err e, s)
      | ok key ↦
          let (id, s') = name_request metadata.request_id s in
          elim id [
            | err e ↦ (err e, s')
            | ok request_id ↦ limit_rate r metadata.client_identity key request_id s'
          ]
    ]
  ]
