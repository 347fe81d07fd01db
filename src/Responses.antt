-- ===== src/Responses.antt =====
-- How an error is answered and recorded: writeMappedError and the headers of internal/api/handler.go;
-- statusForGatewayError, gatewayErrorCode and providerNameFromError of internal/service/gateway.go.
-- An answer is its status, its headers in the order they are set, and the error object of its body.
pub mod Mapping
use model_gate.Prelude.{
  ℕ, ◌+◌, ◌-◌, ◌/◌, ◌^◌, Bool, true, false, not, ◌&&◌, List, [], ◌∷◌, ◌++◌, Option, none, some,
  String, str_eq, is_some, decimal, if◌then◌else◌, ltb, leb, ℤ, pos, pos_part, leb_ℤ,
}
use model_gate.Errors.{
  Error, sentinel, message, wrapped, upstream, upstream_because, validation, rate_limited,
  idempotency, dependency, dependency_because, dns_error, op_error, net_error, errors_is,
  as_upstream, error_code, canceled, deadline_exceeded, UpstreamError, Decision,
}

-- errors.As, with a target of type **ValidationError, **RateLimitError, **IdempotencyError and
-- **DependencyError: the fields of the error that it finds.
unfoldable pub as_validation : Error → Option (String × String)
as_validation (validation c m) = some (c, m)
as_validation (upstream_because u e) = as_validation e
as_validation (wrapped m e) = as_validation e
as_validation (dependency_because c e) = as_validation e
as_validation (op_error o b e) = as_validation e
as_validation (net_error b e) = as_validation e
as_validation _ = none

unfoldable pub as_rate_limited : Error → Option Decision
as_rate_limited (rate_limited d) = some d
as_rate_limited (upstream_because u e) = as_rate_limited e
as_rate_limited (wrapped m e) = as_rate_limited e
as_rate_limited (dependency_because c e) = as_rate_limited e
as_rate_limited (op_error o b e) = as_rate_limited e
as_rate_limited (net_error b e) = as_rate_limited e
as_rate_limited _ = none

unfoldable pub as_idempotency : Error → Option String
as_idempotency (idempotency c) = some c
as_idempotency (upstream_because u e) = as_idempotency e
as_idempotency (wrapped m e) = as_idempotency e
as_idempotency (dependency_because c e) = as_idempotency e
as_idempotency (op_error o b e) = as_idempotency e
as_idempotency (net_error b e) = as_idempotency e
as_idempotency _ = none

unfoldable pub as_dependency : Error → Option String
as_dependency (dependency c) = some c
as_dependency (dependency_because c e) = some c
as_dependency (upstream_because u e) = as_dependency e
as_dependency (wrapped m e) = as_dependency e
as_dependency (op_error o b e) = as_dependency e
as_dependency (net_error b e) = as_dependency e
as_dependency _ = none

unfoldable pub status_for_gateway_error : Error → String
status_for_gateway_error e = if is_some (as_rate_limited e) then "rate_limited" else "failed"

unfoldable pub gateway_error_code : Error → String
gateway_error_code e = elim (as_validation e) [
  | some (c, m) ↦ c
  | none ↦ elim (as_idempotency e) [
    | some c ↦ c
    | none ↦ elim (as_dependency e) [
      | some c ↦ c
      | none ↦
          if is_some (as_rate_limited e)
          then "rate_limit_exceeded"
          else if is_some (as_upstream e)
          then error_code e
          else if errors_is e canceled
          then "request_canceled"
          else if errors_is e deadline_exceeded
          then "upstream_timeout"
          else "provider_request_failed"
    ]
  ]
]

unfoldable pub provider_name_from_error : Error → String → String
provider_name_from_error e fallback = elim (as_upstream e) [
  | some u ↦ if not (str_eq u.provider "") then u.provider else fallback
  | none ↦ fallback
]

pub record Answer : Type 0 where
  pub status : ℕ
  pub headers : List (String × String)
  pub error_type : String
  pub code : String
  pub message : String

-- applyRateLimitHeaders; `max(0, …)` is the positive part.
unfoldable pub rate_limit_headers : Decision → List (String × String)
rate_limit_headers d =
    if leb_ℤ d.limit (pos 0)
    then []
    else ("X-RateLimit-Limit", decimal (pos_part d.limit))
      ∷ ("X-RateLimit-Remaining", decimal (pos_part d.remaining))
      ∷ []

-- max(1, (RetryAfter + time.Second - 1) / time.Second); of a negative duration both are 1.
unfoldable pub retry_after_seconds : Decision → ℕ
retry_after_seconds d =
    let seconds = (pos_part d.retry_after + 10 ^ 9 - 1) / 10 ^ 9 in
    if ltb seconds 1 then 1 else seconds

abbrev pub provider_header : Error → List (String × String)
provider_header e = elim (as_upstream e) [
  | none ↦ []
  | some u ↦ if not (str_eq u.provider "") then ("X-ModelGate-Provider", u.provider) ∷ [] else []
]

abbrev answer : ℕ → List (String × String) → String → String → String → Answer
answer n hs t c m = record { status = n; headers = hs; error_type = t; code = c; message = m }

conflict_message : String → String
conflict_message code =
    if str_eq code "idempotency_key_conflict"
    then "Idempotency-Key was already used with a different request"
    else "a request with this Idempotency-Key is already in progress"

upstream_answer : List (String × String) → String → Answer
upstream_answer hs code =
    if str_eq code "upstream_timeout"
    then answer 504 hs "upstream_error" code "provider request timed out"
    else if str_eq code "no_healthy_provider"
    then answer 503 hs "upstream_error" code "no healthy provider is available"
    else answer 502 hs "upstream_error" code "provider request failed"

-- The last four cases of the `switch`.
answer_upstream : List (String × String) → Error → Answer
unfolding upstream_answer
answer_upstream hs e =
    if is_some (as_upstream e)
    then upstream_answer hs (error_code e)
    else if errors_is e deadline_exceeded
    then answer 504 hs "upstream_error" "upstream_timeout" "provider request timed out"
    else if errors_is e canceled
    then answer 408 hs "request_error" "request_canceled" "request was canceled"
    else answer 502 hs "upstream_error" "provider_request_failed" "provider request failed"

-- writeMappedError
unfoldable pub write_mapped_error : Error → Answer
unfolding answer_upstream conflict_message
write_mapped_error e =
    let hs = provider_header e in
    elim (as_validation e) [
      | some (c, m) ↦ answer 400 hs "invalid_request_error" c m
      | none ↦ elim (as_rate_limited e) [
        | some d ↦
            answer 429
              (hs ++ rate_limit_headers d ++ ("Retry-After", decimal (retry_after_seconds d)) ∷ [])
              "rate_limit_error" "rate_limit_exceeded" "request rate limit exceeded"
        | none ↦ elim (as_idempotency e) [
          | some c ↦
              answer 409 (hs ++ ("Retry-After", "1") ∷ []) "invalid_request_error" c
                (conflict_message c)
          | none ↦ elim (as_dependency e) [
            | some c ↦
                answer 503 hs "service_unavailable_error" c
                  "a required gateway dependency is unavailable"
            | none ↦ answer_upstream hs e
          ]
        ]
      ]
    ]
