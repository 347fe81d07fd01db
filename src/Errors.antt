-- ===== src/Errors.antt =====
-- The error values of the program and the tests on them (internal/provider/error.go, the error types
-- of internal/service/gateway.go and internal/service/chat.go, Decision of internal/ratelimit/redis.go).
-- An `error` in Go is an interface value; here the types that the program makes or inspects are the
-- constructors, and `errors.Is` and `errors.As` walk the `Unwrap` chain. A nil error is `ok`.
pub mod Chain
pub mod Transport
pub mod Classes
use model_gate.Prelude.{
  ℕ, Bool, true, false, ◌||◌, ◌&&◌, Option, none, some, String, leb, ◌==◌, if◌then◌else◌, ℤ, ◌≡◌,
  refl, ◌⊎◌, inl, inr,
}

-- The values that `errors.Is` is asked about.
pub data Sentinel : Type 0 where
  canceled deadline_exceeded eof unexpected_eof circuit_open no_healthy_providers : Sentinel
  not_found : Sentinel

abbrev pub tag : Sentinel → ℕ
tag canceled = 0
tag deadline_exceeded = 1
tag eof = 2
tag unexpected_eof = 3
tag circuit_open = 4
tag no_healthy_providers = 5
tag not_found = 6

pub data ErrorKind : Type 0 where
  http_status network invalid_response unavailable : ErrorKind

abbrev pub is_network : ErrorKind → Bool
is_network network = true
is_network _ = false

abbrev pub is_invalid_response : ErrorKind → Bool
is_invalid_response invalid_response = true
is_invalid_response _ = false

abbrev pub is_unavailable : ErrorKind → Bool
is_unavailable unavailable = true
is_unavailable _ = false

-- `UpstreamError` without its `Cause`, which the constructors below hold. A status code of 0 is the
-- zero value, "no HTTP status".
pub record UpstreamError : Type 0 where
  pub provider : String
  pub operation : String
  pub kind : ErrorKind
  pub status_code : ℕ
  pub retryable : Bool

-- `ratelimit.Decision`; `retry_after` in nanoseconds.
pub record Decision : Type 0 where
  pub allowed : Bool
  pub limit : ℤ
  pub remaining : ℤ
  pub retry_after : ℤ

pub data Error : Type 0 where
  sentinel : Sentinel → Error
  -- errors.New, and fmt.Errorf with no %w
  message : String → Error
  -- fmt.Errorf with %w
  wrapped : String → Error → Error
  upstream : UpstreamError → Error
  upstream_because : UpstreamError → Error → Error
  validation : String → String → Error
  rate_limited : Decision → Error
  idempotency : String → Error
  dependency : String → Error
  dependency_because : String → Error → Error
  -- *net.DNSError with IsTimeout; *net.OpError with Op and Timeout(); any other net.Error
  dns_error : Bool → Error
  op_error : String → Bool → Error → Error
  net_error : Bool → Error → Error

pub data Result {ℓ} (A : Type ℓ) : Type ℓ where
  ok : A → Result A
  err : Error → Result A

pub Result-cases {ℓ} :
    {A : Type ℓ} (r : Result A) → ((a : A) × (r ≡ ok a)) ⊎ ((e : Error) × (r ≡ err e))
Result-cases (ok a) = inl (a, refl)
Result-cases (err e) = inr (e, refl)

unfoldable pub errors_is : Error → Sentinel → Bool
errors_is (sentinel s) t = tag s == tag t
errors_is (wrapped m e) t = errors_is e t
errors_is (upstream_because u e) t = errors_is e t
errors_is (dependency_because c e) t = errors_is e t
errors_is (op_error o b e) t = errors_is e t
errors_is (net_error b e) t = errors_is e t
errors_is _ t = false

-- errors.As with a target of type **UpstreamError.
unfoldable pub as_upstream : Error → Option UpstreamError
as_upstream (upstream u) = some u
as_upstream (upstream_because u e) = some u
as_upstream (wrapped m e) = as_upstream e
as_upstream (dependency_because c e) = as_upstream e
as_upstream (op_error o b e) = as_upstream e
as_upstream (net_error b e) = as_upstream e
as_upstream _ = none

-- IsRetryable
unfoldable pub is_retryable : Error → Bool
is_retryable e =
    if errors_is e canceled
    then false
    else if errors_is e deadline_exceeded
    then true
    else elim (as_upstream e) [ none ↦ false | some u ↦ u.retryable ]

-- IsCircuitFailure, at an error that is not nil.
unfoldable pub is_circuit_failure : Error → Bool
is_circuit_failure e = if errors_is e canceled then false else elim (as_upstream e) [
  | none ↦ true
  | some u ↦
      is_network u.kind
      || is_invalid_response u.kind
      || u.status_code == 429
      || leb 500 u.status_code
]

unfoldable pub upstream_code : Error → UpstreamError → String
upstream_code e u =
    if u.status_code == 429
    then "provider_rate_limited"
    else if u.status_code == 503
    then "provider_unavailable"
    else if is_network u.kind && errors_is e deadline_exceeded
    then "upstream_timeout"
    else if is_network u.kind
    then "provider_network_error"
    else if is_invalid_response u.kind
    then "invalid_provider_response"
    else if is_unavailable u.kind
    then "no_healthy_provider"
    else "provider_request_failed"

-- ErrorCode
unfoldable pub error_code : Error → String
unfolding upstream_code
error_code e =
    if errors_is e deadline_exceeded
    then "upstream_timeout"
    else if errors_is e canceled
    then "request_canceled"
    else elim (as_upstream e) [ none ↦ "provider_request_failed" | some u ↦ upstream_code e u ]
