-- ===== src/Errors/Classes.antt =====
-- How the classifications of one error agree (internal/provider/error.go).
use model_gate.Prelude.{ℕ, true, false, ◌≡◌, ◌≤◌, ◌<◌, ◌⊎◌, String, arith, ◌||◌, ◌==◌, leb, not}
use model_gate.Errors.{
  Error, canceled, deadline_exceeded, errors_is, as_upstream, is_retryable, is_circuit_failure,
  error_code, ok, err,
}
use model_gate.Errors.Transport.{
  retryable_transport_error, request_error, status_error, response_of,
}

-- A cancellation, however deeply wrapped, is never retried, never counted against the circuit, and
-- unless a deadline stands in the same chain its code is "request_canceled".
pub cancellation_neutral :
    (e : Error)
    → errors_is e canceled ≡ true
    → (is_retryable e ≡ false)
      × (is_circuit_failure e ≡ false)
      × (errors_is e deadline_exceeded ≡ false → error_code e ≡ "request_canceled")
unfolding is_retryable is_circuit_failure error_code
cancellation_neutral e h = (ground arith, ground arith, λ d. ground arith)

-- What `doRequest` returns for an HTTP answer: success for exactly the statuses 200..299; among the
-- others exactly 429 and 503 are retried, and exactly 429 and those from 500 up count against the
-- circuit.
pub response_classes :
    (name : String) (code : ℕ)
    → ((response_of name (ok code) ≡ ok code) × (200 ≤ code) × (code < 300))
      ⊎ ((response_of name (ok code) ≡ err (status_error name code))
          × ((code < 200) ⊎ (300 ≤ code))
          × (is_retryable (status_error name code) ≡ (code == 429 || code == 503))
          × (is_circuit_failure (status_error name code) ≡ (code == 429 || leb 500 code)))
unfolding response_of status_error is_retryable is_circuit_failure errors_is as_upstream
response_classes name code = grind arith

-- The error of a call of `client.Do` that failed is retried exactly when the cause is one of the
-- retryable transport failures, and counts against the circuit exactly when it is no cancellation.
pub request_error_classes :
    (name : String) (cause : Error)
    → (is_retryable (request_error name cause) ≡ retryable_transport_error cause)
      × (is_circuit_failure (request_error name cause) ≡ not (errors_is cause canceled))
unfolding request_error is_retryable is_circuit_failure errors_is as_upstream
    retryable_transport_error
request_error_classes name cause = (ground arith, ground arith)
