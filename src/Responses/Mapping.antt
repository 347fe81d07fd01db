-- ===== src/Responses/Mapping.antt =====
-- What the answer to an error says (internal/api/handler.go, internal/service/gateway.go).
use model_gate.Prelude.{
  ◌+◌, ◌*◌, ◌^◌, ◌≤◌, ◌<◌, ◌≡◌, refl, arith, ◌⊎◌, true, false, none, is_some, pos_part,
}
use model_gate.Errors.{
  Error, sentinel, message, wrapped, upstream, upstream_because, validation, rate_limited,
  idempotency, dependency, dependency_because, dns_error, op_error, net_error, errors_is, canceled,
  deadline_exceeded, Decision,
}
use model_gate.Responses.{
  as_rate_limited, as_idempotency, as_dependency, gateway_error_code, write_mapped_error,
  answer_upstream, upstream_answer, retry_after_seconds,
}

-- A chain ends in one error: two of these are never found in the same chain.
ends_once :
    (e : Error)
    → (is_some (as_rate_limited e) ≡ true → as_idempotency e ≡ none)
      × (errors_is e canceled ≡ true → errors_is e deadline_exceeded ≡ false)
unfolding as_rate_limited as_idempotency errors_is
ends_once (sentinel s) = (λ h. refl, λ h. ground arith)
ends_once (message m) = (λ h. ground arith, λ h. ground arith)
ends_once (upstream u) = (λ h. ground arith, λ h. ground arith)
ends_once (validation c m) = (λ h. ground arith, λ h. ground arith)
ends_once (rate_limited d) = (λ h. ground arith, λ h. ground arith)
ends_once (idempotency c) = (λ h. ground arith, λ h. ground arith)
ends_once (dependency c) = (λ h. ground arith, λ h. ground arith)
ends_once (dns_error b) = (λ h. ground arith, λ h. ground arith)
ends_once (upstream_because u e) = ends_once e
ends_once (wrapped m e) = ends_once e
ends_once (dependency_because c e) = ends_once e
ends_once (op_error o b e) = ends_once e
ends_once (net_error b e) = ends_once e

-- The handler and the gateway have the same code for an error, unless its chain has both a rate-limit
-- error and a dependency error.
pub code_agrees :
    (e : Error)
    → (as_rate_limited e ≡ none) ⊎ (as_dependency e ≡ none)
    → (write_mapped_error e).code ≡ gateway_error_code e
unfolding write_mapped_error gateway_error_code answer_upstream upstream_answer
code_agrees e h = grind (arith, ends_once e)

-- The seconds of `Retry-After` cover the decision's delay and exceed it by less than a second,
-- or are the one second that is the least.
pub retry_after_covers :
    (d : Decision)
    → (pos_part d.retry_after ≤ retry_after_seconds d * 10 ^ 9)
      × ((retry_after_seconds d ≡ 1)
          ⊎ (retry_after_seconds d * 10 ^ 9 < pos_part d.retry_after + 10 ^ 9))
unfolding retry_after_seconds
retry_after_covers d = (ground arith, grind arith)
