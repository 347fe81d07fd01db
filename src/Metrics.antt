-- ===== src/Metrics.antt =====
-- What the process counts (internal/metrics/metrics.go). A vector of Prometheus is the function from
-- its labels to its values, 0 where nothing was counted; of a histogram the number of observations is
-- kept. `Counter.Add` panics on a negative number, as its documentation says.
pub mod Attempts
use model_gate.Prelude.{
  ℕ, ◌+◌, Bool, true, false, ◌&&◌, List, [], ◌∷◌, Option, none, some, String, str_eq, ℤ, pos,
  negsuc, leb, decimal, if◌then◌else◌,
}
use model_gate.Errors.{Error, is_retryable, error_code, Result, ok, err}
use model_gate.Requests.{ChatUsage}
use model_gate.Breaker.{state_closed, state_open, state_half_open}
use model_gate.Breaker

-- Two labels, by position.
abbrev pub Labels : Type 0
Labels = String × String

abbrev pub Vec : Type 0
Vec = Labels → ℕ

abbrev pub same_labels : Labels → Labels → Bool
same_labels (a, b) (c, d) = str_eq a c && str_eq b d

-- WithLabelValues(…).Add(n)
unfoldable pub add : Labels → ℕ → Vec → Vec
add l n v k = if same_labels l k then v k + n else v k

pub record Metrics : Type 0 where
  pub requests : Vec
  pub request_durations : Vec
  pub tokens : Vec
  pub provider_errors : Vec
  pub rate_limited : ℕ
  pub cache_hits : ℕ
  pub upstream : Vec
  pub circuit_state : String → ℕ

unfoldable pub new : Metrics
new = record {
  requests = λ l. 0;
  request_durations = λ l. 0;
  tokens = λ l. 0;
  provider_errors = λ l. 0;
  rate_limited = 0;
  cache_hits = 0;
  upstream = λ l. 0;
  circuit_state = λ name. 0;
}

-- The line that is logged, but for its time and its identifiers.
pub record LogLine : Type 0 where
  pub is_error : Bool
  pub route : String
  pub status : ℕ

-- HTTPMiddleware, after the other handlers: by the path, the route that matched and the status.
unfoldable pub observe_request : String → String → ℕ → Metrics → Metrics × Option LogLine
unfolding add
observe_request path full_path status m =
    let route = if str_eq full_path "" then "unmatched" else full_path in
    let labels : Labels = (route, decimal status) in
    if str_eq path "/metrics" then (m, none) else (
      record m {
        requests = add labels 1 m.requests;
        request_durations = add labels 1 m.request_durations;
      },
      some (record { is_error = leb 500 status; route = route; status = status }),
    )

unfoldable pub observe_rate_limited : Metrics → Metrics
observe_rate_limited m = record m { rate_limited = m.rate_limited + 1 }

unfoldable pub observe_cache_hit : Metrics → Metrics
observe_cache_hit m = record m { cache_hits = m.cache_hits + 1 }

-- Whether the call returns; it panics at a negative number.
unfoldable pub add_tokens : String → String → ℤ → Metrics → Metrics × Bool
unfolding add
add_tokens name kind (pos n) m = (record m { tokens = add (name, kind) n m.tokens }, true)
add_tokens name kind (negsuc n) m = (m, false)

abbrev and_then : Metrics × Bool → (Metrics → Metrics × Bool) → Metrics × Bool
and_then (m, true) f = f m
and_then (m, false) f = (m, false)

-- ObserveTokens, and whether it returns: it panics at a negative number of tokens.
unfoldable pub observe_tokens : String → ChatUsage → Metrics → Metrics × Bool
unfolding add_tokens
observe_tokens given usage m =
    let name = if str_eq given "" then "unknown" else given in
    and_then (add_tokens name "input" usage.prompt_tokens m) λ m1.
      and_then (add_tokens name "output" usage.completion_tokens m1)
        λ m2. add_tokens name "total" usage.total_tokens m2

-- ObserveUpstreamAttempt, by the outcome of the attempt.
unfoldable pub observe_attempt {ℓ} : {A : Type ℓ} → String → Result A → Metrics → Metrics
unfolding add
observe_attempt name (ok a) m = record m { upstream = add (name, "success") 1 m.upstream }
observe_attempt name (err e) m = record m {
  provider_errors = add (name, error_code e) 1 m.provider_errors;
  upstream = add (name, if is_retryable e then "retryable_error" else "error") 1 m.upstream;
}

abbrev gauge : Breaker.State → ℕ
gauge state_closed = 0
gauge state_open = 1
gauge state_half_open = 2

-- SetCircuitState
unfoldable pub set_circuit_state : String → Breaker.State → Metrics → Metrics
set_circuit_state name state m = record m {
  circuit_state = λ k. if str_eq name k then gauge state else m.circuit_state k;
}
