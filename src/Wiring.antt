-- ===== src/Wiring.antt =====
-- The providers of a process, made from its configuration (buildProviderRouter of cmd/server/main.go,
-- NewTargetFromConfig of internal/provider/factory.go, NewOpenAICompatibleProvider of
-- internal/provider/openai_compatible.go). `parse_url` is url.Parse: the scheme and the host. The
-- failure ratio is an argument, as the fraction that the configuration's is.
pub mod Adapters
pub mod Accepts
pub mod Built
use model_gate.Prelude.{List, [], ◌∷◌, Option, none, some, String, text_append, Fraction, ℤ, map}
use model_gate.Errors.{wrapped, Result, ok, err}
use model_gate.Errors.Chain.{◌>>=◌}
use model_gate.Config.{Config}
use model_gate.Config.Targets.{ProviderTarget}
use model_gate.Retry
use model_gate.Retry.{Policy}
use model_gate.Breaker
use model_gate.Breaker.{Breaker}
use model_gate.Semaphore
use model_gate.Semaphore.{Semaphore}
use model_gate.Governance
use model_gate.Governance.{Guard}
use model_gate.Routing
use model_gate.Routing.{WeightedTarget, Router}
use model_gate.Wiring.Adapters.{Adapter, new_target}

-- A governed provider, and the weight it is routed with. `adapter` is `none` for the mock.
pub record Governed : Type 0 where
  pub guard : Guard
  pub adapter : Option Adapter
  pub breaker : Breaker
  pub semaphore : Semaphore
  pub weight : ℤ

abbrev pub because_of : {A : Type 0} → String → Result A → Result A
because_of what (ok a) = ok a
because_of what (err e) = err (wrapped what e)

abbrev pub because : {A : Type 0} → String → String → Result A → Result A
because what name m = because_of (text_append what (text_append name "\"")) m

abbrev pub retry_options : Config → Retry.Options
retry_options c = record {
  max_attempts = c.upstream.max_attempts;
  attempt_timeout = c.upstream.attempt_timeout;
  base_backoff = c.upstream.base_backoff;
  max_backoff = c.upstream.max_backoff;
}

abbrev pub breaker_options : Fraction → Config → Breaker.Options
breaker_options ratio c = record {
  window_size = c.circuit.window_size;
  minimum_requests = c.circuit.minimum_requests;
  failure_ratio = ratio;
  open_timeout = c.circuit.open_timeout;
  half_open_max_requests = c.circuit.half_open_max_requests;
}

abbrev pub candidate : Governed → WeightedTarget
candidate g = record { target = some (record { name = g.guard.name }); weight = g.weight }

module _ (parse_url : String → Option (String × String)) (ratio : Fraction) (c : Config) where
  -- One round of the loop.
  pub govern : ProviderTarget → Result Governed
  govern t = do
    adapter ← because "create provider \"" t.name (new_target parse_url c t)
    policy ← because "create retry policy for \"" t.name (Retry.new (retry_options c))
    breaker ← because "create circuit breaker for \"" t.name (Breaker.new (breaker_options ratio c))
    semaphore ←
        because "create concurrency limit for \"" t.name (Semaphore.new c.circuit.max_concurrency)
    guard ← because "govern provider \"" t.name (Governance.new t.name policy)
    ok (record {
      guard = guard;
      adapter = adapter;
      breaker = breaker;
      semaphore = semaphore;
      weight = t.weight;
    })

  -- The loop.
  pub govern_all : List ProviderTarget → Result (List Governed)
  unfolding govern
  govern_all [] = ok []
  govern_all (t ∷ ts) = govern t >>= λ g. govern_all ts >>= λ gs. ok (g ∷ gs)

  -- buildProviderRouter
  unfoldable pub build_provider_router : Result (List Governed × Router)
  unfolding govern_all
  build_provider_router = do
    governed ← govern_all c.providers
    router ←
        because_of "create provider router"
          (Routing.new c.routing_strategy (map candidate governed))
    ok (governed, router)
