-- ===== src/Config/Loaded.antt =====
-- What a loaded configuration satisfies (Load of internal/config/config.go).
use model_gate.Prelude.{
  ℕ, ◌≡◌, arith, true, false, ◌||◌, String, str_eq, contains, trim_space, trim_space-twice, ℤ, pos,
  ◌≤ℤ◌, All,
}
use model_gate.Errors.{Result, ok, err}
use model_gate.Errors.Chain.{◌>>=◌, Ensures, Ensures-bind, Ensures-then, Ensures-seq, Ensures-ok}
use model_gate.Config.{
  Upstream, Circuit, RedisPart, PostgresPart, Config, load_upstream, load_circuit, load_redis,
  load_postgres, load, log_levels,
}
use model_gate.Config.Readers.{
  Host, Float, is_outside_ratio, positive_duration, positive_int, positive_ratio, non_negative_int,
}
use model_gate.Config.Targets.Names.{AreSome, provider_targets-AreSome, HasKey, check_keys-HasKey}

pub record IsUpstream (u : Upstream) : Type 0 where
  pub attempts : pos 1 ≤ℤ u.max_attempts
  pub few_attempts : u.max_attempts ≤ℤ pos 10
  pub attempt : pos 1 ≤ℤ u.attempt_timeout
  pub within : u.attempt_timeout ≤ℤ u.request_timeout
  pub base : pos 1 ≤ℤ u.base_backoff
  pub below : u.base_backoff ≤ℤ u.max_backoff

pub record IsCircuit (c : Circuit) : Type 0 where
  pub minimum : pos 1 ≤ℤ c.minimum_requests
  pub within : c.minimum_requests ≤ℤ c.window_size
  pub ratio : is_outside_ratio c.failure_ratio ≡ false
  pub open_timeout : pos 1 ≤ℤ c.open_timeout
  pub probes : pos 1 ≤ℤ c.half_open_max_requests
  pub concurrency : pos 1 ≤ℤ c.max_concurrency
  pub bounded : c.max_concurrency ≤ℤ pos 10000

pub record IsRedisPart (r : RedisPart) : Type 0 where
  pub timeout : pos 1 ≤ℤ r.timeout
  pub database : pos 0 ≤ℤ r.database
  pub rpm : pos 1 ≤ℤ r.rate_limit_rpm
  pub burst : pos 1 ≤ℤ r.rate_limit_burst
  pub ttl : pos 1 ≤ℤ r.idempotency_ttl
  pub lock_ttl : pos 1 ≤ℤ r.idempotency_lock_ttl
  pub cache_ttl : pos 1 ≤ℤ r.cache_ttl

pub record IsPostgresPart (p : PostgresPart) : Type 0 where
  pub conns : pos 1 ≤ℤ p.max_conns
  pub few_conns : p.max_conns ≤ℤ pos 100
  pub timeout : pos 1 ≤ℤ p.storage_timeout

pub record IsLoaded (c : Config) : Type 0 where
  pub upstream : IsUpstream c.upstream
  pub circuit : IsCircuit c.circuit
  pub redis : IsRedisPart c.redis
  pub postgres : IsPostgresPart c.postgres
  pub strategy :
      str_eq c.routing_strategy "round_robin" || str_eq c.routing_strategy "weighted_round_robin"
      ≡ true
  pub level : contains log_levels c.log_level ≡ true
  pub targets : AreSome c.providers
  pub deepseek_key : trim_space c.deepseek_api_key ≡ c.deepseek_api_key
  pub openai_key : trim_space c.openai_api_key ≡ c.openai_api_key
  pub keys : All (HasKey c.deepseek_api_key c.openai_api_key) c.providers

abbrev IsPositive : ℤ → Type 0
IsPositive v = pos 1 ≤ℤ v

Ensures-any : {A : Type 0} (m : Result A) → Ensures (λ _. Unit {0}) m
Ensures-any (ok a) = tt
Ensures-any (err e) = tt

module _ (h : Host) where
  positive_duration-IsPositive :
      (name fallback : String) → Ensures IsPositive (positive_duration h name fallback)
  unfolding positive_duration
  positive_duration-IsPositive name fallback = ground arith

  positive_int-IsPositive :
      (name : String) (fallback : ℕ) → Ensures IsPositive (positive_int h name fallback)
  unfolding positive_int
  positive_int-IsPositive name fallback = ground arith

  abbrev IsRatio : Float → Type 0
  IsRatio v = is_outside_ratio v ≡ false

  positive_ratio-IsRatio :
      (name fallback : String) → Ensures IsRatio (positive_ratio h name fallback)
  unfolding positive_ratio
  positive_ratio-IsRatio name fallback = ground arith

  -- The steps of a block, with what each ensures.
  abbrev duration :
      {B : Type 0} (Q : B → Type 0) (name fallback : String) (f : ℤ → Result B)
      → ((v : ℤ) → IsPositive v → Ensures Q (f v))
      → Ensures Q (positive_duration h name fallback >>= f)
  duration Q name fallback f k =
      Ensures-bind IsPositive Q (positive_duration h name fallback) f
        (positive_duration-IsPositive name fallback) k

  abbrev number :
      {B : Type 0} (Q : B → Type 0) (name : String) (fallback : ℕ) (f : ℤ → Result B)
      → ((v : ℤ) → IsPositive v → Ensures Q (f v))
      → Ensures Q (positive_int h name fallback >>= f)
  number Q name fallback f k =
      Ensures-bind IsPositive Q (positive_int h name fallback) f
        (positive_int-IsPositive name fallback) k

  non_negative_int-lem :
      (name : String) (fallback : ℕ) → Ensures (λ v. pos 0 ≤ℤ v) (non_negative_int h name fallback)
  unfolding non_negative_int
  non_negative_int-lem name fallback = ground arith

  load_upstream-IsUpstream : Ensures IsUpstream (load_upstream h)
  unfolding load_upstream
  load_upstream-IsUpstream = duration IsUpstream _ _ _ λ request h1.
      duration IsUpstream _ _ _ λ attempt h2. number IsUpstream _ _ _ λ attempts h3.
        Ensures-then IsUpstream _ _ _ λ h4. duration IsUpstream _ _ _ λ base h5.
          duration IsUpstream _ _ _ λ top h6.
            Ensures-then IsUpstream _ _ _ λ h7. Ensures-then IsUpstream _ _ _ λ h8. ground arith

  load_circuit-IsCircuit : Ensures IsCircuit (load_circuit h)
  unfolding load_circuit
  load_circuit-IsCircuit = number IsCircuit _ _ _ λ window h1. number IsCircuit _ _ _ λ minimum h2.
      Ensures-then IsCircuit _ _ _ λ h3.
        Ensures-bind IsRatio IsCircuit _ _ (positive_ratio-IsRatio _ _) λ ratio h4.
          duration IsCircuit _ _ _ λ open_timeout h5. number IsCircuit _ _ _ λ probes h6.
            number IsCircuit _ _ _ λ concurrency h7. Ensures-then IsCircuit _ _ _ λ h8. ground arith

  -- A reader whose value is not tested.
  abbrev any :
      {A B : Type 0} (Q : B → Type 0) (m : Result A) (f : A → Result B)
      → ((a : A) → Ensures Q (f a))
      → Ensures Q (m >>= f)
  any Q m f k = Ensures-bind (λ _. Unit {0}) Q m f (Ensures-any m) (λ a _. k a)

  load_redis-IsRedisPart : Ensures IsRedisPart (load_redis h)
  unfolding load_redis
  load_redis-IsRedisPart = any IsRedisPart _ _ λ enabled.
      Ensures-bind (λ v. pos 0 ≤ℤ v) IsRedisPart _ _ (non_negative_int-lem "REDIS_DB" 0)
        λ database h1. duration IsRedisPart _ _ _ λ timeout h2. number IsRedisPart _ _ _ λ rpm h3.
          number IsRedisPart _ _ _ λ burst h4. any IsRedisPart _ _ λ fail_open.
            duration IsRedisPart _ _ _ λ ttl h5.
              duration IsRedisPart _ _ _
                λ lock_ttl h6. duration IsRedisPart _ _ _ λ cache_ttl h7. ground arith

  load_postgres-IsPostgresPart : Ensures IsPostgresPart (load_postgres h)
  unfolding load_postgres
  load_postgres-IsPostgresPart = any IsPostgresPart _ _ λ enabled.
      number IsPostgresPart _ _ _ λ conns h1.
        Ensures-then IsPostgresPart _ _ _ λ h2.
          duration IsPostgresPart _ _ _ λ timeout h3. any IsPostgresPart _ _ λ dsn. ground arith

  load-Ensures : Ensures IsLoaded (load h)
  unfolding load
  load-Ensures = Ensures-bind IsUpstream IsLoaded _ _ load_upstream-IsUpstream λ upstream h1.
      Ensures-bind IsCircuit IsLoaded _ _ load_circuit-IsCircuit λ circuit h2.
        Ensures-bind IsRedisPart IsLoaded _ _ load_redis-IsRedisPart λ redis h3.
          Ensures-bind IsPostgresPart IsLoaded _ _ load_postgres-IsPostgresPart λ postgres h4.
            Ensures-then IsLoaded _ _ _ λ h5. Ensures-then IsLoaded _ _ _ λ h6.
              Ensures-bind AreSome IsLoaded _ _ (provider_targets-AreSome h _) λ ts h7.
                Ensures-seq
                  (All
                    (HasKey (trim_space (h.env "DEEPSEEK_API_KEY"))
                      (trim_space (h.env "OPENAI_API_KEY")))
                    ts)
                  IsLoaded _ _ (check_keys-HasKey _ _ ts)
                  λ h8. record {
                    upstream = h1;
                    circuit = h2;
                    redis = h3;
                    postgres = h4;
                    strategy = ground (arith, h5);
                    level = ground (arith, h6);
                    targets = h7;
                    deepseek_key = trim_space-twice (h.env "DEEPSEEK_API_KEY");
                    openai_key = trim_space-twice (h.env "OPENAI_API_KEY");
                    keys = h8;
                  }

  -- A configuration that Load returns is within the bounds that the rest of the program relies on:
  -- one to ten attempts, each within the time of a request and with backoffs in order; a breaker whose
  -- minimum of requests fits its window; one to 10000 requests at a provider; positive times to live and
  -- rates; one to 100 connections; a known strategy and log level; and at least one provider, each
  -- with a name of its own, a known kind, a weight from 1 to 100 and the API key that its kind needs.
  pub load-IsLoaded : (c : Config) → load h ≡ ok c → IsLoaded c
  load-IsLoaded c e = Ensures-ok IsLoaded (load h) load-Ensures e
