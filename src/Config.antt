-- ===== src/Config.antt =====
-- The configuration that a process reads from its environment (internal/config/config.go). Config's
-- fields are grouped by the part of Load that reads them; the parts stand in its order.
pub mod Readers
pub mod Targets
pub mod Loaded
use model_gate.Prelude.{
  ℕ, zero, suc, Bool, true, false, not, ◌&&◌, ◌||◌, ◌*◌, ◌^◌, List, [], ◌∷◌, Option, none, some,
  String, str_eq, contains, trim_space, text_append, if◌then◌else◌, ℤ, pos, pos_part, leb_ℤ, ltb_ℤ,
}
use model_gate.Errors.{message, Result, ok, err}
use model_gate.Errors.Chain.{◌>>=◌, ◌>>◌, fail_if}
use model_gate.Config.Readers.{
  Host, Float, env_or_default, positive_duration, boolean, positive_int, positive_ratio,
  non_negative_int,
}
use model_gate.Config.Targets.{ProviderTarget, provider_targets, check_keys, kind_of_first}

pub record Upstream : Type 0 where
  pub request_timeout : ℤ
  pub attempt_timeout : ℤ
  pub max_attempts : ℤ
  pub base_backoff : ℤ
  pub max_backoff : ℤ

pub record Circuit : Type 0 where
  pub window_size : ℤ
  pub minimum_requests : ℤ
  pub failure_ratio : Float
  pub open_timeout : ℤ
  pub half_open_max_requests : ℤ
  pub max_concurrency : ℤ

pub record RedisPart : Type 0 where
  pub enabled : Bool
  pub database : ℤ
  pub timeout : ℤ
  pub rate_limit_rpm : ℤ
  pub rate_limit_burst : ℤ
  pub rate_limit_fail_open : Bool
  pub idempotency_ttl : ℤ
  pub idempotency_lock_ttl : ℤ
  pub cache_ttl : ℤ

pub record PostgresPart : Type 0 where
  pub enabled : Bool
  pub max_conns : ℤ
  pub storage_timeout : ℤ
  pub dsn : String

pub record Config : Type 0 where
  pub http_addr : String
  pub provider : String
  pub providers : List ProviderTarget
  pub routing_strategy : String
  pub log_level : String
  pub deepseek_base_url : String
  pub deepseek_api_key : String
  pub openai_base_url : String
  pub openai_api_key : String
  pub redis_addr : String
  pub redis_password : String
  pub shutdown_grace_period : ℤ
  pub upstream : Upstream
  pub circuit : Circuit
  pub redis : RedisPart
  pub postgres : PostgresPart

abbrev pub log_levels : List String
log_levels = "debug" ∷ "info" ∷ "warn" ∷ "error" ∷ []

module _ (h : Host) where
  unfoldable pub load_upstream : Result Upstream
  load_upstream = do
    request_timeout ← positive_duration h "REQUEST_TIMEOUT" "30s"
    attempt_timeout ← positive_duration h "UPSTREAM_ATTEMPT_TIMEOUT" "10s"
    max_attempts ← positive_int h "UPSTREAM_MAX_ATTEMPTS" 3
    fail_if (ltb_ℤ (pos 10) max_attempts) (message "UPSTREAM_MAX_ATTEMPTS must not exceed 10")
    base_backoff ← positive_duration h "RETRY_BASE_BACKOFF" "100ms"
    max_backoff ← positive_duration h "RETRY_MAX_BACKOFF" "2s"
    fail_if (ltb_ℤ max_backoff base_backoff)
        (message "RETRY_MAX_BACKOFF must not be below RETRY_BASE_BACKOFF")
    fail_if (ltb_ℤ request_timeout attempt_timeout)
        (message "UPSTREAM_ATTEMPT_TIMEOUT must not exceed REQUEST_TIMEOUT")
    ok (record {
      request_timeout = request_timeout;
      attempt_timeout = attempt_timeout;
      max_attempts = max_attempts;
      base_backoff = base_backoff;
      max_backoff = max_backoff;
    })

  unfoldable pub load_circuit : Result Circuit
  load_circuit = do
    window_size ← positive_int h "CIRCUIT_BREAKER_WINDOW_SIZE" 20
    minimum_requests ← positive_int h "CIRCUIT_BREAKER_MINIMUM_REQUESTS" 10
    fail_if (ltb_ℤ window_size minimum_requests)
        (message "CIRCUIT_BREAKER_MINIMUM_REQUESTS must not exceed CIRCUIT_BREAKER_WINDOW_SIZE")
    failure_ratio ← positive_ratio h "CIRCUIT_BREAKER_FAILURE_RATIO" "0.5"
    open_timeout ← positive_duration h "CIRCUIT_BREAKER_OPEN_TIMEOUT" "30s"
    half_open_max_requests ← positive_int h "CIRCUIT_BREAKER_HALF_OPEN_MAX_REQUESTS" 1
    max_concurrency ← positive_int h "PROVIDER_MAX_CONCURRENCY" 50
    fail_if (ltb_ℤ (pos 10000) max_concurrency)
        (message "PROVIDER_MAX_CONCURRENCY must not exceed 10000")
    ok (record {
      window_size = window_size;
      minimum_requests = minimum_requests;
      failure_ratio = failure_ratio;
      open_timeout = open_timeout;
      half_open_max_requests = half_open_max_requests;
      max_concurrency = max_concurrency;
    })

  unfoldable pub load_redis : Result RedisPart
  load_redis = do
    enabled ← boolean h "REDIS_ENABLED" false
    database ← non_negative_int h "REDIS_DB" 0
    timeout ← positive_duration h "REDIS_TIMEOUT" "2s"
    rpm ← positive_int h "RATE_LIMIT_REQUESTS_PER_MINUTE" 60
    burst ← positive_int h "RATE_LIMIT_BURST" (pos_part rpm)
    fail_open ← boolean h "RATE_LIMIT_FAIL_OPEN" true
    ttl ← positive_duration h "IDEMPOTENCY_TTL" "24h"
    lock_ttl ← positive_duration h "IDEMPOTENCY_LOCK_TTL" "30s"
    cache_ttl ← positive_duration h "CACHE_TTL" "5m"
    ok (record {
      enabled = enabled;
      database = database;
      timeout = timeout;
      rate_limit_rpm = rpm;
      rate_limit_burst = burst;
      rate_limit_fail_open = fail_open;
      idempotency_ttl = ttl;
      idempotency_lock_ttl = lock_ttl;
      cache_ttl = cache_ttl;
    })

  -- postgresDSN
  unfoldable pub postgres_dsn : Result String
  postgres_dsn =
      let host = env_or_default h "POSTGRES_HOST" "127.0.0.1" in
      let port = env_or_default h "POSTGRES_PORT" "5432" in
      let user = trim_space (h.env "POSTGRES_USER") in
      let database = trim_space (h.env "POSTGRES_DB") in
      let sslmode = env_or_default h "POSTGRES_SSLMODE" "disable" in
      let port_failure : Result String = err (message "POSTGRES_PORT must be a valid TCP port") in
      let built =
        if str_eq user "" || str_eq database ""
        then err (message "POSTGRES_USER and POSTGRES_DB are required when POSTGRES_ENABLED=true")
        else ok (h.address user (h.env "POSTGRES_PASSWORD") host port database sslmode) in
      if not (str_eq (trim_space (h.env "POSTGRES_DSN")) "")
      then ok (trim_space (h.env "POSTGRES_DSN"))
      else elim (h.parse_port port) [
        | none ↦ port_failure
        | some zero ↦ port_failure
        | some (suc n) ↦ built
      ]

  unfoldable pub load_postgres : Result PostgresPart
  unfolding postgres_dsn
  load_postgres = do
    enabled ← boolean h "POSTGRES_ENABLED" false
    max_conns ← positive_int h "POSTGRES_MAX_CONNS" 10
    fail_if (ltb_ℤ (pos 100) max_conns) (message "POSTGRES_MAX_CONNS must not exceed 100")
    storage_timeout ← positive_duration h "STORAGE_TIMEOUT" "2s"
    dsn ← if enabled then postgres_dsn else ok ""
    ok (record {
      enabled = enabled;
      max_conns = max_conns;
      storage_timeout = storage_timeout;
      dsn = dsn;
    })

  -- Load
  unfoldable pub load : Result Config
  unfolding load_upstream load_circuit load_redis load_postgres
  load = do
    let provider = h.lower (env_or_default h "MODEL_PROVIDER" "mock")
    let strategy = h.lower (env_or_default h "ROUTING_STRATEGY" "round_robin")
    let log_level = h.lower (env_or_default h "LOG_LEVEL" "info")
    let deepseek_key = trim_space (h.env "DEEPSEEK_API_KEY")
    let openai_key = trim_space (h.env "OPENAI_API_KEY")
    upstream ← load_upstream
    circuit ← load_circuit
    redis ← load_redis
    postgres ← load_postgres
    fail_if (not (str_eq strategy "round_robin") && not (str_eq strategy "weighted_round_robin"))
        (message "ROUTING_STRATEGY must be \"round_robin\" or \"weighted_round_robin\"")
    fail_if (not (contains log_levels log_level))
        (message "LOG_LEVEL must be debug, info, warn, or error")
    targets ← provider_targets h provider
    check_keys deepseek_key openai_key targets
    ok (record {
      http_addr = env_or_default h "HTTP_ADDR" ":8080";
      provider =
          if not (str_eq (trim_space (h.env "MODEL_PROVIDERS")) "")
          then kind_of_first targets
          else provider;
      providers = targets;
      routing_strategy = strategy;
      log_level = log_level;
      deepseek_base_url = env_or_default h "DEEPSEEK_BASE_URL" "https://api.deepseek.com";
      deepseek_api_key = deepseek_key;
      openai_base_url = env_or_default h "OPENAI_COMPATIBLE_BASE_URL" "https://api.openai.com/v1";
      openai_api_key = openai_key;
      redis_addr = env_or_default h "REDIS_ADDR" "127.0.0.1:6379";
      redis_password = h.env "REDIS_PASSWORD";
      shutdown_grace_period = pos (10 * 10 ^ 9);
      upstream = upstream;
      circuit = circuit;
      redis = redis;
      postgres = postgres;
    })
