-- ===== src/Witnesses/Startup.antt =====
-- The start of a process in a concrete environment (internal/config/config.go, cmd/server/main.go).
use model_gate.Prelude.{
  ◌*◌, ◌^◌, ◌≡◌, refl, true, if◌then◌else◌, List, [], ◌∷◌, Option, none, some, String, str_eq,
  trim_space, split_on, byte_length, all_chars, trim_slashes, decimal, ℤ, pos, Fraction,
}
use model_gate.Errors.{ok}
use model_gate.Errors.Chain.{◌>>=◌, ◌>>◌, fail_if}
use model_gate.Config.{Config, load, load_upstream, load_circuit, load_redis, load_postgres}
use model_gate.Config.Readers.{
  Host, finite, not_a_number, env_or_default, positive_duration, boolean, positive_int,
  positive_ratio, non_negative_int,
}
use model_gate.Config.Targets.{
  provider_targets, provider_kind, valid_provider_name, check_keys, check_key,
}
use model_gate.Config.Loaded.{IsLoaded, load-IsLoaded}
use model_gate.Wiring.Adapters.{url_fault}
use model_gate.Wiring.Built.{HasUrls}

abbrev pub find : {A : Type 0} → List (String × A) → String → Option A
find [] key = none
find ((k, a) ∷ rest) key = if str_eq k key then some a else find rest key

abbrev pub settings : List (String × String)
settings =
    ("MODEL_PROVIDERS", "a:mock:2, b:deepseek:1")
    ∷ ("DEEPSEEK_API_KEY", " sk ")
    ∷ ("ROUTING_STRATEGY", "weighted_round_robin")
    ∷ ("REDIS_ENABLED", "true")
    ∷ ("POSTGRES_ENABLED", "true")
    ∷ ("POSTGRES_DSN", "postgres://db")
    ∷ []

abbrev pub durations : List (String × ℤ)
durations =
    ("30s", pos (30 * 10 ^ 9))
    ∷ ("10s", pos (10 ^ 10))
    ∷ ("2s", pos (2 * 10 ^ 9))
    ∷ ("100ms", pos (10 ^ 8))
    ∷ ("24h", pos (86400 * 10 ^ 9))
    ∷ ("5m", pos (300 * 10 ^ 9))
    ∷ []

abbrev pub numbers : List (String × ℤ)
numbers =
    ("0", pos 0)
    ∷ ("1", pos 1)
    ∷ ("2", pos 2)
    ∷ ("3", pos 3)
    ∷ ("10", pos 10)
    ∷ ("20", pos 20)
    ∷ ("50", pos 50)
    ∷ ("60", pos 60)
    ∷ []

abbrev pub half : Fraction
half = record { num = pos 1; den = 1 }

abbrev pub read_text : Option String → String
read_text none = ""
read_text (some s) = s

abbrev pub host : Host
host = record {
  env = λ name. read_text (find settings name);
  lower = λ s. s;
  parse_duration = find durations;
  atoi = find numbers;
  parse_bool = λ s. if str_eq s "true" then some true else none;
  parse_float = λ s. if str_eq s "0.5" then some (finite half) else none;
  parse_port = λ s. none;
  address = λ user password name port database mode. "";
}

abbrev pub loaded : Config
loaded = record {
  http_addr = ":8080";
  provider = "mock";
  providers =
      record { name = "a"; kind = "mock"; weight = pos 2 }
      ∷ record { name = "b"; kind = "deepseek"; weight = pos 1 }
      ∷ [];
  routing_strategy = "weighted_round_robin";
  log_level = "info";
  deepseek_base_url = "https://api.deepseek.com";
  deepseek_api_key = "sk";
  openai_base_url = "https://api.openai.com/v1";
  openai_api_key = "";
  redis_addr = "127.0.0.1:6379";
  redis_password = "";
  shutdown_grace_period = pos (10 * 10 ^ 9);
  upstream = record {
    request_timeout = pos (30 * 10 ^ 9);
    attempt_timeout = pos (10 ^ 10);
    max_attempts = pos 3;
    base_backoff = pos (10 ^ 8);
    max_backoff = pos (2 * 10 ^ 9);
  };
  circuit = record {
    window_size = pos 20;
    minimum_requests = pos 10;
    failure_ratio = finite half;
    open_timeout = pos (30 * 10 ^ 9);
    half_open_max_requests = pos 1;
    max_concurrency = pos 50;
  };
  redis = record {
    enabled = true;
    database = pos 0;
    timeout = pos (2 * 10 ^ 9);
    rate_limit_rpm = pos 60;
    rate_limit_burst = pos 60;
    rate_limit_fail_open = true;
    idempotency_ttl = pos (86400 * 10 ^ 9);
    idempotency_lock_ttl = pos (30 * 10 ^ 9);
    cache_ttl = pos (300 * 10 ^ 9);
  };
  postgres = record {
    enabled = true;
    max_conns = pos 10;
    storage_timeout = pos (2 * 10 ^ 9);
    dsn = "postgres://db";
  };
}

pub host_loads : load host ≡ ok loaded
unfolding load load_upstream load_circuit load_redis load_postgres env_or_default positive_duration
    boolean positive_int positive_ratio non_negative_int provider_targets provider_kind
    valid_provider_name check_keys check_key ◌>>=◌ ◌>>◌ fail_if trim_space split_on byte_length
    all_chars decimal
host_loads = refl

load-IsLoaded_example : IsLoaded loaded
load-IsLoaded_example = load-IsLoaded host loaded host_loads

abbrev pub parse_url : String → Option (String × String)
parse_url s = if str_eq s "" then none else some ("https", "api")

pub loaded-HasUrls : HasUrls parse_url loaded
unfolding url_fault trim_slashes trim_space
loaded-HasUrls = record { deepseek = refl; openai = refl }

-- A ratio that is not a number passes the test of its bounds.
nan_accepted :
    (host' : Host)
    → host'.parse_float (env_or_default host' "R" "0.5") ≡ some not_a_number
    → positive_ratio host' "R" "0.5" ≡ ok not_a_number
unfolding positive_ratio
nan_accepted host' e = rw (positive_ratio, e) refl
