-- ===== src/Server.antt =====
-- The process (`run` of cmd/server/main.go): what it opens and closes, in order. The clients, the pool,
-- the listener and the signals are a record of steps of an abstract world `W`; the constructors, the
-- router of the providers and the migrations are those of the other modules. The log lists, last
-- first, the resources that are opened and closed, and the start of the listener.
pub mod Options
pub mod Resources
pub mod Started
use model_gate.Prelude.{
  ℕ, ◌+◌, Bool, true, false, not, List, [], ◌∷◌, Option, none, some, String, if◌then◌else◌, ◌==◌,
  Fraction,
}
use model_gate.Errors.{Error, message, wrapped, Result, ok, err}
use model_gate.Errors.Chain.{◌>>=◌}
use model_gate.Config.{Config}
use model_gate.RateLimit
use model_gate.RateLimit.{RedisLimiter}
use model_gate.Idempotency
use model_gate.Idempotency.{RedisStore}
use model_gate.Cache
use model_gate.Cache.{RedisCache}
use model_gate.Storage.{Database, Files, apply_migrations}
use model_gate.Wiring.{Governed, build_provider_router}
use model_gate.Routing.{Router}

pub data Resource : Type 0 where
  redis_client redis_context postgres_pool postgres_context signals shutdown_context : Resource

-- The options of the gateway that depend on the configuration.
pub record Services : Type 0 where
  pub limiter : Option RedisLimiter
  pub leases : Option RedisStore
  pub cache : Option RedisCache
  pub recorder : Bool

pub data Event : Type 0 where
  opened closed : Resource → Event
  listening : Services → Event

pub record State (W : Type 0) : Type 0 where
  pub world : W
  pub log : List Event

-- Why the `select` of `run` ends.
pub data Stop : Type 0 where
  server_failed : Error → Stop
  signaled : Stop

pub record Process (W : Type 0) : Type 0 where
  pub ping_redis : W → Option Error × W
  pub parse_dsn : String → Option Error
  pub new_pool : W → Option Error × W
  pub ping_pool : W → Option Error × W
  pub database : Database W
  pub migrations : Files
  pub listen : W → Stop × W
  pub is_server_closed : Error → Bool
  pub shutdown : W → Option Error × W

abbrev pub Ended : Type 0 → Type 0
Ended W = Option Error × State W

abbrev pub no_services : Services
no_services = record { limiter = none; leases = none; cache = none; recorder = false }

abbrev because_of : {A : Type 0} → String → Result A → Result A
because_of what (ok a) = ok a
because_of what (err e) = err (wrapped what e)

-- The limiter, the idempotency store and the response cache, over one Redis client.
unfoldable pub redis_services : Config → Result Services
redis_services c = do
  limiter ←
      because_of "create rate limiter"
        (RateLimit.new c.redis.rate_limit_rpm c.redis.rate_limit_burst)
  leases ←
      because_of "create idempotency store"
        (Idempotency.new c.redis.idempotency_lock_ttl c.redis.idempotency_ttl)
  cache ← because_of "create response cache" (Cache.new c.redis.cache_ttl)
  ok (record { limiter = some limiter; leases = some leases; cache = some cache; recorder = false })

module _ {W : Type 0} (p : Process W) where
  abbrev pub note : Event → State W → State W
  note e s = record s { log = e ∷ s.log }

  -- `defer x.Close()`, around what follows.
  abbrev pub closing : Resource → Ended W → Ended W
  closing x (e, s) = (e, note (closed x) s)

  abbrev pub step : {A : Type 0} → (W → A × W) → State W → A × State W
  step f s = ((f s.world).0, record s { world = (f s.world).1 })

  unfoldable pub after_shutdown : Ended W → Ended W
  after_shutdown (none, s) = (none, s)
  after_shutdown (some e, s) = (some (wrapped "shutdown HTTP server" e), s)

  unfoldable pub after_stop : Stop × State W → Ended W
  unfolding after_shutdown
  after_stop (server_failed e, s) =
      if p.is_server_closed e then (none, s) else (some (wrapped "serve HTTP" e), s)
  after_stop (signaled, s) =
      closing shutdown_context (after_shutdown (step p.shutdown (note (opened shutdown_context) s)))

  -- From NewGatewayService to the end.
  unfoldable pub serve : Services → State W → Ended W
  unfolding after_stop
  serve services s =
      closing signals
        (after_stop (step p.listen (note (listening services) (note (opened signals) s))))

  unfoldable pub after_migrations : Services → Ended W → Ended W
  unfolding serve
  after_migrations services (some e, s) =
      (some (wrapped "apply PostgreSQL migrations" e), note (closed postgres_context) s)
  after_migrations services (none, s) =
      serve (record services { recorder = true }) (note (closed postgres_context) s)

  unfoldable pub after_pool_ping : Services → Ended W → Ended W
  unfolding after_migrations
  after_pool_ping services (some e, s) =
      (some (wrapped "ping PostgreSQL" e), note (closed postgres_context) s)
  after_pool_ping services (none, s) =
      after_migrations services (step (apply_migrations p.database p.migrations) s)

  unfoldable pub after_pool : Services → Ended W → Ended W
  unfolding after_pool_ping
  after_pool services (some e, s) =
      (some (wrapped "create PostgreSQL pool" e), note (closed postgres_context) s)
  after_pool services (none, s) =
      closing postgres_pool
        (after_pool_ping services (step p.ping_pool (note (opened postgres_pool) s)))

  unfoldable pub after_dsn : Services → Option Error → State W → Ended W
  unfolding after_pool
  after_dsn services (some e) s = (some (wrapped "parse PostgreSQL config" e), s)
  after_dsn services none s =
      after_pool services (step p.new_pool (note (opened postgres_context) s))

  -- `if cfg.PostgresEnabled`, and what follows.
  unfoldable pub with_postgres : Config → Services → State W → Ended W
  unfolding after_dsn serve
  with_postgres c services s =
      if c.postgres.enabled
      then after_dsn services (p.parse_dsn c.postgres.dsn) s
      else serve services s

  unfoldable pub after_services : Config → Result Services → State W → Ended W
  unfolding with_postgres
  after_services c (err e) s = (some e, s)
  after_services c (ok services) s = with_postgres c services s

  unfoldable pub after_redis_ping : Config → Ended W → Ended W
  unfolding after_services
  after_redis_ping c (some e, s) = (some (wrapped "ping Redis" e), note (closed redis_context) s)
  after_redis_ping c (none, s) = after_services c (redis_services c) (note (closed redis_context) s)

  -- `if cfg.RedisEnabled`, and what follows.
  unfoldable pub with_redis : Config → State W → Ended W
  unfolding after_redis_ping with_postgres
  with_redis c s =
      if c.redis.enabled
      then closing redis_client (
          after_redis_ping c
            (step p.ping_redis (note (opened redis_context) (note (opened redis_client) s))))
      else with_postgres c no_services s

  unfoldable pub after_router : Config → Result (List Governed × Router) → State W → Ended W
  unfolding with_redis
  after_router c (err e) s = (some e, s)
  after_router c (ok router) s = with_redis c s

  unfoldable pub after_load :
      (String → Option (String × String)) → Fraction → Result Config → State W → Ended W
  unfolding after_router
  after_load parse_url ratio (err e) s = (some (wrapped "load config" e), s)
  after_load parse_url ratio (ok c) s = after_router c (build_provider_router parse_url ratio c) s
