-- ===== src/Server/Started.antt =====
-- A process whose dependencies answer serves requests (`run` of cmd/server/main.go).
use model_gate.Prelude.{
  ◌≡◌, refl, ap, ◌∙◌, arith, Bool, true, false, List, [], ◌∷◌, Option, none, some, String, is_some,
  if◌then◌else◌, Fraction, pos, pos_part, leb_ℤ, ◌||◌,
}
use model_gate.Errors.{Error, ok}
use model_gate.Errors.Chain.{◌>>=◌}
use model_gate.Config.{Config, load}
use model_gate.Config.Readers.{Host, finite}
use model_gate.Config.Loaded.{IsRedisPart, load-IsLoaded}
use model_gate.RateLimit
use model_gate.Idempotency
use model_gate.Cache
use model_gate.Storage.{apply_migrations}
use model_gate.Wiring.Built.{HasUrls, load-build_provider_router}
use model_gate.Server.{
  redis_client, redis_context, postgres_pool, postgres_context, signals, shutdown_context, Services,
  Event, opened, closed, listening, State, Stop, server_failed, signaled, Process, Ended,
  after_shutdown, after_stop, serve, after_migrations, after_pool_ping, after_pool, after_dsn,
  with_postgres, after_services, after_redis_ping, with_redis, after_router, after_load,
  no_services, redis_services,
}

-- What the listener is started with.
abbrev pub starts : List Event → List Services
starts [] = []
starts (listening services ∷ log) = services ∷ starts log
starts (opened x ∷ log) = starts log
starts (closed x ∷ log) = starts log

-- The services over Redis, and the recorder, where they are asked for.
abbrev pub Matches : Bool → Bool → Services → Type 0
Matches redis postgres services =
    (is_some services.limiter ≡ redis)
    × (is_some services.leases ≡ redis)
    × (is_some services.cache ≡ redis)
    × (services.recorder ≡ postgres)

abbrev pub StartsWith : {W : Type 0} → Bool → Bool → Ended W → Type 0
StartsWith redis postgres (e, t) =
    (services : Services) × (starts t.log ≡ services ∷ []) × Matches redis postgres services

module _ {W : Type 0} (p : Process W) where
  -- The dependencies answer.
  pub record AnswersAll : Type 0 where
    pub redis : (w : W) → (p.ping_redis w).0 ≡ none
    pub dsn : (s : String) → p.parse_dsn s ≡ none
    pub pool : (w : W) → (p.new_pool w).0 ≡ none
    pub postgres : (w : W) → (p.ping_pool w).0 ≡ none
    pub migrated : (w : W) → (apply_migrations p.database p.migrations w).0 ≡ none

  after_shutdown-starts :
      (e : Option Error) (s : State W) → starts (after_shutdown p (e, s)).1.log ≡ starts s.log
  unfolding after_shutdown
  after_shutdown-starts none s = refl
  after_shutdown-starts (some e) s = refl

  after_stop-starts :
      (stop : Stop) (s : State W) → starts (after_stop p (stop, s)).1.log ≡ starts s.log
  unfolding after_stop
  after_stop-starts (server_failed e) s = by_test (p.is_server_closed e) _
    where
      by_test :
          (b : Bool) (r : Option Error)
          → (let res : Ended W = if b then (none, s) else (r, s) in starts res.1.log) ≡ starts s.log
      by_test true r = refl
      by_test false r = refl
  after_stop-starts signaled s =
      after_shutdown-starts (p.shutdown s.world).0
        (record { world = (p.shutdown s.world).1; log = opened shutdown_context ∷ s.log })

  serve-starts :
      (services : Services) (s : State W)
      → starts (serve p services s).1.log ≡ services ∷ starts s.log
  unfolding serve
  serve-starts services s =
      after_stop-starts (p.listen s.world).0
        (record { world = (p.listen s.world).1; log = listening services ∷ opened signals ∷ s.log })

  module _ (answers : AnswersAll) where
    after_migrations-starts :
        (services : Services) (e : Option Error) (s : State W)
        → e ≡ none
        → starts (after_migrations p services (e, s)).1.log
          ≡ record services { recorder = true } ∷ starts s.log
    unfolding after_migrations
    after_migrations-starts services (some e) s h = cc
    after_migrations-starts services none s h =
        serve-starts (record services { recorder = true })
          (record s { log = closed postgres_context ∷ s.log })

    after_pool_ping-starts :
        (services : Services) (e : Option Error) (s : State W)
        → e ≡ none
        → starts (after_pool_ping p services (e, s)).1.log
          ≡ record services { recorder = true } ∷ starts s.log
    unfolding after_pool_ping
    after_pool_ping-starts services (some e) s h = cc
    after_pool_ping-starts services none s h =
        after_migrations-starts services (apply_migrations p.database p.migrations s.world).0
          (record s { world = (apply_migrations p.database p.migrations s.world).1 })
          (answers.migrated s.world)

    after_pool-starts :
        (services : Services) (e : Option Error) (s : State W)
        → e ≡ none
        → starts (after_pool p services (e, s)).1.log
          ≡ record services { recorder = true } ∷ starts s.log
    unfolding after_pool
    after_pool-starts services (some e) s h = cc
    after_pool-starts services none s h =
        after_pool_ping-starts services (p.ping_pool s.world).0
          (record { world = (p.ping_pool s.world).1; log = opened postgres_pool ∷ s.log })
          (answers.postgres s.world)

    after_dsn-starts :
        (services : Services) (e : Option Error) (s : State W)
        → e ≡ none
        → starts (after_dsn p services e s).1.log
          ≡ record services { recorder = true } ∷ starts s.log
    unfolding after_dsn
    after_dsn-starts services (some e) s h = cc
    after_dsn-starts services none s h =
        after_pool-starts services (p.new_pool s.world).0
          (record { world = (p.new_pool s.world).1; log = opened postgres_context ∷ s.log })
          (answers.pool s.world)

    with_postgres-starts :
        (c : Config) (services : Services) (s : State W)
        → services.recorder ≡ false
        → starts (with_postgres p c services s).1.log
          ≡ record services { recorder = c.postgres.enabled } ∷ starts s.log
    unfolding with_postgres
    with_postgres-starts c services s h =
        by_test c.postgres.enabled _ _ (after_dsn-starts services _ s (answers.dsn _)) off
      where
        off :
            starts (serve p services s).1.log ≡ record services { recorder = false } ∷ starts s.log
        off = serve-starts services s ∙ ap (λ b. record services { recorder = b } ∷ starts s.log) h

        by_test :
            (b : Bool) (on off : Ended W)
            → starts on.1.log ≡ record services { recorder = true } ∷ starts s.log
            → starts off.1.log ≡ record services { recorder = false } ∷ starts s.log
            → starts (if b then on else off).1.log ≡ record services { recorder = b } ∷ starts s.log
        by_test true on off k l = k
        by_test false on off k l = l

    -- With a configuration that Load returns no constructor refuses its part of it.
    redis_services-accepts :
        (c : Config)
        → IsRedisPart c.redis
        → (services : Services) × (redis_services c ≡ ok services) × Matches true false services
    unfolding redis_services RateLimit.new Idempotency.new Cache.new ◌>>=◌
    redis_services-accepts c i =
        let e1 : leb_ℤ c.redis.rate_limit_rpm (pos 0) || leb_ℤ c.redis.rate_limit_burst (pos 0)
            ≡ false =
          ground (arith, i.rpm, i.burst) in
        let e2 : leb_ℤ c.redis.idempotency_lock_ttl (pos 0) || leb_ℤ c.redis.idempotency_ttl (pos 0)
            ≡ false =
          ground (arith, i.ttl, i.lock_ttl) in
        let e3 : leb_ℤ c.redis.cache_ttl (pos 0) ≡ false = ground (arith, i.cache_ttl) in
        let services : Services = record {
          limiter = some (record {
            rpm = pos_part c.redis.rate_limit_rpm;
            burst = pos_part c.redis.rate_limit_burst;
          });
          leases = some (record {
            lock_ttl = pos_part c.redis.idempotency_lock_ttl;
            result_ttl = pos_part c.redis.idempotency_ttl;
          });
          cache = some (record { ttl = pos_part c.redis.cache_ttl });
          recorder = false;
        } in
        (services, rw (e1, e2, e3) refl, (refl, refl, refl, refl))

    after_redis_ping-StartsWith :
        (c : Config) (e : Option Error) (s : State W)
        → IsRedisPart c.redis
        → e ≡ none
        → starts s.log ≡ []
        → StartsWith true c.postgres.enabled (after_redis_ping p c (e, s))
    unfolding after_redis_ping after_services
    after_redis_ping-StartsWith c (some e) s i h k = cc
    after_redis_ping-StartsWith c none s i h k =
        let (services, accepted, matches) = redis_services-accepts c i in
        let started : Services = record services { recorder = c.postgres.enabled } in
        rw (accepted) (
          started,
          with_postgres-starts c services (record s { log = closed redis_context ∷ s.log })
                matches.3
              ∙ ap (◌∷◌ started) k,
          (matches.0, matches.1, matches.2, refl),
        )

    with_redis-StartsWith :
        (c : Config) (s : State W)
        → IsRedisPart c.redis
        → starts s.log ≡ []
        → StartsWith c.redis.enabled c.postgres.enabled (with_redis p c s)
    unfolding with_redis
    with_redis-StartsWith c s i k =
        let started : Services = record no_services { recorder = c.postgres.enabled } in
        by_test c.redis.enabled _ _
          (after_redis_ping-StartsWith c (p.ping_redis s.world).0
            (record {
              world = (p.ping_redis s.world).1;
              log = opened redis_context ∷ opened redis_client ∷ s.log;
            })
            i (answers.redis s.world) k)
          (
            started,
            with_postgres-starts c no_services s refl ∙ ap (◌∷◌ started) k,
            (refl, refl, refl, refl),
          )
      where
        by_test :
            (b : Bool) (on off : Ended W)
            → StartsWith true c.postgres.enabled on
            → StartsWith false c.postgres.enabled off
            → StartsWith b c.postgres.enabled (if b then on else off)
        by_test true on off h l = h
        by_test false on off h l = l

    -- With a configuration that Load returns, whose failure ratio is a number and whose base URLs are
    -- absolute over http or https, and with dependencies that answer, the process starts its listener,
    -- once: with the limiter, the idempotency store and the response cache exactly where Redis is
    -- enabled, and with the recorder exactly where PostgreSQL is.
    pub after_load-StartsWith :
        (h : Host) (parse_url : String → Option (String × String)) (ratio : Fraction) (c : Config)
        (w : W)
        → load h ≡ ok c
        → c.circuit.failure_ratio ≡ finite ratio
        → HasUrls parse_url c
        → StartsWith c.redis.enabled c.postgres.enabled
            (after_load p parse_url ratio (load h) (record { world = w; log = [] }))
    unfolding after_load after_router
    after_load-StartsWith h parse_url ratio c w e f urls =
        let (gs, r, built, long, whole) = load-build_provider_router parse_url h ratio c e f urls in
        rw (e, after_load, built)
          (with_redis-StartsWith c (record { world = w; log = [] }) (load-IsLoaded h c e).redis
            refl)
