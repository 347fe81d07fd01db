-- ===== src/Server/Resources.antt =====
-- What the process has open (`run` of cmd/server/main.go).
use model_gate.Prelude.{
  ℕ, ◌+◌, ◌≡◌, refl, arith, Bool, true, false, List, [], ◌∷◌, Option, none, some, String, one_if,
  ◌==◌, if◌then◌else◌, Fraction,
}
use model_gate.Errors.{Error, Result, ok, err}
use model_gate.Config.{Config}
use model_gate.Storage.{apply_migrations}
use model_gate.Wiring.{Governed, build_provider_router}
use model_gate.Routing.{Router}
use model_gate.Server.{
  Resource, redis_client, redis_context, postgres_pool, postgres_context, signals, shutdown_context,
  Services, Event, opened, closed, listening, State, Stop, server_failed, signaled, Process, Ended,
  after_shutdown, after_stop, serve, after_migrations, after_pool_ping, after_pool, after_dsn,
  with_postgres, after_services, after_redis_ping, with_redis, after_router, after_load, closing,
  no_services, redis_services,
}

abbrev tag : Resource → ℕ
tag redis_client = 0
tag redis_context = 1
tag postgres_pool = 2
tag postgres_context = 3
tag signals = 4
tag shutdown_context = 5

-- 1 for the same resource, 0 for another.
abbrev pub one : Resource → Resource → ℕ
one x y = one_if (tag x == tag y)

module _ (x : Resource) where
  abbrev pub openings : List Event → ℕ
  openings [] = 0
  openings (opened y ∷ log) = one y x + openings log
  openings (closed y ∷ log) = openings log
  openings (listening services ∷ log) = openings log

  abbrev pub closings : List Event → ℕ
  closings [] = 0
  closings (opened y ∷ log) = closings log
  closings (closed y ∷ log) = one y x + closings log
  closings (listening services ∷ log) = closings log

  module _ {W : Type 0} (p : Process W) where
    -- From `s` on, the resource is closed as often as it is opened, and `n` times more.
    record Closes (n : ℕ) (s : State W) (res : Ended W) : Type 0 where
      pub balance : openings res.1.log + closings s.log + n ≡ closings res.1.log + openings s.log

    -- `y` is opened, and closed when what follows has ended.
    bracket :
        (y : Resource) (n : ℕ) (s : State W) (w : W) (res : Ended W)
        → Closes n (record { world = w; log = opened y ∷ s.log }) res
        → Closes n s (closing p y res)
    bracket y n s w res h = record { balance = omega (arith, h.balance) }

    -- `y` is opened; what follows closes it.
    hold :
        (y : Resource) (s : State W) (w : W) (res : Ended W)
        → Closes (one y x) (record { world = w; log = opened y ∷ s.log }) res
        → Closes 0 s res
    hold y s w res h = record { balance = omega (arith, h.balance) }

    -- `y` is closed, and then what follows runs.
    drop :
        (y : Resource) (s : State W) (w : W) (res : Ended W)
        → Closes 0 (record { world = w; log = closed y ∷ s.log }) res
        → Closes (one y x) s res
    drop y s w res h = record { balance = omega (arith, h.balance) }

    ends : (e : Option Error) (s : State W) (w : W) → Closes 0 s (e, record s { world = w })
    ends e s w = record { balance = omega arith }

    either :
        (b : Bool) (n : ℕ) (s : State W) (yes_case no_case : Ended W)
        → Closes n s yes_case
        → Closes n s no_case
        → Closes n s (if b then yes_case else no_case)
    either true n s a b h k = h
    either false n s a b h k = k

    after_shutdown-Closes : (e : Option Error) (s : State W) → Closes 0 s (after_shutdown p (e, s))
    unfolding after_shutdown
    after_shutdown-Closes none s = ends _ s _
    after_shutdown-Closes (some e) s = ends _ s _

    after_stop-Closes : (stop : Stop) (s : State W) → Closes 0 s (after_stop p (stop, s))
    unfolding after_stop
    after_stop-Closes (server_failed e) s =
        either (p.is_server_closed e) 0 s _ _ (ends _ s _) (ends _ s _)
    after_stop-Closes signaled s =
        let (e, w) = p.shutdown s.world in
        let s' : State W = record { world = w; log = opened shutdown_context ∷ s.log } in
        bracket shutdown_context 0 s w (after_shutdown p (e, s')) (after_shutdown-Closes e s')

    serve-Closes : (services : Services) (s : State W) → Closes 0 s (serve p services s)
    unfolding serve
    serve-Closes services s =
        let (stop, w) = p.listen s.world in
        let s1 : State W = record { world = w; log = opened signals ∷ s.log } in
        let s' : State W = record {
          world = w;
          log = listening services ∷ opened signals ∷ s.log;
        } in
        let h = after_stop-Closes stop s' in
        bracket signals 0 s w (after_stop p (stop, s')) (record { balance = h.balance })

    after_migrations-Closes :
        (services : Services) (e : Option Error) (s : State W)
        → Closes (one postgres_context x) s (after_migrations p services (e, s))
    unfolding after_migrations
    after_migrations-Closes services (some e) s =
        drop postgres_context s s.world _ (ends _ _ s.world)
    after_migrations-Closes services none s = drop postgres_context s s.world _ (serve-Closes _ _)

    after_pool_ping-Closes :
        (services : Services) (e : Option Error) (s : State W)
        → Closes (one postgres_context x) s (after_pool_ping p services (e, s))
    unfolding after_pool_ping
    after_pool_ping-Closes services (some e) s =
        drop postgres_context s s.world _ (ends _ _ s.world)
    after_pool_ping-Closes services none s =
        let (e, w) = apply_migrations p.database p.migrations s.world in
        let h = after_migrations-Closes services e (record s { world = w }) in
        record { balance = h.balance }

    after_pool-Closes :
        (services : Services) (e : Option Error) (s : State W)
        → Closes (one postgres_context x) s (after_pool p services (e, s))
    unfolding after_pool
    after_pool-Closes services (some e) s = drop postgres_context s s.world _ (ends _ _ s.world)
    after_pool-Closes services none s =
        let (e, w) = p.ping_pool s.world in
        let s' : State W = record { world = w; log = opened postgres_pool ∷ s.log } in
        bracket postgres_pool (one postgres_context x) s w (after_pool_ping p services (e, s'))
          (after_pool_ping-Closes services e s')

    after_dsn-Closes :
        (services : Services) (fault : Option Error) (s : State W)
        → Closes 0 s (after_dsn p services fault s)
    unfolding after_dsn
    after_dsn-Closes services (some e) s = ends _ s _
    after_dsn-Closes services none s =
        let (e, w) = p.new_pool s.world in
        let s' : State W = record { world = w; log = opened postgres_context ∷ s.log } in
        hold postgres_context s w (after_pool p services (e, s')) (after_pool-Closes services e s')

    with_postgres-Closes :
        (c : Config) (services : Services) (s : State W) → Closes 0 s (with_postgres p c services s)
    unfolding with_postgres
    with_postgres-Closes c services s =
        either c.postgres.enabled 0 s _ _ (after_dsn-Closes services _ s) (serve-Closes services s)

    after_services-Closes :
        (c : Config) (services : Result Services) (s : State W)
        → Closes 0 s (after_services p c services s)
    unfolding after_services
    after_services-Closes c (err e) s = ends _ s _
    after_services-Closes c (ok services) s = with_postgres-Closes c services s

    after_redis_ping-Closes :
        (c : Config) (e : Option Error) (s : State W)
        → Closes (one redis_context x) s (after_redis_ping p c (e, s))
    unfolding after_redis_ping
    after_redis_ping-Closes c (some e) s = drop redis_context s s.world _ (ends _ _ s.world)
    after_redis_ping-Closes c none s =
        drop redis_context s s.world _ (after_services-Closes c (redis_services c) _)

    with_redis-Closes : (c : Config) (s : State W) → Closes 0 s (with_redis p c s)
    unfolding with_redis
    with_redis-Closes c s =
        let (e, w) = p.ping_redis s.world in
        let s1 : State W = record { world = w; log = opened redis_client ∷ s.log } in
        let s2 : State W = record {
          world = w;
          log = opened redis_context ∷ opened redis_client ∷ s.log;
        } in
        let res = after_redis_ping p c (e, s2) in
        either c.redis.enabled 0 s (closing p redis_client res) (with_postgres p c no_services s)
          (bracket redis_client 0 s w res
            (hold redis_context s1 w res (after_redis_ping-Closes c e s2)))
          (with_postgres-Closes c no_services s)

    after_router-Closes :
        (c : Config) (router : Result (List Governed × Router)) (s : State W)
        → Closes 0 s (after_router p c router s)
    unfolding after_router
    after_router-Closes c (err e) s = ends _ s _
    after_router-Closes c (ok router) s = with_redis-Closes c s

    -- Whatever the configuration, the dependencies and the server answer, when the process ends each of
    -- the Redis client, the pool, the signals and the contexts with a deadline has been closed as
    -- often as it was opened.
    pub after_load-Closes :
        (parse_url : String → Option (String × String)) (ratio : Fraction) (loaded : Result Config)
        (w : W)
        → (let (e, t) = after_load p parse_url ratio loaded (record { world = w; log = [] }) in
            openings t.log ≡ closings t.log)
    unfolding after_load
    after_load-Closes parse_url ratio (err e) w = refl
    after_load-Closes parse_url ratio (ok c) w =
        let h =
          after_router-Closes c (build_provider_router parse_url ratio c)
            (record { world = w; log = [] }) in
        omega (arith, h.balance)
