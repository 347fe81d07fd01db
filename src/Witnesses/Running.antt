-- ===== src/Witnesses/Running.antt =====
-- The running process at concrete inputs (cmd/server/main.go, internal/metrics/metrics.go,
-- internal/api/handler.go).
use model_gate.Prelude.{ℕ, ◌+◌, ◌≤◌, ◌≡◌, refl, true, false, [], ◌∷◌, length, none, some, one_if}
use model_gate.Errors.{message, sentinel, eof, ok}
use model_gate.Gateway.Stream.{Streams}
use model_gate.Config.{load}
use model_gate.Retry.{run}
use model_gate.Retry.Attempts.{is_ok, reports}
use model_gate.Storage.{Database, apply_migrations}
use model_gate.Storage.Names.{sort_strings, sql_files}
use model_gate.Server.{Process, signaled, redis_client, after_load}
use model_gate.Server.Resources.{openings, closings, after_load-Closes}
use model_gate.Server.Started.{AnswersAll, StartsWith, after_load-StartsWith}
use model_gate.Metrics
use model_gate.Metrics.{Metrics}
use model_gate.Metrics.Attempts.{observe_all, successes, errors, retryable_errors, run-counted}
use model_gate.Api.{HttpRequest}
use model_gate.Witnesses.Startup.{host, loaded, parse_url, half, host_loads, loaded-HasUrls}
use model_gate.Witnesses.Upstream.{flaky, usual, usual_policy, usual-new}
use model_gate.Witnesses.Service.{Fields, hello}

-- A database that has every migration, and dependencies that answer.
abbrev migrated : Database ℕ
migrated = record {
  begin = λ w. (none, w);
  exec = λ s w. (none, w);
  is_applied = λ name w. (ok true, w);
  commit = λ w. (none, w);
  rollback = λ w. w;
}

abbrev healthy : Process ℕ
healthy = record {
  ping_redis = λ w. (none, w);
  parse_dsn = λ s. none;
  new_pool = λ w. (none, w);
  ping_pool = λ w. (none, w);
  database = migrated;
  migrations = record {
    entries = ok (record { name = "0001.sql"; is_dir = false } ∷ []);
    read = λ name. ok "";
  };
  listen = λ w. (signaled, w);
  is_server_closed = λ e. false;
  shutdown = λ w. (some (message "deadline"), w);
}

after_load-Closes_example :
    (let (e, t) = after_load healthy parse_url half (load host) (record { world = 0; log = [] }) in
      openings redis_client t.log ≡ closings redis_client t.log)
after_load-Closes_example = after_load-Closes redis_client healthy parse_url half (load host) 0

healthy-AnswersAll : AnswersAll healthy
unfolding apply_migrations sort_strings sql_files
healthy-AnswersAll = record {
  redis = λ w. refl;
  dsn = λ s. refl;
  pool = λ w. refl;
  postgres = λ w. refl;
  migrated = λ w. refl;
}

after_load-StartsWith_example :
    StartsWith true true
      (after_load healthy parse_url half (load host) (record { world = 0; log = [] }))
after_load-StartsWith_example =
    after_load-StartsWith healthy healthy-AnswersAll host parse_url half loaded 0 host_loads refl
      loaded-HasUrls

run-counted_example :
    (let r = (run flaky usual_policy 0).0 in
      let t = observe_all "deepseek" (reports r.events) Metrics.new in
      (successes "deepseek" t + errors "deepseek" t + retryable_errors "deepseek" t
        ≡ successes "deepseek" Metrics.new
          + errors "deepseek" Metrics.new
          + retryable_errors "deepseek" Metrics.new
          + length (reports r.events))
      × (successes "deepseek" t ≡ successes "deepseek" Metrics.new + one_if (is_ok r.result))
      × (errors "deepseek" t ≤ errors "deepseek" Metrics.new + 1))
run-counted_example = run-counted "deepseek" flaky usual_policy refl usual Metrics.new 0 usual-new

abbrev posted : HttpRequest
posted = record {
  remote_addr = "10.0.0.1:5000";
  host = some "10.0.0.1";
  idempotency_key = "order-7";
  bound = ok (record hello { stream = true });
}

-- Streams that end at once.
abbrev fixed_streams : Streams Fields ℕ ℕ
fixed_streams = record {
  start = λ r w. (ok 7, w);
  name = λ i. "deepseek";
  recv = λ i w. (none, some (sentinel eof), w);
  close = λ i w. (none, w);
}
