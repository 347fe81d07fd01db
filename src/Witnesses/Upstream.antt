-- ===== src/Witnesses/Upstream.antt =====
-- Errors, the semaphore and the retry policy at concrete inputs
-- (internal/provider/error.go, internal/concurrency/semaphore.go, internal/retry/retry.go).
use model_gate.Prelude.{
  ℕ, ◌+◌, ◌*◌, ◌^◌, ◌≤◌, ◌<◌, ◌≡◌, refl, true, false, ◌++◌, List, [], ◌∷◌, none, some, is_some,
  length, count, get_elem?, leb, pos,
}
use model_gate.Errors.{
  Error, sentinel, canceled, deadline_exceeded, errors_is, is_retryable, Result, ok, err, op_error,
}
use model_gate.Errors.Transport.{request_error}
use model_gate.Semaphore
use model_gate.Semaphore.{Semaphore, takes_slot, sees_done, release}
use model_gate.Semaphore.Permits
use model_gate.Semaphore.Permits.{is_held, in_flight_exact}
use model_gate.Retry
use model_gate.Retry.{Policy, Environment, Returned, backoff}
use model_gate.Retry.Backoff.{IsDelay, backoff_exponential}
use model_gate.Retry.Attempts.{
  opens, cancels, count_up, to_list, is_ok, reports, LeadsTo, run_lem, run_retained_lem,
}

-- A client that went away while a request was being written.
abbrev gone : Error
gone = request_error "deepseek" (op_error "write" false (sentinel canceled))

gone_canceled : errors_is gone canceled ≡ true
unfolding request_error errors_is
gone_canceled = refl

-- Two slots, three callers: the third waits, the second gives its slot back twice.
abbrev two_slots : Semaphore
two_slots = record { in_flight = 0; capacity = 2 }

two_slots-new : Semaphore.new (pos 2) ≡ ok two_slots
unfolding Semaphore.new
two_slots-new = refl

abbrev rush : List Permits.Call
rush =
    Permits.acquires takes_slot
    ∷ Permits.acquires takes_slot
    ∷ Permits.acquires takes_slot
    ∷ Permits.releases 0
    ∷ Permits.releases 0
    ∷ Permits.acquires (sees_done (sentinel canceled))
    ∷ []

in_flight_exact_example :
    (let s = Permits.run (Permits.start two_slots) rush in
      (s.semaphore.in_flight ≡ count is_held s.permits)
      × (s.semaphore.in_flight ≤ 2)
      × ((i : ℕ) (p : Semaphore.Permit)
          → get_elem? s.permits i ≡ some p
          → is_some (release p s.semaphore) ≡ true))
in_flight_exact_example = in_flight_exact (pos 2) rush two_slots-new

abbrev pub usual : Retry.Options
usual = record {
  max_attempts = pos 3;
  attempt_timeout = pos 10_000;
  base_backoff = pos 100;
  max_backoff = pos 250;
}

abbrev pub usual_policy : Policy
usual_policy = record {
  max_attempts = 3;
  attempt_timeout = 10_000;
  base_backoff = 100;
  max_backoff = 250;
}

pub usual-new : Retry.new usual ≡ ok usual_policy
unfolding Retry.new
usual-new = refl

backoff_exponential_example :
    IsDelay 250 (100 * 2 ^ 1) (backoff usual_policy 2)
    × (0 < backoff usual_policy 2)
    × (backoff usual_policy 2 ≤ 250)
    × (backoff usual_policy 2 ≤ backoff usual_policy 3)
backoff_exponential_example = backoff_exponential usual 1 usual-new

-- A world that counts attempts: the first two time out, the third answers with its number.
abbrev pub flaky : Environment ℕ ℕ
flaky = record {
  context_error = λ w. (none, w);
  operation = λ timeout w. (answer w, w + 1);
  jitter = λ d w. (d, w);
  wait = λ d w. (none, w);
  should_retry = some is_retryable;
}
  where
    answer : ℕ → Result ℕ
    answer w = elim (leb 2 w) [ true ↦ ok w | false ↦ err (sentinel deadline_exceeded) ]

run_lem_example :
    (let r = (Retry.run flaky usual_policy 0).0 in
      (length (opens r.events) ≤ 3)
      × (opens r.events ≡ count_up 1 (length (opens r.events)))
      × (opens r.events ≡ cancels r.events)
      × (r.cancel ≡ none)
      × LeadsTo flaky usual_policy (reports r.events) r.result)
run_lem_example = run_lem flaky usual 0 usual-new

third_time : (Retry.run flaky usual_policy 0).0.result ≡ ok (some 2)
unfolding Retry.run is_retryable errors_is Retry.backoff
third_time = refl

run_retained_lem_example :
    (let r = (Retry.run_retained flaky usual_policy 0).0 in
      (length (opens r.events) ≤ 3)
      × (opens r.events ≡ count_up 1 (length (opens r.events)))
      × (opens r.events ≡ cancels r.events ++ to_list r.cancel)
      × (is_some r.cancel ≡ is_ok r.result)
      × LeadsTo flaky usual_policy (reports r.events) r.result)
run_retained_lem_example = run_retained_lem flaky usual 0 usual-new
