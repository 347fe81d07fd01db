-- ===== src/Governance.antt =====
-- The guard around one provider (internal/governance/provider.go): a slot of the semaphore, a permit
-- of the breaker, and the retry policy around the calls of the provider.
-- The semaphore and the breaker are shared with other requests, which run whenever this one waits: the
-- steps of the surroundings are functions on the whole of `Shared`. A call may wait for ever at the
-- semaphore, or dereference a nil response; both are outcomes of their own.
pub mod Calls
pub mod Streams
use model_gate.Prelude.{
  ℕ, ◌+◌, ◌==◌, one_if, List, [], ◌∷◌, Bool, true, false, Option, none, some, String, str_eq,
  trim_space, if◌then◌else◌,
}
use model_gate.Errors.{
  Error, ErrorKind, invalid_response, message, sentinel, circuit_open, eof, upstream_because,
  errors_is, is_retryable, is_circuit_failure, Result, ok, err,
}
use model_gate.Requests.{ChatResponse}
use model_gate.Semaphore
use model_gate.Semaphore.{Semaphore, Choice, acquire}
use model_gate.Breaker
use model_gate.Breaker.{
  Breaker, Outcome, outcome_ignored, outcome_success, outcome_failure, allow, done,
}
use model_gate.Retry
use model_gate.Retry.{Environment, Policy, Returned, cancelled, run, run_retained}

-- The fields of Provider that change, and the world of the rest.
pub record Shared (W : Type 0) : Type 0 where
  pub semaphore : Semaphore
  pub breaker : Breaker
  pub world : W

-- What surrounds a call: the wrapped provider's method, which may answer nil, the contexts, the timer
-- and the jitter of the retry policy, and the breaker's clock.
pub record Surroundings (W A : Type 0) : Type 0 where
  pub call : ℕ → Shared W → Result (Option A) × Shared W
  pub context_error : Shared W → Option Error × Shared W
  pub jitter : ℕ → Shared W → ℕ × Shared W
  pub wait : ℕ → Shared W → Option Error × Shared W
  pub clock : Shared W → ℕ

-- The fields of Provider that stay.
pub record Guard : Type 0 where
  pub name : String
  pub policy : Policy

-- `panics`: a nil answer is used, by Chat at once, by ChatStream's caller at its first Recv.
pub data Finish (A : Type 0) : Type 0 where
  waits panics : Finish A
  returns : A → Finish A

-- NewProvider, of collaborators that are not nil.
unfoldable pub new : String → Policy → Result Guard
new name policy =
    if str_eq (trim_space name) ""
    then err (message "provider name is required")
    else ok (record { name = trim_space name; policy = policy })

unfoldable pub circuit_outcome : {A : Type 0} → Result A → Outcome
circuit_outcome (ok a) = outcome_success
circuit_outcome (err e) = if is_circuit_failure e then outcome_failure else outcome_ignored

-- The closure that is retried: a nil answer is an error.
unfoldable pub check_answer : {A : Type 0} → String → String → String → Result (Option A) → Result A
check_answer name operation what (err e) = err e
check_answer name operation what (ok (some a)) = ok a
check_answer name operation what (ok none) = err (
    upstream_because
      (record {
        provider = name;
        operation = operation;
        kind = invalid_response;
        status_code = 0;
        retryable = false;
      })
      (message what))

module _ {W A : Type 0} (g : Guard) (operation what : String) (around : Surroundings W A) where
  abbrev pub attempts : Environment (Shared W) A
  attempts = record {
    context_error = around.context_error;
    operation = λ timeout s.
        let (answer, s') = around.call timeout s in (check_answer g.name operation what answer, s');
    jitter = around.jitter;
    wait = around.wait;
    should_retry = some is_retryable;
  }

-- Release, deferred or not, of the concurrency permit; it might wait.
unfoldable pub give_back : {W A : Type 0} → Semaphore.Permit → A → Shared W → Finish (A × Shared W)
give_back permit a s = elim (Semaphore.release permit s.semaphore) [
  | none ↦ waits
  | some (_, semaphore) ↦ returns (a, record s { semaphore = semaphore })
]

module _ {W : Type 0} (g : Guard) (around : Surroundings W ChatResponse) where
  -- What Chat does with the policy's answer, before the deferred Release.
  answer_with :
      Semaphore.Permit
      → Result (Option ChatResponse)
      → Shared W
      → Finish (Result ChatResponse × Shared W)
  unfolding give_back
  answer_with permit (err e) s = give_back permit (err e) s
  answer_with permit (ok none) s = panics
  answer_with permit (ok (some a)) s = give_back permit (ok (record a { provider = g.name })) s

  -- From `p.retry.Do` on.
  call_guarded :
      Semaphore.Permit → Breaker.Permit → Shared W → Finish (Result ChatResponse × Shared W)
  unfolding answer_with
  call_guarded slot permit s =
      let env = attempts g "chat" "provider returned a nil response" around in
      let (r, t) = run env g.policy s in
      let breaker = (done permit (around.clock t) (circuit_outcome r.result) t.breaker).1 in
      answer_with slot r.result (record t { breaker = breaker })

  -- From `p.breaker.Allow` on.
  ask_breaker : Semaphore.Permit → Shared W → Finish (Result ChatResponse × Shared W)
  unfolding call_guarded give_back
  ask_breaker slot s =
      let (breaker, permit, _) = allow (around.clock s) s.breaker in
      let s' : Shared W = record s { breaker = breaker } in
      elim permit [
        | none ↦ give_back slot (err (sentinel circuit_open)) s'
        | some p ↦ call_guarded slot p s'
      ]

  -- Chat; `choice` is what the `select` in Acquire does.
  unfoldable pub chat : Choice → Shared W → Finish (Result ChatResponse × Shared W)
  unfolding ask_breaker
  chat choice s = elim (acquire choice s.semaphore) [
    | none ↦ waits
    | some (err e, semaphore) ↦ returns (err e, record s { semaphore = semaphore })
    | some (ok slot, semaphore) ↦ ask_breaker slot (record s { semaphore = semaphore })
  ]

-- managedStream, around a stream `S`. `ended` is the state of its `sync.Once`; `cancelled` counts the
-- cancellations of the retained context, that of the successful attempt: those by the retry loop
-- before the stream is there, and the calls of `cancel`.
pub record ManagedStream (S : Type 0) : Type 0 where
  pub provider_name : String
  pub inner : S
  pub circuit : Breaker.Permit
  pub concurrency : Semaphore.Permit
  pub cancel : Option ℕ
  pub ended : Bool
  pub cancelled : ℕ

-- How often the events of a run cancel the context of this attempt.
unfoldable pub cancellations : {A : Type 0} → ℕ → List (Retry.Event A) → ℕ
cancellations n [] = 0
cancellations n (cancelled k ∷ es) = let later = cancellations n es in one_if (k == n) + later
cancellations n (_ ∷ es) = cancellations n es

abbrev pub cancelled_already : {A : Type 0} → Returned A → ℕ
cancelled_already r = elim r.cancel [ none ↦ 0 | some n ↦ cancellations n r.events ]

module _ {W S : Type 0} (g : Guard) (around : Surroundings W S) where
  abbrev StreamResult : Type 0
  StreamResult = Finish (Result (ManagedStream S) × Shared W)

  -- What ChatStream does with the policy's answer.
  wrap_stream :
      Semaphore.Permit → Breaker.Permit → Option ℕ → ℕ → Result (Option S) → Shared W → StreamResult
  unfolding give_back
  wrap_stream slot permit cancel before (ok none) s = panics
  wrap_stream slot permit cancel before (ok (some stream)) s = returns (
    ok (record {
      provider_name = g.name;
      inner = stream;
      circuit = permit;
      concurrency = slot;
      cancel = cancel;
      ended = false;
      cancelled = before;
    }),
    s,
  )
  wrap_stream slot permit cancel before (err e) s =
      let outcome = circuit_outcome {A = S} (err e) in
      let breaker = (done permit (around.clock s) outcome s.breaker).1 in
      give_back slot (err e) (record s { breaker = breaker })

  open_guarded : Semaphore.Permit → Breaker.Permit → Shared W → StreamResult
  unfolding wrap_stream
  open_guarded slot permit s =
      let env = attempts g "chat stream" "provider returned a nil stream" around in
      let (r, t) = run_retained env g.policy s in
      wrap_stream slot permit r.cancel (cancelled_already r) r.result t

  ask_breaker_for_stream : Semaphore.Permit → Shared W → StreamResult
  unfolding open_guarded give_back
  ask_breaker_for_stream slot s =
      let (breaker, permit, _) = allow (around.clock s) s.breaker in
      let s' : Shared W = record s { breaker = breaker } in
      elim permit [
        | none ↦ give_back slot (err (sentinel circuit_open)) s'
        | some p ↦ open_guarded slot p s'
      ]

  -- ChatStream
  unfoldable pub chat_stream : Choice → Shared W → StreamResult
  unfolding ask_breaker_for_stream
  chat_stream choice s = elim (acquire choice s.semaphore) [
    | none ↦ waits
    | some (err e, semaphore) ↦ returns (err e, record s { semaphore = semaphore })
    | some (ok slot, semaphore) ↦ ask_breaker_for_stream slot (record s { semaphore = semaphore })
  ]

-- The wrapped stream, whose calls may take time, and the clock.
pub record StreamSurroundings (W S C : Type 0) : Type 0 where
  pub recv : S → Shared W → (Option C × Option Error) × S × Shared W
  pub close : S → Shared W → Option Error × S × Shared W
  pub clock : Shared W → ℕ

module _ {W S C : Type 0} (around : StreamSurroundings W S C) where
  abbrev pub Streaming : Type 0
  Streaming = ManagedStream S × Shared W

  -- finish
  unfoldable pub finish : Outcome → Streaming → Finish Streaming
  finish outcome (m, s) =
      if m.ended then returns (m, s) else elim (Semaphore.release m.concurrency s.semaphore) [
        | none ↦ waits
        | some (concurrency, semaphore) ↦
            let (circuit, breaker, _) = done m.circuit (around.clock s) outcome s.breaker in
            returns (
              record m {
                ended = true;
                cancelled = m.cancelled + 1;
                circuit = circuit;
                concurrency = concurrency;
              },
              record s { semaphore = semaphore; breaker = breaker },
            )
      ]

  -- The `switch` of Recv.
  end_after : Option Error → Streaming → Finish Streaming
  unfolding finish
  end_after none st = returns st
  end_after (some e) st =
      if errors_is e eof
      then finish outcome_success st
      else finish (circuit_outcome {A = C} (err e)) st

  abbrev with_answer : {B : Type 0} → B → Finish Streaming → Finish (B × Streaming)
  with_answer b waits = waits
  with_answer b panics = panics
  with_answer b (returns st) = returns (b, st)

  -- Recv
  unfoldable pub recv : Streaming → Finish ((Option C × Option Error) × Streaming)
  unfolding end_after
  recv (m, s) =
      let ((chunk, failure), inner, s') = around.recv m.inner s in
      with_answer (chunk, failure) (end_after failure (record m { inner = inner }, s'))

  -- Close
  unfoldable pub close : Streaming → Finish (Option Error × Streaming)
  unfolding finish
  close (m, s) =
      let (failure, inner, s') = around.close m.inner s in
      let outcome : Outcome = elim failure [ none ↦ outcome_ignored | some e ↦ outcome_failure ] in
      with_answer failure (finish outcome (record m { inner = inner }, s'))
