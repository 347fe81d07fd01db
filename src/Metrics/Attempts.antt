-- ===== src/Metrics/Attempts.antt =====
-- What the counters say of one call of a provider (ObserveUpstreamAttempt of
-- internal/metrics/metrics.go, as the `OnAttempt` of internal/retry/retry.go).
use model_gate.Prelude.{
  ℕ, ◌+◌, ◌≤◌, ◌≡◌, refl, inl, inr, arith, true, false, List, [], ◌∷◌, length, Option, some, String,
  eq_refl, not, one_if, Bool-cases,
}
use model_gate.Errors.{Error, is_retryable, Result, ok, err}
use model_gate.Retry.{Options, Policy, Environment, new, run}
use model_gate.Retry.Attempts.{reports, is_ok, LeadsTo, run_lem}
use model_gate.Metrics.{Metrics, observe_attempt, add}

-- The observer of a target's attempts, in their order.
abbrev pub observe_all : {A : Type 0} → String → List (Result A) → Metrics → Metrics
observe_all name [] m = m
observe_all name (r ∷ rs) m = observe_all name rs (observe_attempt name r m)

module _ (name : String) where
  abbrev pub successes : Metrics → ℕ
  successes m = m.upstream (name, "success")

  abbrev pub errors : Metrics → ℕ
  errors m = m.upstream (name, "error")

  abbrev pub retryable_errors : Metrics → ℕ
  retryable_errors m = m.upstream (name, "retryable_error")

  module _ (A : Type 0) (m : Metrics) where
    abbrev Counts : Result A → ℕ → ℕ → ℕ → Type 0
    Counts r s e f =
        (successes (observe_attempt name r m) ≡ successes m + s)
        × (errors (observe_attempt name r m) ≡ errors m + e)
        × (retryable_errors (observe_attempt name r m) ≡ retryable_errors m + f)

    observe_ok : (a : A) → Counts (ok a) 1 0 0
    unfolding observe_attempt add
    observe_ok a = rw (eq_refl name) (refl, omega arith, omega arith)

    observe_retryable : (e : Error) → is_retryable e ≡ true → Counts (err e) 0 0 1
    unfolding observe_attempt add
    observe_retryable e h = rw (h, eq_refl name) (omega arith, omega arith, refl)

    observe_final : (e : Error) → is_retryable e ≡ false → Counts (err e) 0 1 0
    unfolding observe_attempt add
    observe_final e h = rw (h, eq_refl name) (omega arith, refl, omega arith)

  observe_err :
      (A : Type 0) (m : Metrics) (e : Error)
      → (successes (observe_attempt {A = A} name (err e) m) ≡ successes m)
        × (errors (observe_attempt {A = A} name (err e) m)
              + retryable_errors (observe_attempt {A = A} name (err e) m)
            ≡ errors m + retryable_errors m + 1)
        × (errors (observe_attempt {A = A} name (err e) m)
            ≡ errors m + one_if (not (is_retryable e)))
  observe_err A m e = elim (Bool-cases (is_retryable e)) [
    | inl h ↦
        let (s, f, t) = observe_retryable A m e h in
        rw (h) (omega (arith, s), omega (arith, f, t), omega (arith, f))
    | inr h ↦
        let (s, f, t) = observe_final A m e h in
        rw (h) (omega (arith, s), omega (arith, f, t), omega (arith, f))
  ]

  -- Every attempt is counted once.
  all_counted :
      {A : Type 0} (rs : List (Result A)) (m : Metrics)
      → (let t = observe_all name rs m in
          successes t + errors t + retryable_errors t
          ≡ successes m + errors m + retryable_errors m + length rs)
  all_counted [] m = omega arith
  all_counted {A} (ok a ∷ rs) m =
      let (s, f, t) = observe_ok A m a in
      omega (arith, s, f, t, all_counted rs (observe_attempt name (ok a) m))
  all_counted {A} (err e ∷ rs) m =
      let (s, f, t) = observe_err A m e in
      omega (arith, s, f, all_counted rs (observe_attempt {A = A} name (err e) m))

  module _ {W A : Type 0} (env : Environment W A) (policy : Policy)
      (classed : env.should_retry ≡ some is_retryable) where
    -- Of attempts that lead to a result, one is a success if that is none of the errors, and at
    -- most one is an error that was not to be retried.
    outcomes_counted :
        (rs : List (Result A)) (result : Result (Option A)) (m : Metrics)
        → LeadsTo env policy rs result
        → (let t = observe_all name rs m in
            (successes t ≡ successes m + one_if (is_ok result)) × (errors t ≤ errors m + 1))
    outcomes_counted [] result m (e, h, c) = rw (h) (omega arith, omega arith)
    outcomes_counted (ok a ∷ rs) result m (last, h) =
        let (s, f, t) = observe_ok A m a in rw (last, h) (omega (arith, s), omega (arith, f))
    outcomes_counted (err e ∷ rs) result m (inl (last, h)) =
        let (s, f, t) = observe_err A m e in rw (last, h) (omega (arith, s), ground (arith, t))
    outcomes_counted (err e ∷ rs) result m (inr (inl (last, (c, h, k)))) =
        let (s, f, t) = observe_err A m e in rw (last, h) (omega (arith, s), ground (arith, t))
    outcomes_counted (err e ∷ rs) result m (inr (inr (again, leads))) =
        let (s, f, t) = observe_err A m e in
        let retried : is_retryable e ≡ true = rw classed at again in
        let (s', f') = outcomes_counted rs result (observe_attempt {A = A} name (err e) m) leads in
        (omega (arith, s, s'), ground (arith, t, f', retried))

    -- `Do`, under a policy that `New` accepts and with the errors that are retryable as those to be
    -- retried, is counted thus for a target that observes its attempts: each attempt once, by one of
    -- three results; one success exactly where the call succeeds, and none where it fails; and at
    -- most one error that is not retryable.
    pub run-counted :
        (o : Options) (m : Metrics) (w : W)
        → new o ≡ ok policy
        → (let r = (run env policy w).0 in
            let t = observe_all name (reports r.events) m in
            (successes t + errors t + retryable_errors t
              ≡ successes m + errors m + retryable_errors m + length (reports r.events))
            × (successes t ≡ successes m + one_if (is_ok r.result))
            × (errors t ≤ errors m + 1))
    run-counted o m w accepted =
        let (few, numbered, ended, none_left, leads) = run_lem env o w accepted in
        let rs = reports (run env policy w).0.events in
        let (s, f) = outcomes_counted rs (run env policy w).0.result m leads in
        (all_counted rs m, s, f)
