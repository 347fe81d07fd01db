-- ===== src/Retry/Frame.antt =====
-- What the surroundings of the retry loop keep, the loop keeps (internal/retry/retry.go).
use model_gate.Prelude.{
  ℕ, zero, suc, ◌+◌, inl, inr, true, false, not, ◌||◌, ◌==◌, Bool, Bool-cases, Option-cases, Option,
  none, some, List,
}
use model_gate.Errors.{Error, Result, ok, err}
use model_gate.Retry.{
  Policy, Environment, Event, Returned, wants_retry, backoff, succeed, pause, give_up_or_pause,
  after_failure, after_attempt, begin_attempt, retry_loop, do_attempts, run, run_retained,
}

-- Each step of the surroundings keeps `P`.
pub record Keeps {W A : Type 0} (env : Environment W A) (P : W → Type 0) : Type 0 where
  pub context_error : (w : W) → P w → P (env.context_error w).1
  pub operation : (n : ℕ) (w : W) → P w → P (env.operation n w).1
  pub jitter : (n : ℕ) (w : W) → P w → P (env.jitter n w).1
  pub wait : (n : ℕ) (w : W) → P w → P (env.wait n w).1

module _ {W A : Type 0} (env : Environment W A) (policy : Policy) (P : W → Type 0)
    (keeps : Keeps env P) where
  module _ (retain : Bool) where
    abbrev RestKeeps : (W → Returned A × W) → Type 0
    RestKeeps rest = (w : W) → P w → P (rest w).1

    pause-keeps :
        (rest : W → Returned A × W) (events : List (Event A)) (delay : ℕ) (w : W)
        → RestKeeps rest
        → P w
        → P (pause env policy retain rest events delay w).1
    unfolding pause
    pause-keeps rest events delay w r p = elim (Bool-cases (delay == 0)) [
      | inl z ↦ rw (z, pause) (r w p)
      | inr nz ↦
          let p' = keeps.wait delay w p in
          elim (Option-cases (env.wait delay w).0) [
            | inl z ↦ rw (nz, z, pause) (r (env.wait delay w).1 p')
            | inr (e, z) ↦ rw (nz, z, pause) p'
          ]
    ]

    give_up-keeps :
        (rest : W → Returned A × W) (attempt : ℕ) (e : Error) (events : List (Event A)) (w : W)
        → RestKeeps rest
        → P w
        → P (give_up_or_pause env policy retain rest attempt e events w).1
    unfolding give_up_or_pause
    give_up-keeps rest attempt e events w r p =
        elim (Bool-cases (attempt == policy.max_attempts || not (wants_retry env.should_retry e))) [
          | inl z ↦ rw (z, give_up_or_pause) p
          | inr z ↦
              let (delay, w') = env.jitter (backoff policy attempt) w in
              rw (z, give_up_or_pause)
                (pause-keeps rest events delay w' r (keeps.jitter (backoff policy attempt) w p))
        ]

    after_failure-keeps :
        (rest : W → Returned A × W) (attempt : ℕ) (e : Error) (w : W)
        → RestKeeps rest
        → P w
        → P (after_failure env policy retain rest attempt e w).1
    unfolding after_failure
    after_failure-keeps rest attempt e w r p =
        let p' = keeps.context_error w p in
        elim (Option-cases (env.context_error w).0) [
          | inr (e', z) ↦ rw (z, after_failure) p'
          | inl z ↦
              rw (z, after_failure) (give_up-keeps rest attempt e _ (env.context_error w).1 r p')
        ]

    after_attempt-keeps :
        (rest : W → Returned A × W) (attempt : ℕ) (result : Result A) (w : W)
        → RestKeeps rest
        → P w
        → P (after_attempt env policy retain rest attempt result w).1
    unfolding after_attempt succeed
    after_attempt-keeps rest attempt (ok a) w r p = p
    after_attempt-keeps rest attempt (err e) w r p = after_failure-keeps rest attempt e w r p

    begin_attempt-keeps :
        (rest : W → Returned A × W) (attempt : ℕ) (parent : Option Error) (w : W)
        → RestKeeps rest
        → P w
        → P (begin_attempt env policy retain rest attempt parent w).1
    unfolding begin_attempt
    begin_attempt-keeps rest attempt (some e) w r p = p
    begin_attempt-keeps rest attempt none w r p =
        let (result, w') = env.operation policy.attempt_timeout w in
        after_attempt-keeps rest attempt result w' r (keeps.operation policy.attempt_timeout w p)

    loop-keeps :
        (rounds attempt : ℕ) (w : W) → P w → P (retry_loop env policy retain rounds attempt w).1
    unfolding retry_loop
    loop-keeps zero attempt w p = p
    loop-keeps (suc rounds) attempt w p =
        let (parent, w') = env.context_error w in
        begin_attempt-keeps (λ v. retry_loop env policy retain rounds (attempt + 1) v) attempt
          parent w' (λ v q. loop-keeps rounds (attempt + 1) v q) (keeps.context_error w p)

    do-keeps : (w : W) → P w → P (do_attempts env policy retain w).1
    unfolding do_attempts
    do-keeps w p = loop-keeps policy.max_attempts 1 w p

  pub run-keeps : (w : W) → P w → P (run env policy w).1
  unfolding run
  run-keeps w p = do-keeps false w p

  pub run_retained-keeps : (w : W) → P w → P (run_retained env policy w).1
  unfolding run_retained
  run_retained-keeps w p = do-keeps true w p
