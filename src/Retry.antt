-- ===== src/Retry.antt =====
-- The retry policy (internal/retry/retry.go).
-- The context, the operation, the jitter and the timer are parameters: each is a step of an abstract
-- world `W`, in which time passes and other goroutines run. Durations are numbers of nanoseconds; a
-- jitter below zero acts as one of zero, since the code only tests `delay <= 0`.
pub mod Backoff
pub mod Attempts
pub mod Frame
use model_gate.Prelude.{
  ℕ, zero, suc, ◌+◌, ◌-◌, ◌*◌, ◌/◌, Bool, true, false, not, ◌&&◌, ◌||◌, Option, none, some, List,
  [], ◌∷◌, ◌++◌, ltb, leb, ◌==◌, if◌then◌else◌, ℤ, pos, pos_part, leb_ℤ, ltb_ℤ,
}
use model_gate.Errors.{Error, message, Result, ok, err}

pub record Options : Type 0 where
  pub max_attempts : ℤ
  pub attempt_timeout : ℤ
  pub base_backoff : ℤ
  pub max_backoff : ℤ

-- Options that `New` has accepted.
pub record Policy : Type 0 where
  pub max_attempts : ℕ
  pub attempt_timeout : ℕ
  pub base_backoff : ℕ
  pub max_backoff : ℕ

unfoldable pub new : Options → Result Policy
new o =
    if leb_ℤ o.max_attempts (pos 0)
    then err (message "max attempts must be positive")
    else if leb_ℤ o.attempt_timeout (pos 0)
    then err (message "attempt timeout must be positive")
    else if leb_ℤ o.base_backoff (pos 0) || ltb_ℤ o.max_backoff o.base_backoff
    then err (message "backoff values must be positive and max must not be below base")
    else ok (record {
      max_attempts = pos_part o.max_attempts;
      attempt_timeout = pos_part o.attempt_timeout;
      base_backoff = pos_part o.base_backoff;
      max_backoff = pos_part o.max_backoff;
    })

-- The rest of the loop of `backoff`, for the rounds left.
backoff_loop : ℕ → ℕ → ℕ → ℕ
backoff_loop zero delay top = if ltb top delay then top else delay
backoff_loop (suc rounds) delay top =
    let rest = backoff_loop rounds (delay * 2) top in if leb (top / 2) delay then top else rest

unfoldable pub backoff : Policy → ℕ → ℕ
unfolding backoff_loop
backoff p failed_attempt = backoff_loop (failed_attempt - 1) p.base_backoff p.max_backoff

-- fullJitter, for the number that `rand.Int64N` draws.
unfoldable pub full_jitter : (ℕ → ℕ) → ℕ → ℕ
full_jitter draw maximum = if maximum == 0 then 0 else draw (maximum + 1)

-- What surrounds the loop.
pub record Environment (W A : Type 0) : Type 0 where
  -- ctx.Err() of the caller's context
  pub context_error : W → Option Error × W
  -- the operation, under a context with the attempt's timeout
  pub operation : ℕ → W → Result A × W
  pub jitter : ℕ → W → ℕ × W
  -- the select of the timer and ctx.Done(): `none` if the timer fires, the ctx.Err() if not
  pub wait : ℕ → W → Option Error × W
  -- `shouldRetry`, which may be nil
  pub should_retry : Option (Error → Bool)

-- What the loop does to the outside, in order: it opens the context of an attempt, reports the
-- attempt to `OnAttempt`, cancels the context, and sleeps.
pub data Event (A : Type 0) : Type 0 where
  opened : ℕ → Event A
  observed : ℕ → Result A → Event A
  cancelled : ℕ → Event A
  slept : ℕ → Event A

-- The cancel function that is handed to the caller, by the attempt that it belongs to, the error or
-- the value that the operation left (`none` if it was never run), and the events.
pub record Returned (A : Type 0) : Type 0 where
  pub cancel : Option ℕ
  pub result : Result (Option A)
  pub events : List (Event A)

abbrev pub wants_retry : Option (Error → Bool) → Error → Bool
wants_retry none e = false
wants_retry (some f) e = f e

module _ {W A : Type 0} (env : Environment W A) (policy : Policy) (retain_success : Bool) where
  abbrev stopped : Error → List (Event A) → W → Returned A × W
  stopped e events w = (record { cancel = none; result = err e; events = events }, w)

  abbrev prepend : List (Event A) → Returned A × W → Returned A × W
  prepend events (r, w) = (record r { events = events ++ r.events }, w)

  succeed : ℕ → A → W → Returned A × W
  succeed attempt a w = (
    record {
      cancel = if retain_success then some attempt else none;
      result = ok (some a);
      events =
          opened attempt
          ∷ observed attempt (ok a)
          ∷ (if retain_success then [] else cancelled attempt ∷ []);
    },
    w,
  )

  -- The sleep before the next attempt, and the rest of the loop.
  pause : (W → Returned A × W) → List (Event A) → ℕ → W → Returned A × W
  pause rest events delay w =
      if delay == 0
      then prepend events (rest w)
      else let (ended, w') = env.wait delay w in
        elim ended [
          | some e ↦ stopped e (events ++ slept delay ∷ []) w'
          | none ↦ prepend (events ++ slept delay ∷ []) (rest w')
        ]

  give_up_or_pause : (W → Returned A × W) → ℕ → Error → List (Event A) → W → Returned A × W
  unfolding pause
  give_up_or_pause rest attempt e events w =
      if attempt == policy.max_attempts || not (wants_retry env.should_retry e)
      then stopped e events w
      else let (delay, w') = env.jitter (backoff policy attempt) w in pause rest events delay w'

  after_failure : (W → Returned A × W) → ℕ → Error → W → Returned A × W
  unfolding give_up_or_pause
  after_failure rest attempt e w =
      let events = opened attempt ∷ observed attempt (err e) ∷ cancelled attempt ∷ [] in
      let (parent, w') = env.context_error w in
      elim parent [
        | some p ↦ stopped p events w'
        | none ↦ give_up_or_pause rest attempt e events w'
      ]

  after_attempt : (W → Returned A × W) → ℕ → Result A → W → Returned A × W
  unfolding succeed after_failure
  after_attempt rest attempt (ok a) w = succeed attempt a w
  after_attempt rest attempt (err e) w = after_failure rest attempt e w

  begin_attempt : (W → Returned A × W) → ℕ → Option Error → W → Returned A × W
  unfolding after_attempt
  begin_attempt rest attempt (some e) w = stopped e [] w
  begin_attempt rest attempt none w =
      let (r, w') = env.operation policy.attempt_timeout w in after_attempt rest attempt r w'

  -- The loop with `rounds` rounds left, `attempt` the number of the next one.
  retry_loop : ℕ → ℕ → W → Returned A × W
  unfolding begin_attempt
  retry_loop zero attempt w = (record { cancel = none; result = ok none; events = [] }, w)
  retry_loop (suc rounds) attempt w =
      let (parent, w') = env.context_error w in
      begin_attempt (λ v. retry_loop rounds (attempt + 1) v) attempt parent w'

  -- The unexported `do`.
  unfoldable pub do_attempts : W → Returned A × W
  unfolding retry_loop
  do_attempts w = retry_loop policy.max_attempts 1 w

module _ {W A : Type 0} (env : Environment W A) (policy : Policy) where
  abbrev run_cancel : Option ℕ → List (Event A)
  run_cancel none = []
  run_cancel (some n) = cancelled n ∷ []

  -- Do
  unfoldable pub run : W → Returned A × W
  unfolding do_attempts
  run w =
      let (r, w') = do_attempts env policy false w in
      (record r { cancel = none; events = r.events ++ run_cancel r.cancel }, w')

  -- DoRetained
  unfoldable pub run_retained : W → Returned A × W
  unfolding do_attempts
  run_retained w = do_attempts env policy true w
