-- ===== src/Retry/Attempts.antt =====
-- What a run of the retry loop does (`do`, `Do` and `DoRetained` in internal/retry/retry.go).
use model_gate.Prelude.{
  ℕ, zero, suc, ◌+◌, ◌≤◌, ◌<◌, ◌≡◌, ◌≢◌, ◌⊎◌, inl, inr, refl, arith, Bool, true, false, not, ◌||◌,
  ◌==◌, Bool-cases, Option-cases, ap, ◌∙◌, List, [], ◌∷◌, ◌++◌, length, Option, none, some,
  append-nil, is_some,
}
use model_gate.Errors.{Error, Result, ok, err}
use model_gate.Retry.{
  Options, Policy, Environment, Event, opened, observed, cancelled, slept, Returned, new,
  wants_retry, stopped, succeed, pause, give_up_or_pause, after_failure, after_attempt,
  begin_attempt, retry_loop, do_attempts, run_cancel, run, run_retained,
}

module _ {A : Type 0} where
  pub opens : List (Event A) → List ℕ
  opens [] = []
  opens (opened n ∷ es) = n ∷ opens es
  opens (_ ∷ es) = opens es

  unfoldable pub cancels : List (Event A) → List ℕ
  cancels [] = []
  cancels (cancelled n ∷ es) = n ∷ cancels es
  cancels (_ ∷ es) = cancels es

  -- What `OnAttempt` was told.
  pub reports : List (Event A) → List (Result A)
  reports [] = []
  reports (observed n r ∷ es) = r ∷ reports es
  reports (_ ∷ es) = reports es

  pub sleeps : List (Event A) → List ℕ
  sleeps [] = []
  sleeps (slept d ∷ es) = d ∷ sleeps es
  sleeps (_ ∷ es) = sleeps es

-- first, first + 1, …: n numbers.
unfoldable pub count_up : ℕ → ℕ → List ℕ
count_up first zero = []
count_up first (suc n) = first ∷ count_up (first + 1) n

abbrev pub to_list : Option ℕ → List ℕ
to_list none = []
to_list (some n) = n ∷ []

abbrev pub is_ok : {A : Type 0} → Result A → Bool
is_ok (ok a) = true
is_ok (err e) = false

module _ {W A : Type 0} (env : Environment W A) (policy : Policy) where
  -- An error of the caller's context, seen between attempts or during a sleep.
  abbrev pub IsContextError : Error → Type 0
  IsContextError e =
      ((w : W) × ((env.context_error w).0 ≡ some e))
      ⊎ ((d : ℕ) × (w : W) × ((env.wait d w).0 ≡ some e))

  -- The result that the attempts so reported lead to.
  abbrev pub LeadsTo : List (Result A) → Result (Option A) → Type 0
  LeadsTo [] r = (e : Error) × (r ≡ err e) × IsContextError e
  LeadsTo (ok a ∷ rest) r = (rest ≡ []) × (r ≡ ok (some a))
  LeadsTo (err e ∷ rest) r =
      ((rest ≡ []) × (r ≡ err e))
      ⊎ ((rest ≡ []) × ((p : Error) × (r ≡ err p) × IsContextError p))
      ⊎ ((wants_retry env.should_retry e ≡ true) × LeadsTo rest r)

  pub record IsRun (retain : Bool) (rounds first : ℕ) (r : Returned A) : Type 0 where
    pub numbered : opens r.events ≡ count_up first (length (opens r.events))
    pub bounded : length (opens r.events) ≤ rounds
    pub balanced : opens r.events ≡ cancels r.events ++ to_list r.cancel
    pub leads : LeadsTo (reports r.events) r.result
    pub kept : retain ≡ false → r.cancel ≡ none
    pub handed_over : retain ≡ true → is_some r.cancel ≡ is_ok r.result

  abbrev failed : ℕ → Error → List (Event A)
  failed attempt e = opened attempt ∷ observed attempt (err e) ∷ cancelled attempt ∷ []

  -- A failed attempt in front of a run, with the sleep between them or without.
  module _ (retain : Bool) (rounds attempt : ℕ) (e : Error) where
    prepend-IsRun :
        (r : Returned A)
        → wants_retry env.should_retry e ≡ true
        → IsRun retain rounds (attempt + 1) r
        → IsRun retain (suc rounds) attempt (record r { events = failed attempt e ++ r.events })
    unfolding opens cancels reports count_up
    prepend-IsRun r wanted i = record {
      numbered = ap (◌∷◌ attempt) i.numbered;
      bounded = omega (arith, i);
      balanced = ap (◌∷◌ attempt) i.balanced;
      leads = inr (inr (wanted, i.leads));
      kept = i.kept;
      handed_over = i.handed_over;
    }

    prepend_slept-IsRun :
        (d : ℕ) (r : Returned A)
        → IsRun retain (suc rounds) attempt (record r { events = failed attempt e ++ r.events })
        → IsRun retain
            (suc rounds)
            attempt
            (record r { events = (failed attempt e ++ slept d ∷ []) ++ r.events })
    unfolding opens cancels reports
    prepend_slept-IsRun d r i = record {
      numbered = i.numbered;
      bounded = i.bounded;
      balanced = i.balanced;
      leads = i.leads;
      kept = i.kept;
      handed_over = i.handed_over;
    }

    stopped-IsRun :
        (p : Error) (w : W)
        → (p ≡ e) ⊎ IsContextError p
        → IsRun retain (suc rounds) attempt (stopped env policy retain p (failed attempt e) w).0
    unfolding opens cancels reports count_up
    stopped-IsRun p w why = record {
      numbered = refl;
      bounded = omega arith;
      balanced = refl;
      leads = elim why [
        | inl same ↦ inl (refl, ap err same)
        | inr outer ↦ inr (inl (refl, (p, refl, outer)))
      ];
      kept = λ _. refl;
      handed_over = λ _. refl;
    }

    stopped_slept-IsRun :
        (d : ℕ) (p : Error) (w : W)
        → IsContextError p
        → IsRun retain
            (suc rounds)
            attempt
            (stopped env policy retain p (failed attempt e ++ slept d ∷ []) w).0
    unfolding opens cancels reports count_up
    stopped_slept-IsRun d p w why = record {
      numbered = refl;
      bounded = omega arith;
      balanced = refl;
      leads = inr (inl (refl, (p, refl, why)));
      kept = λ _. refl;
      handed_over = λ _. refl;
    }

  succeed-IsRun :
      (retain : Bool) (rounds attempt : ℕ) (a : A) (w : W)
      → IsRun retain (suc rounds) attempt (succeed env policy retain attempt a w).0
  unfolding succeed opens cancels reports count_up
  succeed-IsRun true rounds attempt a w = record {
    numbered = refl;
    bounded = omega arith;
    balanced = refl;
    leads = (refl, refl);
    kept = λ h. cc;
    handed_over = λ _. refl;
  }
  succeed-IsRun false rounds attempt a w = record {
    numbered = refl;
    bounded = omega arith;
    balanced = refl;
    leads = (refl, refl);
    kept = λ _. refl;
    handed_over = λ h. cc;
  }

  module _ (retain : Bool) (rest : W → Returned A × W) (rounds attempt : ℕ)
      (rest_runs : (w : W)
        → attempt ≢ policy.max_attempts
        → IsRun retain rounds (attempt + 1) (rest w).0) where
    pause-IsRun :
        (e : Error) (delay : ℕ) (w : W)
        → attempt ≢ policy.max_attempts
        → wants_retry env.should_retry e ≡ true
        → IsRun retain
            (suc rounds)
            attempt
            (pause env policy retain rest (failed attempt e) delay w).0
    unfolding pause
    pause-IsRun e delay w more wanted = elim (Bool-cases (delay == 0)) [
      | inl z ↦
          rw (z, pause) (prepend-IsRun retain rounds attempt e (rest w).0 wanted (rest_runs w more))
      | inr nz ↦ elim (Option-cases (env.wait delay w).0) [
        | inl z ↦
            let v = (env.wait delay w).1 in
            rw (nz, z, pause)
              (prepend_slept-IsRun retain rounds attempt e delay (rest v).0
                (prepend-IsRun retain rounds attempt e (rest v).0 wanted (rest_runs v more)))
        | inr (p, z) ↦
            rw (nz, z, pause)
              (stopped_slept-IsRun retain rounds attempt e delay p (env.wait delay w).1
                (inr (delay, w, z)))
      ]
    ]

    give_up-IsRun :
        (e : Error) (w : W)
        → IsRun retain
            (suc rounds)
            attempt
            (give_up_or_pause env policy retain rest attempt e (failed attempt e) w).0
    unfolding give_up_or_pause
    give_up-IsRun e w =
        elim (Bool-cases (attempt == policy.max_attempts || not (wants_retry env.should_retry e))) [
          | inl z ↦ rw (z, give_up_or_pause) (stopped-IsRun retain rounds attempt e e w (inl refl))
          | inr z ↦ rw (z, give_up_or_pause) (pause-IsRun e _ _ (ground arith) (ground arith))
        ]

    after_failure-IsRun :
        (e : Error) (w : W)
        → IsRun retain (suc rounds) attempt (after_failure env policy retain rest attempt e w).0
    unfolding after_failure
    after_failure-IsRun e w = elim (Option-cases (env.context_error w).0) [
      | inr (p, z) ↦
          rw (z, after_failure)
            (stopped-IsRun retain rounds attempt e p (env.context_error w).1 (inr (inl (w, z))))
      | inl z ↦ rw (z, after_failure) (give_up-IsRun e (env.context_error w).1)
    ]

    after-IsRun :
        (r : Result A) (w : W)
        → IsRun retain (suc rounds) attempt (after_attempt env policy retain rest attempt r w).0
    unfolding after_attempt
    after-IsRun (ok a) w = succeed-IsRun retain rounds attempt a w
    after-IsRun (err e) w = after_failure-IsRun e w

    begin-IsRun :
        (w : W)
        → IsRun retain
            (suc rounds)
            attempt
            (begin_attempt env policy retain rest attempt
              (env.context_error w).0
              (env.context_error w).1).0
    unfolding begin_attempt opens cancels reports count_up
    begin-IsRun w = elim (Option-cases (env.context_error w).0) [
      | inr (p, z) ↦
          rw (z, begin_attempt)
            (record {
              numbered = refl;
              bounded = omega arith;
              balanced = refl;
              leads = (p, refl, inl (w, z));
              kept = λ _. refl;
              handed_over = λ _. refl;
            })
      | inl z ↦ rw (z, begin_attempt) (after-IsRun _ _)
    ]

  -- `attempt` is the number of the next attempt, and `rounds` more may follow it.
  loop-IsRun :
      (retain : Bool) (rounds attempt : ℕ) (w : W)
      → attempt + rounds ≡ policy.max_attempts
      → IsRun retain (suc rounds) attempt (retry_loop env policy retain (suc rounds) attempt w).0
  unfolding retry_loop
  loop-IsRun retain zero attempt w last =
      begin-IsRun retain (retry_loop env policy retain zero (attempt + 1)) zero attempt
        (λ v more. absurd (more (omega arith))) w
  loop-IsRun retain (suc rounds) attempt w last =
      begin-IsRun retain (retry_loop env policy retain (suc rounds) (attempt + 1)) (suc rounds)
        attempt (λ v _. loop-IsRun retain rounds (attempt + 1) v (omega arith)) w

  loop_from_one-IsRun :
      (retain : Bool) (n : ℕ) (w : W)
      → 0 < n
      → n ≡ policy.max_attempts
      → IsRun retain n 1 (retry_loop env policy retain n 1 w).0
  loop_from_one-IsRun retain zero w h e = absurd (omega arith)
  loop_from_one-IsRun retain (suc n) w h e = loop-IsRun retain n 1 w (omega arith)

  do-IsRun :
      (retain : Bool) (w : W)
      → 0 < policy.max_attempts
      → IsRun retain policy.max_attempts 1 (do_attempts env policy retain w).0
  unfolding do_attempts
  do-IsRun retain w h = loop_from_one-IsRun retain policy.max_attempts w h refl

new-max_attempts : (o : Options) {p : Policy} → new o ≡ ok p → 0 < p.max_attempts
unfolding new
new-max_attempts o e = ground arith

module _ {W A : Type 0} (env : Environment W A) (o : Options) {policy : Policy} (w : W)
    (accepted : new o ≡ ok policy) where
  -- `Do`, under a policy that `New` accepts, makes at most `MaxAttempts` attempts, numbered 1, 2, …;
  -- it cancels the context of every attempt, each once and in order, and hands none over. Every
  -- attempt that is followed by another failed with an error that is to be retried; the result is
  -- that of the last attempt, or an error of the caller's context.
  pub run_lem :
      (let r = (run env policy w).0 in
        (length (opens r.events) ≤ policy.max_attempts)
        × (opens r.events ≡ count_up 1 (length (opens r.events)))
        × (opens r.events ≡ cancels r.events)
        × (r.cancel ≡ none)
        × LeadsTo env policy (reports r.events) r.result)
  unfolding run
  run_lem =
      let i = do-IsRun env policy false w (new-max_attempts o accepted) in
      let r = (do_attempts env policy false w).0 in
      let none_left : run_cancel env policy r.cancel ≡ [] =
        ap (run_cancel env policy) (i.kept refl) in
      let same : r.events ++ run_cancel env policy r.cancel ≡ r.events =
        ap (◌++◌ r.events) none_left ∙ append-nil r.events in
      let closed : opens r.events ≡ cancels r.events =
        i.balanced
        ∙ ap (λ c. cancels r.events ++ to_list c) (i.kept refl)
        ∙ append-nil (cancels r.events) in
      rw same (i.bounded, i.numbered, closed, refl, i.leads)

  -- `DoRetained` makes its attempts as `Do` does, and cancels every context but one: the caller is
  -- handed the cancel function of the last attempt exactly when that attempt succeeded.
  pub run_retained_lem :
      (let r = (run_retained env policy w).0 in
        (length (opens r.events) ≤ policy.max_attempts)
        × (opens r.events ≡ count_up 1 (length (opens r.events)))
        × (opens r.events ≡ cancels r.events ++ to_list r.cancel)
        × (is_some r.cancel ≡ is_ok r.result)
        × LeadsTo env policy (reports r.events) r.result)
  unfolding run_retained
  run_retained_lem =
      let i = do-IsRun env policy true w (new-max_attempts o accepted) in
      (i.bounded, i.numbered, i.balanced, i.handed_over refl, i.leads)
