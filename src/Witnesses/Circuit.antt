-- ===== src/Witnesses/Circuit.antt =====
-- The circuit breaker at concrete inputs (internal/circuitbreaker/breaker.go).
use model_gate.Prelude.{
  ◌+◌, ◌-◌, ◌≤◌, ◌≡◌, ◌≢◌, ◌⊎◌, refl, arith, true, false, not, List, [], ◌∷◌, some, is_some, count,
  pos,
}
use model_gate.Errors.{ok}
use model_gate.Breaker
use model_gate.Breaker.{
  Breaker, Options, Permit, state_closed, state_open, state_half_open, outcome_success,
  outcome_failure, outcome_ignored, is_success, allow, current, available, done, record_locked,
}
use model_gate.Breaker.Window.{recent, push_window, IsRing, record_locked_refines}
use model_gate.Breaker.Invariant.{Inv, new-Inv}
use model_gate.Breaker.Behaviour.{
  Reports, calls-Reports, available_foretells, over_threshold, closed_decides, half_open_decides,
  Instants, successes, AllPass, recovers,
}
use model_gate.Breaker.Permits
use model_gate.Breaker.Permits.{System, probes, probes_exact}

-- A window of three, at least two outcomes, half of them failed, 100 ns open, two probes.
abbrev small : Options
small = record {
  window_size = pos 3;
  minimum_requests = pos 2;
  failure_ratio = record { num = pos 1; den = 1 };
  open_timeout = pos 100;
  half_open_max_requests = pos 2;
}

abbrev pub fresh : Breaker
fresh = record {
  options = record {
    window_size = 3;
    minimum_requests = 2;
    failure_ratio = record { num = pos 1; den = 1 };
    open_timeout = 100;
    half_open_max_requests = 2;
  };
  state = state_closed;
  outcomes = [];
  next = 0;
  failures = 0;
  opened_at = 0;
  half_open_active = 0;
  half_open_passed = 0;
  generation = 0;
}

fresh-new : Breaker.new small ≡ ok fresh
unfolding Breaker.new
fresh-new = refl

fresh-Inv : Inv fresh
fresh-Inv = new-Inv small fresh-new

-- A full ring whose oldest entry stands at place 1.
abbrev full : Breaker
full = record fresh { outcomes = true ∷ false ∷ true ∷ []; next = 1; failures = 1 }

full-IsRing : IsRing full
full-IsRing = record {
  sized = omega arith;
  fits = omega arith;
  next_low = omega arith;
  next_unused = λ h. absurd (omega arith);
  counted = refl;
}

record_locked_refines_example :
    (recent (record_locked false full) ≡ push_window 3 false (recent full))
    × ((record_locked false full).failures ≡ count not (recent (record_locked false full)))
record_locked_refines_example = record_locked_refines false full full-IsRing

-- Two failures open the breaker, two probes go out after the timeout, a third is refused.
abbrev outage : List Permits.Call
outage =
    Permits.allows 1
    ∷ Permits.allows 2
    ∷ Permits.finishes 0 3 outcome_failure
    ∷ Permits.finishes 1 4 outcome_failure
    ∷ Permits.allows 50
    ∷ Permits.allows 104
    ∷ Permits.asks_available 104
    ∷ Permits.allows 105
    ∷ Permits.allows 106
    ∷ []

probes_exact_example :
    (let s = Permits.run (Permits.start fresh) outage in
      Inv s.breaker × (s.breaker.half_open_active ≡ probes s) × (probes s ≤ 2))
probes_exact_example = probes_exact small outage fresh-new (omega arith)

abbrev current_permit : Permit
current_permit = record { state = state_closed; generation = 0; used = false }

calls-Reports_example :
    Reports state_closed (allow 5 fresh).0.state (allow 5 fresh).2
    × Reports state_closed (current 5 fresh).0.state (current 5 fresh).2
    × Reports state_closed (available 5 fresh).0.state (available 5 fresh).2
    × Reports state_closed
        (done current_permit 5 outcome_failure fresh).1.state
        (done current_permit 5 outcome_failure fresh).2
calls-Reports_example = calls-Reports fresh current_permit 5 outcome_failure

available_foretells_example :
    ((available 5 fresh).1 ≡ is_some (allow 5 fresh).1)
    × ((available 5 fresh).0.state ≡ (allow 5 fresh).0.state)
    × ((current 5 fresh).1 ≡ (allow 5 fresh).0.state)
    × ((p : Permit)
        → (allow 5 fresh).1 ≡ some p
        → (p.state ≡ (allow 5 fresh).0.state)
          × (p.generation ≡ (allow 5 fresh).0.generation)
          × (p.used ≡ false))
available_foretells_example = available_foretells fresh 5

-- The breaker after the two failures.
abbrev tripped : Breaker
tripped = record fresh {
  state = state_open;
  outcomes = false ∷ false ∷ [];
  failures = 2;
  opened_at = 4;
  generation = 1;
}

tripped_reached :
    (Permits.run (Permits.start fresh) (
      Permits.allows 1
      ∷ Permits.allows 2
      ∷ Permits.finishes 0 3 outcome_failure
      ∷ Permits.finishes 1 4 outcome_failure
      ∷ [])).breaker
    ≡ tripped
unfolding Permits.run Permits.step allow done
tripped_reached = refl

tripped-Inv : Inv tripped
tripped-Inv = record {
  sound = fresh-Inv.sound;
  ring = record {
    sized = omega arith;
    fits = omega arith;
    next_low = omega arith;
    next_unused = λ h. refl;
    counted = refl;
  };
  active_capped = omega arith;
  passed_capped = omega arith;
  probing_only = λ h. (refl, refl);
  armed = λ h. cc;
  no_overflow = omega arith;
}

recovers_example :
    (let requests : List Instants = (200, 230) ∷ (240, 245) ∷ [] in
      AllPass requests tripped
      × ((successes requests tripped).state ≡ state_closed)
      × ((successes requests tripped).outcomes ≡ []))
recovers_example = recovers 200 230 ((240, 245) ∷ []) tripped tripped-Inv refl (omega arith) refl

closed_decides_example :
    (let c = (done current_permit 3 outcome_failure fresh).1 in
      let w = push_window 3 false (recent fresh) in
      ((outcome_failure ≡ outcome_ignored) × (c ≡ fresh))
      ⊎ ((outcome_failure ≢ outcome_ignored)
          × (over_threshold fresh.options w ≡ true)
          × (c.state ≡ state_open)
          × (c.opened_at ≡ 3))
      ⊎ ((outcome_failure ≢ outcome_ignored)
          × (over_threshold fresh.options w ≡ false)
          × (c.state ≡ state_closed)
          × (recent c ≡ w)))
closed_decides_example =
    closed_decides current_permit 3 outcome_failure fresh fresh-Inv refl refl refl refl

abbrev probing : Breaker
probing = record tripped { state = state_half_open; half_open_active = 1; generation = 2 }

probing-Inv : Inv probing
probing-Inv = record {
  sound = fresh-Inv.sound;
  ring = record {
    sized = omega arith;
    fits = omega arith;
    next_low = omega arith;
    next_unused = λ h. refl;
    counted = refl;
  };
  active_capped = omega arith;
  passed_capped = omega arith;
  probing_only = λ h. cc;
  armed = λ h. cc;
  no_overflow = omega arith;
}

abbrev probe_permit : Permit
probe_permit = record { state = state_half_open; generation = 2; used = false }

half_open_decides_example :
    (let c = (done probe_permit 210 outcome_failure probing).1 in
      ((outcome_failure ≡ outcome_failure) × (c.state ≡ state_open) × (c.opened_at ≡ 210))
      ⊎ ((outcome_failure ≡ outcome_success)
          × (1 ≡ probing.half_open_max_requests)
          × (c.state ≡ state_closed)
          × (c.outcomes ≡ []))
      ⊎ ((outcome_failure ≡ outcome_success)
          × (1 ≢ probing.half_open_max_requests)
          × (c ≡ record probing {
            half_open_active = probing.half_open_active - 1;
            half_open_passed = probing.half_open_passed + 1;
          }))
      ⊎ ((outcome_failure ≡ outcome_ignored)
          × (c ≡ record probing { half_open_active = probing.half_open_active - 1 })))
half_open_decides_example =
    half_open_decides probe_permit 210 outcome_failure probing probing-Inv refl refl refl refl
