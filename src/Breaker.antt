-- ===== src/Breaker.antt =====
-- The circuit breaker (internal/circuitbreaker/breaker.go).
-- A method returns the new breaker, its result, and the state that it hands to `OnStateChange`, if
-- it calls that. Each method runs under the mutex, so a run of calls is a sequence; it reads the
-- clock at most once, and that reading, in nanoseconds, is its argument `now`. `Sub` may be negative
-- where `-` stops at 0: the test against the positive `OpenTimeout` comes out the same.
-- `FailureRatio` is a fraction, and the quotient of the `float64`s is compared exactly.
pub mod Window
pub mod Invariant
pub mod Behaviour
pub mod Permits
use model_gate.Prelude.{
  ℕ, zero, suc, ◌+◌, ◌-◌, ◌*◌, ◌%◌, ◌^◌, Bool, true, false, not, ◌||◌, ◌&&◌, Option, none, some,
  List, [], ◌∷◌, ◌++◌, length, get_elem?, set, ltb, leb, ◌==◌, if◌then◌else◌, ℤ, pos, leb_ℤ, ltb_ℤ,
  pos_part, neg_part, Fraction, ltb_ℕ, gtb_ℕ,
}
use model_gate.Errors.{Error, sentinel, message, circuit_open, Result, ok, err}

-- `open` is a word of the language, so the states keep the source's whole names.
pub data State : Type 0 where
  state_closed state_open state_half_open : State

pub data Outcome : Type 0 where
  outcome_ignored outcome_success outcome_failure : Outcome

-- Options as they are given; `Settings` are those that `New` has accepted.
pub record Options : Type 0 where
  pub window_size : ℤ
  pub minimum_requests : ℤ
  pub failure_ratio : Fraction
  pub open_timeout : ℤ
  pub half_open_max_requests : ℤ

pub record Settings : Type 0 where
  pub window_size : ℕ
  pub minimum_requests : ℕ
  pub failure_ratio : Fraction
  pub open_timeout : ℕ
  pub half_open_max_requests : ℕ

pub record Breaker : Type 0 where
  pub options : Settings
  pub open options use *
  pub state : State
  pub outcomes : List Bool
  pub next : ℕ
  pub failures : ℕ
  pub opened_at : ℕ
  pub half_open_active : ℕ
  pub half_open_passed : ℕ
  pub generation : ℕ  -- uint64

-- A permit; `used` is the state of its `sync.Once`.
pub record Permit : Type 0 where
  pub state : State
  pub generation : ℕ
  pub used : Bool

abbrev pub is_closed : State → Bool
is_closed state_closed = true
is_closed _ = false

abbrev pub is_open : State → Bool
is_open state_open = true
is_open _ = false

abbrev pub is_half_open : State → Bool
is_half_open state_half_open = true
is_half_open _ = false

abbrev pub same_state : State → State → Bool
same_state state_closed s = is_closed s
same_state state_open s = is_open s
same_state state_half_open s = is_half_open s

abbrev pub is_ignored : Outcome → Bool
is_ignored outcome_ignored = true
is_ignored _ = false

abbrev pub is_success : Outcome → Bool
is_success outcome_success = true
is_success _ = false

abbrev pub u64 : ℕ → ℕ
u64 n = n % 2 ^ 64

unfoldable pub new : Options → Result Breaker
new o =
    if leb_ℤ o.window_size (pos 0)
    then err (message "window size must be positive")
    else if leb_ℤ o.minimum_requests (pos 0) || ltb_ℤ o.window_size o.minimum_requests
    then err (message "minimum requests must be between one and window size")
    else if not (gtb_ℕ o.failure_ratio 0) || gtb_ℕ o.failure_ratio 1
    then err (message "failure ratio must be in (0, 1]")
    else if leb_ℤ o.open_timeout (pos 0)
    then err (message "open timeout must be positive")
    else if leb_ℤ o.half_open_max_requests (pos 0)
    then err (message "half-open max requests must be positive")
    else ok (record {
      options = record {
        window_size = pos_part o.window_size;
        minimum_requests = pos_part o.minimum_requests;
        failure_ratio = o.failure_ratio;
        open_timeout = pos_part o.open_timeout;
        half_open_max_requests = pos_part o.half_open_max_requests;
      };
      state = state_closed;
      outcomes = [];
      next = 0;
      failures = 0;
      opened_at = 0;
      half_open_active = 0;
      half_open_passed = 0;
      generation = 0;
    })

-- The `switch` of `transitionLocked`.
enter : State → ℕ → Breaker → Breaker
enter state_closed now b = record b { outcomes = []; next = 0; failures = 0 }
enter state_open now b = record b { opened_at = now }
enter state_half_open now b = b

unfoldable pub transition_locked : State → ℕ → Breaker → Breaker
unfolding enter
transition_locked s now b = enter s now (record b {
  state = s;
  generation = u64 (b.generation + 1);
  half_open_active = 0;
  half_open_passed = 0;
})

unfoldable pub advance_locked : ℕ → Breaker → Breaker × Bool
unfolding transition_locked
advance_locked now b =
    if not (is_open b.state) || ltb (now - b.opened_at) b.open_timeout
    then (b, false)
    else (transition_locked state_half_open now b, true)

-- A Boolean read from the ring; out of range the source would panic, and `Inv` shows that it never is.
abbrev pub entry : List Bool → ℕ → Bool
entry xs i = elim (get_elem? xs i) [ none ↦ true | some x ↦ x ]

unfoldable pub record_locked : Bool → Breaker → Breaker
record_locked success b =
    if ltb (length b.outcomes) b.window_size
    then record b {
      outcomes = b.outcomes ++ success ∷ [];
      failures = if success then b.failures else b.failures + 1;
    }
    else let evicted = if entry b.outcomes b.next then b.failures else b.failures - 1 in
      record b {
        outcomes = set b.outcomes b.next success;
        failures = if success then evicted else evicted + 1;
        next = (b.next + 1) % b.window_size;
      }

-- len(outcomes) >= MinimumRequests && float64(failures)/float64(len(outcomes)) >= FailureRatio
abbrev pub ratio_reached : Fraction → ℕ → ℕ → Bool
ratio_reached r failures total =
    leb (pos_part r.num * total) (failures * suc r.den + neg_part r.num * total)

unfoldable pub should_trip : Settings → List Bool → ℕ → Bool
should_trip o outcomes failures =
    leb o.minimum_requests (length outcomes)
    && ratio_reached o.failure_ratio failures (length outcomes)

abbrev pub announce : Bool → State → Option State
announce changed s = if changed then some s else none

at_limit : Breaker → Bool
at_limit b = is_half_open b.state && leb b.half_open_max_requests b.half_open_active

-- `none` in the middle stands for the error ErrOpen.
unfoldable pub allow : ℕ → Breaker → Breaker × Option Permit × Option State
unfolding advance_locked at_limit
allow now b =
    let (c, changed) = advance_locked now b in
    let note = announce changed c.state in
    let permit = some (record { state = c.state; generation = c.generation; used = false }) in
    if is_open c.state || at_limit c
    then (c, none, note)
    else if is_half_open c.state
    then (record c { half_open_active = c.half_open_active + 1 }, permit, note)
    else (c, permit, note)

-- State()
unfoldable pub current : ℕ → Breaker → Breaker × State × Option State
unfolding advance_locked
current now b = let (c, changed) = advance_locked now b in (c, c.state, announce changed c.state)

unfoldable pub available : ℕ → Breaker → Breaker × Bool × Option State
unfolding advance_locked
available now b =
    let (c, changed) = advance_locked now b in
    (
      c,
      is_closed c.state
          || (is_half_open c.state && ltb c.half_open_active c.half_open_max_requests),
      announce changed c.state,
    )

-- The test after `recordLocked`.
judge : ℕ → Breaker → Breaker × Bool
unfolding should_trip transition_locked
judge now b =
    if should_trip b.options b.outcomes b.failures
    then (transition_locked state_open now b, true)
    else (b, false)

complete_closed : ℕ → Outcome → Breaker → Breaker × Bool
unfolding record_locked judge
complete_closed now o b =
    if is_ignored o then (b, false) else judge now (record_locked (is_success o) b)

-- The inner `switch`, after `halfOpenActive--`.
settle_half_open : ℕ → Outcome → Breaker → Breaker × Bool
unfolding transition_locked
settle_half_open now outcome_ignored b = (b, false)
settle_half_open now outcome_failure b = (transition_locked state_open now b, true)
settle_half_open now outcome_success b =
    let c = record b { half_open_passed = b.half_open_passed + 1 } in
    if leb c.half_open_max_requests c.half_open_passed
    then (transition_locked state_closed now c, true)
    else (c, false)

complete_half_open : ℕ → Outcome → Breaker → Breaker × Bool
unfolding settle_half_open
complete_half_open now o b =
    settle_half_open now o (record b { half_open_active = b.half_open_active - 1 })

complete_in : State → ℕ → Outcome → Breaker → Breaker × Bool
unfolding complete_closed complete_half_open
complete_in state_closed now o b = complete_closed now o b
complete_in state_half_open now o b = complete_half_open now o b
complete_in state_open now o b = (b, false)

unfoldable pub complete : State → ℕ → ℕ → Outcome → Breaker → Breaker × Option State
unfolding complete_in
complete permit_state generation now o b =
    if not (generation == b.generation) || not (same_state permit_state b.state)
    then (b, none)
    else let (c, changed) = complete_in b.state now o b in (c, announce changed c.state)

-- Permit.Done, at a permit that is not nil: the permit, the breaker, the note.
unfoldable pub done : Permit → ℕ → Outcome → Breaker → Permit × Breaker × Option State
unfolding complete
done p now o b =
    if p.used
    then (p, b, none)
    else let (c, note) = complete p.state p.generation now o b in
      (record p { used = true }, c, note)
