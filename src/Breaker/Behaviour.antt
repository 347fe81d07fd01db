-- ===== src/Breaker/Behaviour.antt =====
-- What each method of the breaker promises (internal/circuitbreaker/breaker.go).
use model_gate.Prelude.{
  ℕ, suc, ◌+◌, ◌-◌, ◌≤◌, ◌<◌, Bool, true, false, not, ◌&&◌, List, [], ◌∷◌, ◌≡◌, ◌≢◌, refl, arith,
  leb, length, ◌⊎◌, inl, inr, Option, some, none, is_some, Bool-cases, ap, ap₂, subst, ◌∙◌, sym,
  count, Option-cases,
}
use model_gate.Breaker.{
  Breaker, Permit, Settings, State, Outcome, state_closed, state_open, state_half_open,
  outcome_success, outcome_failure, outcome_ignored, is_success, is_ignored, same_state, announce,
  ratio_reached, transition_locked, should_trip, record_locked, allow, current, available, complete,
  complete_in, judge, complete_closed, complete_half_open, done,
}
use model_gate.Breaker.Invariant.{Inv, record_locked-frame, allow-Inv, done-Inv, transition-Inv}
use model_gate.Breaker.Window.{recent, push_window, record_locked_refines, length-recent}

-- The transition diagram.
infix 40 ◌⟶◌
pub data ◌⟶◌ : State → State → Type 0 where
  stay : {s : State} → s ⟶ s
  trip : state_closed ⟶ state_open
  probe : state_open ⟶ state_half_open
  relapse : state_half_open ⟶ state_open
  recover : state_half_open ⟶ state_closed

ruleset edges = (stay, trip, probe, relapse, recover)

-- What a call owes to observers: it follows an edge, and calls `OnStateChange` exactly when it has
-- changed the state, with the new state.
abbrev pub Reports : State → State → Option State → Type 0
Reports s t note = (s ⟶ t) × (note ≡ announce (not (same_state s t)) t)

allow-Reports : (b : Breaker) (now : ℕ) → Reports b.state (allow now b).0.state (allow now b).2
unfolding allow transition_locked
allow-Reports b now = (grind (arith, edges), ground arith)

asks-Reports :
    (b : Breaker) (now : ℕ)
    → Reports b.state (current now b).0.state (current now b).2
      × Reports b.state (available now b).0.state (available now b).2
unfolding current available transition_locked
asks-Reports b now = ((grind (arith, edges), ground arith), (grind (arith, edges), ground arith))

abbrev Follows : Breaker → Breaker × Bool → Type 0
Follows b r = (b.state ⟶ r.0.state) × (r.1 ≡ not (same_state b.state r.0.state))

judge-Follows : (now : ℕ) (b : Breaker) → b.state ≡ state_closed → Follows b (judge now b)
unfolding judge transition_locked
judge-Follows now b e = (grind (arith, edges), ground arith)

complete_closed-Follows :
    (now : ℕ) (o : Outcome) (b : Breaker)
    → b.state ≡ state_closed
    → Follows b (complete_closed now o b)
unfolding complete_closed
complete_closed-Follows now o b e = elim (Bool-cases (is_ignored o)) [
  | inl i ↦ rw (i, complete_closed) (stay, ground arith)
  | inr i ↦
      let c = record_locked (is_success o) b in
      let same = (record_locked-frame (is_success o) b).1 in
      rw (i, complete_closed) (rw same at (judge-Follows now c (same ∙ e)))
]

complete_half_open-Follows :
    (now : ℕ) (o : Outcome) (b : Breaker)
    → b.state ≡ state_half_open
    → Follows b (complete_half_open now o b)
unfolding complete_half_open transition_locked
complete_half_open-Follows now o b e = (grind (arith, edges), ground arith)

complete_in-Follows :
    (s : State) (now : ℕ) (o : Outcome) (b : Breaker)
    → b.state ≡ s
    → Follows b (complete_in s now o b)
unfolding complete_in
complete_in-Follows state_closed now o b e = complete_closed-Follows now o b e
complete_in-Follows state_open now o b e = (stay, ground arith)
complete_in-Follows state_half_open now o b e = complete_half_open-Follows now o b e

done-Reports :
    (b : Breaker) (p : Permit) (now : ℕ) (o : Outcome)
    → Reports b.state (done p now o b).1.state (done p now o b).2
unfolding done complete
done-Reports b p now o = (
  grind (arith, stay, complete_in-Follows b.state now o b refl),
  ground (arith, complete_in-Follows b.state now o b refl),
)

-- Every call, from whatever state, by whatever permit, keeps to the diagram: closed to open, open to
-- half open, half open to open or closed, or no change; and it calls `OnStateChange` exactly when
-- the state has changed, with the new state.
pub calls-Reports :
    (b : Breaker) (p : Permit) (now : ℕ) (o : Outcome)
    → Reports b.state (allow now b).0.state (allow now b).2
      × Reports b.state (current now b).0.state (current now b).2
      × Reports b.state (available now b).0.state (available now b).2
      × Reports b.state (done p now o b).1.state (done p now o b).2
calls-Reports b p now o =
    (allow-Reports b now, (asks-Reports b now).0, (asks-Reports b now).1, done-Reports b p now o)

-- `Available` foretells `Allow` at the same instant: a permit is granted exactly when it says so.
-- Both agree with `State` on the state, and the permit carries the breaker's state and period.
pub available_foretells :
    (b : Breaker) (now : ℕ)
    → ((available now b).1 ≡ is_some (allow now b).1)
      × ((available now b).0.state ≡ (allow now b).0.state)
      × ((current now b).1 ≡ (allow now b).0.state)
      × ((p : Permit)
          → (allow now b).1 ≡ some p
          → (p.state ≡ (allow now b).0.state)
            × (p.generation ≡ (allow now b).0.generation)
            × (p.used ≡ false))
unfolding allow current available transition_locked
available_foretells b now = (ground arith, ground arith, ground arith, λ p e. ground arith)

-- An open breaker grants a permit exactly when `OpenTimeout` has passed since it opened, and is then
-- half open with one probe in flight; before that it is left as it was.
pub open_waits :
    (b : Breaker) (now : ℕ)
    → Inv b
    → b.state ≡ state_open
    → ((now - b.opened_at < b.open_timeout) × (allow now b ≡ (b, none, none)))
      ⊎ ((b.open_timeout ≤ now - b.opened_at)
          × (is_some (allow now b).1 ≡ true)
          × ((allow now b).0.state ≡ state_half_open)
          × ((allow now b).0.half_open_active ≡ 1))
unfolding allow transition_locked
open_waits b now v e = grind arith

-- A permit that is used up, or whose period or state is not the breaker's any more, changes nothing.
pub done_stale :
    (p : Permit) (now : ℕ) (o : Outcome) (b : Breaker)
    → (p.used ≡ true) ⊎ (p.generation ≢ b.generation) ⊎ (same_state p.state b.state ≡ false)
    → ((done p now o b).1 ≡ b) × ((done p now o b).2 ≡ none)
unfolding done complete
done_stale p now o b h = ground arith

-- The decision to trip, on the abstract window.
abbrev pub over_threshold : Settings → List Bool → Bool
over_threshold o w =
    leb o.minimum_requests (length w) && ratio_reached o.failure_ratio (count not w) (length w)

should_trip-recent :
    (x : Bool) (b : Breaker)
    → Inv b
    → (let c = record_locked x b in should_trip c.options c.outcomes c.failures)
      ≡ over_threshold b.options (push_window b.window_size x (recent b))
unfolding should_trip
should_trip-recent x b v =
    let c = record_locked x b in
    let w = push_window b.window_size x (recent b) in
    let o : c.options ≡ b.options = (record_locked-frame x b).0 in
    let r : recent c ≡ w = (record_locked_refines x b v.ring).0 in
    let n : length c.outcomes ≡ length w = sym (length-recent c) ∙ ap length r in
    let f : c.failures ≡ count not w = (record_locked_refines x b v.ring).1 ∙ ap (count not) r in cc

-- A breaker that is closed counts each outcome that is not ignored in its window, and opens, at the
-- instant of the call, exactly when the window then holds at least `MinimumRequests` outcomes and
-- their failed part reaches `FailureRatio`; otherwise it stays closed with that window. An ignored
-- outcome changes nothing.
pub closed_decides :
    (p : Permit) (now : ℕ) (o : Outcome) (b : Breaker)
    → Inv b
    → b.state ≡ state_closed
    → p.used ≡ false
    → p.state ≡ state_closed
    → p.generation ≡ b.generation
    → (let c = (done p now o b).1 in
        let w = push_window b.window_size (is_success o) (recent b) in
        ((o ≡ outcome_ignored) × (c ≡ b))
        ⊎ ((o ≢ outcome_ignored)
            × (over_threshold b.options w ≡ true)
            × (c.state ≡ state_open)
            × (c.opened_at ≡ now))
        ⊎ ((o ≢ outcome_ignored)
            × (over_threshold b.options w ≡ false)
            × (c.state ≡ state_closed)
            × (recent c ≡ w)))
unfolding done complete complete_in complete_closed judge transition_locked
closed_decides p now o b v s u t g = ground (
  arith,
  record_locked-frame (is_success o) b,
  should_trip-recent (is_success o) b v,
  record_locked_refines (is_success o) b v.ring,
)

-- What a request, allowed or not, reports at the instant `reported`.
settle : ℕ → Outcome → Option Permit → Breaker → Breaker
settle reported o none b = b
settle reported o (some p) b = (done p reported o b).1

-- The instants of a request: when it asks, and when it reports.
abbrev pub Instants : Type 0
Instants = ℕ × ℕ

pub attempt : Instants → Outcome → Breaker → Breaker
unfolding settle
attempt (asked, reported) o b = settle reported o (allow asked b).1 (allow asked b).0

-- Requests that succeed, one after the other: the breaker after them, and whether it has let each of
-- them through.
pub successes : List Instants → Breaker → Breaker
unfolding attempt
successes [] b = b
successes (t ∷ ts) b = successes ts (attempt t outcome_success b)

pub AllPass : List Instants → Breaker → Type 0
unfolding attempt
AllPass [] b = Unit
AllPass (t ∷ ts) b = (is_some (allow t.0 b).1 ≡ true) × AllPass ts (attempt t outcome_success b)

probe_passes :
    (t : Instants) (b : Breaker)
    → Inv b
    → b.state ≡ state_half_open
    → b.half_open_active ≡ 0
    → (is_some (allow t.0 b).1 ≡ true)
      × (let c = attempt t outcome_success b in
          ((suc b.half_open_passed ≡ b.half_open_max_requests)
            × (c.state ≡ state_closed)
            × (c.outcomes ≡ []))
          ⊎ ((c.state ≡ state_half_open)
              × (c.half_open_active ≡ 0)
              × (c.half_open_passed ≡ suc b.half_open_passed)
              × (c.options ≡ b.options)
              × (suc b.half_open_passed < b.half_open_max_requests)))
unfolding attempt allow done complete complete_in complete_half_open transition_locked
probe_passes (asked, reported) b v s a = (ground arith, ground arith)

attempt-Inv : (t : Instants) (o : Outcome) (b : Breaker) → Inv b → Inv (attempt t o b)
unfolding attempt
attempt-Inv (asked, reported) o b v = elim (Option-cases (allow asked b).1) [
  | inl e ↦ rw (e, attempt) (allow-Inv asked b v)
  | inr (p, e) ↦ rw (e, attempt) (done-Inv p reported o (allow asked b).0 (allow-Inv asked b v))
]

-- All the requests pass, and the breaker is closed after them.
abbrev Recovers : List Instants → Breaker → Type 0
Recovers ts b =
    AllPass ts b × ((successes ts b).state ≡ state_closed) × ((successes ts b).outcomes ≡ [])

probes_pass :
    (t : Instants) (ts : List Instants) (b : Breaker)
    → Inv b
    → b.state ≡ state_half_open
    → b.half_open_active ≡ 0
    → b.half_open_passed + suc (length ts) ≡ b.half_open_max_requests
    → Recovers (t ∷ ts) b
unfolding successes AllPass
probes_pass t [] b v s a m = elim (probe_passes t b v s a).1 [
  | inl (_, closed, empty) ↦ (((probe_passes t b v s a).0, tt), closed, empty)
  | inr (_, _, _, _, more) ↦ absurd (omega arith)
]
probes_pass t (t' ∷ ts) b v s a m = elim (probe_passes t b v s a).1 [
  | inl (last, _, _) ↦ absurd (omega arith)
  | inr (half, idle, passed, same, more) ↦
      let (pass, closed, empty) =
        probes_pass t' ts (attempt t outcome_success b) (attempt-Inv t outcome_success b v) half
          idle (rw (same, passed) (omega arith)) in
      (((probe_passes t b v s a).0, pass), closed, empty)
]

allow-open :
    (now : ℕ) (b : Breaker)
    → b.state ≡ state_open
    → b.open_timeout ≤ now - b.opened_at
    → (let c = transition_locked state_half_open now b in
        ((allow now b).0 ≡ (allow now c).0) × ((allow now b).1 ≡ (allow now c).1))
unfolding allow transition_locked
allow-open now b s w = (ground arith, ground arith)

-- The breaker recovers: once `OpenTimeout` has passed since it opened, `HalfOpenMaxRequests` requests
-- in a row that succeed, the first of which asks then, and each of which takes any time, are all let
-- through, and leave it closed with an empty window.
pub recovers :
    (asked reported : ℕ) (ts : List Instants) (b : Breaker)
    → Inv b
    → b.state ≡ state_open
    → b.open_timeout ≤ asked - b.opened_at
    → suc (length ts) ≡ b.half_open_max_requests
    → (let requests = (asked, reported) ∷ ts in
        AllPass requests b
        × ((successes requests b).state ≡ state_closed)
        × ((successes requests b).outcomes ≡ []))
unfolding successes AllPass attempt
recovers asked reported ts b v s w n =
    let c = transition_locked state_half_open asked b in
    let (left, granted) = allow-open asked b s w in
    let same : attempt (asked, reported) outcome_success b
        ≡ attempt (asked, reported) outcome_success c =
      ap₂ (λ (q : Option Permit) (d : Breaker). settle reported outcome_success q d) granted left in
    let ((pass, later), closed, empty) =
      probes_pass (asked, reported) ts c (transition-Inv state_half_open asked b v.sound v.ring)
        (unfold transition_locked in refl) (unfold transition_locked in refl)
        (unfold transition_locked in omega arith) in
    (
      (ap is_some granted ∙ pass, subst (λ d. AllPass ts d) (sym same) later),
      ap (λ d. (successes ts d).state) same ∙ closed,
      ap (λ d. (successes ts d).outcomes) same ∙ empty,
    )

-- A probe that is reported back decides, at the instant of the call: failed, it opens the breaker
-- again; passed, it closes it with an empty window if it completes `HalfOpenMaxRequests`, and is
-- counted if not; ignored, it only frees its place.
pub half_open_decides :
    (p : Permit) (now : ℕ) (o : Outcome) (b : Breaker)
    → Inv b
    → b.state ≡ state_half_open
    → p.used ≡ false
    → p.state ≡ state_half_open
    → p.generation ≡ b.generation
    → (let c = (done p now o b).1 in
        ((o ≡ outcome_failure) × (c.state ≡ state_open) × (c.opened_at ≡ now))
        ⊎ ((o ≡ outcome_success)
            × (suc b.half_open_passed ≡ b.half_open_max_requests)
            × (c.state ≡ state_closed)
            × (c.outcomes ≡ []))
        ⊎ ((o ≡ outcome_success)
            × (suc b.half_open_passed ≢ b.half_open_max_requests)
            × (c ≡ record b {
              half_open_active = b.half_open_active - 1;
              half_open_passed = b.half_open_passed + 1;
            }))
        ⊎ ((o ≡ outcome_ignored) × (c ≡ record b { half_open_active = b.half_open_active - 1 })))
unfolding done complete complete_in complete_half_open transition_locked
half_open_decides p now o b v s u t g = ground arith
