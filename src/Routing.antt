-- ===== src/Routing.antt =====
-- The router over the provider targets (internal/routing/router.go).
-- A target is an interface: its `Name` is a field here, and whether it is `Available` during one
-- selection is a function `up`, as a selection asks each target at most once. `excluded`, a set of
-- names, is a list. Weights and current weights are `int64`; as unbounded integers they are exact as
-- long as the total weight times the number of targets stays below 2^63.
pub mod Weighted
pub mod Fairness
pub mod Cycle
pub mod Fresh
pub mod RoundRobin
pub mod Failover
pub mod Accepted
use model_gate.Prelude.{
  ℕ, zero, suc, ◌+◌, ◌-◌, ◌%◌, Bool, true, false, not, ◌&&◌, ◌||◌, Option, none, some, List, [],
  ◌∷◌, ◌++◌, length, get_elem?, set, ltb, leb, ◌==◌, if◌then◌else◌, ℤ, pos, pos_part, ◌+ℤ◌, ◌-ℤ◌,
  ltb_ℤ, leb_ℤ, String, str_eq, contains, trim_space,
}
use model_gate.Errors.{
  Error, sentinel, message, upstream, upstream_because, no_healthy_providers, unavailable,
  UpstreamError, Result, ok, err,
}

pub data Strategy : Type 0 where
  round_robin weighted_round_robin : Strategy

pub record Target : Type 0 where
  pub name : String

-- A candidate as it is configured; its `Target` may be nil.
pub record WeightedTarget : Type 0 where
  pub target : Option Target
  pub weight : ℤ

pub record TargetState : Type 0 where
  pub target : Target
  pub weight : ℕ
  pub current_weight : ℤ

pub record Router : Type 0 where
  pub strategy : Strategy
  pub targets : List TargetState
  pub next : ℕ

unfoldable pub strategy_of : String → Option Strategy
strategy_of s =
    if str_eq s "round_robin"
    then some round_robin
    else if str_eq s "weighted_round_robin"
    then some weighted_round_robin
    else none

-- One candidate, after the names already taken.
check_target : List String → WeightedTarget → Result (String × TargetState)
check_target names candidate = elim candidate.target [
  | none ↦ err (message "provider target is required")
  | some t ↦
      let name = trim_space t.name in
      if str_eq name ""
      then err (message "provider target name is required")
      else if contains names name
      then err (message "provider target is duplicated")
      else if leb_ℤ candidate.weight (pos 0)
      then err (message "provider target weight must be positive")
      else ok
          (name, record { target = t; weight = pos_part candidate.weight; current_weight = pos 0 })
]

add_state : TargetState → Result (List TargetState) → Result (List TargetState)
add_state s (ok states) = ok (s ∷ states)
add_state s (err e) = err e

add_checked :
    (List String → Result (List TargetState))
    → List String
    → Result (String × TargetState)
    → Result (List TargetState)
add_checked rest names (err e) = err e
add_checked rest names (ok (name, s)) = add_state s (rest (name ∷ names))

check_targets : List WeightedTarget → List String → Result (List TargetState)
check_targets [] names = ok []
check_targets (c ∷ cs) names =
    add_checked (λ taken. check_targets cs taken) names (check_target names c)

with_states : Strategy → Result (List TargetState) → Result Router
with_states s (ok states) = ok (record { strategy = s; targets = states; next = 0 })
with_states s (err e) = err e

unfoldable pub new : String → List WeightedTarget → Result Router
unfolding check_target check_targets add_checked add_state with_states strategy_of
new strategy targets = elim (strategy_of strategy) [
  | none ↦ err (message "unsupported routing strategy")
  | some s ↦
      if length targets == 0
      then err (message "at least one provider target is required")
      else with_states s (check_targets targets [])
]

-- A candidate that a selection does not skip.
unfoldable pub is_eligible : List String → (Target → Bool) → Target → Bool
is_eligible excluded up t = not (contains excluded t.name) && up t

-- One round of the round robin, once `next` has moved; `none` is an index out of range.
try_target :
    (Target → Bool)
    → (Router → Router × Option Target)
    → Router
    → Option TargetState
    → Router × Option Target
try_target may rest r none = (r, none)
try_target may rest r (some s) =
    let later = rest r in if may s.target then (r, some s.target) else later

-- Its loop, for the rounds left.
unfoldable pub round_robin_loop : (Target → Bool) → ℕ → Router → Router × Option Target
unfolding try_target
round_robin_loop may zero r = (r, none)
round_robin_loop may (suc rounds) r =
    try_target may (λ v. round_robin_loop may rounds v)
      (record r { next = (r.next + 1) % length r.targets })
      (get_elem? r.targets (r.next % length r.targets))

-- `selected`, with its current weight.
pub record Best : Type 0 where
  pub index : ℕ
  pub weight : ℤ

unfoldable pub better : ℕ → ℤ → Option Best → Option Best
better i c none = some (record { index = i; weight = c })
better i c (some b) = if ltb_ℤ b.weight c then some (record { index = i; weight = c }) else some b

unfoldable pub raise : (Target → Bool) → TargetState → TargetState
raise may s =
    if may s.target then record s { current_weight = s.current_weight +ℤ pos s.weight } else s

-- The loop of the weighted round robin: the targets with their weights raised, the total, `selected`.
unfoldable pub sweep :
    (Target → Bool) → ℕ → ℕ → Option Best → List TargetState → List TargetState × ℕ × Option Best
unfolding raise better
sweep may i total best [] = ([], total, best)
sweep may i total best (s ∷ ss) =
    let raised = raise may s in
    let (rest, total', best') =
      sweep may (i + 1) (if may s.target then total + s.weight else total)
        (if may s.target then better i raised.current_weight best else best) ss in
    (raised ∷ rest, total', best')

unfoldable pub lower : ℕ → TargetState → TargetState
lower total s = record s { current_weight = s.current_weight -ℤ pos total }

unfoldable pub take_best : List TargetState → ℕ → Option Best → List TargetState × Option Target
unfolding lower
take_best states total none = (states, none)
take_best states total (some b) = elim (get_elem? states b.index) [
  | none ↦ (states, none)
  | some s ↦ (set states b.index (lower total s), some s.target)
]

unfoldable pub weighted_select :
    (Target → Bool) → List TargetState → List TargetState × Option Target
unfolding sweep take_best
weighted_select may states =
    let (raised, total, best) = sweep may 0 0 none states in take_best raised total best

-- selectTarget; `none` is ErrNoHealthyProviders.
select_by : Strategy → (Target → Bool) → Router → Router × Option Target
unfolding round_robin_loop weighted_select
select_by round_robin may r = round_robin_loop may (length r.targets) r
select_by weighted_round_robin may r =
    let (states, t) = weighted_select may r.targets in (record r { targets = states }, t)

unfoldable pub select_target : List String → (Target → Bool) → Router → Router × Option Target
unfolding select_by is_eligible
select_target excluded up r = select_by r.strategy (is_eligible excluded up) r
