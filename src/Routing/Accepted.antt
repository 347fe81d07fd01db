-- ===== src/Routing/Accepted.antt =====
-- The targets that the router accepts (New in internal/routing/router.go).
use model_gate.Prelude.{
  suc, ◌≤◌, ◌≡◌, refl, ap, arith, true, false, ◌||◌, List, [], ◌∷◌, some, String, str_eq, contains,
  trim_space, length, pos, pos_part, ◌==◌, ◌≤ℤ◌, Bool-cases, inl, inr,
}
use model_gate.Errors.{ok}
use model_gate.Routing.{
  Strategy, round_robin, weighted_round_robin, Target, WeightedTarget, TargetState, Router,
  strategy_of, check_target, add_state, add_checked, check_targets, with_states, new,
}

-- Candidates with names that are new once trimmed, and positive weights.
abbrev pub AreCandidates : List String → List WeightedTarget → Type 0
AreCandidates names [] = Unit {0}
AreCandidates names (c ∷ cs) =
    (t : Target) × (c.target ≡ some t)
    × (str_eq (trim_space t.name) "" ≡ false)
    × (contains names (trim_space t.name) ≡ false)
    × (pos 1 ≤ℤ c.weight)
    × AreCandidates (trim_space t.name ∷ names) cs

check_target-ok :
    (names : List String) (c : WeightedTarget) (t : Target)
    → c.target ≡ some t
    → str_eq (trim_space t.name) "" ≡ false
    → contains names (trim_space t.name) ≡ false
    → pos 1 ≤ℤ c.weight
    → (s : TargetState) × (check_target names c ≡ ok (trim_space t.name, s))
unfolding check_target
check_target-ok names c t e named unused weighs = (
  record { target = t; weight = pos_part c.weight; current_weight = pos 0 },
  (rw (check_target, e, named, unused) ground arith),
)

check_targets-ok :
    (cs : List WeightedTarget) (names : List String)
    → AreCandidates names cs
    → (states : List TargetState) × (check_targets cs names ≡ ok states)
      × (length states ≡ length cs)
unfolding check_targets add_checked add_state
check_targets-ok [] names h = ([], refl, refl)
check_targets-ok (c ∷ cs) names (t, e, named, unused, weighs, rest) =
    let (s, one) = check_target-ok names c t e named unused weighs in
    let (states, more, long) = check_targets-ok cs (trim_space t.name ∷ names) rest in
    (s ∷ states, rw (one, more) refl, ap suc long)

strategy_of-known :
    (strategy : String)
    → str_eq strategy "round_robin" || str_eq strategy "weighted_round_robin" ≡ true
    → (s : Strategy) × (strategy_of strategy ≡ some s)
unfolding strategy_of
strategy_of-known strategy known = elim (Bool-cases (str_eq strategy "round_robin")) [
  | inl e ↦ (round_robin, (rw (strategy_of, e) refl))
  | inr e ↦ (weighted_round_robin, ground (arith, known, e))
]

new-states :
    (strategy : String) (cs : List WeightedTarget) (s : Strategy) (states : List TargetState)
    → strategy_of strategy ≡ some s
    → check_targets cs [] ≡ ok states
    → 1 ≤ length cs
    → new strategy cs ≡ ok (record { strategy = s; targets = states; next = 0 })
unfolding new with_states
new-states strategy cs s states e e' some_target =
    let filled : (length cs == 0) ≡ false = ground arith in rw (new, e, filled, e') refl

pub new-accepts :
    (strategy : String) (cs : List WeightedTarget)
    → str_eq strategy "round_robin" || str_eq strategy "weighted_round_robin" ≡ true
    → 1 ≤ length cs
    → AreCandidates [] cs
    → (r : Router) × (new strategy cs ≡ ok r) × (length r.targets ≡ length cs)
new-accepts strategy cs known some_target h =
    let (states, e, long) = check_targets-ok cs [] h in
    let (s, e') = strategy_of-known strategy known in
    (
      record { strategy = s; targets = states; next = 0 },
      new-states strategy cs s states e' e some_target,
      long,
    )
