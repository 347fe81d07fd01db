-- ===== src/Witnesses/Selection.antt =====
-- The router at concrete inputs (internal/routing/router.go).
use model_gate.Prelude.{
  ℕ, ◌+◌, ◌≡◌, ◌↔◌, refl, arith, Bool, true, false, List, [], ◌∷◌, none, some, map, All, String,
  pos, str_eq, trim_space, ◌+ℤ◌, ◌-ℤ◌,
}
use model_gate.Errors.{ok, err, message}
use model_gate.Routing
use model_gate.Routing.{
  Router, Target, TargetState, WeightedTarget, round_robin, weighted_round_robin, strategy_of,
  weighted_select, select_target, is_eligible,
}
use model_gate.Routing.Weighted.{sum_above, sum_below, Chosen, weighted_select_lem}
use model_gate.Routing.Fairness.{shape}
use model_gate.Routing.Cycle.{selections, sum_of, HasTurns, weighted_fair}
use model_gate.Routing.RoundRobin.{Passed, round_robin_lem}

abbrev bare_target : String → ℕ → WeightedTarget
bare_target name weight = record { target = some (record { name = name }); weight = pos weight }

abbrev state : String → ℕ → TargetState
state name weight = record {
  target = record { name = name };
  weight = weight;
  current_weight = pos 0;
}

abbrev three : List WeightedTarget
three = bare_target "a" 5 ∷ bare_target "b" 1 ∷ bare_target "c" 1 ∷ []

abbrev heavy_router : Router
heavy_router = record {
  strategy = weighted_round_robin;
  targets = state "a" 5 ∷ state "b" 1 ∷ state "c" 1 ∷ [];
  next = 0;
}

abbrev pub plain_router : Router
plain_router = record heavy_router { strategy = round_robin }

heavy_router-new : Routing.new "weighted_round_robin" three ≡ ok heavy_router
unfolding Routing.new trim_space
heavy_router-new = refl

duplicate_refused :
    Routing.new "round_robin" (bare_target "a" 1 ∷ bare_target " a " 2 ∷ [])
    ≡ err (message "provider target is duplicated")
unfolding Routing.new trim_space
duplicate_refused = refl

-- The order that the smooth weights give, newest first.
smooth_order :
    map (λ (t : Target). t.name) (selections 7 heavy_router).1
    ≡ "a" ∷ "a" ∷ "c" ∷ "a" ∷ "b" ∷ "a" ∷ "a" ∷ []
unfolding selections select_target ◌+ℤ◌ ◌-ℤ◌
smooth_order = refl

weighted_fair_example :
    (let (s, chosen) = selections 7 heavy_router in
      All (HasTurns chosen) s.targets × (map shape s.targets ≡ map shape heavy_router.targets))
unfolding sum_of
weighted_fair_example = weighted_fair "weighted_round_robin" three heavy_router-new refl

abbrev up_but_a : Target → Bool
up_but_a t = elim (str_eq t.name "a") [ true ↦ false | false ↦ true ]

weighted_select_lem_example :
    (let r = weighted_select up_but_a heavy_router.targets in
      (sum_above r.0 + sum_below heavy_router.targets
        ≡ sum_below r.0 + sum_above heavy_router.targets)
      × Chosen up_but_a heavy_router.targets r)
weighted_select_lem_example = weighted_select_lem up_but_a heavy_router.targets

round_robin_lem_example :
    (let may = is_eligible ("b" ∷ []) up_but_a in
      let q = select_target ("b" ∷ []) up_but_a plain_router in
      Passed may 3 plain_router q
      × ((q.1 ≡ none) ↔ All (λ s. may s.target ≡ false) plain_router.targets))
round_robin_lem_example = round_robin_lem ("b" ∷ []) up_but_a plain_router refl (omega arith)
