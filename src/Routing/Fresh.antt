-- ===== src/Routing/Fresh.antt =====
-- A router as `New` returns it (internal/routing/router.go).
use model_gate.Prelude.{
  suc, ◌<◌, ◌≡◌, inl, inr, refl, sym, ap, subst, arith, false, some, List, [], ◌∷◌, length, All,
  pos, String, str_eq, contains, trim_space, eq_iff, eq_refl, Option-cases, if◌then◌else◌, ◌==◌,
  Bool-cases,
}
use model_gate.Errors.{Result, message, ok, err}
use model_gate.Routing.{
  TargetState, WeightedTarget, Router, Strategy, strategy_of, check_target, add_state, add_checked,
  check_targets, with_states, new,
}
use model_gate.Routing.Fairness.{AreDistinct, Differs}

-- A fresh target: a name that is not among `names` once it is trimmed, a positive weight, no credit.
pub record IsFresh (names : List String) (s : TargetState) : Type 0 where
  pub new_name : contains names (trim_space s.target.name) ≡ false
  pub named : str_eq (trim_space s.target.name) "" ≡ false
  pub weighty : 0 < s.weight
  pub level : s.current_weight ≡ pos 0

check_target-IsFresh :
    (names : List String) (c : WeightedTarget) (name : String) (s : TargetState)
    → check_target names c ≡ ok (name, s)
    → IsFresh names s × (name ≡ trim_space s.target.name)
unfolding check_target
check_target-IsFresh names c name s e = ground arith

contains-cons :
    (n m : String) (names : List String)
    → contains (n ∷ names) m ≡ false
    → (contains names m ≡ false) × (str_eq n m ≡ false)
contains-cons n m names h = ground arith

-- Different once trimmed, so different.
differs_untrimmed :
    (s t : String) → str_eq (trim_space s) (trim_space t) ≡ false → str_eq t s ≡ false
differs_untrimmed s t h = elim (Bool-cases (str_eq t s)) [
  | inr no_match ↦ no_match
  | inl e ↦ let same : t ≡ s = (eq_iff t s).0 e in cc (eq_refl (trim_space s))
]

IsFresh-apart :
    (names : List String) (name : String) (s : TargetState) (ss : List TargetState)
    → name ≡ trim_space s.target.name
    → All (IsFresh (name ∷ names)) ss
    → All (Differs s.target.name) ss × All (IsFresh names) ss
IsFresh-apart names name s [] e f = (tt, tt)
IsFresh-apart names name s (t ∷ ss) e f =
    let (apart, rest) = IsFresh-apart names name s ss e f.1 in
    let (free, other) = contains-cons name (trim_space t.target.name) names f.0.new_name in
    (
      (differs_untrimmed s.target.name t.target.name (rw e at other), apart),
      (
        record { new_name = free; named = f.0.named; weighty = f.0.weighty; level = f.0.level },
        rest,
      ),
    )

add_state-eq_ok :
    (s : TargetState) (r : Result (List TargetState)) (ss : List TargetState)
    → add_state s r ≡ ok ss
    → (tail : List TargetState) × (r ≡ ok tail) × (ss ≡ s ∷ tail)
unfolding add_state
add_state-eq_ok s (ok tail) ss e = (tail, refl, ground arith)
add_state-eq_ok s (err x) ss e = cc

add_checked-eq_ok :
    (rest : List String → Result (List TargetState)) (names : List String)
    (q : Result (String × TargetState)) (ss : List TargetState)
    → add_checked rest names q ≡ ok ss
    → (name : String) × (s : TargetState) × (tail : List TargetState) × (q ≡ ok (name, s))
      × (rest (name ∷ names) ≡ ok tail)
      × (ss ≡ s ∷ tail)
unfolding add_checked
add_checked-eq_ok rest names (err x) ss e = cc
add_checked-eq_ok rest names (ok (name, s)) ss e =
    let (tail, r, f) = add_state-eq_ok s (rest (name ∷ names)) ss e in (name, s, tail, refl, r, f)

-- What `New` has established of its list of states.
abbrev pub AreFresh : List String → List TargetState → Type 0
AreFresh names ss = All (IsFresh names) ss × AreDistinct ss

check_targets-AreFresh :
    (cs : List WeightedTarget) (names : List String) (ss : List TargetState)
    → check_targets cs names ≡ ok ss
    → AreFresh names ss × (length ss ≡ length cs)
unfolding check_targets
check_targets-AreFresh [] names ss e =
    let nothing : [] ≡ ss = ground arith in
    subst (λ (x : List TargetState). AreFresh names x × (length x ≡ 0)) nothing ((tt, tt), refl)
check_targets-AreFresh (c ∷ cs) names ss e =
    let (name, s, tail, q, r, f) =
      add_checked-eq_ok (λ taken. check_targets cs taken) names (check_target names c) ss e in
    let (fresh, trimmed) = check_target-IsFresh names c name s q in
    let ((rest, distinct), long) = check_targets-AreFresh cs (name ∷ names) tail r in
    let (apart, still) = IsFresh-apart names name s tail trimmed rest in
    subst (λ (x : List TargetState). AreFresh names x × (length x ≡ suc (length cs))) (sym f)
      (((fresh, still), (apart, distinct)), ap suc long)

abbrev fresh_router : Strategy → List TargetState → Router
fresh_router s ss = record { strategy = s; targets = ss; next = 0 }

with_states-eq_ok :
    (s : Strategy) (q : Result (List TargetState)) (r : Router)
    → with_states s q ≡ ok r
    → (ss : List TargetState) × (q ≡ ok ss) × (r ≡ fresh_router s ss)
unfolding with_states
with_states-eq_ok s (ok ss) r e = (ss, refl, ground arith)
with_states-eq_ok s (err x) r e = cc

new_with-eq_ok :
    (s : Strategy) (cs : List WeightedTarget) (r : Router)
    → (if length cs == 0
        then err (message "at least one provider target is required")
        else with_states s (check_targets cs []))
      ≡ ok r
    → (ss : List TargetState) × (0 < length cs)
      × (check_targets cs [] ≡ ok ss)
      × (r ≡ fresh_router s ss)
new_with-eq_ok s [] r e = cc
new_with-eq_ok s (c ∷ cs) r e =
    let (ss, q, f) = with_states-eq_ok s (check_targets (c ∷ cs) []) r (ground arith) in
    (ss, omega arith, q, f)

new-eq_ok :
    (strategy : String) (cs : List WeightedTarget) (r : Router)
    → new strategy cs ≡ ok r
    → (s : Strategy) × (ss : List TargetState) × (strategy_of strategy ≡ some s)
      × (0 < length cs)
      × (check_targets cs [] ≡ ok ss)
      × (r ≡ fresh_router s ss)
unfolding new
new-eq_ok strategy cs r e = elim (Option-cases (strategy_of strategy)) [
  | inl z ↦ cc (rw (z, new) at e)
  | inr (s, z) ↦ let (ss, l, q, f) = new_with-eq_ok s cs r (rw (z, new) at e) in (s, ss, z, l, q, f)
]

-- A router that `New` returns has the strategy that was named, and a target for each of at least one
-- candidate; no two targets share a name, and each has a name that is not blank, a positive weight,
-- and no credit.
pub new-AreFresh :
    (strategy : String) (cs : List WeightedTarget) {r : Router}
    → new strategy cs ≡ ok r
    → (strategy_of strategy ≡ some r.strategy)
      × AreFresh [] r.targets
      × (length r.targets ≡ length cs)
      × (0 < length cs)
      × (r.next ≡ 0)
new-AreFresh strategy cs {r} e =
    let (s, ss, z, l, q, f) = new-eq_ok strategy cs r e in
    let (fresh, long) = check_targets-AreFresh cs [] ss q in
    subst
      (λ (x : Router).
        (strategy_of strategy ≡ some x.strategy)
        × AreFresh [] x.targets
        × (length x.targets ≡ length cs)
        × (0 < length cs)
        × (x.next ≡ 0))
      (sym f) (z, fresh, long, l, refl)
