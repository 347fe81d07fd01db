-- ===== src/Routing/RoundRobin.antt =====
-- The plain round robin (`selectTarget` in internal/routing/router.go).
use native.Mathlib.Nat.{mod-add-mod, mod-eq_of_lt, add-mod_right}
use native.Mathlib.Numerals.{add-one}
use model_gate.Prelude.{
  ℕ, zero, suc, ◌+◌, ◌-◌, ◌%◌, ◌<◌, ◌≡◌, ◌↔◌, inl, inr, refl, sym, ap, subst, ◌∙◌, arith, Bool,
  true, false, Option, none, some, List, [], ◌∷◌, length, get_elem?, All, String, Bool-cases, leb,
  tests,
}
use model_gate.Routing.{
  Target, TargetState, Router, round_robin, try_target, round_robin_loop, select_by, select_target,
  is_eligible,
}

-- The target `j` places after the position of the router, round the ring.
abbrev pub place : Router → ℕ → ℕ
place r j = (r.next + j) % length r.targets

-- None of the `n` targets from the position of the router on is eligible.
abbrev pub AreSkipped : (Target → Bool) → Router → ℕ → Type 0
AreSkipped may r n =
    (i : ℕ) (s : TargetState)
    → i < n
    → get_elem? r.targets (place r i) ≡ some s
    → may s.target ≡ false

-- A selection stops at the first eligible target, or passes them all.
pub data Passed (may : Target → Bool) (rounds : ℕ) (r : Router) (q : Router × Option Target)
    : Type 0 where
  stopped :
      (j : ℕ) (s : TargetState)
      → j < rounds
      → get_elem? r.targets (place r j) ≡ some s
      → may s.target ≡ true
      → AreSkipped may r j
      → q ≡ (record r { next = place r (j + 1) }, some s.target)
      → Passed may rounds r q
  passed_all : AreSkipped may r rounds → q.1 ≡ none → Passed may rounds r q

abbrev moved : Router → Router
moved r = record r { next = (r.next + 1) % length r.targets }

place-moved : (r : Router) (i : ℕ) → place (moved r) i ≡ place r (i + 1)
place-moved r i =
    let regroup : r.next + 1 + i ≡ r.next + (i + 1) = omega arith in
    mod-add-mod (r.next + 1) (length r.targets) i ∙ ap (λ (x : ℕ). x % length r.targets) regroup

place_start : (r : Router) → place r 0 ≡ r.next % length r.targets
place_start r = let z : r.next + 0 ≡ r.next = omega arith in rw z

in_range : {A : Type 0} (xs : List A) (i : ℕ) → i < length xs → (x : A) × (get_elem? xs i ≡ some x)
in_range [] i h = absurd (omega arith)
in_range (x ∷ xs) zero h = (x, refl)
in_range (x ∷ xs) (suc i) h = in_range xs i (omega arith)

AreSkipped-suc :
    (may : Target → Bool) (r : Router) (n : ℕ) (s : TargetState)
    → get_elem? r.targets (place r 0) ≡ some s
    → may s.target ≡ false
    → AreSkipped may (moved r) n
    → AreSkipped may r (suc n)
AreSkipped-suc may r n s g m later zero t h e = let same : s ≡ t = ground arith in rw same at m
AreSkipped-suc may r n s g m later (suc i) t h e =
    let there : place (moved r) i ≡ place r (suc i) = place-moved r i ∙ ap (place r) (add-one i) in
    later i t (omega arith) (ap (get_elem? r.targets) there ∙ e)

Passed-moved :
    (may : Target → Bool) (rounds : ℕ) (r : Router) (s : TargetState) (q : Router × Option Target)
    → get_elem? r.targets (place r 0) ≡ some s
    → may s.target ≡ false
    → Passed may rounds (moved r) q
    → Passed may (suc rounds) r q
Passed-moved may rounds r s q g m (passed_all skipped none_left) =
    passed_all (AreSkipped-suc may r rounds s g m skipped) none_left
Passed-moved may rounds r s q g m (stopped j t h e n skipped same) =
    stopped (suc j) t (omega arith) (ap (get_elem? r.targets) (sym there) ∙ e) n
      (AreSkipped-suc may r j s g m skipped) (rw further at same)
  where
    there : place (moved r) j ≡ place r (suc j)
    there = place-moved r j ∙ ap (place r) (add-one j)

    further : place (moved r) (j + 1) ≡ place r (suc j + 1)
    further = place-moved r (j + 1) ∙ ap (λ (x : ℕ). place r (x + 1)) (add-one j)

try_target-Passed :
    (may : Target → Bool) (rounds : ℕ) (r : Router) (s : TargetState)
    → get_elem? r.targets (place r 0) ≡ some s
    → Passed may rounds (moved r) (round_robin_loop may rounds (moved r))
    → Passed may
        (suc rounds)
        r
        (try_target may (λ v. round_robin_loop may rounds v) (moved r) (some s))
unfolding try_target
try_target-Passed may rounds r s g later = elim (Bool-cases (may s.target)) [
  | inl m ↦ rw m (stopped 0 s (omega arith) g m (λ i t h e. absurd (omega arith)) refl)
  | inr m ↦ rw m (Passed-moved may rounds r s _ g m later)
]

round-Passed :
    (may : Target → Bool) (rounds : ℕ) (r : Router)
    → 0 < length r.targets
    → Passed may rounds (moved r) (round_robin_loop may rounds (moved r))
    → Passed may (suc rounds) r (round_robin_loop may (suc rounds) r)
unfolding round_robin_loop
round-Passed may rounds r p later =
    let (s, g) = in_range r.targets (r.next % length r.targets) (grind arith) in
    let g' : get_elem? r.targets (place r 0) ≡ some s =
      ap (get_elem? r.targets) (place_start r) ∙ g in
    rw g (try_target-Passed may rounds r s g' later)

none-Passed : (may : Target → Bool) (r : Router) → Passed may 0 r (round_robin_loop may 0 r)
unfolding round_robin_loop
none-Passed may r = passed_all (λ i s h e. absurd (omega arith)) refl

round_robin_loop-Passed :
    (may : Target → Bool) (rounds : ℕ) (r : Router)
    → 0 < length r.targets
    → Passed may rounds r (round_robin_loop may rounds r)
round_robin_loop-Passed may zero r p = none-Passed may r
round_robin_loop-Passed may (suc rounds) r p =
    round-Passed may rounds r p (round_robin_loop-Passed may rounds (moved r) p)

All-of_places :
    {A : Type 0} (P : A → Type 0) (xs : List A)
    → ((k : ℕ) (x : A) → get_elem? xs k ≡ some x → P x)
    → All P xs
All-of_places P [] h = tt
All-of_places P (x ∷ xs) h = (h 0 x refl, All-of_places P xs (λ k y e. h (suc k) y e))

place_of : (n next k : ℕ) → next < n → k < n → (i : ℕ) × (i < n) × ((next + i) % n ≡ k)
place_of n next k p q = elim (Bool-cases (leb next k)) [
  | inl e ↦
      let h : next + (k - next) ≡ k = omega tests in
      (k - next, omega arith, ap (λ (x : ℕ). x % n) h ∙ mod-eq_of_lt q)
  | inr e ↦
      let h : next + (k + n - next) ≡ k + n = omega tests in
      (k + n - next, omega tests, ap (λ (x : ℕ). x % n) h ∙ add-mod_right k n ∙ mod-eq_of_lt q)
]

get-lt : {A : Type 0} (xs : List A) (k : ℕ) (x : A) → get_elem? xs k ≡ some x → k < length xs
get-lt [] k x e = cc
get-lt (y ∷ xs) zero x e = omega arith
get-lt (y ∷ xs) (suc k) x e = omega (arith, get-lt xs k x e)

AreSkipped-All :
    (may : Target → Bool) (r : Router)
    → r.next < length r.targets
    → AreSkipped may r (length r.targets)
    → All (λ s. may s.target ≡ false) r.targets
AreSkipped-All may r low skipped = All-of_places _ r.targets λ k s e.
    let (i, h, at) = place_of (length r.targets) r.next k low (get-lt r.targets k s e) in
    skipped i s h (ap (get_elem? r.targets) at ∙ e)

All-get :
    {A : Type 0} (P : A → Type 0) (xs : List A) (k : ℕ) (x : A)
    → All P xs
    → get_elem? xs k ≡ some x
    → P x
All-get P [] k x a e = cc
All-get P (y ∷ xs) zero x a e = let same : y ≡ x = ground arith in subst P same a.0
All-get P (y ∷ xs) (suc k) x a e = All-get P xs k x a.1 e

Passed-none :
    (may : Target → Bool) (r : Router) (q : Router × Option Target)
    → r.next < length r.targets
    → Passed may (length r.targets) r q
    → (q.1 ≡ none) ↔ All (λ s. may s.target ≡ false) r.targets
Passed-none may r q low (passed_all skipped n) = (λ _. AreSkipped-All may r low skipped, λ _. n)
Passed-none may r q low (stopped j s h e m skipped same) = (
  λ n. cc,
  λ a.
      let out : may s.target ≡ false =
        All-get (λ (t : TargetState). may t.target ≡ false) r.targets (place r j) s a e in
      cc,
)

select_round :
    (excluded : List String) (up : Target → Bool) (r : Router)
    → r.strategy ≡ round_robin
    → select_target excluded up r ≡ round_robin_loop (is_eligible excluded up) (length r.targets) r
unfolding select_target
select_round excluded up r e = rw (e, select_by)

-- A round-robin selection takes the first eligible target from the position of the router on, round
-- the ring, and moves the position just past it; it passes over no target that is eligible. It
-- returns none exactly when no target at all is eligible.
pub round_robin_lem :
    (excluded : List String) (up : Target → Bool) (r : Router)
    → r.strategy ≡ round_robin
    → r.next < length r.targets
    → (let may = is_eligible excluded up in
        let q = select_target excluded up r in
        Passed may (length r.targets) r q
        × ((q.1 ≡ none) ↔ All (λ s. may s.target ≡ false) r.targets))
round_robin_lem excluded up r e low =
    let may = is_eligible excluded up in
    let p = round_robin_loop-Passed may (length r.targets) r (omega arith) in
    rw (select_round excluded up r e) (p, Passed-none may r _ low p)
