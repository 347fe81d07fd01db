-- ===== src/Routing/Cycle.antt =====
-- A whole cycle of selections of the smooth weighted round robin (internal/routing/router.go).
use model_gate.Prelude.{
  ℕ, zero, suc, ◌+◌, ◌*◌, ◌<◌, ◌≡◌, refl, sym, ap, ap₂, subst, ◌∙◌, arith, Bool, true, Option, none,
  some, List, [], ◌∷◌, length, get_elem?, set, map, All, count, ℤ, pos, negsuc, pos_part, neg_part,
  String,
}
use model_gate.Errors.{ok}
use model_gate.Routing.{
  Target, WeightedTarget, new, TargetState, Router, weighted_round_robin, raise, lower,
  weighted_select, select_target, is_eligible,
}
use model_gate.Routing.Weighted.{
  Selected, took, nobody, AreBelow, eligible_weight, weighted_select-Selected, get-map-raise,
  raise-target, sum_above, sum_below, sum-raise, sum-set, nobody-raise,
}
use model_gate.Routing.Fresh.{IsFresh, new-AreFresh}
use model_gate.Routing.Fairness.{
  AreDistinct, HasShare, IsAbove, shape, is_named, step-share, raises-IsAbove, top_nonpos,
  set-IsAbove, shape-step, AreDistinct-shape, eligible_weight-shape,
}

module _ (may : Target → Bool) (all : (t : Target) → may t ≡ true) (total : ℕ)
    (ss₀ : List TargetState) where
  -- Where the targets stand after `k` selections from `ss₀` on.
  record IsCycle (k : ℕ) (chosen : List Target) (ss : List TargetState) : Type 0 where
    shares : All (HasShare total k chosen) ss
    above : All (IsAbove total) ss
    even : sum_above ss ≡ sum_below ss
    kept : map shape ss ≡ map shape ss₀

  module _ (whole : eligible_weight may ss₀ ≡ total) (positive : 0 < total)
      (distinct : AreDistinct ss₀) where
    top_positive :
        (c : ℕ) (ss : List TargetState) (s : TargetState)
        → sum_above ss ≡ sum_below ss
        → eligible_weight may ss ≡ total
        → AreBelow may s.current_weight (map (raise may) ss)
        → pos_part s.current_weight ≡ c
        → 0 < c
    top_positive zero ss s even w below z = absurd (
        omega (
          arith,
          top_nonpos may all s.current_weight (map (raise may) ss) below z,
          sum-raise may ss,
        ))
    top_positive (suc c) ss s even w below z = omega arith

    took-IsCycle :
        (k j : ℕ) (chosen : List Target) (ss : List TargetState) (t : TargetState)
        → get_elem? ss j ≡ some t
        → get_elem? (map (raise may) ss) j ≡ some (raise may t)
        → AreBelow may (raise may t).current_weight (map (raise may) ss)
        → IsCycle k chosen ss
        → IsCycle
            (k + 1)
            (t.target ∷ chosen)
            (set (map (raise may) ss) j (lower total (raise may t)))
    took-IsCycle k j chosen ss t h g below c = record {
      shares =
          step-share may all total k chosen ss j t h
            (AreDistinct-shape ss₀ ss (sym c.kept) distinct) c.shares;
      above =
          set-IsAbove total (map (raise may) ss) j (raise may t)
            (top_positive _ ss (raise may t) c.even w below refl)
            (raises-IsAbove may all total ss c.above) positive;
      even = omega (
        arith,
        c.even,
        w,
        sum-raise may ss,
        sum-set (map (raise may) ss) j (raise may t) total g,
      );
      kept = shape-step may total ss j t h ∙ c.kept;
    }
      where
        w : eligible_weight may ss ≡ total
        w = eligible_weight-shape may ss ss₀ c.kept ∙ whole

    Selected-IsCycle :
        (k : ℕ) (chosen : List Target) (ss : List TargetState)
        (r : List TargetState × Option Target)
        → IsCycle k chosen ss
        → Selected may ss r
        → (t : Target) × (r.1 ≡ some t) × IsCycle (k + 1) (t ∷ chosen) r.0
    Selected-IsCycle k chosen ss r c (nobody out e) =
        absurd (omega (arith, (nobody-raise may ss out).2, eligible_weight-shape may ss ss₀ c.kept))
    Selected-IsCycle k chosen ss r c (took j s g m below e) =
        let (t, h, f) = get-map-raise may ss j s g in
        let w : eligible_weight may ss ≡ total = eligible_weight-shape may ss ss₀ c.kept ∙ whole in
        let same : s.target ≡ t.target =
          ap (λ (x : TargetState). x.target) f ∙ raise-target may t in
        let left : r.0 ≡ set (map (raise may) ss) j (lower total (raise may t)) =
          ap (λ (x : List TargetState × Option Target). x.0) e
          ∙ ap (set (map (raise may) ss) j) (ap₂ lower w f) in
        (
          t.target,
          ap (λ (x : List TargetState × Option Target). x.1) e ∙ ap some same,
          subst (IsCycle (k + 1) (t.target ∷ chosen)) (sym left)
              (took-IsCycle k j chosen ss t h (rw f at g) (rw f at below) c),
        )

-- A multiple of `total` that misses another by less than `total` is that other.
multiple_exact : (total n w : ℕ) (d : ℕ) → d < total → total * n ≡ total * w + d → (n ≡ w) × (d ≡ 0)
multiple_exact total zero zero d h e = (refl, omega arith)
multiple_exact total zero (suc w) d h e = absurd (omega arith)
multiple_exact total (suc n) zero d h e = absurd (omega arith)
multiple_exact total (suc n) (suc w) d h e =
    let (same, none_left) = multiple_exact total n w d h (omega arith) in (ap suc same, none_left)

settled :
    (total n w : ℕ) (c : ℤ)
    → neg_part c < total
    → pos_part c + total * n ≡ total * w + neg_part c
    → neg_part c ≡ 0
settled total n w (pos p) a h = refl
settled total n w (negsuc q) a h = (multiple_exact total n w (suc q) a (omega arith)).1

All-settled :
    (total : ℕ) (chosen : List Target) (ss : List TargetState)
    → All (IsAbove total) ss
    → All (HasShare total total chosen) ss
    → sum_below ss ≡ 0
unfolding sum_below
All-settled total chosen [] a h = refl
All-settled total chosen (s ∷ ss) a h = omega (
  arith,
  settled total (count (is_named s.target.name) chosen) s.weight s.current_weight a.0 h.0,
  All-settled total chosen ss a.1 h.1,
)

-- Each target has been chosen as often as its weight says, and is back at a current weight of 0.
abbrev pub HasTurns : List Target → TargetState → Type 0
HasTurns chosen s =
    (count (is_named s.target.name) chosen ≡ s.weight)
    × (pos_part s.current_weight ≡ 0)
    × (neg_part s.current_weight ≡ 0)

All-turns :
    (total : ℕ) (chosen : List Target) (ss : List TargetState)
    → 0 < total
    → sum_above ss ≡ 0
    → sum_below ss ≡ 0
    → All (HasShare total total chosen) ss
    → All (HasTurns chosen) ss
unfolding sum_above sum_below
All-turns total chosen [] p u d h = tt
All-turns total chosen (s ∷ ss) p u d h = (
  (
    (multiple_exact total (count (is_named s.target.name) chosen) s.weight 0 p (omega arith)).0,
    omega arith,
    omega arith,
  ),
  All-turns total chosen ss p (omega arith) (omega arith) h.1,
)

-- `k` selections in a row, nothing excluded and everything available; the newest choice first.
add_choice : Option Target → List Target → List Target
add_choice none chosen = chosen
add_choice (some t) chosen = t ∷ chosen

unfoldable pub selections : ℕ → Router → Router × List Target
unfolding add_choice
selections zero r = (r, [])
selections (suc k) r =
    let (s, chosen) = selections k r in
    let (t, choice) = select_target [] (λ _. true) s in (t, add_choice choice chosen)

abbrev everyone : Target → Bool
everyone = is_eligible [] (λ _. true)

everyone_may : (t : Target) → everyone t ≡ true
unfolding is_eligible
everyone_may t = refl

select_weighted :
    (r : Router)
    → r.strategy ≡ weighted_round_robin
    → (let w = weighted_select everyone r.targets in
        select_target [] (λ _. true) r ≡ (record r { targets = w.0 }, w.1))
unfolding select_target
select_weighted r e = ground arith

module _ (r : Router) (weighted : r.strategy ≡ weighted_round_robin)
    (positive : 0 < eligible_weight everyone r.targets) (distinct : AreDistinct r.targets) where
  abbrev At : ℕ → Router × List Target → Type 0
  At k (s, chosen) =
      (s.strategy ≡ weighted_round_robin)
      × IsCycle everyone everyone_may (eligible_weight everyone r.targets) r.targets k chosen
          s.targets

  next-At :
      (k : ℕ) (s : Router) (chosen : List Target)
      → At k (s, chosen)
      → (let (t, choice) = select_target [] (λ _. true) s in
          At (k + 1) (t, add_choice choice chosen))
  next-At k s chosen (w, c) =
      let (t, e, d) =
        Selected-IsCycle everyone everyone_may (eligible_weight everyone r.targets) r.targets refl
          positive distinct k chosen s.targets (weighted_select everyone s.targets) c
          (weighted_select-Selected everyone s.targets) in
      rw (select_weighted s w, e) (w, unfold add_choice in d)

  selections-At : (k : ℕ) → At 0 (r, []) → At k (selections k r)
  unfolding selections
  selections-At zero a = a
  selections-At (suc k) a =
      let e : k + 1 ≡ suc k = omega arith in
      rw (← e) (next-At k (selections k r).0 (selections k r).1 (selections-At k a))

fresh-share :
    (total : ℕ) (names : List String) (ss : List TargetState)
    → 0 < total
    → All (IsFresh names) ss
    → All (HasShare total 0 []) ss
      × All (IsAbove total) ss
      × (sum_above ss ≡ 0)
      × (sum_below ss ≡ 0)
unfolding sum_above sum_below
fresh-share total names [] p f = (tt, tt, refl, refl)
fresh-share total names (s ∷ ss) p f =
    let (shares, above, up, down) = fresh-share total names ss p f.1 in
    ((ground arith, shares), (ground arith, above), ground arith, ground arith)

fresh-weight :
    (may : Target → Bool) (all : (t : Target) → may t ≡ true) (names : List String)
    (ss : List TargetState)
    → 0 < length ss
    → All (IsFresh names) ss
    → 0 < eligible_weight may ss
unfolding eligible_weight
fresh-weight may all names [] p f = absurd (omega arith)
fresh-weight may all names (s ∷ ss) p f = ground (arith, all s.target, f.0.weighty)

unfoldable pub sum_of : List TargetState → ℕ
sum_of [] = 0
sum_of (s ∷ ss) = s.weight + sum_of ss

eligible_weight-all :
    (may : Target → Bool) (all : (t : Target) → may t ≡ true) (ss : List TargetState)
    → eligible_weight may ss ≡ sum_of ss
unfolding eligible_weight sum_of
eligible_weight-all may all [] = refl
eligible_weight-all may all (s ∷ ss) = ground (arith, all s.target, eligible_weight-all may all ss)

abbrev HasCycled : Router → ℕ → Type 0
HasCycled r k =
    let (s, chosen) = selections k r in
    All (HasTurns chosen) s.targets × (map shape s.targets ≡ map shape r.targets)

cycle-HasCycled :
    (strategy : String) (cs : List WeightedTarget) {r : Router}
    → new strategy cs ≡ ok r
    → r.strategy ≡ weighted_round_robin
    → HasCycled r (eligible_weight everyone r.targets)
cycle-HasCycled strategy cs {r} e w =
    let (_, (fresh, distinct), long, someone, _) = new-AreFresh strategy cs e in
    let total = eligible_weight everyone r.targets in
    let positive = fresh-weight everyone everyone_may [] r.targets (omega arith) fresh in
    let (shares, above, up, down) = fresh-share total [] r.targets positive fresh in
    let (_, c) =
      selections-At r w positive distinct total
        (w, record { shares = shares; above = above; even = up ∙ sym down; kept = refl }) in
    let (s, chosen) = selections total r in
    let low = All-settled total chosen s.targets c.above c.shares in
    (All-turns total chosen s.targets positive (c.even ∙ low) low c.shares, c.kept)

-- The weighted round robin is fair. On a router that `New` returns, when every target stays available
-- and no call excludes any, each cycle of as many selections as the weights add up to chooses every
-- target exactly as often as its weight says, and leaves every current weight at 0 again.
pub weighted_fair :
    (strategy : String) (cs : List WeightedTarget) {r : Router}
    → new strategy cs ≡ ok r
    → r.strategy ≡ weighted_round_robin
    → (let (s, chosen) = selections (sum_of r.targets) r in
        All (HasTurns chosen) s.targets × (map shape s.targets ≡ map shape r.targets))
weighted_fair strategy cs {r} e w =
    subst (HasCycled r) (eligible_weight-all everyone everyone_may r.targets)
      (cycle-HasCycled strategy cs e w)
