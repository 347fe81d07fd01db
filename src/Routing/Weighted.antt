-- ===== src/Routing/Weighted.antt =====
-- One selection of the smooth weighted round robin (`selectTarget` in internal/routing/router.go).
use model_gate.Prelude.{
  ℕ, zero, suc, ◌+◌, ◌≡◌, ◌⊎◌, inl, inr, refl, ap, ◌∙◌, arith, Bool, true, false, Option, none,
  some, List, [], ◌∷◌, get_elem?, set, map, All, if◌then◌else◌, Option-cases, ℤ, pos, pos_part,
  neg_part, ◌+ℤ◌, ◌≤ℤ◌, +ℤ_parts, -ℤ_parts,
}
use model_gate.Routing.{
  Target, TargetState, Best, better, raise, sweep, lower, take_best, weighted_select,
}

unfoldable pub eligible_weight : (Target → Bool) → List TargetState → ℕ
eligible_weight may [] = 0
eligible_weight may (s ∷ ss) = (if may s.target then s.weight else 0) + eligible_weight may ss

-- `selected` after the loop, from the raised weights.
pick : (Target → Bool) → ℕ → Option Best → List TargetState → Option Best
pick may i best [] = best
pick may i best (s ∷ ss) =
    pick may (i + 1) (if may s.target then better i s.current_weight best else best) ss

pub raise-target : (may : Target → Bool) (s : TargetState) → (raise may s).target ≡ s.target
unfolding raise
raise-target may s = ground arith

pub raise-eligible :
    (may : Target → Bool) (s : TargetState)
    → may s.target ≡ true
    → (raise may s).current_weight ≡ s.current_weight +ℤ pos s.weight
unfolding raise
raise-eligible may s m = ground arith

sweep_lem :
    (may : Target → Bool) (i total : ℕ) (best : Option Best) (ss : List TargetState)
    → sweep may i total best ss
      ≡ (map (raise may) ss, total + eligible_weight may ss, pick may i best (map (raise may) ss))
unfolding sweep eligible_weight pick
sweep_lem may i total best [] = ground arith
sweep_lem may i total best (s ∷ ss) = ground (
  arith,
  raise-target may s,
  sweep_lem may (i + 1) (if may s.target then total + s.weight else total)
      (if may s.target then better i (raise may s).current_weight best else best) ss,
)

-- Where the choice comes from.
pub IsAt : (Target → Bool) → ℕ → Best → List TargetState → Type 0
IsAt may i b ss =
    (j : ℕ) × (s : TargetState) × (b.index ≡ i + j)
    × (get_elem? ss j ≡ some s)
    × (may s.target ≡ true)
    × (s.current_weight ≡ b.weight)

IsAt-tail :
    (may : Target → Bool) (i : ℕ) (b : Best) (s : TargetState) (ss : List TargetState)
    → IsAt may (i + 1) b ss
    → IsAt may i b (s ∷ ss)
unfolding IsAt
IsAt-tail may i b s ss (j, t, e, g, m, c) = (suc j, t, omega arith, g, m, c)

consider-source :
    (may : Target → Bool) (i : ℕ) (best : Option Best) (s : TargetState) (b : Best)
    → (if may s.target then better i s.current_weight best else best) ≡ some b
    → (best ≡ some b)
      ⊎ ((may s.target ≡ true) × (b ≡ record { index = i; weight = s.current_weight }))
unfolding better
consider-source may i best s b e = ground arith

pick-source :
    (may : Target → Bool) (i : ℕ) (best : Option Best) (ss : List TargetState) (b : Best)
    → pick may i best ss ≡ some b
    → (best ≡ some b) ⊎ IsAt may i b ss
unfolding pick
pick-source may i best [] b e = inl e
pick-source may i best (s ∷ ss) b e =
    elim (pick-source may (i + 1) (if may s.target then better i s.current_weight best else best) ss
      b e) [
        | inr later ↦ inr (IsAt-tail may i b s ss later)
        | inl now ↦ elim (consider-source may i best s b now) [
          | inl old ↦ inl old
          | inr (m, new) ↦ inr (unfold IsAt in (0, s, ground arith, refl, m, ground arith))
        ]
      ]

consider-top :
    (may : Target → Bool) (i : ℕ) (best : Option Best) (s : TargetState) (b : Best)
    → ((a : Best)
        → (if may s.target then better i s.current_weight best else best) ≡ some a
        → a.weight ≤ℤ b.weight)
    → (may s.target ≡ true → s.current_weight ≤ℤ b.weight)
      × ((a : Best) → best ≡ some a → a.weight ≤ℤ b.weight)
unfolding better
consider-top may i none s b over =
    (λ m. over (record { index = i; weight = s.current_weight }) (ground arith), λ a e. cc)
consider-top may i (some a) s b over =
    let new = over (record { index = i; weight = s.current_weight }) in
    let old = over a in (λ m. ground (arith, new, old), λ a' e. ground (arith, new, old))

abbrev pub AreBelow : (Target → Bool) → ℤ → List TargetState → Type 0
AreBelow may c = All (λ s. may s.target ≡ true → s.current_weight ≤ℤ c)

pick-top :
    (may : Target → Bool) (i : ℕ) (best : Option Best) (ss : List TargetState) (b : Best)
    → pick may i best ss ≡ some b
    → AreBelow may b.weight ss × ((a : Best) → best ≡ some a → a.weight ≤ℤ b.weight)
unfolding pick
pick-top may i best [] b e = (tt, λ a f. ground arith)
pick-top may i best (s ∷ ss) b e =
    let (below, over) = pick-top may (i + 1) _ ss b e in
    let (mine, old) = consider-top may i best s b over in ((mine, below), old)

pick-none :
    (may : Target → Bool) (i : ℕ) (best : Option Best) (ss : List TargetState)
    → pick may i best ss ≡ none
    → (best ≡ none) × All (λ s. may s.target ≡ false) ss
unfolding pick better
pick-none may i best [] e = (e, tt)
pick-none may i best (s ∷ ss) e =
    let (above, rest) = pick-none may (i + 1) _ ss e in (ground arith, (ground arith, rest))

-- The part of the current weights above and below zero.
unfoldable pub sum_above : List TargetState → ℕ
sum_above [] = 0
sum_above (s ∷ ss) = pos_part s.current_weight + sum_above ss

unfoldable pub sum_below : List TargetState → ℕ
sum_below [] = 0
sum_below (s ∷ ss) = neg_part s.current_weight + sum_below ss

pub sum-raise :
    (may : Target → Bool) (ss : List TargetState)
    → sum_above (map (raise may) ss) + sum_below ss
      ≡ sum_below (map (raise may) ss) + sum_above ss + eligible_weight may ss
unfolding sum_above sum_below eligible_weight raise
sum-raise may [] = refl
sum-raise may (s ∷ ss) = ground (arith, sum-raise may ss, +ℤ_parts s.current_weight (pos s.weight))

pub sum-set :
    (ss : List TargetState) (j : ℕ) (s : TargetState) (total : ℕ)
    → get_elem? ss j ≡ some s
    → sum_above (set ss j (lower total s)) + sum_below ss + total
      ≡ sum_below (set ss j (lower total s)) + sum_above ss
unfolding sum_above sum_below lower
sum-set [] j s total e = cc
sum-set (t ∷ ss) zero s total e = ground (arith, -ℤ_parts s.current_weight (pos total))
sum-set (t ∷ ss) (suc j) s total e = omega (arith, sum-set ss j s total e)

-- What a selection did: it raised the eligible targets, took one that is then topmost among them,
-- and lowered that one by the eligible weight; or no target was eligible.
pub data Selected (may : Target → Bool) (ss : List TargetState)
    (r : List TargetState × Option Target) : Type 0 where
  took :
      (j : ℕ) (s : TargetState)
      → get_elem? (map (raise may) ss) j ≡ some s
      → may s.target ≡ true
      → AreBelow may s.current_weight (map (raise may) ss)
      → r ≡ (set (map (raise may) ss) j (lower (eligible_weight may ss) s), some s.target)
      → Selected may ss r
  nobody :
      All (λ s. may s.target ≡ false) (map (raise may) ss)
      → r ≡ (map (raise may) ss, none)
      → Selected may ss r

weighted_select-eq :
    (may : Target → Bool) (ss : List TargetState)
    → weighted_select may ss
      ≡ take_best
          (map (raise may) ss)
          (eligible_weight may ss)
          (pick may 0 none (map (raise may) ss))
unfolding weighted_select
weighted_select-eq may ss =
    let z : 0 + eligible_weight may ss ≡ eligible_weight may ss = omega arith in
    rw (sweep_lem may 0 0 none ss, z)

take_best-some :
    (ss : List TargetState) (total j : ℕ) (b : Best) (s : TargetState)
    → b.index ≡ j
    → get_elem? ss j ≡ some s
    → take_best ss total (some b) ≡ (set ss j (lower total s), some s.target)
unfolding take_best
take_best-some ss total j b s e g = rw e (let h : get_elem? ss j ≡ some s = g in rw (h, take_best))

took_at :
    (may : Target → Bool) (ss : List TargetState) (b : Best)
    → AreBelow may b.weight (map (raise may) ss)
    → IsAt may 0 b (map (raise may) ss)
    → Selected may ss (take_best (map (raise may) ss) (eligible_weight may ss) (some b))
unfolding IsAt
took_at may ss b below (j, s, e, g, m, c) =
    took j s g m (rw c below)
      (take_best-some (map (raise may) ss) (eligible_weight may ss) j b s (omega arith) g)

pub weighted_select-Selected :
    (may : Target → Bool) (ss : List TargetState) → Selected may ss (weighted_select may ss)
weighted_select-Selected may ss =
    rw (weighted_select-eq may ss) (elim (Option-cases (pick may 0 none rs)) [
      | inl e ↦ rw e (nobody (pick-none may 0 none rs e).1 (unfold take_best in refl))
      | inr (b, e) ↦ elim (pick-source may 0 none rs b e) [
        | inl n ↦ cc
        | inr at ↦ rw e (took_at may ss b (pick-top may 0 none rs b e).0 at)
      ]
    ])
  where
    rs : List TargetState
    rs = map (raise may) ss

-- A selection in terms of the targets as they were before it.
pub data Chosen (may : Target → Bool) (ss : List TargetState) (r : List TargetState × Option Target)
    : Type 0 where
  chose :
      (j : ℕ) (s : TargetState)
      → get_elem? ss j ≡ some s
      → may s.target ≡ true
      → All
          (λ t.
            may t.target ≡ true
            → t.current_weight +ℤ pos t.weight ≤ℤ s.current_weight +ℤ pos s.weight)
          ss
      → r.1 ≡ some s.target
      → Chosen may ss r
  chose_none : All (λ s. may s.target ≡ false) ss → r ≡ (ss, none) → Chosen may ss r

pub get-map-raise :
    (may : Target → Bool) (ss : List TargetState) (j : ℕ) (s : TargetState)
    → get_elem? (map (raise may) ss) j ≡ some s
    → (t : TargetState) × (get_elem? ss j ≡ some t) × (s ≡ raise may t)
get-map-raise may [] j s e = cc
get-map-raise may (t ∷ ss) zero s e = (t, refl, ground arith)
get-map-raise may (t ∷ ss) (suc j) s e = get-map-raise may ss j s e

AreBelow-raise :
    (may : Target → Bool) (c : ℤ) (ss : List TargetState)
    → AreBelow may c (map (raise may) ss)
    → All (λ t. may t.target ≡ true → t.current_weight +ℤ pos t.weight ≤ℤ c) ss
unfolding raise
AreBelow-raise may c [] b = tt
AreBelow-raise may c (t ∷ ss) b = (λ m. ground arith, AreBelow-raise may c ss b.1)

pub nobody-raise :
    (may : Target → Bool) (ss : List TargetState)
    → All (λ s. may s.target ≡ false) (map (raise may) ss)
    → All (λ s. may s.target ≡ false) ss × (map (raise may) ss ≡ ss) × (eligible_weight may ss ≡ 0)
unfolding raise eligible_weight
nobody-raise may [] h = (tt, refl, refl)
nobody-raise may (s ∷ ss) h =
    let (out, same, nothing) = nobody-raise may ss h.1 in
    ((ground arith, out), ground (arith, same), ground (arith, nothing))

sum_moved :
    (may : Target → Bool) (ss : List TargetState) (r : List TargetState × Option Target)
    → Selected may ss r
    → sum_above r.0 + sum_below ss ≡ sum_below r.0 + sum_above ss
sum_moved may ss r (took j s g m below e) =
    rw e
      (omega (arith, sum-raise may ss, sum-set (map (raise may) ss) j s (eligible_weight may ss) g))
sum_moved may ss r (nobody out e) = rw e (rw (nobody-raise may ss out).1 (omega arith))

Chosen-from :
    (may : Target → Bool) (ss : List TargetState) (r : List TargetState × Option Target)
    → Selected may ss r
    → Chosen may ss r
Chosen-from may ss r (took j s g m below e) =
    let (t, h, f) = get-map-raise may ss j s g in
    let same : s.target ≡ t.target = ap (λ (x : TargetState). x.target) f ∙ raise-target may t in
    let m' : may t.target ≡ true = rw same at m in
    let c : s.current_weight ≡ t.current_weight +ℤ pos t.weight =
      ap (λ (x : TargetState). x.current_weight) f ∙ raise-eligible may t m' in
    chose j t h m' (rw c at (AreBelow-raise may s.current_weight ss below))
      (ap (λ (x : List TargetState × Option Target). x.1) e ∙ ap some same)
Chosen-from may ss r (nobody out e) =
    let (quiet, same, _) = nobody-raise may ss out in chose_none quiet (rw same at e)

-- One selection of the weighted round robin moves weight around and creates none: the sum of the
-- current weights stays what it was. It returns no target, and changes nothing, exactly when no
-- target is eligible; otherwise it returns an eligible one, and none of the eligible targets has a
-- larger sum of current weight and weight.
pub weighted_select_lem :
    (may : Target → Bool) (ss : List TargetState)
    → (let r = weighted_select may ss in
        (sum_above r.0 + sum_below ss ≡ sum_below r.0 + sum_above ss) × Chosen may ss r)
weighted_select_lem may ss =
    let s = weighted_select-Selected may ss in
    (sum_moved may ss (weighted_select may ss) s, Chosen-from may ss (weighted_select may ss) s)
